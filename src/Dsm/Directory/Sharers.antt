-- ===== src/Dsm/Directory/Sharers.antt =====
-- The directory of mattx_fileio.c over the pump of a fault and an acquire together.
use mattx.Base.{
  ◌∙◌, ℕ, ◌<◌, ◌≡◌, refl, List, ◌/◌, ◌%◌, Bool, true, some, arith, ltb, ==_refl, set, inl, inr,
}
use mattx.Registry.Slots.{first, first-set, first-cases}
use mattx.Registry.Guests.{page_size}
use mattx.Cluster.{max_nodes}
use mattx.Dsm.Directory.{
  MasterDir, Host, AcquireReq, is_dir, mask_bit, set_bit, add_sharer, share, register,
  dsm_write_acquire_kworker,
}
use mattx.Dsm.Directory.Acquire.{invalidates, told_hit}

share_hit :
    (dirs : List MasterDir) (shmid pid page node i : ℕ) (d : MasterDir)
    → first (is_dir shmid) dirs ≡ some (i, d)
    → share dirs shmid pid page node ≡ set dirs i (add_sharer d page node)
unfolding share register
share_hit dirs shmid pid page node i d e = rw (e, share, register) (rw (e, register) refl)

mask_bit-set_bit : (mask : ℕ → ℕ → Bool) (node : ℕ) → mask_bit (set_bit mask node) node ≡ true
mask_bit-set_bit mask node = rw (==_refl (node / 64), ==_refl (node % 64)) refl

-- The search still finds an entry whose slot was written with the same segment.
is_dir-set :
    (dirs : List MasterDir) (shmid i : ℕ) (d d' : MasterDir)
    → first (is_dir shmid) dirs ≡ some (i, d)
    → d'.in_use ≡ d.in_use
    → d'.shmid ≡ d.shmid
    → first (is_dir shmid) (set dirs i d') ≡ some (i, d')
is_dir-set dirs shmid i d d' e u s = elim (first-cases (is_dir shmid) dirs) [
  | inl (q, a) ↦ absurd (ground (arith, e, q))
  | inr (j, x, q, at_j, hit) ↦
      first-set (is_dir shmid) dirs i d d' e (ground (arith, e, q, hit, u, s))
]

-- A write acquire that follows directly on the entry of a node among the sharers of a page, with no
-- other change of the directory in between, sends that node exactly one INVALIDATE, where the segment
-- is registered and the node below MAX_NODES and connected, whatever the directory held before.
pub dsm_write_acquire_kworker-share :
    (host : Host) (dirs : List MasterDir) (req : AcquireReq) (pid node target i : ℕ) (d : MasterDir)
    → first (is_dir req.shmid) dirs ≡ some (i, d)
    → node < max_nodes
    → host.connected node ≡ true
    → invalidates node
        (dsm_write_acquire_kworker host
          (share dirs req.shmid pid (req.offset / page_size) node)
          req
          target).1
      ≡ 1
dsm_write_acquire_kworker-share host dirs req pid node target i d e h c =
    let page = req.offset / page_size in
    let d' = add_sharer d page node in
    let inside : ltb node max_nodes ≡ true = ground arith in
    rw (share_hit dirs req.shmid pid page node i d e) (
      told_hit host (set dirs i d') req target node i d'
        (is_dir-set dirs req.shmid i d d' e refl refl)
      ∙ rw (inside, ==_refl page, ==_refl (node / 64), ==_refl (node % 64), c) refl)
