-- ===== src/Dsm/Directory/Unique.antt =====
-- The slots of mattx_global_dsm_dir and the segments that they name.
use mattx.Base.{
  ◌≢◌, Bool-cases, ℕ, zero, suc, ◌≡◌, refl, List, [], ◌∷◌, true, false, not, Option, none, some,
  arith, ◌==◌, if◌then◌else◌, set, get_elem?, get_elem?_lt, get_elem?-set_self, get_elem?-set_ne,
  inl, inr, Bool-cases, Option-cases, All, ◌/◌,
}
use native.Mathlib.Decide.{ℕ_discrete}
use mattx.Registry.Slots.{first-cases}
use mattx.Registry.Guests.{page_size, shared, exclusive}
use mattx.Dsm.Directory.Sync.{SyncWork, downgrade_at, write_at, sync_write}
use mattx.Dsm.Directory.{
  MasterDir, Host, AcquireReq, is_dir, put_page, dsm_write_acquire_kworker, downgrade, register,
  registered, share, add_sharer, cleanup, native_write, is_owned_by,
}

-- The segment of a slot in use.
abbrev pub key : MasterDir → Option ℕ
key d = if d.in_use then some d.shmid else none

abbrev key_of : Option MasterDir → Option ℕ
key_of none = none
key_of (some d) = key d

unfoldable pub key_at : List MasterDir → ℕ → Option ℕ
key_at dirs i = key_of (get_elem? dirs i)

pub record IsUnique (dirs : List MasterDir) : Type 0 where
  pub once : (i j s : ℕ) → key_at dirs i ≡ some s → key_at dirs j ≡ some s → i ≡ j

key_at-set :
    (dirs : List MasterDir) (i j : ℕ) (d d' : MasterDir)
    → get_elem? dirs i ≡ some d
    → key_at (set dirs i d') j ≡ (if i == j then key d' else key_at dirs j)
unfolding key_at
key_at-set dirs i j d d' e = elim (ℕ_discrete i j) [
  | yes q ↦
      let same : (i == j) ≡ true = ground arith in
      rw (same, ← q, get_elem?-set_self dirs i d' (get_elem?_lt dirs i e)) refl
  | no n ↦
      let other : (i == j) ≡ false = ground (arith, n) in
      rw (other, get_elem?-set_ne dirs d' n) refl
]

key_at_hit :
    (dirs : List MasterDir) (i : ℕ) (d : MasterDir)
    → get_elem? dirs i ≡ some d
    → key_at dirs i ≡ key d
unfolding key_at
key_at_hit dirs i d e = rw e refl

-- A slot is written and keeps its segment.
set-IsUnique :
    (dirs : List MasterDir) (i : ℕ) (d d' : MasterDir)
    → get_elem? dirs i ≡ some d
    → key d' ≡ key d
    → IsUnique dirs
    → IsUnique (set dirs i d')
set-IsUnique dirs i d d' e k v = record {
  once = λ a b s p q. ground (
    arith,
    v.once a b s,
    key_at-set dirs i a d d' e,
    key_at-set dirs i b d d' e,
    key_at_hit dirs i d e,
  );
}

-- A search that found nothing says so of every slot.
missing :
    (shmid : ℕ) (dirs : List MasterDir) (i : ℕ)
    → All (λ d. is_dir shmid d ≡ false) dirs
    → key_at dirs i ≢ some shmid
unfolding key_at
missing shmid [] i a e = absurd (ground arith)
missing shmid (d ∷ dirs) zero (a, as') e = absurd (ground (arith, a))
missing shmid (d ∷ dirs) (suc i) (a, as') e = missing shmid dirs i as' e

-- A slot is taken for a segment that has none.
set-IsUnique_new :
    (dirs : List MasterDir) (i shmid pid : ℕ) (d : MasterDir)
    → get_elem? dirs i ≡ some d
    → All (λ d. is_dir shmid d ≡ false) dirs
    → IsUnique dirs
    → IsUnique (set dirs i (registered shmid pid d))
set-IsUnique_new dirs i shmid pid d e a v = record {
  once = λ x y s p q. ground (
    arith,
    v.once x y s,
    key_at-set dirs i x d (registered shmid pid d) e,
    key_at-set dirs i y d (registered shmid pid d) e,
    missing shmid dirs x a,
    missing shmid dirs y a,
  );
}

pub dsm_write_acquire_kworker-IsUnique :
    (host : Host) (dirs : List MasterDir) (req : AcquireReq) (node : ℕ)
    → IsUnique dirs
    → IsUnique (dsm_write_acquire_kworker host dirs req node).0
unfolding dsm_write_acquire_kworker
dsm_write_acquire_kworker-IsUnique host dirs req node v =
    elim (first-cases (is_dir req.shmid) dirs) [
      | inl (e, a) ↦ rw (e, dsm_write_acquire_kworker) v
      | inr (i, d, e, at_i, hit) ↦
          rw (e, dsm_write_acquire_kworker)
            (set-IsUnique dirs i d (put_page d (req.offset / page_size) exclusive req.orig_pid) at_i
              refl v)
    ]

pub downgrade-IsUnique :
    (dirs : List MasterDir) (shmid page : ℕ) → IsUnique dirs → IsUnique (downgrade dirs shmid page)
unfolding downgrade
downgrade-IsUnique dirs shmid page v = elim (first-cases (is_dir shmid) dirs) [
  | inl (e, a) ↦ rw (e, downgrade) v
  | inr (i, d, e, at_i, hit) ↦
      rw (e, downgrade) (set-IsUnique dirs i d (put_page d page shared 0) at_i refl v)
]

pub cleanup-IsUnique :
    (dirs : List MasterDir) (shmid pid page : ℕ)
    → IsUnique dirs
    → IsUnique (cleanup dirs shmid pid page)
unfolding cleanup
cleanup-IsUnique dirs shmid pid page v = elim (first-cases (is_dir shmid) dirs) [
  | inl (e, a) ↦ rw (e, cleanup) v
  | inr (i, d, e, at_i, hit) ↦ elim (Bool-cases (is_owned_by d page pid)) [
    | inl own ↦ rw (e, own, cleanup) (set-IsUnique dirs i d (put_page d page shared 0) at_i refl v)
    | inr other ↦ rw (e, other, cleanup) v
  ]
]

native_write-IsUnique :
    (host : Host) (dirs : List MasterDir) (i shmid offset : ℕ)
    → IsUnique dirs
    → IsUnique (native_write host dirs i shmid offset).0
unfolding native_write
native_write-IsUnique host dirs i shmid offset v = elim (Option-cases (get_elem? dirs i)) [
  | inl e ↦ rw (e, native_write) v
  | inr (d, e) ↦
      rw (e, native_write)
        (set-IsUnique dirs i d (put_page d (offset / page_size) exclusive 0) e refl v)
]

pub downgrade_at-IsUnique :
    (dirs : List MasterDir) (index : Option ℕ) (page : ℕ)
    → IsUnique dirs
    → IsUnique (downgrade_at dirs index page)
downgrade_at-IsUnique dirs none page v = v
downgrade_at-IsUnique dirs (some i) page v = elim (Option-cases (get_elem? dirs i)) [
  | inl e ↦ rw (e, downgrade_at) v
  | inr (d, e) ↦ rw (e, downgrade_at) (set-IsUnique dirs i d (put_page d page shared 0) e refl v)
]

write_at-IsUnique :
    (host : Host) (dirs : List MasterDir) (index : Option ℕ) (w : SyncWork)
    → IsUnique dirs
    → IsUnique (write_at host dirs index w).0
write_at-IsUnique host dirs none w v = v
write_at-IsUnique host dirs (some i) w v = elim (Bool-cases w.is_write) [
  | inl e ↦ rw e (native_write-IsUnique host dirs i w.shmid w.offset v)
  | inr e ↦ rw e v
]

pub sync_write-IsUnique :
    (host : Host) (dirs : List MasterDir) (index : Option ℕ) (w : SyncWork)
    → IsUnique dirs
    → IsUnique (sync_write host dirs index w).0
unfolding sync_write
sync_write-IsUnique host dirs index w v = write_at-IsUnique host dirs index w v

pub share-IsUnique :
    (dirs : List MasterDir) (shmid pid page node : ℕ)
    → IsUnique dirs
    → IsUnique (share dirs shmid pid page node)
unfolding share register
share-IsUnique dirs shmid pid page node v = elim (first-cases (is_dir shmid) dirs) [
  | inr (i, d, e, at_i, hit) ↦
      rw (e, share, register)
        (rw (e, register) (set-IsUnique dirs i d (add_sharer d page node) at_i refl v))
  | inl (e, a) ↦ elim (first-cases (λ d. not d.in_use) dirs) [
    | inl (f, _) ↦ rw (e, f, share, register) (rw (e, f, register) v)
    | inr (i, d, f, at_i, _) ↦
        let d' = registered shmid pid d in
        let at_i' = get_elem?-set_self dirs i d' (get_elem?_lt dirs i at_i) in
        rw (e, f, share, register)
          (rw (e, f, register)
            (set-IsUnique (set dirs i d') i d' (add_sharer d' page node) at_i' refl
              (set-IsUnique_new dirs i shmid pid d at_i a v)))
  ]
]
