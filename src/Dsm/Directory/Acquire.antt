-- ===== src/Dsm/Directory/Acquire.antt =====
-- mattx_dsm_write_acquire_kworker of mattx_fileio.c and the nodes that it tells.
use mattx.Base.{
  subst, ℕ, zero, suc, ◌+◌, ◌≡◌, refl, ◌∙◌, List, [], ◌∷◌, ◌++◌, Bool, true, false, ◌&&◌, none,
  some, arith, ltb, leb, ◌==◌, if◌then◌else◌, set, get_elem?, inl, inr, Bool-cases, ◌/◌, ==_refl,
}
use native.Mathlib.Decide.{ℕ_discrete}
use mattx.Registry.Slots.{first, first-set, first-cases}
use mattx.Registry.Guests.{page_size, exclusive}
use mattx.Cluster.{max_nodes}
use mattx.Dsm.Directory.{
  send_page_fault_reply, send_flush_req, write_mapping_page, sigcont, MasterDir, Host, Effect,
  AcquireReq, is_dir, mask_bit, put_page, no_bits, invalidate_from, shootdown, reply_to,
  dsm_write_acquire_kworker, send_invalidate, send_write_acquire_reply, unmap_mapping_range,
}

abbrev pub is_invalidate : ℕ → Effect → Bool
is_invalidate n (send_invalidate node _ _ _) = node == n
is_invalidate n (send_write_acquire_reply _ _) = false
is_invalidate n (unmap_mapping_range _ _ _) = false
is_invalidate n (send_flush_req _ _ _ _ _) = false
is_invalidate n (write_mapping_page _ _ _ _) = false
is_invalidate n (sigcont _) = false
is_invalidate n (send_page_fault_reply _ _ _ _) = false

-- How many INVALIDATEs a node is sent.
unfoldable pub invalidates : ℕ → List Effect → ℕ
invalidates n [] = 0
invalidates n (e ∷ es) = if is_invalidate n e then suc (invalidates n es) else invalidates n es

invalidates-append :
    (n : ℕ) (xs ys : List Effect) → invalidates n (xs ++ ys) ≡ invalidates n xs + invalidates n ys
unfolding invalidates
invalidates-append n [] ys = omega arith
invalidates-append n (x ∷ xs) ys = ground (arith, invalidates-append n xs ys)

-- One for each node of the range that is in the mask and has a connection.
invalidates-invalidate_from :
    (host : Host) (mask : ℕ → ℕ → Bool) (pid shmid offset n node left : ℕ)
    → invalidates n (invalidate_from host mask pid shmid offset node left) ≡ (
        if (leb node n && ltb n (node + left)) && (mask_bit mask n && host.connected n)
        then 1
        else 0)
unfolding invalidates invalidate_from
invalidates-invalidate_from host mask pid shmid offset n node zero = ground arith
invalidates-invalidate_from host mask pid shmid offset n node (suc left) =
    let rest = invalidates-invalidate_from host mask pid shmid offset n (suc node) left in
    elim (ℕ_discrete node n) [
      | yes same ↦ rw (← same) (elim (Bool-cases (mask_bit mask node && host.connected node)) [
        | inl told ↦ rw told (ground (arith, rw (← same) at rest))
        | inr quiet ↦ rw quiet (ground (arith, rw (← same) at rest))
      ])
      | no differ ↦ elim (Bool-cases (mask_bit mask node && host.connected node)) [
        | inl told ↦ rw told (ground (arith, rest, differ))
        | inr quiet ↦ rw quiet (ground (arith, rest, differ))
      ]
    ]

quiet-invalidates :
    (host : Host) (n pid shmid offset node req_id : ℕ)
    → invalidates n (shootdown host pid shmid offset) + invalidates n (reply_to host node req_id)
      ≡ 0
unfolding invalidates
quiet-invalidates host n pid shmid offset node req_id = ground arith

invalidates_all :
    (host : Host) (mask : ℕ → ℕ → Bool) (pid shmid offset n : ℕ)
    → invalidates n (invalidate_from host mask pid shmid offset 0 max_nodes)
      ≡ (if ltb n max_nodes && (mask_bit mask n && host.connected n) then 1 else 0)
invalidates_all host mask pid shmid offset n =
    let first_one : leb 0 n ≡ true = ground arith in
    rw first_one at (invalidates-invalidate_from host mask pid shmid offset n 0 max_nodes)

-- What a write acquire does with the directory's entry of the segment: what is told to whom, and
-- what the entry is afterwards.
pub record Granted (host : Host) (dirs : List MasterDir) (req : AcquireReq) (node : ℕ) (i : ℕ)
    (d : MasterDir) : Type 0 where
  pub page : ℕ
  pub is_page : page ≡ req.offset / page_size
  pub at_dir : get_elem? dirs i ≡ some d
  pub names : is_dir req.shmid d ≡ true
  pub after :
      (dsm_write_acquire_kworker host dirs req node).0
      ≡ set dirs i (put_page d page exclusive req.orig_pid)
  pub told :
      (n : ℕ)
      → invalidates n (dsm_write_acquire_kworker host dirs req node).1 ≡ (
          if ltb n max_nodes && (mask_bit (d.page_shared_mask page) n && host.connected n)
          then 1
          else 0)

-- The INVALIDATEs of an acquire that finds the entry.
pub told_hit :
    (host : Host) (dirs : List MasterDir) (req : AcquireReq) (node n i : ℕ) (d : MasterDir)
    → first (is_dir req.shmid) dirs ≡ some (i, d)
    → invalidates n (dsm_write_acquire_kworker host dirs req node).1 ≡ (
        if ltb n max_nodes
          && (mask_bit (d.page_shared_mask (req.offset / page_size)) n && host.connected n)
        then 1
        else 0)
unfolding dsm_write_acquire_kworker
told_hit host dirs req node n i d e =
    let mask = d.page_shared_mask (req.offset / page_size) in
    let told = invalidate_from host mask req.orig_pid req.shmid req.offset 0 max_nodes in
    let shot = shootdown host req.orig_pid req.shmid req.offset in
    let reply = reply_to host node req.req_id in
    let count : invalidates n ((told ++ shot) ++ reply) ≡ invalidates n told = omega (
      arith,
      invalidates-append n (told ++ shot) reply,
      invalidates-append n told shot,
      quiet-invalidates host n req.orig_pid req.shmid req.offset node req.req_id,
    ) in
    rw (e, dsm_write_acquire_kworker)
      (count ∙ invalidates_all host mask req.orig_pid req.shmid req.offset n)

-- No INVALIDATEs for an empty mask.
invalidate_from_none :
    (host : Host) (pid shmid offset node left : ℕ)
    → invalidate_from host no_bits pid shmid offset node left ≡ []
unfolding invalidate_from
invalidate_from_none host pid shmid offset node zero = refl
invalidate_from_none host pid shmid offset node (suc left) =
    invalidate_from_none host pid shmid offset (suc node) left

-- An acquire that finds an empty mask, or no entry.
quiet_hit :
    (host : Host) (dirs : List MasterDir) (req : AcquireReq) (node n i : ℕ) (d : MasterDir)
    → first (is_dir req.shmid) dirs ≡ some (i, d)
    → d.page_shared_mask (req.offset / page_size) ≡ no_bits
    → invalidates n (dsm_write_acquire_kworker host dirs req node).1 ≡ 0
unfolding dsm_write_acquire_kworker
quiet_hit host dirs req node n i d e m =
    rw
      (
        e,
        m,
        invalidate_from_none host req.orig_pid req.shmid req.offset 0 max_nodes,
        dsm_write_acquire_kworker,
      )
      (invalidates-append n (shootdown host req.orig_pid req.shmid req.offset)
          (reply_to host node req.req_id)
        ∙ quiet-invalidates host n req.orig_pid req.shmid req.offset node req.req_id)

quiet_miss :
    (host : Host) (dirs : List MasterDir) (req : AcquireReq) (node n : ℕ)
    → first (is_dir req.shmid) dirs ≡ none
    → invalidates n (dsm_write_acquire_kworker host dirs req node).1 ≡ 0
unfolding dsm_write_acquire_kworker invalidates
quiet_miss host dirs req node n e = rw (e, dsm_write_acquire_kworker) (ground arith)

after_miss :
    (host : Host) (dirs : List MasterDir) (req : AcquireReq) (node : ℕ)
    → first (is_dir req.shmid) dirs ≡ none
    → (dsm_write_acquire_kworker host dirs req node).0 ≡ dirs
unfolding dsm_write_acquire_kworker
after_miss host dirs req node e = rw (e, dsm_write_acquire_kworker) refl

after_hit :
    (host : Host) (dirs : List MasterDir) (req : AcquireReq) (node i : ℕ) (d : MasterDir)
    → first (is_dir req.shmid) dirs ≡ some (i, d)
    → (dsm_write_acquire_kworker host dirs req node).0
      ≡ set dirs i (put_page d (req.offset / page_size) exclusive req.orig_pid)
unfolding dsm_write_acquire_kworker
after_hit host dirs req node i d e = rw (e, dsm_write_acquire_kworker) refl

-- When a page is acquired straight after another acquire of the same page, by whatever processes, the
-- second one sends no INVALIDATE to any node, the first requester's included.
pub dsm_write_acquire_kworker_again :
    (host : Host) (dirs : List MasterDir) (r₁ r₂ : AcquireReq) (n₁ n₂ n : ℕ)
    → r₁.shmid ≡ r₂.shmid
    → r₁.offset / page_size ≡ r₂.offset / page_size
    → invalidates n
        (dsm_write_acquire_kworker host (dsm_write_acquire_kworker host dirs r₁ n₁).0 r₂ n₂).1
      ≡ 0
dsm_write_acquire_kworker_again host dirs r₁ r₂ n₁ n₂ n s o =
    elim (first-cases (is_dir r₁.shmid) dirs) [
      | inl (e, a) ↦
          rw (after_miss host dirs r₁ n₁ e)
            (quiet_miss host dirs r₂ n₂ n (subst (λ k. first (is_dir k) dirs ≡ none) s e))
      | inr (i, d, e, at_i, hit) ↦
          let d' = put_page d (r₁.offset / page_size) exclusive r₁.orig_pid in
          let found = first-set (is_dir r₁.shmid) dirs i d d' e hit in
          rw (after_hit host dirs r₁ n₁ i d e) (
            quiet_hit host (set dirs i d') r₂ n₂ n i d'
              (subst (λ k. first (is_dir k) (set dirs i d') ≡ some (i, d')) s found)
              (rw (o, ==_refl (r₂.offset / page_size)) refl))
    ]
