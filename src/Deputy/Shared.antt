-- ===== src/Deputy/Shared.antt =====
-- The descriptors that an open and a dup make for a guest.
use mattx.Base.{
  ℕ, ◌≡◌, ◌≢◌, refl, ◌∙◌, sym, Option, none, some, true, arith, ℤ, pos, inl, inr, Option-cases,
  Bool-cases, ◌==◌, get_elem?, ◌<◌,
}
use mattx.Registry.Slots.{first-cases}
use mattx.Vfs.Disk.{FileSystem}
use mattx.Vfs.Home.{ebadf}
use mattx.Deputy.{
  Positions, Task, Host, Grants, table_at, dup_target, deputy_of, set_fd, fput_any, remote_file,
  dup_to, dup_file, handle_sys_read_req, get_file,
}
use mattx.Deputy.Tables.{IsSlot, dup_target-IsSlot}
use mattx.Deputy.Descriptors.{remote_file-set_fd, remote_file-set_ne}

module _ (fs : FileSystem) (ps : Positions fs) where
  -- Every other descriptor of the process, and every one of another process, is what it was.
  pub record OthersKept (h h' : Host fs) (p fd : ℕ) : Type 0 where
    pub kept : (q k : ℕ) → (q ≡ p → fd ≢ k) → remote_file fs ps h' q k ≡ remote_file fs ps h q k

  pub record IsDup (h h' : Host fs) (p old_fd fd : ℕ) : Type 0 where
    pub same_file : remote_file fs ps h' p fd ≡ remote_file fs ps h p old_fd
    pub others : OthersKept h h' p fd

  module _ (h : Host fs) (p i old_fd k : ℕ) (t : Task) (f : ℕ)
      (e : remote_file fs ps h p old_fd ≡ some f) (q : deputy_of h.tasks p ≡ some (i, t))
      (at : get_elem? h.tasks i ≡ some t) (hit : (t.pid == p) ≡ true) where
    written-IsDup :
        (slot : IsSlot t.files k (table_at t.files k))
        → k < 1000
        → IsDup h (set_fd fs ps h i t k (some f)) p old_fd k
    written-IsDup slot lt = record {
      same_file = remote_file-set_fd fs ps h p i k t _ (some f) q at hit slot lt ∙ sym e;
      others = record {
        kept = λ r n ne. remote_file-set_ne fs ps h p i k t _ (some f) q at hit slot r n ne;
      };
    }

    -- The references of a host do not change what its descriptors hold.
    counted-IsDup :
        (x : Option ℕ) (refs : ℕ → ℕ)
        → let h₁ = set_fd fs ps h i t k (some f) in
          IsDup h h₁ p old_fd k → IsDup h (fput_any fs ps (record h₁ { refs = refs }) x) p old_fd k
    unfolding remote_file
    counted-IsDup none refs v = record {
      same_file = v.same_file;
      others = record { kept = v.others.kept };
    }
    counted-IsDup (some g) refs v = record {
      same_file = v.same_file;
      others = record { kept = v.others.kept };
    }

  dup_to-IsDup :
      (h : Host fs) (p i old_fd : ℕ) (t : Task) (f : ℕ) (new_fd : ℤ) {fd : ℕ}
      → remote_file fs ps h p old_fd ≡ some f
      → deputy_of h.tasks p ≡ some (i, t)
      → get_elem? h.tasks i ≡ some t
      → (t.pid == p) ≡ true
      → (dup_to fs ps h i t f new_fd).1 ≡ pos fd
      → fd < 1000
      → IsDup h (dup_to fs ps h i t f new_fd).0 p old_fd fd
  unfolding dup_to
  dup_to-IsDup h p i old_fd t f new_fd {fd} e q at hit d lt =
      elim (Option-cases (dup_target t.files new_fd)) [
        | inl z ↦
            let d' : (dup_to fs ps h i t f new_fd).1 ≡ ebadf = rw (dup_to, z) refl in
            absurd (ground (arith, d, d'))
        | inr (k, z) ↦
            let d' : (dup_to fs ps h i t f new_fd).1 ≡ pos k = rw (dup_to, z) refl in
            let same : fd ≡ k = ground (arith, d, d') in
            rw (same, dup_to, z)
              (counted-IsDup h p i old_fd k t f e q at hit _ _ (
                written-IsDup h p i old_fd k t f e q at hit (dup_target-IsSlot t.files new_fd z)
                  (omega (arith, same))))
      ]

  dup_file-Written :
      (h : Host fs) (p old_fd : ℕ) (new_fd : ℤ) {fd : ℕ}
      → (dup_file fs ps h p old_fd new_fd).1 ≡ pos fd
      → fd < 1000
      → IsDup h (dup_file fs ps h p old_fd new_fd).0 p old_fd fd
  unfolding dup_file remote_file
  dup_file-Written h p old_fd new_fd {fd} d lt =
      elim (Option-cases (remote_file fs ps h p old_fd)) [
        | inl e ↦
            let d' : (dup_file fs ps h p old_fd new_fd).1 ≡ ebadf = rw (dup_file, e) refl in
            absurd (ground (arith, d, d'))
        | inr (f, e) ↦ elim (first-cases (λ t. t.pid == p) h.tasks) [
          | inl (q, a) ↦
              let d' : (dup_file fs ps h p old_fd new_fd).1 ≡ ebadf = rw (dup_file, e, q) refl in
              absurd (ground (arith, d, d'))
          | inr (i, t, q, at, hit) ↦
              let h₁ = get_file fs ps h f in
              let d' : (dup_file fs ps h p old_fd new_fd).1 ≡ (dup_to fs ps h₁ i t f new_fd).1 =
                rw (dup_file, e, q) refl in
              let v = dup_to-IsDup h₁ p i old_fd t f new_fd e q at hit (sym d' ∙ d) lt in
              rw (dup_file, e, q)
                (record { same_file = v.same_file; others = record { kept = v.others.kept } })
        ]
      ]

  still_same :
      (h h' : Host fs) (p old_fd fd : ℕ)
      → IsDup h h' p old_fd fd
      → remote_file fs ps h' p fd ≡ remote_file fs ps h' p old_fd
  still_same h h' p old_fd fd v = elim (Bool-cases (fd == old_fd)) [
    | inl e ↦ let same : fd ≡ old_fd = ground (arith, e) in rw same refl
    | inr e ↦ v.same_file ∙ sym (v.others.kept p old_fd (λ _ same. ground (arith, e, same)))
  ]

  same_read :
      (h : Host fs) (g : Grants) (p a b count : ℕ)
      → remote_file fs ps h p a ≡ remote_file fs ps h p b
      → handle_sys_read_req fs ps h g p a count ≡ handle_sys_read_req fs ps h g p b count
  unfolding handle_sys_read_req
  same_read h g p a b count e = rw (handle_sys_read_req, e) refl

  -- A dup that gives a descriptor below 1000: it is open on the file of the old one, every other
  -- descriptor of the deputy and every one of another process is what it was, and in the state
  -- that the dup leaves, a read by the duplicate is served as one by the original: the same answer,
  -- from the same position, and the same state after it.
  pub dup_file-IsDup :
      (h : Host fs) (p old_fd : ℕ) (new_fd : ℤ) {fd : ℕ}
      → (dup_file fs ps h p old_fd new_fd).1 ≡ pos fd
      → fd < 1000
      → let h' = (dup_file fs ps h p old_fd new_fd).0 in
        IsDup h h' p old_fd fd
        × ((g : Grants) (count : ℕ)
            → handle_sys_read_req fs ps h' g p fd count
              ≡ handle_sys_read_req fs ps h' g p old_fd count)
  dup_file-IsDup h p old_fd new_fd {fd} d lt =
      let v = dup_file-Written h p old_fd new_fd d lt in
      (v, λ g count. same_read _ g p fd old_fd count (still_same h _ p old_fd fd v))
