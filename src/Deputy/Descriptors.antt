-- ===== src/Deputy/Descriptors.antt =====
-- What a write to one descriptor of a deputy does to all descriptors.
use mattx.Base.{
  ℕ, zero, suc, ◌<◌, ◌≡◌, ◌≢◌, refl, List, [], ◌∷◌, Bool, true, false, Option, none, some, arith,
  ◌==◌, leb, get_elem?, get_elem?_lt, get_elem?-set_self, get_elem?-set_ne, set, inl, inr,
  Bool-cases, sym, ap, subst,
}
use mattx.Registry.Slots.{first, first-set}
use mattx.Vfs.Disk.{FileSystem}
use mattx.Deputy.{Positions, Task, Host, table_at, set_table, deputy_of, set_fd, remote_file}
use mattx.Deputy.Tables.{IsSlot}

module _ {ℓ} {A : Type ℓ} where
  -- A search does not see a write to an entry that it passes over before and after.
  first-set_other :
      (p : A → Bool) (xs : List A) (i : ℕ) (x y : A)
      → get_elem? xs i ≡ some x
      → p x ≡ false
      → p y ≡ false
      → first p (set xs i y) ≡ first p xs
  first-set_other p [] i x y e px py = refl
  first-set_other p (z ∷ xs) zero x y e px py = let same : z ≡ x = cc in rw (same, px, py) refl
  first-set_other p (z ∷ xs) (suc i) x y e px py = rw (first-set_other p xs i x y e px py) refl

  pub set_self : (xs : List A) (i : ℕ) (x : A) → get_elem? xs i ≡ some x → set xs i x ≡ xs
  set_self [] i x e = refl
  set_self (y ∷ xs) zero x e = let same : y ≡ x = cc in rw same refl
  set_self (y ∷ xs) (suc i) x e = ap (◌∷◌ y) (set_self xs i x e)

table_at-set_self :
    (files : Option (List (Option ℕ))) (fd : ℕ) (x y : Option ℕ)
    → IsSlot files fd x
    → table_at (set_table files fd y) fd ≡ y
table_at-set_self files fd x y s =
    rw (s.has, table_at, set_table, get_elem?-set_self s.fdt fd y (get_elem?_lt s.fdt fd s.at)) refl

table_at-set_ne :
    (files : Option (List (Option ℕ))) (fd k : ℕ) (y : Option ℕ)
    → fd ≢ k
    → table_at (set_table files fd y) k ≡ table_at files k
table_at-set_ne none fd k y ne = refl
table_at-set_ne (some fdt) fd k y ne = rw (table_at, set_table, get_elem?-set_ne fdt y ne) refl

module _ (fs : FileSystem) (ps : Positions fs) where
  module _ (h : Host fs) (p i fd : ℕ) (t : Task) (x y : Option ℕ)
      (found : deputy_of h.tasks p ≡ some (i, t)) (at : get_elem? h.tasks i ≡ some t)
      (hit : t.pid == p ≡ true) (slot : IsSlot t.files fd x) where
    abbrev new_task : Task
    new_task = record t { files = set_table t.files fd y }

    -- The descriptor holds what was written.
    pub remote_file-set_fd : fd < 1000 → remote_file fs ps (set_fd fs ps h i t fd y) p fd ≡ y
    unfolding remote_file
    remote_file-set_fd small =
        let lt : leb 1000 fd ≡ false = ground arith in
        rw (remote_file, lt, first-set (λ t. t.pid == p) h.tasks i t new_task found hit)
          (table_at-set_self t.files fd x y slot)

    -- Another descriptor, and every one of another process, holds what it held.
    pub remote_file-set_ne :
        (q k : ℕ)
        → (q ≡ p → fd ≢ k)
        → remote_file fs ps (set_fd fs ps h i t fd y) q k ≡ remote_file fs ps h q k
    unfolding remote_file
    remote_file-set_ne q k ne = elim (Bool-cases (leb 1000 k)) [
      | inl big ↦ rw (remote_file, big) refl
      | inr small ↦ elim (Bool-cases (t.pid == q)) [
        | inl own ↦
            let same : q ≡ p = ground (arith, own, hit) in
            let found' = subst (λ q. deputy_of h.tasks q ≡ some (i, t)) (sym same) found in
            rw
              (
                remote_file,
                small,
                first-set (λ t. t.pid == q) h.tasks i t new_task found' own,
                found',
              )
              (table_at-set_ne t.files fd k y (ne same))
        | inr other ↦
            rw
              (
                remote_file,
                small,
                first-set_other (λ t. t.pid == q) h.tasks i t new_task at other other,
              )
              refl
      ]
    ]
