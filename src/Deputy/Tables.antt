-- ===== src/Deputy/Tables.antt =====
-- The descriptors of a deputy: the slot that an open or a dup takes.
use mattx.Base.{
  ℕ, zero, suc, ◌+◌, ◌≤◌, ◌≡◌, refl, List, [], ◌∷◌, true, Option, none, some, arith, get_elem?, inl,
  inr, Bool-cases, ℤ, pos, negsuc, drop, length, ltb,
}
use mattx.Registry.Slots.{first-cases, get_elem?-some}
use mattx.Vfs.Home.{is_empty}
use mattx.Deputy.{table_at, free_fd, dup_target}

-- A descriptor of a table, and what it holds.
pub record IsSlot (files : Option (List (Option ℕ))) (fd : ℕ) (x : Option ℕ) : Type 0 where
  pub fdt : List (Option ℕ)
  pub has : files ≡ some fdt
  pub at : get_elem? fdt fd ≡ some x

get_elem?-drop :
    (n : ℕ) (xs : List (Option ℕ)) (j : ℕ) → get_elem? (drop n xs) j ≡ get_elem? xs (n + j)
get_elem?-drop zero xs j = let e : 0 + j ≡ j = omega arith in rw e refl
get_elem?-drop (suc n) [] j = refl
get_elem?-drop (suc n) (x ∷ xs) j =
    let e : suc n + j ≡ suc (n + j) = omega arith in rw e (get_elem?-drop n xs j)

pub table_at-IsSlot :
    (files : Option (List (Option ℕ))) (fd : ℕ) {f : ℕ}
    → table_at files fd ≡ some f
    → IsSlot files fd (some f)
table_at-IsSlot none fd e = absurd (ground (arith, e))
table_at-IsSlot (some fdt) fd e = record { fdt = fdt; has = refl; at = ground (arith, e) }

pub IsSlot-table_at :
    (files : Option (List (Option ℕ))) (fd : ℕ) (x : Option ℕ)
    → IsSlot files fd x
    → table_at files fd ≡ x
IsSlot-table_at files fd x s = rw (s.has, table_at, s.at) refl

is_empty-none : (x : Option ℕ) → is_empty x ≡ true → x ≡ none
is_empty-none none e = refl
is_empty-none (some f) e = absurd (ground (arith, e))

-- The descriptor of an open is a free one from 3 on.
pub free_fd-IsSlot :
    (files : Option (List (Option ℕ))) {fd : ℕ}
    → free_fd files ≡ some fd
    → (3 ≤ fd) × IsSlot files fd none
free_fd-IsSlot none e = absurd (ground (arith, e))
free_fd-IsSlot (some fdt) {fd} e = elim (first-cases is_empty (drop 3 fdt)) [
  | inl (q, a) ↦ absurd (ground (arith, e, q))
  | inr (j, x, q, at, empty) ↦
      let same : 3 + j ≡ fd = ground (arith, e, q) in
      rw (← same) (
        omega arith,
        record {
          fdt = fdt;
          has = refl;
          at = rw (← get_elem?-drop 3 fdt j, at, is_empty-none x empty) refl;
        },
      )
]

pub dup_target-IsSlot :
    (files : Option (List (Option ℕ))) (new_fd : ℤ) {fd : ℕ}
    → dup_target files new_fd ≡ some fd
    → IsSlot files fd (table_at files fd)
dup_target-IsSlot files (negsuc n) {fd} e =
    let (le, s) = free_fd-IsSlot files e in rw (IsSlot-table_at files fd none s) s
dup_target-IsSlot none (pos n) e = absurd (ground (arith, e))
dup_target-IsSlot (some fdt) (pos n) {fd} e = elim (Bool-cases (ltb n (length fdt))) [
  | inr q ↦ absurd (ground (arith, e, q))
  | inl q ↦
      let same : n ≡ fd = ground (arith, e, q) in
      let (x, at) = get_elem?-some fdt n (ground (arith, q)) in
      rw (← same, table_at, at) (record { fdt = fdt; has = refl; at = at })
]
