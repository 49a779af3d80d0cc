-- ===== src/Registry/Slots.antt =====
-- The arrays of mattx_guest.c: a fixed array and a count of the entries in use. Both registries add
-- at the end and remove by moving the last entry into the gap.
use mathlib.Core.List.Perm
use native.Mathlib.Decide.{ℕ_discrete}
use mattx.Base.{
  ap, get_elem?-set_ne, ◌++◌, ◌+◌, ◌||◌, is_some, subst, ℕ, zero, suc, ◌-◌, ◌<◌, ◌≤◌, ◌≡◌, refl,
  sym, ◌∙◌, List, [], ◌∷◌, Bool, true, false, Perm, Option, none, some, arith, if◌then◌else◌,
  length, get_elem?, get_elem?_lt, set, take, length-set, length-take, ◌⊎◌, inl, inr, All,
  Bool-cases,
}

pub record Slots {ℓ} (A : Type ℓ) : Type ℓ where
  pub entries : List A
  pub count : ℕ

-- MAX_GUESTS
abbrev pub max_guests : ℕ
max_guests = 1024

module _ {ℓ} {A : Type ℓ} where
  -- The entries in use.
  abbrev pub view : Slots A → List A
  view t = take t.count t.entries

  pub record IsValid (t : Slots A) : Type 0 where
    pub size : length t.entries ≡ max_guests
    pub within : t.count ≤ max_guests

  -- `registry[index] = registry[count - 1]; count--`, once `index` is checked.
  abbrev pub move_last : Slots A → ℕ → Slots A
  move_last t index = elim (get_elem? t.entries (t.count - 1)) [
    | none ↦ t
    | some last ↦ record t { entries = set t.entries index last; count = t.count - 1 }
  ]

  abbrev shift : Option (ℕ × A) → Option (ℕ × A)
  shift none = none
  shift (some (i, a)) = some (suc i, a)

  -- The first entry that passes a test, with its index.
  abbrev pub first : (A → Bool) → List A → Option (ℕ × A)
  first p [] = none
  first p (x ∷ xs) = if p x then some (0, x) else shift (first p xs)

  -- `for (i = 0; i < count; i++) if (test) { ...; break; }`
  abbrev pub find_index : (A → Bool) → Slots A → Option (ℕ × A)
  find_index p t = first p (view t)

  -- Write one entry.
  abbrev pub write : Slots A → ℕ → A → Slots A
  write t i a = record t { entries = set t.entries i a }

  take_last-perm :
      (xs : List A) (n : ℕ) (l : A)
      → get_elem? xs n ≡ some l
      → Perm (take (suc n) xs) (l ∷ take n xs)
  take_last-perm [] n l e = absurd (ground arith)
  take_last-perm (x ∷ xs) zero l e = Perm.cons' (ground arith) Perm.rfl
  take_last-perm (x ∷ xs) (suc n) l e =
      Perm.trans (Perm.cons x (take_last-perm xs n l e)) (Perm.swap l x _)

  take_set-perm :
      (xs : List A) (i n : ℕ) (x l : A)
      → i ≤ n
      → get_elem? xs i ≡ some x
      → get_elem? xs n ≡ some l
      → Perm (take (suc n) xs) (x ∷ take n (set xs i l))
  take_set-perm [] i n x l h e q = absurd (ground arith)
  take_set-perm (y ∷ ys) zero zero x l h e q = Perm.cons' (ground arith) Perm.rfl
  take_set-perm (y ∷ ys) zero (suc n) x l h e q =
      Perm.cons' (ground arith) (take_last-perm ys n l q)
  take_set-perm (y ∷ ys) (suc i) zero x l h e q = absurd (omega arith)
  take_set-perm (y ∷ ys) (suc i) (suc n) x l h e q =
      Perm.trans (Perm.cons y (take_set-perm ys i n x l (omega arith) e q)) (Perm.swap x y _)

  pub get_elem?-some : (xs : List A) (i : ℕ) → i < length xs → (x : A) × (get_elem? xs i ≡ some x)
  get_elem?-some [] i h = absurd (omega arith)
  get_elem?-some (x ∷ xs) zero h = (x, refl)
  get_elem?-some (x ∷ xs) (suc i) h = get_elem?-some xs i (omega arith)

  pub get_elem?-take :
      (xs : List A) (n i : ℕ) {x : A} → get_elem? (take n xs) i ≡ some x → get_elem? xs i ≡ some x
  get_elem?-take xs zero i e = absurd (ground arith)
  get_elem?-take [] (suc n) i e = e
  get_elem?-take (x ∷ xs) (suc n) zero e = e
  get_elem?-take (x ∷ xs) (suc n) (suc i) e = get_elem?-take xs n i e

  pub view_lt : (t : Slots A) (i : ℕ) {x : A} → get_elem? (view t) i ≡ some x → i < t.count
  view_lt t i e = omega (arith, get_elem?_lt (view t) i e, length-take t.count t.entries)

  -- Removing takes out exactly the entry at the index; the others stay, in some order.
  pub move_last-perm :
      (t : Slots A) (i : ℕ) (x : A)
      → IsValid t
      → get_elem? (view t) i ≡ some x
      → Perm (view t) (x ∷ view (move_last t i)) × IsValid (move_last t i)
  move_last-perm t i x v e =
      let lt = view_lt t i e in
      let (l, q) = get_elem?-some t.entries (t.count - 1) (omega arith) in
      let c : t.count ≡ suc (t.count - 1) = omega arith in
      rw (q, move_last)
        (
          subst (λ n. Perm (take n t.entries) (x ∷ take (t.count - 1) (set t.entries i l))) (sym c)
              (take_set-perm t.entries i (t.count - 1) x l (omega arith)
                (get_elem?-take t.entries t.count i e) q),
          record { size = length-set t.entries i l ∙ v.size; within = omega arith },
        )

  pub first-cases :
      (p : A → Bool) (xs : List A)
      → ((first p xs ≡ none) × All (λ a. p a ≡ false) xs)
        ⊎ ((i : ℕ) × (x : A) × (first p xs ≡ some (i, x))
            × (get_elem? xs i ≡ some x)
            × (p x ≡ true))
  first-cases p [] = inl (refl, tt)
  first-cases p (x ∷ xs) = elim (Bool-cases (p x)) [
    | inl hit ↦ inr (0, x, rw hit, refl, hit)
    | inr miss ↦ elim (first-cases p xs) [
      | inl (e, a) ↦ inl (rw (miss, e), (miss, a))
      | inr (i, y, e, g, h) ↦ inr (suc i, y, rw (miss, e), g, h)
    ]
  ]

  -- A search finds an entry that was written where it found one.
  pub first-set :
      (p : A → Bool) (xs : List A) (i : ℕ) (x y : A)
      → first p xs ≡ some (i, x)
      → p y ≡ true
      → first p (set xs i y) ≡ some (i, y)
  first-set p [] i x y e h = absurd (ground arith)
  first-set p (z ∷ xs) zero x y e h = rw h refl
  first-set p (z ∷ xs) (suc i) x y e h = elim (Bool-cases (p z)) [
    | inl hit ↦ absurd (ground (arith, e, hit))
    | inr miss ↦ elim (first-cases p xs) [
      | inl (f, a) ↦ absurd (ground (arith, e, miss, f))
      | inr (j, w, f, g, q) ↦
          rw miss (ground (arith, e, miss, f, first-set p xs i x y, first-set p xs j w y))
    ]
  ]

  pub take-set : (n : ℕ) (xs : List A) (i : ℕ) (v : A) → take n (set xs i v) ≡ set (take n xs) i v
  take-set zero xs i v = refl
  take-set (suc n) [] i v = refl
  take-set (suc n) (x ∷ xs) zero v = refl
  take-set (suc n) (x ∷ xs) (suc i) v = ap (◌∷◌ x) (take-set n xs i v)

  -- A write just past the entries in use appends.
  pub take-set_end :
      (xs : List A) (n : ℕ) (x : A)
      → n < length xs
      → take (n + 1) (set xs n x) ≡ take n xs ++ (x ∷ [])
  take-set_end [] n x h = absurd (omega arith)
  take-set_end (y ∷ ys) zero x h = refl
  take-set_end (y ∷ ys) (suc n) x h =
      let e : suc n + 1 ≡ suc (n + 1) = omega arith in
      rw e (ap (◌∷◌ y) (take-set_end ys n x (omega arith)))

  -- Whether some entry passes a test, after one more entry.
  pub first-append :
      (p : A → Bool) (xs : List A) (x : A)
      → is_some (first p (xs ++ (x ∷ []))) ≡ (p x || is_some (first p xs))
  first-append p [] x = ground arith
  first-append p (y ∷ ys) x = ground (arith, first-append p ys x)

  pub set-set : (xs : List A) (i : ℕ) (a b : A) → set (set xs i a) i b ≡ set xs i b
  set-set [] i a b = refl
  set-set (x ∷ xs) zero a b = refl
  set-set (x ∷ xs) (suc i) a b = ap (◌∷◌ x) (set-set xs i a b)

  take-set_self : (xs : List A) (n : ℕ) (a : A) → take n (set xs n a) ≡ take n xs
  take-set_self [] n a = refl
  take-set_self (x ∷ xs) zero a = refl
  take-set_self (x ∷ xs) (suc n) a = ap (◌∷◌ x) (take-set_self xs n a)

  -- The same where the entry was overwritten before it is removed.
  take_overwritten-perm :
      (xs : List A) (i n : ℕ) (x c l : A)
      → i ≤ n
      → get_elem? xs i ≡ some x
      → get_elem? (set xs i c) n ≡ some l
      → Perm (take (suc n) xs) (x ∷ take n (set (set xs i c) i l))
  take_overwritten-perm xs i n x c l h e q = elim (ℕ_discrete i n) [
    | yes same ↦
        rw (set-set xs i c l, ← same, take-set_self xs i l)
          (rw (take-set_self xs i x) at (take_set-perm xs i i x x (omega arith) e e))
    | no differ ↦
        rw (set-set xs i c l)
          (take_set-perm xs i n x l h e (sym (get_elem?-set_ne xs c differ) ∙ q))
  ]

  pub move_last_overwritten-perm :
      (t : Slots A) (i : ℕ) (x c : A)
      → IsValid t
      → get_elem? (view t) i ≡ some x
      → Perm (view t) (x ∷ view (move_last (write t i c) i)) × IsValid (move_last (write t i c) i)
  move_last_overwritten-perm t i x c v e =
      let lt = view_lt t i e in
      let (l, q) =
        get_elem?-some (set t.entries i c) (t.count - 1)
          (omega (arith, length-set t.entries i c)) in
      let n : t.count ≡ suc (t.count - 1) = omega arith in
      rw (q, move_last)
        (
          subst
              (λ k. Perm (take k t.entries) (x ∷ take (t.count - 1) (set (set t.entries i c) i l)))
              (sym n)
              (take_overwritten-perm t.entries i (t.count - 1) x c l (omega arith)
                (get_elem?-take t.entries t.count i e) q),
          record {
            size = length-set (set t.entries i c) i l ∙ length-set t.entries i c ∙ v.size;
            within = omega arith;
          },
        )
