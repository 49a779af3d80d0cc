-- ===== src/Registry/Clock/Budget.antt =====
-- How many corrections a thread still has, and how the two functions change that number.
use mattx.Base.{
  ℕ, zero, suc, ◌+◌, ◌<◌, ◌≤◌, ◌≡◌, ◌≢◌, refl, ◌⊎◌, inl, inr, List, [], ◌∷◌, Bool, true, false,
  ◌&&◌, ◌||◌, not, Option, none, some, arith, ◌==◌, if◌then◌else◌, length, ℤ, pos, negsuc, take,
  is_some, set, get_elem?, get_elem?_lt, All, Bool-cases,
}
use mattx.Registry.Slots.{first, first-cases}
use mattx.Registry.Clock.{
  ClockFixup, ClockFixups, max_gang_threads, clamp, arm, armed, owned_by, slot_for, change,
  clock_fixup_register, take_pending, clock_fixup_consume,
}

-- The pending entries of a thread id among the first `n`.
abbrev pub pending : ℕ → ℕ → List (ℕ × Bool) → ℕ
pending zero tid ts = 0
pending (suc n) tid [] = 0
pending (suc n) tid ((t, p) ∷ ts) = (if t == tid && p then 1 else 0) + pending n tid ts

-- How often a thread is named.
abbrev pub occurs : ℕ → List ℕ → ℕ
occurs tid [] = 0
occurs tid (t ∷ ts) = (if t == tid then 1 else 0) + occurs tid ts

abbrev of_entry : ℕ → Option (ℕ × ClockFixup) → ℕ
of_entry tid none = 0
of_entry tid (some (i, f)) = pending f.thread_count tid f.threads

-- The corrections left to a thread of a process.
abbrev pub budget : ClockFixups → ℕ → ℕ → ℕ
budget t pid tid = of_entry tid (first (owned_by pid) t)

-- Every entry has its arrays.
abbrev pub IsTable : ClockFixups → Type 0
IsTable t = All (λ f. length f.threads ≡ max_gang_threads) t × (0 < length t)

pending-arm :
    (n tid : ℕ) (ids : List ℕ) (old : List (ℕ × Bool))
    → n ≤ length ids
    → n ≤ length old
    → pending n tid (arm n ids old) ≡ occurs tid (take n ids)
pending-arm zero tid ids old h k = refl
pending-arm (suc n) tid [] old h k = absurd (omega arith)
pending-arm (suc n) tid (t ∷ ids) [] h k = absurd (omega arith)
pending-arm (suc n) tid (t ∷ ids) (o ∷ old) h k =
    ground (arith, pending-arm n tid ids old (omega arith) (omega arith))

-- Taking a pending entry: there is none exactly when the count is 0, else the count falls by one.
take_pending-pending :
    (n tid : ℕ) (ts : List (ℕ × Bool))
    → ((take_pending n tid ts ≡ none) × (pending n tid ts ≡ 0))
      ⊎ ((ts' : List (ℕ × Bool)) × (take_pending n tid ts ≡ some ts')
          × (pending n tid ts ≡ suc (pending n tid ts')))
take_pending-pending zero tid ts = inl (refl, refl)
take_pending-pending (suc n) tid [] = inl (refl, refl)
take_pending-pending (suc n) tid ((t, p) ∷ ts) = elim (Bool-cases (t == tid && p)) [
  | inl hit ↦ inr ((t, false) ∷ ts, rw hit, ground arith)
  | inr miss ↦ elim (take_pending-pending n tid ts) [
    | inl (e, z) ↦ inl (rw (miss, e), rw miss (omega arith))
    | inr (ts', e, z) ↦ inr ((t, p) ∷ ts', rw (miss, e), rw (miss, z) (omega arith))
  ]
]

-- Replacing the first entry of a process by another of that process.
first-set :
    (pid : ℕ) (t : ClockFixups) (i : ℕ) (f g : ClockFixup)
    → first (owned_by pid) t ≡ some (i, f)
    → owned_by pid g ≡ true
    → first (owned_by pid) (set t i g) ≡ some (i, g)
first-set pid [] i f g e h = absurd (ground arith)
first-set pid (x ∷ t) zero f g e h = rw h
first-set pid (x ∷ t) (suc i) f g e h = elim (Bool-cases (owned_by pid x)) [
  | inl hit ↦ absurd (ground arith)
  | inr miss ↦ elim (first-cases (owned_by pid) t) [
    | inl (n, _) ↦ absurd (ground arith)
    | inr (j, y, q, _, _) ↦
        let r : first (owned_by pid) t ≡ some (i, f) = ground arith in
        rw (miss, first-set pid t i f g r h)
  ]
]

-- A thread gets the offset of its process exactly while it has corrections left, and each one that it
-- gets is used up; where it has none, nothing changes.
pub clock_fixup_consume-budget :
    (t : ClockFixups) (pid tid : ℕ)
    → let (t', out) = clock_fixup_consume t pid tid in
      ((budget t pid tid ≡ 0) × (out ≡ none) × (t' ≡ t))
      ⊎ ((offset : ℕ) × (out ≡ some offset) × (budget t pid tid ≡ suc (budget t' pid tid)))
unfolding clock_fixup_consume
clock_fixup_consume-budget t pid tid = elim (first-cases (owned_by pid) t) [
  | inl (e, _) ↦ rw (e, clock_fixup_consume) (inl (refl, refl, refl))
  | inr (i, f, e, _, own) ↦ elim (take_pending-pending f.thread_count tid f.threads) [
    | inl (q, z) ↦ rw (e, q, clock_fixup_consume) (inl (z, refl, refl))
    | inr (ts, q, z) ↦
        rw (e, q, clock_fixup_consume)
          (inr (f.offset_ns, refl, rw (first-set pid t i f (record f { threads = ts }) e own) z))
  ]
]

module _ (pid : ℕ) (g : ClockFixup → ClockFixup) where
  first-change :
      (t : ClockFixups) (i : ℕ) (f : ClockFixup)
      → owned_by pid (g f) ≡ true
      → first (owned_by pid) t ≡ some (i, f)
      → (first (owned_by pid) (change g i t) ≡ some (i, g f)) × (get_elem? t i ≡ some f)
  first-change [] i f own e = absurd (ground arith)
  first-change (x ∷ t) i f own e = elim (Bool-cases (owned_by pid x)) [
    | inl hit ↦ ground arith
    | inr miss ↦ elim (first-cases (owned_by pid) t) [
      | inl (n, _) ↦ absurd (ground arith)
      | inr (j, y, q, r, _) ↦ let (a, b) = first-change t j y (ground arith) q in ground arith
    ]
  ]

  first-change_none :
      (t : ClockFixups) (i : ℕ)
      → All (λ f. owned_by pid f ≡ false) t
      → ((f : ClockFixup) → owned_by pid (g f) ≡ true)
      → i < length t
      → (f : ClockFixup) × (first (owned_by pid) (change g i t) ≡ some (i, g f))
        × (get_elem? t i ≡ some f)
  first-change_none [] i a own h = absurd (omega arith)
  first-change_none (x ∷ t) zero a own h = (x, rw (own x), refl)
  first-change_none (x ∷ t) (suc i) a own h =
      let (f, e, q) = first-change_none t i a.1 own (omega arith) in (f, rw (a.0, e), q)

  -- An entry that is not this process's, before and after, does not count for it.
  first-change_other :
      (tid : ℕ) (t : ClockFixups) (i : ℕ) (f : ClockFixup)
      → get_elem? t i ≡ some f
      → owned_by pid f ≡ false
      → owned_by pid (g f) ≡ false
      → budget (change g i t) pid tid ≡ budget t pid tid
  first-change_other tid [] i f e a b = refl
  first-change_other tid (x ∷ t) zero f e a b = ground arith
  first-change_other tid (x ∷ t) (suc i) f e a b =
      ground (arith, first-change_other tid t i f e a b)

get_elem?-All :
    (t : ClockFixups) (i : ℕ) (f : ClockFixup)
    → All (λ f. length f.threads ≡ max_gang_threads) t
    → get_elem? t i ≡ some f
    → length f.threads ≡ max_gang_threads
get_elem?-All [] i f a e = absurd (ground arith)
get_elem?-All (x ∷ t) zero f a e = let q : x ≡ f = ground arith in rw (← q) a.0
get_elem?-All (x ∷ t) (suc i) f a e = get_elem?-All t i f a.1 e

budget-armed :
    (t : ClockFixups) (pid tid offset : ℕ) (n : ℤ) (ids : List ℕ) (i : ℕ) (f : ClockFixup)
    → IsTable t
    → clamp n ≤ length ids
    → clamp n ≤ max_gang_threads
    → first (owned_by pid) (change (armed pid offset n ids) i t)
      ≡ some (i, armed pid offset n ids f)
    → get_elem? t i ≡ some f
    → budget (change (armed pid offset n ids) i t) pid tid ≡ occurs tid (take (clamp n) ids)
budget-armed t pid tid offset n ids i f v h k e q =
    rw e (pending-arm (clamp n) tid ids f.threads h (omega (arith, get_elem?-All t i f v.0 q)))

clamp-le : (n : ℤ) → clamp n ≤ max_gang_threads
clamp-le (pos n) = omega arith
clamp-le (negsuc n) = omega arith

owned_by-armed :
    (pid offset : ℕ) (n : ℤ) (ids : List ℕ) (f : ClockFixup)
    → owned_by pid (armed pid offset n ids f) ≡ true
owned_by-armed pid offset n ids f = ground arith

-- After a registration each thread of the process has as many corrections as it is named among the
-- first sixteen ids, whatever the table held before.
pub clock_fixup_register-budget :
    (t : ClockFixups) (pid offset : ℕ) (n : ℤ) (ids : List ℕ) (tid : ℕ)
    → IsTable t
    → clamp n ≤ length ids
    → budget (clock_fixup_register t pid offset n ids) pid tid ≡ occurs tid (take (clamp n) ids)
unfolding clock_fixup_register
clock_fixup_register-budget t pid offset n ids tid v h = elim (first-cases (owned_by pid) t) [
  | inr (i, f, e, _, _) ↦
      let (a, b) =
        first-change pid (armed pid offset n ids) t i f (owned_by-armed pid offset n ids f) e in
      rw (e, slot_for) (budget-armed t pid tid offset n ids i f v h (clamp-le n) a b)
  | inl (e, none_own) ↦ elim (first-cases (λ f. not f.in_use) t) [
    | inl (q, _) ↦
        let (f, a, b) =
          first-change_none pid (armed pid offset n ids) t 0 none_own
            (owned_by-armed pid offset n ids) v.1 in
        rw (e, q, slot_for) (budget-armed t pid tid offset n ids 0 f v h (clamp-le n) a b)
    | inr (i, f₀, q, r, _) ↦
        let (f, a, b) =
          first-change_none pid (armed pid offset n ids) t i none_own
            (owned_by-armed pid offset n ids) (get_elem?_lt t i r) in
        rw (e, q, slot_for) (budget-armed t pid tid offset n ids i f v h (clamp-le n) a b)
  ]
]

-- A registration for one process leaves the corrections of another alone, if the first has an entry
-- or an entry is free.
pub clock_fixup_register-budget_other :
    (t : ClockFixups) (pid offset : ℕ) (n : ℤ) (ids : List ℕ) (other tid : ℕ)
    → pid ≢ other
    → (is_some (first (owned_by pid) t) || is_some (first (λ f. not f.in_use) t)) ≡ true
    → budget (clock_fixup_register t pid offset n ids) other tid ≡ budget t other tid
unfolding clock_fixup_register
clock_fixup_register-budget_other t pid offset n ids other tid ne room =
    elim (first-cases (owned_by pid) t) [
      | inr (i, f, e, r, own) ↦
          rw (e, slot_for)
            (first-change_other other (armed pid offset n ids) tid t i f r (ground arith)
              (ground arith))
      | inl (e, _) ↦ elim (first-cases (λ f. not f.in_use) t) [
        | inl (q, _) ↦ absurd (ground arith)
        | inr (i, f, q, r, free) ↦
            rw (e, q, slot_for)
              (first-change_other other (armed pid offset n ids) tid t i f r (ground arith)
                (ground arith))
      ]
    ]
