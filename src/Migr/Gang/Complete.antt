-- ===== src/Migr/Gang/Complete.antt =====
-- Which threads the loop of mattx_migr.c captures.
use native.Mathlib.Decide.{ℕ_discrete}
use mattx.Base.{
  ℕ, zero, suc, ◌+◌, ◌-◌, ◌<◌, ◌≤◌, ◌≡◌, refl, sym, ◌∙◌, List, [], ◌∷◌, ◌++◌, Bool, true, false,
  ◌||◌, ltb, leb, ◌==◌, if◌then◌else◌, length, arith, append-nil, append_assoc, length-append,
  Bool-cases, inl, inr, ==_refl, lt→ltb,
}
use mattx.Migr.Gang.{
  Freezing, already_have, see, scan, Gang, round, stabilize, gang_of, no_gang, max_gang_threads,
  stabilize_retries, stable_after, required_stable_scans,
}
use mattx.Migr.Gang.Settled.{
  stabilize_more, stabilize_stop, Distinct, already_have-append, scan-append,
}

-- The thread is captured, or there is no room left.
abbrev pub kept : ℕ → List ℕ → Bool
kept t us = already_have t us || leb max_gang_threads (length us)

kept-append : (t : ℕ) (us vs : List ℕ) → kept t us ≡ true → kept t (us ++ vs) ≡ true
kept-append t us vs h = ground (arith, already_have-append t us vs, length-append us vs)

kept-scan : (t : ℕ) (us ts : List ℕ) → kept t us ≡ true → kept t (scan us ts) ≡ true
kept-scan t us ts h = let (vs, e) = scan-append us ts in rw e (kept-append t us vs h)

kept-see : (t : ℕ) (us : List ℕ) → kept t (see us t) ≡ true
unfolding see
kept-see t us =
    ground (arith, already_have-append t us (t ∷ []), length-append us (t ∷ []), ==_refl t)

scan-kept : (t : ℕ) (us ts : List ℕ) → already_have t ts ≡ true → kept t (scan us ts) ≡ true
unfolding scan
scan-kept t us [] h = absurd (ground arith)
scan-kept t us (u ∷ ts) h = elim (Bool-cases (u == t)) [
  | inl e ↦ let q : t ≡ u = ground arith in rw q (kept-scan u (see us u) ts (kept-see u us))
  | inr e ↦ scan-kept t (see us u) ts (ground arith)
]

kept-stabilize :
    (n : ℕ) (f : Freezing) (mother : ℕ) (seen : ℕ → List ℕ) (stable : ℕ) (g : Gang) (t : ℕ)
    → kept t g.threads ≡ true
    → kept t (stabilize n f mother seen stable g).threads ≡ true
unfolding stabilize
kept-stabilize zero f mother seen stable g t h = h
kept-stabilize (suc n) f mother seen stable g t h =
    let after = round f mother (seen g.scans) g in
    let h' = kept-scan t g.threads (seen g.scans) h in
    elim (Bool-cases (ltb (stable_after stable g after) required_stable_scans)) [
      | inl e ↦
          rw (stabilize_more n f mother seen stable g e)
            (kept-stabilize n f mother seen (stable_after stable g after) after t h')
      | inr e ↦ rw (stabilize_stop n f mother seen stable g e) h'
    ]

stabilize-kept :
    (n : ℕ) (f : Freezing) (mother : ℕ) (seen : ℕ → List ℕ) (stable : ℕ) (g : Gang) (t k : ℕ)
    → g.scans ≤ k
    → k < (stabilize n f mother seen stable g).scans
    → already_have t (seen k) ≡ true
    → kept t (stabilize n f mother seen stable g).threads ≡ true
unfolding stabilize
stabilize-kept zero f mother seen stable g t k l h m = absurd (omega arith)
stabilize-kept (suc n) f mother seen stable g t k l h m =
    let after = round f mother (seen g.scans) g in
    let stable' = stable_after stable g after in
    elim (ℕ_discrete g.scans k) [
      | yes e ↦
          let now = scan-kept t g.threads (seen g.scans) (rw e m) in
          elim (Bool-cases (ltb stable' required_stable_scans)) [
            | inl q ↦
                rw (stabilize_more n f mother seen stable g q)
                  (kept-stabilize n f mother seen stable' after t now)
            | inr q ↦ rw (stabilize_stop n f mother seen stable g q) now
          ]
      | no e ↦ elim (Bool-cases (ltb stable' required_stable_scans)) [
        | inl q ↦
            let go = stabilize_more n f mother seen stable g q in
            rw go (stabilize-kept n f mother seen stable' after t k (grind arith) (rw go at h) m)
        | inr q ↦
            let h' = rw (stabilize_stop n f mother seen stable g q) at h in absurd (grind arith)
      ]
    ]

at_least_0 : (k : ℕ) → 0 ≤ k
at_least_0 k = omega arith

-- Every thread that any of the scans found is captured, unless the gang has no room left.
pub gang_of-kept :
    (f : Freezing) (mother : ℕ) (seen : ℕ → List ℕ) (t k : ℕ)
    → k < (gang_of f mother seen).scans
    → already_have t (seen k) ≡ true
    → kept t (gang_of f mother seen).threads ≡ true
unfolding gang_of
gang_of-kept f mother seen t k h m =
    stabilize-kept stabilize_retries f mother seen 0 no_gang t k (at_least_0 k) h m

all_had : List ℕ → List ℕ → Bool
all_had us [] = true
all_had us (t ∷ ts) = if already_have t us then all_had us ts else false

scan-all_had : (us ts : List ℕ) → all_had us ts ≡ true → scan us ts ≡ us
unfolding scan all_had see
scan-all_had us [] h = refl
scan-all_had us (t ∷ ts) h = ground (arith, scan-all_had us ts)

all_had-append : (us vs ts : List ℕ) → all_had vs ts ≡ true → all_had (us ++ vs) ts ≡ true
unfolding all_had
all_had-append us vs [] h = refl
all_had-append us vs (t ∷ ts) h =
    ground (arith, all_had-append us vs ts, already_have-append t us vs)

all_had_self : (ts : List ℕ) → all_had ts ts ≡ true
unfolding all_had
all_had_self [] = refl
all_had_self (t ∷ ts) = ground (arith, ==_refl t, all_had-append (t ∷ []) ts ts (all_had_self ts))

not_had-Distinct :
    (us : List ℕ) (t : ℕ) (ts : List ℕ) → Distinct (us ++ (t ∷ ts)) → already_have t us ≡ false
not_had-Distinct [] t ts d = refl
not_had-Distinct (u ∷ us) t ts d =
    let apart = already_have-append u us (t ∷ ts) in
    elim (Bool-cases (u == t)) [
      | inl e ↦ absurd (ground (arith, apart, d.0, ==_refl t))
      | inr e ↦ rw (e, not_had-Distinct us t ts d.1) refl
    ]

-- A scan of new threads that fit appends them all.
scan-fresh :
    (us ts : List ℕ)
    → Distinct (us ++ ts)
    → length (us ++ ts) ≤ max_gang_threads
    → scan us ts ≡ us ++ ts
unfolding scan see
scan-fresh us [] d l = sym (append-nil us)
scan-fresh us (t ∷ ts) d l =
    let q = append_assoc us (t ∷ []) ts in
    let room = length-append us (t ∷ ts) in
    rw (not_had-Distinct us t ts d, lt→ltb (length us) max_gang_threads (omega arith))
      (scan-fresh (us ++ (t ∷ [])) ts (rw q d) (rw q l) ∙ q)

stabilize-steady :
    (n : ℕ) (f : Freezing) (mother : ℕ) (ts : List ℕ) (stable d : ℕ) (g : Gang)
    → stable + d ≡ required_stable_scans
    → 0 < d
    → d ≤ n
    → g.threads ≡ ts
    → ((stabilize n f mother (λ _. ts) stable g).threads ≡ ts)
      × ((stabilize n f mother (λ _. ts) stable g).scans ≤ g.scans + d)
unfolding stabilize
stabilize-steady zero f mother ts stable d g e p l q = absurd (omega arith)
stabilize-steady (suc n) f mother ts stable zero g e p l q = absurd (omega arith)
stabilize-steady (suc n) f mother ts stable (suc d) g e p l q =
    let after = round f mother ts g in
    let same : after.threads ≡ ts = rw q (scan-all_had ts ts (all_had_self ts)) in
    let count : stable_after stable g after ≡ stable + 1 = rw (same, q, ==_refl (length ts)) refl in
    elim (Bool-cases (ltb (stable_after stable g after) required_stable_scans)) [
      | inl m ↦
          let (a, b) =
            stabilize-steady n f mother ts (stable_after stable g after) d after
              (omega (arith, count)) (ground (arith, count, m)) (omega arith) same in
          rw (stabilize_more n f mother (λ _. ts) stable g m) (a, omega (arith, b))
      | inr m ↦ rw (stabilize_stop n f mother (λ _. ts) stable g m) (same, omega arith)
    ]

stabilize-fresh :
    (n : ℕ) (f : Freezing) (mother : ℕ) (ts : List ℕ)
    → 5 ≤ n
    → Distinct ts
    → length ts ≤ max_gang_threads
    → ((stabilize (suc n) f mother (λ _. ts) 0 no_gang).threads ≡ ts)
      × ((stabilize (suc n) f mother (λ _. ts) 0 no_gang).scans ≤ 6)
stabilize-fresh n f mother ts h d l =
    let first = round f mother ts no_gang in
    let start : first.threads ≡ ts = scan-fresh [] ts d l in
    let stable = stable_after 0 no_gang first in
    let few : stable ≤ 1 = ground arith in
    let (a, b) =
      stabilize-steady n f mother ts stable (5 - stable) first (omega arith) (omega arith)
        (omega arith) start in
    rw (stabilize_more n f mother (λ _. ts) 0 no_gang (lt→ltb stable 5 (omega arith)))
      (a, omega (arith, b))

five_fit : 5 ≤ 199
five_fit = omega arith

-- Where no thread comes or goes during the capture, and the process has at most MAX_GANG_THREADS
-- threads, the loop ends with exactly the threads of the process, in order, after at most six scans.
pub gang_of-steady :
    (f : Freezing) (mother : ℕ) (ts : List ℕ)
    → Distinct ts
    → length ts ≤ max_gang_threads
    → ((gang_of f mother (λ _. ts)).threads ≡ ts) × ((gang_of f mother (λ _. ts)).scans ≤ 6)
unfolding gang_of
gang_of-steady f mother ts d l = stabilize-fresh 199 f mother ts five_fit d l
