-- ===== src/Migr/Gang/Settled.antt =====
-- The threads that the loop of mattx_migr.c ends with, and the signals they were sent.
use mattx.Base.{
  ℕ, zero, suc, ◌≤◌, ◌≡◌, refl, sym, ◌∙◌, ap, List, [], ◌∷◌, ◌++◌, Bool, true, false, ◌&&◌, ◌||◌,
  not, ltb, ◌==◌, if◌then◌else◌, length, arith, append-nil, append_assoc, length-append,
  drop-append, Bool-cases, inl, inr,
}
use mattx.Migr.Effects.{told_to_stop, told_to_stop-append, halted, halted-append}
use mattx.Migr.Gang.{
  Freezing, freeze_task_safely, already_have, see, scan, take_refs, freeze_new, Gang, round,
  stabilize, gang_of, no_gang, max_gang_threads, stabilize_retries, stable_after,
  required_stable_scans,
}

-- No thread stands twice.
abbrev pub Distinct : List ℕ → Type 0
Distinct [] = Unit
Distinct (t ∷ ts) = (already_have t ts ≡ false) × Distinct ts

pub already_have-append :
    (t : ℕ) (us vs : List ℕ) → already_have t (us ++ vs) ≡ (already_have t us || already_have t vs)
already_have-append t [] vs = ground arith
already_have-append t (u ∷ us) vs = ground (arith, already_have-append t us vs)

append-Distinct :
    (us : List ℕ) (t : ℕ) → Distinct us → already_have t us ≡ false → Distinct (us ++ (t ∷ []))
append-Distinct [] t d h = (refl, tt)
append-Distinct (u ∷ us) t d h =
    (ground (arith, already_have-append u us (t ∷ [])), append-Distinct us t d.1 (ground arith))

see-IsGang :
    (us : List ℕ) (t : ℕ)
    → Distinct us × (length us ≤ max_gang_threads)
    → Distinct (see us t) × (length (see us t) ≤ max_gang_threads)
unfolding see
see-IsGang us t d = ground (arith, append-Distinct us t d.0, length-append us (t ∷ []))

scan-IsGang :
    (us ts : List ℕ)
    → Distinct us × (length us ≤ max_gang_threads)
    → Distinct (scan us ts) × (length (scan us ts) ≤ max_gang_threads)
unfolding scan
scan-IsGang us [] d = d
scan-IsGang us (t ∷ ts) d = scan-IsGang (see us t) ts (see-IsGang us t d)

see-append : (us : List ℕ) (t : ℕ) → (vs : List ℕ) × (see us t ≡ us ++ vs)
unfolding see
see-append us t = elim (Bool-cases (already_have t us)) [
  | inl e ↦ ([], rw e (sym (append-nil us)))
  | inr e ↦ elim (Bool-cases (ltb (length us) max_gang_threads)) [
    | inl l ↦ (t ∷ [], rw (e, l))
    | inr l ↦ ([], rw (e, l) (sym (append-nil us)))
  ]
]

-- A scan only adds at the end.
pub scan-append : (us ts : List ℕ) → (vs : List ℕ) × (scan us ts ≡ us ++ vs)
unfolding scan
scan-append us [] = ([], sym (append-nil us))
scan-append us (t ∷ ts) =
    let (vs, e) = see-append us t in
    let (ws, q) = scan-append (see us t) ts in
    (vs ++ ws, q ∙ ap (λ x. x ++ ws) e ∙ append_assoc us vs ws)

pub told_to_stop-freeze_task_safely :
    (f : Freezing) (u t : ℕ) (b : Bool)
    → told_to_stop t (freeze_task_safely f u) b ≡ (if u == t then true else b)
unfolding freeze_task_safely told_to_stop
told_to_stop-freeze_task_safely f u t b = ground arith

told_to_stop-freeze_new :
    (f : Freezing) (mother t : ℕ) (us : List ℕ) (b : Bool)
    → told_to_stop t (freeze_new f mother us) b
      ≡ (if already_have t us && not (t == mother) then true else b)
unfolding freeze_new told_to_stop
told_to_stop-freeze_new f mother t [] b = refl
told_to_stop-freeze_new f mother t (u ∷ us) b = elim (Bool-cases (u == mother)) [
  | inl e ↦ rw (e, told_to_stop-freeze_new f mother t us b) (ground arith)
  | inr e ↦
      rw
        (
          e,
          told_to_stop-append t (freeze_task_safely f u) (freeze_new f mother us) b,
          told_to_stop-freeze_task_safely f u t b,
          told_to_stop-freeze_new f mother t us (if u == t then true else b),
        )
        (ground arith)
]

told_to_stop-take_refs : (t : ℕ) (us : List ℕ) (b : Bool) → told_to_stop t (take_refs us) b ≡ b
unfolding told_to_stop
told_to_stop-take_refs t [] b = refl
told_to_stop-take_refs t (u ∷ us) b = told_to_stop-take_refs t us b

-- A thread other than the mother.
abbrev pub has_other : ℕ → List ℕ → Bool
has_other mother [] = false
has_other mother (t ∷ ts) = not (t == mother) || has_other mother ts

has_other-append :
    (mother : ℕ) (us vs : List ℕ)
    → has_other mother (us ++ vs) ≡ (has_other mother us || has_other mother vs)
has_other-append mother [] vs = ground arith
has_other-append mother (u ∷ us) vs = ground (arith, has_other-append mother us vs)

-- The last signal of a freeze is SIGSTOP.
pub halted-freeze_task_safely :
    (f : Freezing) (u : ℕ) (b : Bool) → halted (freeze_task_safely f u) b ≡ true
unfolding freeze_task_safely halted
halted-freeze_task_safely f u b = ground arith

halted-freeze_new :
    (f : Freezing) (mother : ℕ) (us : List ℕ) (b : Bool)
    → halted (freeze_new f mother us) b ≡ (if has_other mother us then true else b)
unfolding freeze_new halted
halted-freeze_new f mother [] b = refl
halted-freeze_new f mother (u ∷ us) b = elim (Bool-cases (u == mother)) [
  | inl e ↦ rw (e, halted-freeze_new f mother us b) (ground arith)
  | inr e ↦
      rw
        (
          e,
          halted-append (freeze_task_safely f u) (freeze_new f mother us) b,
          halted-freeze_task_safely f u b,
          halted-freeze_new f mother us true,
        )
        (ground arith)
]

halted-take_refs : (us : List ℕ) (b : Bool) → halted (take_refs us) b ≡ b
unfolding halted
halted-take_refs [] b = refl
halted-take_refs (u ∷ us) b = halted-take_refs us b

-- What holds of the gang after every round: `b` is what a thread was told last, or whether the process
-- was stopped, before the capture.
pub record IsGang (f : Freezing) (mother : ℕ) (g : Gang) : Type 0 where
  pub distinct : Distinct g.threads
  pub bounded : length g.threads ≤ max_gang_threads
  pub frozen :
      (t : ℕ) (b : Bool)
      → told_to_stop t g.effects b
        ≡ (if already_have t g.threads && not (t == mother) then true else b)
  pub halts : (b : Bool) → halted g.effects b ≡ (if has_other mother g.threads then true else b)

round-IsGang :
    (f : Freezing) (mother : ℕ) (seen : List ℕ) (g : Gang)
    → IsGang f mother g
    → IsGang f mother (round f mother seen g)
round-IsGang f mother seen g v =
    let (vs, e) = scan-append g.threads seen in
    let (d, l) = scan-IsGang g.threads seen (v.distinct, v.bounded) in
    record {
      distinct = d;
      bounded = l;
      frozen = λ t b.
          rw
            (
              e,
              drop-append g.threads vs refl,
              told_to_stop-append t g.effects _ b,
              told_to_stop-append t (take_refs vs) _ _,
              told_to_stop-take_refs t vs _,
              told_to_stop-freeze_new f mother t vs _,
              v.frozen t b,
              already_have-append t g.threads vs,
            )
            (ground arith);
      halts = λ b.
          rw
            (
              e,
              drop-append g.threads vs refl,
              halted-append g.effects _ b,
              halted-append (take_refs vs) _ _,
              halted-take_refs vs _,
              halted-freeze_new f mother vs _,
              v.halts b,
              has_other-append mother g.threads vs,
            )
            (ground arith);
    }

module _ (n : ℕ) (f : Freezing) (mother : ℕ) (seen : ℕ → List ℕ) (stable : ℕ) (g : Gang) where
  abbrev pub next_gang : Gang
  next_gang = round f mother (seen g.scans) g

  abbrev pub next_stable : ℕ
  next_stable = stable_after stable g next_gang

  -- One round, by whether the loop goes on.
  pub stabilize_more :
      ltb next_stable required_stable_scans ≡ true
      → stabilize (suc n) f mother seen stable g ≡ stabilize n f mother seen next_stable next_gang
  unfolding stabilize
  stabilize_more e = rw (e, stabilize) refl

  pub stabilize_stop :
      ltb next_stable required_stable_scans ≡ false
      → stabilize (suc n) f mother seen stable g ≡ next_gang
  unfolding stabilize
  stabilize_stop e = rw (e, stabilize) refl

stabilize-IsGang :
    (retries : ℕ) (f : Freezing) (mother : ℕ) (seen : ℕ → List ℕ) (stable : ℕ) (g : Gang)
    → IsGang f mother g
    → IsGang f mother (stabilize retries f mother seen stable g)
unfolding stabilize
stabilize-IsGang zero f mother seen stable g v = v
stabilize-IsGang (suc n) f mother seen stable g v =
    let after = round f mother (seen g.scans) g in
    let stable' = stable_after stable g after in
    let v' = round-IsGang f mother (seen g.scans) g v in
    elim (Bool-cases (ltb stable' required_stable_scans)) [
      | inl e ↦
          rw (stabilize_more n f mother seen stable g e)
            (stabilize-IsGang n f mother seen stable' after v')
      | inr e ↦ rw (stabilize_stop n f mother seen stable g e) v'
    ]

-- Whatever the scans find, no thread is captured twice and at most MAX_GANG_THREADS are. The last of the
-- SIGSTOPs and SIGCONTs that the loop sends to a captured thread other than the mother is a SIGSTOP,
-- and it sends none to any other thread. As each signal acts on the whole process, the loop leaves the
-- process stopped if it has captured a thread other than the mother, and as it was if not.
pub gang_of-IsGang :
    (f : Freezing) (mother : ℕ) (seen : ℕ → List ℕ) → IsGang f mother (gang_of f mother seen)
unfolding gang_of told_to_stop halted
gang_of-IsGang f mother seen =
    stabilize-IsGang stabilize_retries f mother seen 0 no_gang
      (record { distinct = tt; bounded = omega arith; frozen = λ t b. refl; halts = λ b. refl })
