-- ===== src/Import/Threads/Revived.antt =====
-- A thread that was captured on one node and injected on another.
use mattx.Base.{
  ℕ, ◌≤◌, ◌≡◌, refl, sym, ap, ap₂, ◌∙◌, List, [], ◌∷◌, ◌++◌, append-nil, map, true, false, Option,
  none, some, ltb, length, take, drop, min, arith, Bool-cases, inl, inr, length-take, length-append,
  length-drop, take-append,
}
use mattx.Migr.Blueprint.{Thread, ThreadInfo, fpu_state_max, saved_fpu, capture_thread}
use mattx.Import.Threads.{restore_fpu, inject_thread, inject_gang}

-- Two processors whose FPU images have the same size.
abbrev pub SameFpu : Option (List ℕ) → Option (List ℕ) → Type 0
SameFpu none none = Unit
SameFpu (some a) (some b) = length a ≡ length b
SameFpu _ _ = ⊥

-- Writing the first `n` entries over a list, and reading them back.
overlay :
    (a b : List ℕ) (n : ℕ)
    → n ≤ length a
    → n ≤ length b
    → (take n (take n (take n a) ++ drop n b) ≡ take n a)
      × (length (take n (take n a) ++ drop n b) ≡ length b)
overlay a b n h l =
    let la = length-take n a in
    let lb = length-drop n b in
    let whole : take n (take n a) ≡ take n a =
      ap (take n) (sym (append-nil (take n a))) ∙ take-append (take n a) [] (omega (arith, la)) in
    rw whole (
      take-append (take n a) (drop n b) (omega (arith, la)),
      omega (arith, la, lb, length-append (take n a) (drop n b)),
    )

saved_fpu-some :
    (image : List ℕ) (n : ℕ)
    → min (length image) fpu_state_max ≡ n
    → saved_fpu (some image) ≡ take n image
saved_fpu-some image n e = rw e refl

take_none : (xs : List ℕ) (n : ℕ) → n ≡ 0 → take n xs ≡ []
take_none xs n e = rw e refl

restore_hit :
    (i : ThreadInfo) (b : List ℕ) (n : ℕ) (bs : List ℕ)
    → ltb 0 i.fpu_size ≡ true
    → min (min i.fpu_size (length b)) fpu_state_max ≡ n
    → i.fpu_state ≡ bs
    → restore_fpu i (some b) ≡ some (take n bs ++ drop n b)
unfolding restore_fpu
restore_hit i b n bs e q r = rw (restore_fpu, e, q, r) refl

restore_miss :
    (i : ThreadInfo) (b : List ℕ) → ltb 0 i.fpu_size ≡ false → restore_fpu i (some b) ≡ some b
unfolding restore_fpu
restore_miss i b e = rw (restore_fpu, e) refl

-- The FPU state that was captured is there again after it is restored.
saved_fpu-restore_fpu :
    (i : ThreadInfo) (a b : Option (List ℕ))
    → SameFpu a b
    → i.fpu_size ≡ length (saved_fpu a)
    → i.fpu_state ≡ saved_fpu a
    → saved_fpu (restore_fpu i b) ≡ saved_fpu a
unfolding restore_fpu
saved_fpu-restore_fpu i none none h e f = refl
saved_fpu-restore_fpu i none (some b) h e f = absurd h
saved_fpu-restore_fpu i (some a) none h e f = absurd h
saved_fpu-restore_fpu i (some a) (some b) h e f =
    let n = min (length a) fpu_state_max in
    let size : i.fpu_size ≡ n = omega (arith, length-take n a) in
    elim (Bool-cases (ltb 0 i.fpu_size)) [
      | inl q ↦
          let (back, long) = overlay a b n (omega arith) (omega arith) in
          rw (restore_hit i b n (take n a) q (omega arith) f)
            (saved_fpu-some (take n (take n a) ++ drop n b) n (omega arith) ∙ back)
      | inr q ↦
          let empty : n ≡ 0 = ground arith in
          rw (restore_miss i b q)
            (saved_fpu-some b n (omega arith) ∙ take_none b n empty ∙ sym (take_none a n empty))
    ]

-- Capturing a thread again right after it was injected gives the same blueprint, but for its id: the
-- registers, the TLS bases, the futex pointers and the FPU state are those of the captured thread.
capture_thread-inject_thread :
    (comm : List ℕ) (s t : Thread)
    → SameFpu s.fpstate t.fpstate
    → capture_thread (inject_thread comm (capture_thread s) t)
      ≡ record (capture_thread s) { tid = t.pid }
unfolding inject_thread capture_thread
capture_thread-inject_thread comm s t h =
    let e = saved_fpu-restore_fpu (capture_thread s) s.fpstate t.fpstate h refl refl in rw e refl

-- Two gangs of the same size, thread by thread on like processors.
abbrev pub Alike : List Thread → List Thread → Type 0
Alike [] [] = Unit
Alike (s ∷ ss) (t ∷ ts) = SameFpu s.fpstate t.fpstate × Alike ss ts
Alike _ _ = ⊥

-- The blueprints with the ids of the threads that took them.
pub retid : List ThreadInfo → List Thread → List ThreadInfo
retid (i ∷ is) (t ∷ ts) = record i { tid = t.pid } ∷ retid is ts
retid _ _ = []

-- A gang that is captured, sent, and injected into a gang of the same size on a like processor, is
-- captured there again as the same threads in the same order, with the new ids.
pub inject_gang-capture_thread :
    (comm : List ℕ) (ss ts : List Thread)
    → Alike ss ts
    → map capture_thread (inject_gang comm (map capture_thread ss) ts)
      ≡ retid (map capture_thread ss) ts
unfolding inject_gang retid
inject_gang-capture_thread comm [] [] h = refl
inject_gang-capture_thread comm [] (t ∷ ts) h = absurd h
inject_gang-capture_thread comm (s ∷ ss) [] h = absurd h
inject_gang-capture_thread comm (s ∷ ss) (t ∷ ts) h =
    ap₂ ◌∷◌ (capture_thread-inject_thread comm s t h.0) (inject_gang-capture_thread comm ss ts h.1)
