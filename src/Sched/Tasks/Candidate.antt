-- ===== src/Sched/Tasks/Candidate.antt =====
-- mattx_find_candidate_task of mattx_sched.c against a description of the task it looks for.
use mattx.Base.{
  ℕ, ◌<◌, ◌≤◌, ◌≡◌, refl, ◌⊎◌, inl, inr, List, [], ◌∷◌, ◌++◌, Bool, true, ◌&&◌, Option, none, some,
  arith, ltb, All, Bool-cases,
}
use mattx.Sched.Tasks.{Task, Lists, eligible, best_from, find_candidate_task}

module _ (l : Lists) (is_guest : ℕ → Bool) (last_pid : ℕ) where
  -- No eligible task of the list has run longer than this.
  abbrev pub Bounded : ℕ → List Task → Type 0
  Bounded n = All (λ p. eligible l is_guest last_pid p ≡ true → p.sum_exec_runtime ≤ n)

  -- `before` are the tasks that come first in the list, `after` those that come later.
  pub record IsBest (ps : List Task) (p : Task) : Type 0 where
    pub before : List Task
    pub after : List Task
    pub listed : ps ≡ before ++ (p ∷ after)
    pub fit : eligible l is_guest last_pid p ≡ true
    pub has_run : 0 < p.sum_exec_runtime
    pub longest : Bounded p.sum_exec_runtime ps
    pub earliest :
        All
          (λ q. eligible l is_guest last_pid q ≡ true → q.sum_exec_runtime < p.sum_exec_runtime)
          before

  Bounded-mono : (m n : ℕ) (ps : List Task) → m ≤ n → Bounded m ps → Bounded n ps
  Bounded-mono m n [] h b = tt
  Bounded-mono m n (p ∷ ps) h b = (λ e. omega (arith, b.0 e), Bounded-mono m n ps h b.1)

  -- Entered at `max`, the loop keeps its best task if nothing is longer, or finds one that is.
  best_from-cases :
      (ps : List Task) (max : ℕ) (best : Option Task)
      → ((best_from l is_guest last_pid ps max best ≡ best) × Bounded max ps)
        ⊎ ((p : Task) × (best_from l is_guest last_pid ps max best ≡ some p)
            × (max < p.sum_exec_runtime)
            × (before : List Task) × (after : List Task) × (ps ≡ before ++ (p ∷ after))
            × (eligible l is_guest last_pid p ≡ true)
            × Bounded p.sum_exec_runtime ps
            × All
                (λ q.
                  eligible l is_guest last_pid q ≡ true → q.sum_exec_runtime < p.sum_exec_runtime)
                before)
  unfolding best_from
  best_from-cases [] max best = inl (refl, tt)
  best_from-cases (q ∷ ps) max best =
      elim (Bool-cases (eligible l is_guest last_pid q && ltb max q.sum_exec_runtime)) [
        | inr skip ↦ elim (best_from-cases ps max best) [
          | inl (e, b) ↦ inl (rw skip e, (λ h. ground arith, b))
          | inr (p, e, m, before, after, s, f, b, a) ↦ inr (
            p,
            rw skip e,
            m,
            q ∷ before,
            after,
            ground arith,
            f,
            (λ h. ground arith, b),
            (λ h. ground arith, a),
          )
        ]
        | inl take_it ↦ elim (best_from-cases ps q.sum_exec_runtime (some q)) [
          | inl (e, b) ↦
              inr (
                q,
                rw take_it e,
                ground arith,
                [],
                ps,
                refl,
                ground arith,
                (λ h. omega arith, b),
                tt,
              )
          | inr (p, e, m, before, after, s, f, b, a) ↦ inr (
            p,
            rw take_it e,
            ground arith,
            q ∷ before,
            after,
            ground arith,
            f,
            (λ h. omega arith, b),
            (λ h. omega arith, a),
          )
        ]
      ]

  -- The candidate is an eligible task that has run, no eligible task has run longer, and of those that
  -- have run as long it comes first; there is none only if no eligible task has run at all.
  pub find_candidate_task-IsBest :
      (ps : List Task)
      → ((find_candidate_task l is_guest last_pid ps ≡ none) × Bounded 0 ps)
        ⊎ ((p : Task) × (find_candidate_task l is_guest last_pid ps ≡ some p) × IsBest ps p)
  unfolding find_candidate_task
  find_candidate_task-IsBest ps = elim (best_from-cases ps 0 none) [
    | inl (e, b) ↦ inl (e, b)
    | inr (p, e, m, before, after, s, f, b, a) ↦ inr (
      p,
      e,
      record {
        before = before;
        after = after;
        listed = s;
        fit = f;
        has_run = m;
        longest = b;
        earliest = a;
      },
    )
  ]
