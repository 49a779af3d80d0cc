-- ===== src/Migr/Recall/Served.antt =====
-- Who can take a guest away, and how long an expulsion takes.
use mattx.Base.{
  ℕ, zero, suc, ◌+◌, ◌<◌, ◌≤◌, ◌≡◌, ◌≢◌, refl, ap, ◌⊎◌, inl, inr, List, [], ◌∷◌, ◌++◌, ◌∙◌, Bool,
  true, false, ◌&&◌, ◌||◌, not, Option, none, some, ◌==◌, arith, Bool-cases, Option-cases,
}
use mattx.Registry.Slots.{first, view, first-cases}
use mattx.Registry.Guests.{GuestInfo, Guests}
use mattx.Migr.Capture.{
  Leaving, Config, Found, set_migrating, is_sent, has_memory, capture_and_return_state,
}
use mattx.Migr.Effects.{Effect, get_task, put_task}
use mattx.Migr.Capture.Signals.{capture_and_return_state-set_migrating}
use mattx.Migr.Recall.{handle_recall_req, capture_held, Errno, ok, etimedout, expel_wait}

-- A guest whose process has the pid asked for and whose home is the sender, with its task: that task is
-- captured for the sender, with a reference held around it, and the mark of the guest is what a capture
-- leaves.
pub record IsServed (c : Config) (l : Leaving) (t : Guests) (task : ℕ → Option Found)
    (sender orig_pid : ℕ) (r : Leaving × Guests × List Effect) : Type 0 where
  pub index : ℕ
  pub guest : GuestInfo
  pub found : Found
  pub is_first :
      first (λ g. g.orig_pid == orig_pid && g.home_node == sender) (view t) ≡ some (index, guest)
  pub process : guest.orig_pid ≡ orig_pid
  pub home : guest.home_node ≡ sender
  pub is_task : task guest.local_pid ≡ some found
  pub pid : found.pid ≡ guest.local_pid
  pub captured : r ≡ (
      let x = capture_and_return_state c l t found orig_pid sender in
      (x.0, x.1, get_task found.mother ∷ (x.2 ++ (put_task found.mother ∷ []))))
  pub marked : r.1 ≡ set_migrating t guest.local_pid (is_sent found || not (has_memory found))

-- Where the task that a pid gives has that pid, a recall is served: there is no guest whose process has
-- the pid asked for and whose home is the node that asked, or the first one has no task, and nothing
-- happens; or the task of the first one is captured, with its process's pid and for that node, with a
-- reference held around the capture. Then the registry changes in the mark of the guest with this
-- local pid alone, which is set where the blueprint is away or there was no memory for one.
pub handle_recall_req-IsServed :
    (c : Config) (l : Leaving) (t : Guests) (task : ℕ → Option Found) (sender orig_pid : ℕ)
    → ((pid : ℕ) (f : Found) → task pid ≡ some f → f.pid ≡ pid)
    → let r = handle_recall_req c l t task sender (some orig_pid) in
      (((i : ℕ) (g : GuestInfo)
          → first (λ g. g.orig_pid == orig_pid && g.home_node == sender) (view t) ≡ some (i, g)
          → task g.local_pid ≡ none)
        × (r ≡ (l, t, [])))
      ⊎ IsServed c l t task sender orig_pid r
unfolding handle_recall_req capture_held
handle_recall_req-IsServed c l t task sender orig_pid named =
    elim (first-cases (λ g. g.orig_pid == orig_pid && g.home_node == sender) (view t)) [
      | inl (e, a) ↦ inl (λ i g q. absurd (ground (arith, e, q)), rw (e, handle_recall_req) refl)
      | inr (i, g, e, at_i, hit) ↦ elim (Option-cases (task g.local_pid)) [
        | inl q ↦
            inl (λ j x p. let same : g ≡ x = cc in rw (← same) q, rw (e, handle_recall_req, q) refl)
        | inr (f, q) ↦ inr (record {
          index = i;
          guest = g;
          found = f;
          is_first = e;
          process = ground arith;
          home = ground arith;
          is_task = q;
          pid = named g.local_pid f q;
          captured = rw (e, handle_recall_req, q) refl;
          marked =
              rw (e, handle_recall_req, q)
                (capture_and_return_state-set_migrating c l t f orig_pid sender
                  ∙ ap (λ n. set_migrating t n (is_sent f || not (has_memory f)))
                      (named g.local_pid f q));
        })
      ]
    ]

-- How a wait ended: at a poll that did not find the guest, or when the time was over.
abbrev pub Ended : (ℕ → Bool) → (ℕ → Bool) → ℕ → Errno → Type 0
Ended present expired k r =
    ((r ≡ ok) × (present k ≡ false)) ⊎ ((r ≡ etimedout) × (present k ≡ true) × (expired k ≡ true))

-- Where the time is over at some poll, the wait of an expulsion ends at that poll or before, and not
-- before a poll that misses the guest or finds the time over.
pub expel_wait-Ended :
    (fuel k n : ℕ) (present expired : ℕ → Bool)
    → expired n ≡ true
    → k ≤ n
    → n < k + fuel
    → (r : Errno) × (j : ℕ) × (expel_wait fuel present expired k ≡ some r)
      × (k ≤ j)
      × (j ≤ n)
      × Ended present expired j r
unfolding expel_wait
expel_wait-Ended zero k n present expired x l h = absurd (omega arith)
expel_wait-Ended (suc fuel) k n present expired x l h = elim (Bool-cases (present k)) [
  | inr p ↦ (ok, k, rw (p, expel_wait) refl, omega arith, l, inl (refl, p))
  | inl p ↦ elim (Bool-cases (expired k)) [
    | inl q ↦ (etimedout, k, rw (p, expel_wait, q) refl, omega arith, l, inr (refl, p, q))
    | inr q ↦
        let ne : k ≢ n = λ e. let same = ap expired e in cc in
        let lt : k + 1 ≤ n = ground arith in
        let (r, j, e, a, b, d) =
          expel_wait-Ended fuel (k + 1) n present expired x lt (omega arith) in
        (r, j, rw (p, expel_wait, q) e, omega arith, b, d)
  ]
]
