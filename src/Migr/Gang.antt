-- ===== src/Migr/Gang.antt =====
-- The two loops of mattx_migr.c that find and freeze every thread of the process: a thread is known
-- by the address of its task_struct.
pub mod Complete
pub mod Settled
use mattx.Base.{
  ℕ, zero, suc, ◌+◌, List, [], ◌∷◌, ◌++◌, Bool, true, false, ltb, ◌==◌, if◌then◌else◌, length, drop,
}
pub use mattx.Registry.Clock.{max_gang_threads}
use mattx.Migr.Effects.{Effect, get_task, sigstop, sigcont, add_task_work}

-- MATTX_REQUIRED_STABLE_SCANS, stabilize_retries
abbrev pub required_stable_scans : ℕ
required_stable_scans = 5

abbrev pub stabilize_retries : ℕ
stabilize_retries = 200

-- The waits of mattx_freeze_task_safely leave nothing behind, and are left out.
--
-- What a thread looks like when it is frozen: whether the task work is accepted, and whether the
-- thread is stopped then.
pub record Freezing : Type 0 where
  pub work_added : ℕ → Bool
  pub stopped : ℕ → Bool

unfoldable pub freeze_task_safely : Freezing → ℕ → List Effect
freeze_task_safely f t =
    if f.work_added t
    then add_task_work t ∷ ((if f.stopped t then sigcont t ∷ [] else []) ++ (sigstop t ∷ []))
    else sigstop t ∷ []

abbrev pub already_have : ℕ → List ℕ → Bool
already_have t [] = false
already_have t (u ∷ us) = if u == t then true else already_have t us

-- One thread of a scan.
unfoldable pub see : List ℕ → ℕ → List ℕ
see threads t =
    if already_have t threads
    then threads
    else (if ltb (length threads) max_gang_threads then threads ++ (t ∷ []) else threads)

unfoldable pub scan : List ℕ → List ℕ → List ℕ
scan threads [] = threads
scan threads (t ∷ ts) = scan (see threads t) ts

-- A reference is taken on every new thread.
abbrev pub take_refs : List ℕ → List Effect
take_refs [] = []
take_refs (t ∷ ts) = get_task t ∷ take_refs ts

-- The new threads are frozen, save the mother, who is frozen already.
unfoldable pub freeze_new : Freezing → ℕ → List ℕ → List Effect
freeze_new f mother [] = []
freeze_new f mother (t ∷ ts) =
    (if t == mother then [] else freeze_task_safely f t) ++ freeze_new f mother ts

pub record Gang : Type 0 where
  pub threads : List ℕ
  pub effects : List Effect
  pub scans : ℕ

-- One round of the loop: a scan, then the threads from `frozen_count` on.
abbrev pub round : Freezing → ℕ → List ℕ → Gang → Gang
round f mother seen g =
    let threads = scan g.threads seen in
    let fresh = drop (length g.threads) threads in
    record {
      threads = threads;
      effects = g.effects ++ (take_refs fresh ++ freeze_new f mother fresh);
      scans = g.scans + 1;
    }

abbrev pub stable_after : ℕ → Gang → Gang → ℕ
stable_after stable before after =
    if length after.threads == length before.threads then stable + 1 else 0

-- `do ... while (stable_scans < MATTX_REQUIRED_STABLE_SCANS && --stabilize_retries > 0)`. `seen k` is
-- what for_each_thread finds in scan `k`: other threads run, and may be created, between two scans.
unfoldable pub stabilize : ℕ → Freezing → ℕ → (ℕ → List ℕ) → ℕ → Gang → Gang
stabilize zero f mother seen stable g = g
stabilize (suc retries) f mother seen stable g =
    let after = round f mother (seen g.scans) g in
    let stable' = stable_after stable g after in
    elim (ltb stable' required_stable_scans) [
      | true ↦ stabilize retries f mother seen stable' after
      | false ↦ after
    ]

abbrev pub no_gang : Gang
no_gang = record { threads = []; effects = []; scans = 0 }

unfoldable pub gang_of : Freezing → ℕ → (ℕ → List ℕ) → Gang
unfolding stabilize
gang_of f mother seen = stabilize stabilize_retries f mother seen 0 no_gang
