-- ===== src/Sched/Tasks.antt =====
-- mattx_calc_local_load and mattx_find_candidate_task of mattx_sched.c: loops over the processes of the
-- kernel, a list that the functions are given.
pub mod Load
pub mod Candidate
use mattx.Base.{
  ℕ, ◌+◌, ◌*◌, ◌%◌, ◌^◌, List, [], ◌∷◌, Bool, true, false, ◌&&◌, ◌||◌, not, Option, none, some, ltb,
  leb, ◌==◌, if◌then◌else◌, is_some,
}
use mattx.Sched.Names.{is_listed}

-- What the loops read of a task_struct.
pub record Task : Type 0 where
  pub pid : ℕ
  pub tgid : ℕ
  pub is_kthread : Bool  -- flags & PF_KTHREAD
  pub has_mm : Bool  -- mm is not NULL
  pub exiting : Bool  -- flags & PF_EXITING
  pub comm : List ℕ
  pub sum_exec_runtime : ℕ
  pub running : Bool  -- __state is TASK_RUNNING

-- The two texts that an administrator sets.
pub record Lists : Type 0 where
  pub excludes : List ℕ  -- config_migration_excludes
  pub includes : List ℕ  -- config_migration_includes

abbrev nonempty : List ℕ → Bool
nonempty [] = false
nonempty (c ∷ cs) = true

-- The whitelist if there is one, else the blacklist.
unfoldable pub passes_filter : Lists → Task → Bool
passes_filter l p =
    if nonempty l.includes then is_listed l.includes p.comm else not (is_listed l.excludes p.comm)

-- A process of its own with user memory that is not init, and not ending.
unfoldable pub is_mother : Task → Bool
is_mother p =
    p.pid == p.tgid && (not (p.is_kthread || not p.has_mm) && not (leb p.pid 1 || p.exiting))

-- The tests of the loop in mattx_calc_local_load; `current` is the caller's pid.
unfoldable pub counts : Lists → ℕ → Task → Bool
counts l current p =
    is_mother p
    && (passes_filter l p
        && (not (p.pid == current) && (not (ltb p.sum_exec_runtime 50_000_000) && p.running)))

unfoldable pub count_tasks : Lists → ℕ → List Task → ℕ → ℕ
count_tasks l current [] count = count
count_tasks l current (p ∷ ps) count =
    count_tasks l current ps (if counts l current p then (count + 1) % 2 ^ 32 else count)

unfoldable pub calc_local_load : Lists → ℕ → List Task → ℕ
calc_local_load l current ps = count_tasks l current ps 0 * 1000 % 2 ^ 32

-- The tests of the loop in mattx_find_candidate_task, but the last. `is_guest` is is_guest_process;
-- `last_pid` is last_migrated_pid, 0 at the start.
unfoldable pub eligible : Lists → (ℕ → Bool) → ℕ → Task → Bool
eligible l is_guest last_pid p =
    is_mother p
    && (not (is_guest p.pid) && (passes_filter l p && (not (p.pid == last_pid) && p.running)))

-- The loop, with `max_runtime` and `best_candidate`.
unfoldable pub best_from : Lists → (ℕ → Bool) → ℕ → List Task → ℕ → Option Task → Option Task
best_from l is_guest last_pid [] max_runtime best = best
best_from l is_guest last_pid (p ∷ ps) max_runtime best =
    let take_it = eligible l is_guest last_pid p && ltb max_runtime p.sum_exec_runtime in
    best_from l is_guest last_pid ps (if take_it then p.sum_exec_runtime else max_runtime)
      (if take_it then some p else best)

unfoldable pub find_candidate_task : Lists → (ℕ → Bool) → ℕ → List Task → Option Task
find_candidate_task l is_guest last_pid ps = best_from l is_guest last_pid ps 0 none
