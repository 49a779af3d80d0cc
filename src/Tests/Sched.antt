-- ===== src/Tests/Sched.antt =====
-- Names, tasks and nodes that the balancer weighs.
use mattx.Base.{ℕ, ◌≡◌, ◌≢◌, List, [], ◌∷◌, Bool, true, false, none, some, arith, ◌⊎◌}
use mattx.Sched.Names.{comma, space}
use mattx.Sched.Tasks.{Task, Lists, find_candidate_task}
use mattx.Sched.Tasks.Candidate.{Bounded, IsBest, find_candidate_task-IsBest}
use mattx.Sched.Balance.{Node, Balancer, Clock, evaluate_and_balance}
use mattx.Sched.Balance.Decision.{Moves, evaluate_and_balance-Moves}

-- "ab" and "c"
abbrev names : List (List ℕ)
names = (97 ∷ 98 ∷ []) ∷ (99 ∷ []) ∷ []

ne_97 : 97 ≢ comma
ne_97 e = omega (arith, e)

ne_98 : 98 ≢ comma
ne_98 e = omega (arith, e)

ne_99 : 99 ≢ comma
ne_99 e = omega (arith, e)

unspaced_97 : 97 ≢ space
unspaced_97 e = omega (arith, e)

unspaced_99 : 99 ≢ space
unspaced_99 e = omega (arith, e)

abbrev lists : Lists
lists = record { excludes = []; includes = 97 ∷ 98 ∷ [] }

abbrev task : Task
task = record {
  pid = 400;
  tgid = 400;
  is_kthread = false;
  has_mm = true;
  exiting = false;
  comm = 97 ∷ 98 ∷ [];
  sum_exec_runtime = 60_000_000;
  running = true;
}

abbrev no_guest : ℕ → Bool
no_guest pid = false

find_candidate_task-IsBest_example :
    ((find_candidate_task lists no_guest 0 (task ∷ []) ≡ none)
      × Bounded lists no_guest 0 0 (task ∷ []))
    ⊎ ((p : Task) × (find_candidate_task lists no_guest 0 (task ∷ []) ≡ some p)
        × IsBest lists no_guest 0 (task ∷ []) p)
find_candidate_task-IsBest_example = find_candidate_task-IsBest lists no_guest 0 (task ∷ [])

-- One idle node that takes guests.
abbrev idle : Node
idle = record {
  joined = true;
  load = record { cpu_load = 1000; mem_free_mb = 10; affinity = 1000; accept_guests = 1 };
}

abbrev clock : Clock
clock = record {
  enabled = true;
  jiffies = 5000;
  cooldown = 250;
  nodes = idle ∷ [];
  candidate = λ last. some task;
}

abbrev fresh : Balancer
fresh = record { last_migrated_pid = 0; last_migration_jiffies = 0 }

evaluate_and_balance-Moves_example :
    (evaluate_and_balance clock fresh 4000 1000 ≡ (fresh, none))
    ⊎ ((t : Task) × (node : ℕ) × Moves clock fresh 4000 1000 t node
        × (evaluate_and_balance clock fresh 4000 1000 ≡ (
          record { last_migrated_pid = t.pid; last_migration_jiffies = 5000 },
          some (t, node),
        )))
evaluate_and_balance-Moves_example = evaluate_and_balance-Moves clock fresh 4000 1000

abbrev rested : Balancer
rested = record { last_migrated_pid = 400; last_migration_jiffies = 4900 }
