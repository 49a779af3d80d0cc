-- ===== src/Sched/Tasks/Load.antt =====
-- mattx_calc_local_load of mattx_sched.c against a count of the tasks.
use mattx.Base.{ℕ, ◌+◌, ◌*◌, ◌%◌, ◌^◌, ◌<◌, ◌≤◌, ◌≡◌, List, [], ◌∷◌, arith, length, keep}
use mattx.Sched.Tasks.{Task, Lists, counts, count_tasks, calc_local_load}

count_tasks-keep :
    (l : Lists) (current : ℕ) (ps : List Task) (n : ℕ)
    → n + length (keep (counts l current) ps) < 2 ^ 32
    → count_tasks l current ps n ≡ n + length (keep (counts l current) ps)
unfolding count_tasks
count_tasks-keep l current [] n h = omega arith
count_tasks-keep l current (p ∷ ps) n h =
    ground
      (arith, count_tasks-keep l current ps n, count_tasks-keep l current ps ((n + 1) % 2 ^ 32))

length-keep-le :
    (l : Lists) (current : ℕ) (ps : List Task) → length (keep (counts l current) ps) ≤ length ps
length-keep-le l current [] = omega arith
length-keep-le l current (p ∷ ps) = ground (arith, length-keep-le l current ps)

-- With fewer processes than would overflow a u32, the load is exactly a thousand times the number of
-- tasks that count.
pub calc_local_load-keep :
    (l : Lists) (current : ℕ) (ps : List Task)
    → length ps * 1000 < 2 ^ 32
    → calc_local_load l current ps ≡ length (keep (counts l current) ps) * 1000
unfolding calc_local_load
calc_local_load-keep l current ps h =
    omega (arith, count_tasks-keep l current ps 0, length-keep-le l current ps)
