-- ===== src/Sched/Balance/Cooldown.antt =====
-- mattx_evaluate_and_balance of mattx_sched.c in the time after a migration.
use mattx.Base.{
  ℕ, ◌+◌, ◌-◌, ◌%◌, ◌^◌, ◌≤◌, ◌<◌, ◌≡◌, ◌≢◌, inl, inr, true, not, ◌||◌, none, arith, ◌==◌,
  Bool-cases,
}
use mattx.Sched.Balance.{Clock, Balancer, time_before, cooling, evaluate_and_balance}

time_before_soon :
    (start d cooldown : ℕ)
    → start < 2 ^ 64
    → d < cooldown
    → cooldown < 2 ^ 63
    → time_before ((start + d) % 2 ^ 64) ((start + cooldown) % 2 ^ 64) ≡ true
time_before_soon start d cooldown h k l =
    let q : 2 ^ 63 ≤ ((start + d) % 2 ^ 64 + 2 ^ 64 - (start + cooldown) % 2 ^ 64) % 2 ^ 64 =
      omega arith in
    ground arith

-- For `cooldown` ticks after a migration (jiffies may wrap), unless it fell on tick 0, no other is
-- started and the state stays, whatever the loads.
pub evaluate_and_balance_cooldown :
    (c : Clock) (b : Balancer) (load affinity d : ℕ)
    → b.last_migration_jiffies ≢ 0
    → b.last_migration_jiffies < 2 ^ 64
    → c.jiffies ≡ (b.last_migration_jiffies + d) % 2 ^ 64
    → d < c.cooldown
    → c.cooldown < 2 ^ 63
    → evaluate_and_balance c b load affinity ≡ (b, none)
unfolding evaluate_and_balance
evaluate_and_balance_cooldown c b load affinity d nz small e h k =
    let soon : cooling b c.jiffies c.cooldown ≡ true =
      rw e (ground (arith, time_before_soon b.last_migration_jiffies d c.cooldown small h k)) in
    elim (Bool-cases (not c.enabled || (affinity == 0 || load == 0))) [
      | inl off ↦ rw (off, evaluate_and_balance)
      | inr on ↦ rw (on, soon, evaluate_and_balance)
    ]
