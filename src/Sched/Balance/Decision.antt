-- ===== src/Sched/Balance/Decision.antt =====
-- mattx_evaluate_and_balance of mattx_sched.c: when it starts a migration, and which.
use mattx.Base.{
  get_elem?, zero, suc, [], ◌∷◌, ℕ, ◌+◌, ◌-◌, ◌≤◌, ◌≡◌, ◌≢◌, ◌⊎◌, inl, inr, List, true, false, not,
  ◌||◌, ◌&&◌, none, some, arith, ltb, leb, ◌==◌, Bool-cases, Option-cases,
}
use mattx.Sched.Tasks.{Task}
use mattx.Sched.Balance.{
  Clock, Balancer, Node, norm_load, is_open, remote_norm, cooling, u32_max, weigh,
  evaluate_and_balance,
}
use mattx.Sched.Balance.Choice.{AtLeast, IsLowest, best_node_from-IsLowest}

-- The conditions under which `task` goes to `node`.
pub record Moves (c : Clock) (b : Balancer) (load affinity : ℕ) (task : Task) (node : ℕ)
    : Type 0 where
  pub switched_on : c.enabled ≡ true
  pub speed : affinity ≢ 0
  pub busy : load ≢ 0
  pub rested : cooling b c.jiffies c.cooldown ≡ false
  pub lowest : ℕ
  pub target : IsLowest c.nodes node lowest
  pub imbalance : lowest + 250 ≤ norm_load load affinity
  pub chosen : c.candidate b.last_migrated_pid ≡ some task

weigh-cases :
    (c : Clock) (b : Balancer) (n lowest node : ℕ)
    → ((weigh c b n (some node, lowest) ≡ (b, none)))
      ⊎ ((task : Task) × (lowest + 250 ≤ n)
          × (c.candidate b.last_migrated_pid ≡ some task)
          × (weigh c b n (some node, lowest) ≡ (
            record { last_migrated_pid = task.pid; last_migration_jiffies = c.jiffies },
            some (task, node),
          )))
unfolding weigh
weigh-cases c b n lowest node = elim (Option-cases (c.candidate b.last_migrated_pid)) [
  | inl e ↦ inl (ground arith)
  | inr (task, e) ↦ elim (Bool-cases (ltb lowest n && leb 250 (n - lowest))) [
    | inr small ↦ inl (ground arith)
    | inl big ↦ inr (task, ground arith, e, ground arith)
  ]
]

-- Either nothing is migrated and the balancer's state stays, or one task is, every condition for it
-- holds, and the state records its pid and the time.
pub evaluate_and_balance-Moves :
    (c : Clock) (b : Balancer) (load affinity : ℕ)
    → (evaluate_and_balance c b load affinity ≡ (b, none))
      ⊎ ((task : Task) × (node : ℕ) × Moves c b load affinity task node
          × (evaluate_and_balance c b load affinity ≡ (
            record { last_migrated_pid = task.pid; last_migration_jiffies = c.jiffies },
            some (task, node),
          )))
unfolding evaluate_and_balance
evaluate_and_balance-Moves c b load affinity =
    elim (Bool-cases (not c.enabled || (affinity == 0 || load == 0))) [
      | inl off ↦ inl (ground arith)
      | inr on ↦ elim (Bool-cases (cooling b c.jiffies c.cooldown)) [
        | inl cool ↦ inl (ground arith)
        | inr rested ↦ elim (best_node_from-IsLowest c.nodes) [
          | inl (e, _) ↦ inl (rw (on, rested, e, evaluate_and_balance))
          | inr (node, lowest, e, low) ↦
              elim (weigh-cases c b (norm_load load affinity) lowest node) [
                | inl q ↦ inl (rw (on, rested, e, evaluate_and_balance) q)
                | inr (task, big, q, r) ↦ inr (
                  task,
                  node,
                  record {
                    switched_on = ground arith;
                    speed = ground arith;
                    busy = ground arith;
                    rested = rested;
                    lowest = lowest;
                    target = low;
                    imbalance = big;
                    chosen = q;
                  },
                  rw (on, rested, e, evaluate_and_balance) r,
                )
              ]
        ]
      ]
    ]

AtLeast-at :
    (m : ℕ) (ns : List Node) (i : ℕ) (n : Node)
    → AtLeast m ns
    → get_elem? ns i ≡ some n
    → is_open n ≡ true
    → m ≤ remote_norm n.load
AtLeast-at m [] i n a e o = absurd (ground arith)
AtLeast-at m (x ∷ ns) zero n a e o = let q : x ≡ n = ground arith in rw (← q) (a.0 (rw q o))
AtLeast-at m (x ∷ ns) (suc i) n a e o = AtLeast-at m ns i n a.1 e o

norm_load-le : (load affinity : ℕ) → norm_load load affinity ≤ u32_max
norm_load-le load affinity = grind arith

weigh_acts :
    (c : Clock) (b : Balancer) (n lowest node : ℕ) (task : Task)
    → c.candidate b.last_migrated_pid ≡ some task
    → lowest + 250 ≤ n
    → (weigh c b n (some node, lowest)).1 ≡ some (task, node)
unfolding weigh
weigh_acts c b n lowest node task e h = ground arith

-- If some open node is idler by 250 than this one, the balancer is on, rested and loaded, and there is
-- a task to move, then that task is moved.
pub evaluate_and_balance_acts :
    (c : Clock) (b : Balancer) (load affinity i : ℕ) (n : Node) (task : Task)
    → c.enabled ≡ true
    → affinity ≢ 0
    → load ≢ 0
    → cooling b c.jiffies c.cooldown ≡ false
    → get_elem? c.nodes i ≡ some n
    → is_open n ≡ true
    → remote_norm n.load + 250 ≤ norm_load load affinity
    → c.candidate b.last_migrated_pid ≡ some task
    → (node : ℕ) × ((evaluate_and_balance c b load affinity).1 ≡ some (task, node))
unfolding evaluate_and_balance
evaluate_and_balance_acts c b load affinity i n task on speed busy rested there o gap cand =
    let go : (not c.enabled || (affinity == 0 || load == 0)) ≡ false = ground arith in
    elim (best_node_from-IsLowest c.nodes) [
      | inl (e, all) ↦
          absurd
            (omega (arith, AtLeast-at u32_max c.nodes i n all there o, norm_load-le load affinity))
      | inr (node, lowest, e, low) ↦
          let least = AtLeast-at lowest c.nodes i n low.lowest there o in
          (
            node,
            rw (go, rested, e, evaluate_and_balance)
                (weigh_acts c b (norm_load load affinity) lowest node task cand (omega arith)),
          )
    ]
