-- ===== src/Sched/Balance.antt =====
-- mattx_evaluate_and_balance and one round of mattx_balancer_loop, of mattx_sched.c.
pub mod Choice
pub mod Decision
pub mod Cooldown
use mattx.Base.{
  ℕ, suc, ◌+◌, ◌-◌, ◌*◌, ◌/◌, ◌%◌, ◌^◌, List, [], ◌∷◌, Bool, true, false, ◌&&◌, ◌||◌, not, Option,
  none, some, ltb, leb, ◌==◌, if◌then◌else◌, is_some,
}
use mattx.Effects.{Effect}
use mattx.Registry.Guests.{Guests, is_guest_process}
use mattx.Registry.Exports.{Exports}
use mattx.Registry.Watch.{World, watch_guests, watch_exports}
use mattx.Sched.Tasks.{Task, Lists, calc_local_load, find_candidate_task}

-- struct mattx_load_info
pub record LoadInfo : Type 0 where
  pub cpu_load : ℕ
  pub mem_free_mb : ℕ
  pub affinity : ℕ
  pub accept_guests : ℕ

-- What the loops over MAX_NODES read at one index: whether cluster_map has a link there that is
-- identified, and the entry of cluster_load_table.
pub record Node : Type 0 where
  pub joined : Bool
  pub load : LoadInfo

-- The static variables of the balancer.
pub record Balancer : Type 0 where
  pub last_migrated_pid : ℕ
  pub last_migration_jiffies : ℕ

-- `(load * 1000) / affinity` in u32
abbrev pub norm_load : ℕ → ℕ → ℕ
norm_load load affinity = load * 1000 % 2 ^ 32 / affinity

-- The normalised load of another node; affinity 0 stands for 1000.
abbrev pub remote_norm : LoadInfo → ℕ
remote_norm l = norm_load l.cpu_load (if l.affinity == 0 then 1000 else l.affinity)

abbrev pub is_open : Node → Bool
is_open n = n.joined && not (n.load.accept_guests == 0)

-- The loop with `best_node` and `lowest_remote_norm_load`, from index `i` on.
unfoldable pub best_node_from : ℕ → List Node → Option ℕ → ℕ → Option ℕ × ℕ
best_node_from i [] best lowest = (best, lowest)
best_node_from i (n ∷ ns) best lowest =
    let better = is_open n && ltb (remote_norm n.load) lowest in
    best_node_from (suc i) ns (if better then some i else best)
      (if better then remote_norm n.load else lowest)

abbrev pub u32_max : ℕ
u32_max = 0xFFFFFFFF

-- time_before(a, b): the difference, as a signed long, is negative.
abbrev pub time_before : ℕ → ℕ → Bool
time_before a b = leb (2 ^ 63) ((a + 2 ^ 64 - b) % 2 ^ 64)

abbrev pub cooling : Balancer → ℕ → ℕ → Bool
cooling b jiffies cooldown =
    not (b.last_migration_jiffies == 0)
    && time_before jiffies ((b.last_migration_jiffies + cooldown) % 2 ^ 64)

-- What the function reads: the switch, jiffies, msecs_to_jiffies(1000), the nodes, and the task that
-- mattx_find_candidate_task would choose after a given pid.
pub record Clock : Type 0 where
  pub enabled : Bool
  pub jiffies : ℕ
  pub cooldown : ℕ
  pub nodes : List Node
  pub candidate : ℕ → Option Task

-- The migration that is started, `mattx_capture_and_send_state(task, best_node)`, if any.
abbrev pub Migration : Type 0
Migration = Option (Task × ℕ)

migrate : Clock → Balancer → ℕ → Balancer × Migration
migrate c b node = elim (c.candidate b.last_migrated_pid) [
  | none ↦ (b, none)
  | some task ↦ (
    record { last_migrated_pid = task.pid; last_migration_jiffies = c.jiffies },
    some (task, node),
  )
]

weigh : Clock → Balancer → ℕ → Option ℕ × ℕ → Balancer × Migration
unfolding migrate
weigh c b local_norm (none, lowest) = (b, none)
weigh c b local_norm (some node, lowest) =
    if ltb lowest local_norm && leb 250 (local_norm - lowest) then migrate c b node else (b, none)

unfoldable pub evaluate_and_balance : Clock → Balancer → ℕ → ℕ → Balancer × Migration
unfolding weigh
evaluate_and_balance c b local_load local_affinity =
    if not c.enabled || (local_affinity == 0 || local_load == 0)
    then (b, none)
    else if cooling b c.jiffies c.cooldown
    then (b, none)
    else weigh c b (norm_load local_load local_affinity) (best_node_from 0 c.nodes none u32_max)

-- One round of the loop of the balancer thread.
pub record Round : Type 0 where
  pub balancer : Balancer
  pub guests : Guests
  pub exports : Exports
  pub told : List (ℕ × LoadInfo)  -- the LOAD_UPDATE messages, by node
  pub migration : Migration
  pub work : List Effect  -- of the guest watcher
  pub home_work : List Effect  -- of the home watcher

-- What a round reads besides: the processes, the lists, the thread's own pid, the configuration, the
-- number of processors and the free memory.
pub record Host : Type 0 where
  pub processes : List Task
  pub lists : Lists
  pub current : ℕ
  pub node_affinity : ℕ  -- config_node_affinity
  pub online_cpus : ℕ
  pub free_mb : ℕ
  pub accept_guests : Bool  -- config_accept_guests
  pub enabled : Bool
  pub jiffies : ℕ
  pub cooldown : ℕ
  pub nodes : List Node
  pub world : World

abbrev pub local_info : Host → LoadInfo
local_info h = record {
  cpu_load = calc_local_load h.lists h.current h.processes;
  mem_free_mb = h.free_mb;
  affinity = if h.node_affinity == 0 then h.online_cpus * 1000 % 2 ^ 32 else h.node_affinity;
  accept_guests = if h.accept_guests then 1 else 0;
}

-- The broadcast: one control message to each identified link.
abbrev pub broadcast : ℕ → List Node → LoadInfo → List (ℕ × LoadInfo)
broadcast i [] info = []
broadcast i (n ∷ ns) info =
    if n.joined then (i, info) ∷ broadcast (suc i) ns info else broadcast (suc i) ns info

-- The watchers get fuel for all the entries that they may remove.
unfoldable pub balancer_round : Host → Balancer → Guests → Exports → Round
balancer_round h b guests exports =
    let info = local_info h in
    let clock : Clock = record {
      enabled = h.enabled;
      jiffies = h.jiffies;
      cooldown = h.cooldown;
      nodes = h.nodes;
      candidate = λ last. find_candidate_task h.lists (is_guest_process guests) last h.processes;
    } in
    let (b', migration) = evaluate_and_balance clock b info.cpu_load info.affinity in
    let (guests', work) = watch_guests h.world guests.count guests in
    let (exports', home_work) = watch_exports h.world exports.count exports in
    record {
      balancer = b';
      guests = guests';
      exports = exports';
      told = broadcast 0 h.nodes info;
      migration = migration;
      work = work;
      home_work = home_work;
    }
