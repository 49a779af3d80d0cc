-- ===== src/Migr/Capture.antt =====
-- mattx_capture_and_send_state and mattx_capture_and_return_state of mattx_migr.c.
pub mod Signals
pub mod Blueprints
use mattx.Base.{
  ℕ, zero, suc, ◌+◌, List, [], ◌∷◌, ◌++◌, Bool, true, false, ◌&&◌, ◌||◌, not, Option, none, some,
  ◌==◌, if◌then◌else◌, length, take, ℤ, pos, negsuc,
}
use mattx.Registry.Slots.{find_index, write}
use mattx.Registry.Guests.{GuestInfo, Guests}
use mattx.Migr.Blueprint.{
  Thread, ThreadInfo, VmaInfo, Vma, MigrationReq, task_capturable, capture_thread, collect_fds,
  collect_vmas,
}
use mattx.Migr.Effects.{
  Effect, Message, migrate_req, return_blueprint, get_task, put_task, sigcont, send,
}
use mattx.Migr.Gang.{Freezing, freeze_task_safely, Gang, gang_of}

-- The variables of mattx_main.c for the migration that leaves. `none` is NULL, or the -1 of no node.
pub record Leaving : Type 0 where
  pub is_returning : Bool
  pub local_migration_req : Option MigrationReq
  pub migrating_task : Option ℕ
  pub migrating_target_node : Option ℕ

-- What the kernel holds of a process besides its threads.
pub record Mm : Type 0 where
  pub arg_start : ℕ
  pub arg_end : ℕ
  pub start_brk : ℕ
  pub brk : ℕ
  pub vdso : ℕ
  pub areas : List Vma

pub record Config : Type 0 where
  pub my_node_id : ℕ
  pub mattxfs_enabled : Bool
  pub dfsa_dir : List ℕ

-- What one capture finds: the mother by her address, and as she was when it began; the threads as
-- they are when they are packed; whether the two allocations succeed; the link to the other node;
-- and what mattx_comm_send returns on it.
pub record Found : Type 0 where
  pub mother : ℕ
  pub pid : ℕ
  pub start : Thread
  pub allocated : Bool
  pub copy_allocated : Bool
  pub freezing : Freezing
  pub seen : ℕ → List ℕ
  pub thread : ℕ → Thread
  pub now : ℕ
  pub cred : Option (ℕ × ℕ)
  pub comm : List ℕ
  pub files : Option (List Bool)
  pub mm : Option Mm
  pub link : Option ℕ
  pub send_ret : ℤ

abbrev pub puts : List ℕ → List Effect
puts [] = []
puts (t ∷ ts) = put_task t ∷ puts ts

abbrev pub sigconts : List ℕ → List Effect
sigconts [] = []
sigconts (t ∷ ts) = sigcont t ∷ sigconts ts

-- Whether a thread has exited meanwhile.
abbrev pub is_gone : (ℕ → Thread) → List ℕ → Bool → Bool
is_gone thread [] gone = gone
is_gone thread (t ∷ ts) gone = is_gone thread ts (gone || not (task_capturable (thread t)))

abbrev pub infos : (ℕ → Thread) → List ℕ → List ThreadInfo
infos thread [] = []
infos thread (t ∷ ts) = capture_thread (thread t) ∷ infos thread ts

abbrev pub fds_of : Option (List Bool) → List ℕ
fds_of none = []
fds_of (some bs) = collect_fds bs 0 0

abbrev pub vmas_of : Option Mm → List VmaInfo
vmas_of none = []
vmas_of (some mm) = collect_vmas mm.areas 0

abbrev pub field_of : (Mm → ℕ) → Option Mm → ℕ
field_of f none = 0
field_of f (some mm) = f mm

-- The blueprint without the identity and the files, which only the first capture takes.
abbrev pub bare_req : Config → Found → ℕ → List ℕ → MigrationReq
bare_req c f orig_pid ts = record {
  orig_pid = orig_pid;
  uid = 0;
  gid = 0;
  home_node = c.my_node_id;
  thread_count = length ts;
  threads = infos f.thread ts;
  arg_start = field_of (λ m. m.arg_start) f.mm;
  arg_end = field_of (λ m. m.arg_end) f.mm;
  start_brk = field_of (λ m. m.start_brk) f.mm;
  brk = field_of (λ m. m.brk) f.mm;
  vdso_addr = field_of (λ m. m.vdso) f.mm;
  monotonic_at_freeze = f.now;
  comm = f.comm;
  dfsa_dir = take 255 c.dfsa_dir;
  fd_count = 0;
  open_fds = [];
  vma_count = length (vmas_of f.mm);
  mattxfs_enabled = c.mattxfs_enabled;
  vmas = vmas_of f.mm;
}

abbrev uid_of : Option (ℕ × ℕ) → ℕ
uid_of none = 0
uid_of (some (uid, gid)) = uid

abbrev gid_of : Option (ℕ × ℕ) → ℕ
gid_of none = 0
gid_of (some (uid, gid)) = gid

unfoldable pub forward_req : Config → Found → List ℕ → MigrationReq
forward_req c f ts = record (bare_req c f f.pid ts) {
  uid = uid_of f.cred;
  gid = gid_of f.cred;
  fd_count = length (fds_of f.files);
  open_fds = fds_of f.files;
}

unfoldable pub return_req : Config → Found → ℕ → List ℕ → MigrationReq
return_req c f orig_pid ts = bare_req c f orig_pid ts

-- Keep the blueprint and the task for the data pump; the reference on the task kept before is given up.
unfoldable pub remember : Leaving → Found → MigrationReq → ℕ → Leaving × List Effect
remember l f req target_node = (
  record l {
    local_migration_req = if f.copy_allocated then some req else none;
    migrating_task = some f.mother;
    migrating_target_node = some target_node;
  },
  (elim l.migrating_task [ none ↦ [] | some old ↦ put_task old ∷ [] ]) ++ (get_task f.mother ∷ []),
)

-- `cluster_map[target_node]`, and `send_ret < 0`: whether the blueprint is away.
abbrev pub is_sent : Found → Bool
is_sent f = elim f.link [
  | none ↦ false
  | some l ↦ elim f.send_ret [ pos n ↦ true | negsuc n ↦ false ]
]

abbrev attempt : Found → Message → List Effect
attempt f m = elim f.link [ none ↦ [] | some l ↦ send l m ∷ [] ]

unfoldable pub launch : Found → Message → List ℕ → List Effect
launch f m ts = attempt f m ++ (if is_sent f then [] else sigconts ts)

-- The mother is frozen, then the gang, and the threads are packed.
unfoldable pub freeze_all : Found → Gang → List Effect
freeze_all f g = freeze_task_safely f.freezing f.mother ++ (g.effects ++ puts g.threads)

-- From the saved blueprint on, both captures do the same.
abbrev pub dispatch : Leaving → Found → Gang → MigrationReq → Message → ℕ → Leaving × List Effect
dispatch l f g req m target_node =
    let (l', kept) = remember l f req target_node in
    (l', freeze_all f g ++ (kept ++ launch f m g.threads))

-- kvzalloc of the blueprint.
unfoldable pub has_memory : Found → Bool
has_memory f = f.allocated

-- The two early returns.
unfoldable pub can_start : Found → Bool
unfolding has_memory
can_start f = task_capturable f.start && has_memory f

unfoldable pub capture_and_send_state : Config → Leaving → Found → ℕ → Leaving × List Effect
capture_and_send_state c l₀ f target_node =
    let l = record l₀ { is_returning = false } in
    let g = gang_of f.freezing f.mother f.seen in
    if can_start f
    then (if is_gone f.thread g.threads false
        then (l, freeze_all f g ++ (sigcont f.mother ∷ []))
        else (let req = forward_req c f g.threads in
            dispatch l f g req (migrate_req req) target_node))
    else (l, [])

-- `guest_registry[i].is_migrating = flag` for the first guest with this pid.
unfoldable pub set_migrating : Guests → ℕ → Bool → Guests
set_migrating t pid flag = elim (find_index (λ g. g.local_pid == pid) t) [
  | none ↦ t
  | some (i, g) ↦ write t i (record g { is_migrating = flag })
]

unfoldable pub capture_and_return_state :
    Config → Leaving → Guests → Found → ℕ → ℕ → Leaving × Guests × List Effect
capture_and_return_state c l₀ t₀ f orig_pid target_node =
    let l = record l₀ { is_returning = true } in
    let t = set_migrating t₀ f.pid true in
    let g = gang_of f.freezing f.mother f.seen in
    if has_memory f
    then (let req = return_req c f orig_pid g.threads in
        let (l', es) = dispatch l f g req (return_blueprint req) target_node in
        (l', if is_sent f then t else set_migrating t f.pid false, es))
    else (l, t, [])
