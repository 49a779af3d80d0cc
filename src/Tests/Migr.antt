-- ===== src/Tests/Migr.antt =====
-- A process of three threads that leaves its node.
use mattx.Base.{
  ℕ, ◌+◌, ◌≤◌, ◌≡◌, ◌⊎◌, refl, List, [], ◌∷◌, true, false, Bool-cases, inl, inr, ◌&&◌, ◌||◌, not,
  Option, none, some, ◌==◌, if◌then◌else◌, arith, negsuc,
}
use mattx.Migr.Blueprint.{Thread, VmaInfo, Vma, MigrationReq, no_regs, task_capturable}
use mattx.Migr.Gang.{Freezing, gang_of, stabilize, scan, see, freeze_new, freeze_task_safely}
use mattx.Migr.Gang.Settled.{IsGang, gang_of-IsGang}
use mattx.Migr.Gang.Complete.{kept, gang_of-kept, gang_of-steady}
use mattx.Migr.Capture.{
  can_start, is_gone, Leaving, Config, Found, capture_and_send_state, capture_and_return_state,
  set_migrating, is_sent, has_memory, forward_req, return_req, infos,
}
use mattx.Migr.Capture.Signals.{
  gang_in, Follows, is_nil, capture_and_send_state-halted, capture_and_return_state-set_migrating,
}
use mattx.Migr.Capture.Blueprints.{IsBlueprint, req-IsBlueprint}
use mattx.Migr.Pump.{Luck}
use mattx.Migr.Effects.{halted}
use mattx.Registry.Exports.{Exports}
use mattx.Registry.Guests.{GuestInfo}
use mattx.Registry.Slots.{first, view}
use mattx.Migr.Recall.{handle_recall_req}
use mattx.Migr.Recall.Served.{IsServed, handle_recall_req-IsServed}
use mattx.Tests.Registry.{two_guests}

abbrev pub thread_at : ℕ → Thread
thread_at x = record {
  pid = x;
  exiting = false;
  exit_state = 0;
  has_stack = true;
  pt_regs = record no_regs { rip = 4096 + x };
  fsbase = 7;
  gsbase = 0;
  clear_child_tid = 5000;
  set_child_tid = 0;
  fpstate = some (1 ∷ 2 ∷ 3 ∷ x ∷ []);
  comm = 109 ∷ [];
}

abbrev freezing : Freezing
freezing = record { work_added = λ t. not (t == 3); stopped = λ t. t == 2 }

-- The third thread is created between the first two scans.
abbrev seen : ℕ → List ℕ
seen k = if k == 0 then 1 ∷ 2 ∷ [] else 1 ∷ 2 ∷ 3 ∷ []

abbrev heap_area : Vma
heap_area = record { vm_start = 4096; vm_end = 4099; vm_flags = 3; name = none; ino = 0 }

abbrev found : Found
found = record {
  mother = 1;
  pid = 10;
  start = thread_at 1;
  allocated = true;
  copy_allocated = true;
  freezing = freezing;
  seen = seen;
  thread = thread_at;
  now = 1000;
  cred = some (1000, 100);
  comm = 109 ∷ [];
  files = some (true ∷ true ∷ false ∷ true ∷ []);
  mm = some (record {
    arg_start = 1;
    arg_end = 2;
    start_brk = 4096;
    brk = 4099;
    vdso = 9;
    areas = heap_area ∷ [];
  });
  link = some 7;
  send_ret = negsuc 31;
}

abbrev config : Config
config = record { my_node_id = 3; mattxfs_enabled = true; dfsa_dir = 47 ∷ [] }

abbrev idle : Leaving
idle = record {
  is_returning = false;
  local_migration_req = none;
  migrating_task = none;
  migrating_target_node = none;
}

gang_of-IsGang_example : IsGang freezing 1 (gang_of freezing 1 seen)
gang_of-IsGang_example = gang_of-IsGang freezing 1 seen

gang_threads : (gang_of freezing 1 seen).threads ≡ 1 ∷ 2 ∷ 3 ∷ []
unfolding gang_of stabilize scan see freeze_new freeze_task_safely
gang_threads = refl

gang_scans : (gang_of freezing 1 seen).scans ≡ 7
unfolding gang_of stabilize scan see freeze_new freeze_task_safely
gang_scans = refl

gang_of-kept_example : kept 3 (gang_of freezing 1 seen).threads ≡ true
gang_of-kept_example = gang_of-kept freezing 1 seen 3 1 (omega (arith, gang_scans)) refl

gang_of-steady_example :
    ((gang_of freezing 1 (λ k. 1 ∷ 2 ∷ 3 ∷ [])).threads ≡ 1 ∷ 2 ∷ 3 ∷ [])
    × ((gang_of freezing 1 (λ k. 1 ∷ 2 ∷ 3 ∷ [])).scans ≤ 6)
gang_of-steady_example =
    gang_of-steady freezing 1 (1 ∷ 2 ∷ 3 ∷ []) (refl, (refl, (refl, tt))) (omega arith)

req-IsBlueprint_example :
    IsBlueprint (forward_req config found (gang_in found).threads)
    × IsBlueprint (return_req config found 20 (gang_in found).threads)
req-IsBlueprint_example = req-IsBlueprint config found 20

found_start : can_start found ≡ true
unfolding can_start has_memory task_capturable
found_start = refl

found_there : is_gone thread_at (gang_in found).threads false ≡ false
unfolding task_capturable
found_there = rw gang_threads refl

-- Node 4 cannot be reached any more, so thread 3 runs again.
capture_and_send_state-halted_example :
    Follows found 3 (capture_and_send_state config idle found 4).1 false
    × (halted (capture_and_send_state config idle found 4).1 false
        ≡ (is_sent found || is_nil (gang_in found).threads))
capture_and_send_state-halted_example =
    capture_and_send_state-halted config idle found 4 3 false found_start found_there

capture_and_return_state-set_migrating_example :
    (capture_and_return_state config idle two_guests found 20 3).1
    ≡ set_migrating two_guests 10 (is_sent found || not (has_memory found))
capture_and_return_state-set_migrating_example =
    capture_and_return_state-set_migrating config idle two_guests found 20 3

abbrev pub area : VmaInfo
area = record { vm_start = 4096; vm_end = 4099; vm_flags = 5; shmid = 0; is_shm = false }

abbrev pub shared : VmaInfo
shared = record { vm_start = 8192; vm_end = 12288; vm_flags = 3; shmid = 5; is_shm = true }

abbrev pub blueprint : MigrationReq
blueprint = record {
  orig_pid = 20;
  uid = 1000;
  gid = 100;
  home_node = 3;
  thread_count = 2;
  threads = infos thread_at (1 ∷ 2 ∷ []);
  arg_start = 1;
  arg_end = 2;
  start_brk = 4096;
  brk = 4099;
  vdso_addr = 9;
  monotonic_at_freeze = 1000;
  comm = 109 ∷ [];
  dfsa_dir = 47 ∷ [];
  fd_count = 2;
  open_fds = 0 ∷ 1 ∷ [];
  vma_count = 2;
  mattxfs_enabled = true;
  vmas = area ∷ shared ∷ [];
}

abbrev pub luck : Luck
luck = record { page_buf = λ i x. true; payload_buf = λ i x. true; send_res = λ i x. negsuc 31 }

abbrev leaving : Leaving
leaving = record {
  is_returning = false;
  local_migration_req = some blueprint;
  migrating_task = some 1;
  migrating_target_node = some 4;
}

abbrev links : ℕ → Option ℕ
links node = if node == 4 then some 7 else none

abbrev tasks : ℕ → Option Found
tasks pid = if pid == 10 then some found else none

tasks_named : (pid : ℕ) (f : Found) → tasks pid ≡ some f → f.pid ≡ pid
tasks_named pid f e = elim (Bool-cases (pid == 10)) [
  | inl q ↦ let same : found ≡ f = ground (arith, e, q) in rw (← same) (ground (arith, q))
  | inr q ↦ absurd (ground (arith, e, q))
]

handle_recall_req-IsServed_example :
    let r = handle_recall_req config idle two_guests tasks 3 (some 20) in
    (((i : ℕ) (g : GuestInfo)
        → first (λ g. g.orig_pid == 20 && g.home_node == 3) (view two_guests) ≡ some (i, g)
        → tasks g.local_pid ≡ none)
      × (r ≡ (idle, two_guests, [])))
    ⊎ IsServed config idle two_guests tasks 3 20 r
handle_recall_req-IsServed_example =
    handle_recall_req-IsServed config idle two_guests tasks 3 20 tasks_named
