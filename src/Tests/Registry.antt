-- ===== src/Tests/Registry.antt =====
-- A guest registry, an export registry and a table of clock fixups with an entry each.
use mattx.Base.{
  ℕ, ◌≡◌, [], ◌∷◌, ◌++◌, true, false, none, some, arith, replicate, length-replicate, All,
  if◌then◌else◌, ◌==◌, ◌&&◌, ◌||◌, Perm, ◌⊎◌,
}
use mattx.Registry.Slots.{view, IsValid}
use mattx.Registry.Guests.{GuestInfo, Guests, zero_mapping, free_pages, pages_of, exclusive}
use mattx.Registry.Exports.{ExportInfo, Exports}
use mattx.Registry.Clock.{ClockFixups}
use mattx.Registry.Watch.{World, watch_guests, kfree_buf}
use mattx.Registry.Watch.Burials.{watch_guests-Watched}
use mattx.Registry.Watch.Burials
use mattx.Registry.Lifecycle.{Tasks, kill_task, handle_kill_surrogate}
use mattx.Registry.Lifecycle.Authority.{IsTarget, handle_kill_surrogate-IsTarget}

-- A guest with local pid `p` of process `o` of node `h`, that holds one segment with one page.
abbrev pub guest : ℕ → ℕ → ℕ → GuestInfo
guest p o h = record {
  local_pid = p;
  orig_pid = o;
  home_node = h;
  rpc_wq = none;
  rpc_remote_fd = 0;
  rpc_done = false;
  rpc_read_buf = some 77;
  rpc_read_bytes = 0;
  rpc_lseek_res = 0;
  rpc_statx_buf = none;
  rpc_fsync_res = 0;
  is_migrating = false;
  thread_count = 0;
  orig_tids = [];
  local_tids = [];
  dsm_count = 1;
  dsm_map =
      record zero_mapping {
        shmid = 5;
        size = 4096;
        pages = λ p. if p == 0 then some (1 ∷ []) else none;
        page_states = λ p. exclusive;
      }
      ∷ replicate 15 zero_mapping;
  dsm_step_pending = false;
  dsm_step_is_write = false;
  dsm_step_addr = 0;
  dsm_step_shmid = 0;
}

abbrev pub two_guests : Guests
two_guests = record {
  entries = guest 10 20 3 ∷ guest 11 21 3 ∷ replicate 1022 (guest 0 0 0);
  count = 2;
}

pub two_guests-IsValid : IsValid two_guests
two_guests-IsValid = record {
  size = omega (arith, length-replicate 1022 (guest 0 0 0));
  within = omega arith;
}

abbrev pub export : ℕ → ℕ → ExportInfo
export o n = record {
  orig_pid = o;
  target_node = n;
  remote_files = some 4 ∷ none ∷ [];
  abort_rpc = false;
  is_growing_gang = false;
}

abbrev pub one_export : Exports
one_export = record { entries = export 20 3 ∷ replicate 1023 (export 0 0); count = 1 }

pub one_export-IsValid : IsValid one_export
one_export-IsValid = record {
  size = omega (arith, length-replicate 1023 (export 0 0));
  within = omega arith;
}

-- Process 10 has two threads to correct; another entry is free.
abbrev pub fixups : ClockFixups
fixups =
    record {
      in_use = true;
      local_pid = 10;
      offset_ns = 500;
      thread_count = 2;
      threads = (10, true) ∷ (11, true) ∷ replicate 14 (0, false);
    }
    ∷ record {
      in_use = false;
      local_pid = 0;
      offset_ns = 0;
      thread_count = 0;
      threads = replicate 16 (0, false);
    }
    ∷ []

-- Pids 10 and 20 have ended.
abbrev world : World
world = record {
  dead = λ p. (p == 10) || (p == 20);
  connected = λ n. n == 3;
  dsm_mode = 2;
  memory = true;
}

watch_guests-Watched_example :
    let (t', es) = watch_guests world 2 two_guests in Burials.Watched world two_guests t' es
watch_guests-Watched_example =
    watch_guests-Watched world 2 two_guests two_guests-IsValid (omega arith)

abbrev tasks : Tasks
tasks = record { exists = λ p. true; memory = true }

handle_kill_surrogate-IsTarget_example :
    let (t', effects) = handle_kill_surrogate tasks two_guests 3 (some 20) in
    ((t' ≡ two_guests)
      × (effects ≡ [])
      × All (λ g. (g.orig_pid == 20 && g.home_node == 3) ≡ false) (view two_guests))
    ⊎ ((g : GuestInfo) × IsTarget 3 20 g
        × Perm (view two_guests) (g ∷ view t')
        × IsValid t'
        × (effects
            ≡ free_pages (pages_of g)
              ++ (kfree_buf g.rpc_read_buf
                  ++ (kfree_buf g.rpc_statx_buf ++ kill_task tasks g.local_pid))))
handle_kill_surrogate-IsTarget_example =
    handle_kill_surrogate-IsTarget tasks two_guests 3 20 two_guests-IsValid
