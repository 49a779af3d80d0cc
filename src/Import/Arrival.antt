-- ===== src/Import/Arrival.antt =====
-- The way out: a process is rebuilt in a stub. handle_migrate_req and handle_migrate_done of
-- mattx_import.c, and the hijack command of mattx_main.c that comes between them.
pub mod Guest
use mattx.Base.{
  ℤ, pos, negsuc, ℕ, zero, suc, ◌+◌, ◌-◌, ◌^◌, ◌%◌, ◌/◌, List, [], ◌∷◌, ◌++◌, Bool, true, false,
  ◌&&◌, ◌||◌, Option, none, some, ltb, ◌==◌, if◌then◌else◌, length, get_elem?, set, take,
}
use mattx.Registry.Slots.{find_index, write}
use mattx.Registry.Guests.{
  GuestInfo, Guests, DsmMapping, max_dsm_segments, add_guest_process, is_guest_process,
}
use mattx.Registry.Clock.{ClockFixups, clock_fixup_register}
use mattx.Migr.Blueprint.{MigrationReq, ThreadInfo, VmaInfo, Thread}
use mattx.Migr.AddressSpace.{AddressSpace}
use mattx.Import.Effects.{
  Effect, spawn_surrogate, freeze, put_task, send_ready, set_args, set_brk, set_cred, install_fd,
  sigcont, arm_tripwire,
}
use mattx.Import.Pages.{Arriving}
use mattx.Import.Stub.{
  Stub, arm_segments, bodies, change_guest, clock_offset, fake_fds, fill_guest, infos_of,
  install_fds, map_at, map_segment, map_segments, original_tids, overwrite, wake, with_pfnmap,
}
use mattx.Import.Threads.{inject_gang, injected_tids}

-- The payload is the blueprint; `allocated` is whether kvmalloc has room for the copy.
unfoldable pub handle_migrate_req :
    Arriving → ℕ → Option MigrationReq → Bool → Arriving × List Effect
handle_migrate_req s sender none allocated = (s, [])
handle_migrate_req s sender (some req) allocated =
    let s' = record s { pending_source_node = some sender; injected_pages_count = 0 } in
    if allocated
    then (record s' { pending_migration = some req }, spawn_surrogate ∷ [])
    else (record s' { pending_migration = none }, [])

-- mattx_nl_cmd_hijack_me: `stub` is the task with the pid that the stub gave, `allocated` whether there
-- is memory for the worker. The results are whether the worker was scheduled, and 0, -ENOENT or -ESRCH.
unfoldable pub hijack_me : Arriving → Option ℕ → Bool → Arriving × List Effect × Bool × ℤ
hijack_me s stub allocated = elim s.pending_migration [
  | none ↦ (s, [], false, negsuc 1)
  | some req ↦ elim stub [
    | none ↦ (s, [], false, negsuc 2)
    | some task ↦ (
      record s { hijacked_stub_task = some task },
      elim s.hijacked_stub_task [ none ↦ [] | some old ↦ put_task old ∷ [] ],
      allocated,
      pos 0,
    )
  ]
]

abbrev pub ready_signal : (ℕ → Option ℕ) → Option ℕ → List Effect
ready_signal cluster_map source = elim source [
  | none ↦ []
  | some node ↦ elim (cluster_map node) [ none ↦ [] | some link ↦ send_ready link ∷ [] ]
]

unfoldable pub hijack_kworker : (ℕ → Option ℕ) → Arriving → List Effect
hijack_kworker cluster_map s =
    (elim s.hijacked_stub_task [ none ↦ [] | some task ↦ freeze task ∷ [] ])
    ++ ready_signal cluster_map s.pending_source_node

-- What the node holds that handle_migrate_done changes.
pub record Receiver : Type 0 where
  pub arriving : Arriving
  pub guests : Guests
  pub fixups : ClockFixups
  pub threads : List (ℕ × Thread)

abbrev pub rejoin : List (ℕ × Thread) → List Thread → List (ℕ × Thread)
rejoin ((x, t) ∷ ts) (u ∷ us) = (x, u) ∷ rejoin ts us
rejoin _ _ = []

-- The -1 of no node, as the u32 that is kept.
abbrev pub node_number : Option ℕ → ℕ
node_number none = 2 ^ 32 - 1
node_number (some n) = n

abbrev pub settled : Arriving → Arriving
settled s = record s {
  pending_migration = none;
  pending_source_node = none;
  hijacked_stub_task = none;
}

-- The transplant, with a blueprint and a stub: the state at its end, and the effects up to the signals.
-- The code registers the clock fixups before the signals, and the guest after them.
unfoldable pub transplant : Arriving → Guests → ClockFixups → MigrationReq → Stub → Receiver
unfolding fill_guest change_guest
transplant s gs fx req stub =
    let is = infos_of req in
    let ts = bodies stub.threads in
    let tids = injected_tids is ts in
    record {
      arriving = settled s;
      guests =
          change_guest
            (add_guest_process gs stub.pid req.orig_pid (node_number s.pending_source_node))
            stub.pid (fill_guest req stub);
      fixups =
          clock_fixup_register fx stub.pid (clock_offset stub.now req.monotonic_at_freeze)
            (pos (length tids)) tids;
      threads = rejoin stub.threads (inject_gang req.comm is ts);
    }

unfoldable pub transplant_effects : Arriving → ℕ → MigrationReq → Stub → List Effect
transplant_effects s task req stub =
    (if stub.has_mm
      then set_args task req.arg_start req.arg_end ∷ set_brk task req.start_brk req.brk ∷ []
      else [])
    ++ ((if stub.cred_ok then set_cred task req.uid req.gid ∷ [] else [])
        ++ (fake_fds task (node_number s.pending_source_node) req stub ++ wake stub.threads))

unfoldable pub handle_migrate_done :
    (a : AddressSpace)
    → Arriving
    → Guests
    → ClockFixups
    → Stub
    → a.Space
    → Receiver × a.Space × List Effect
unfolding transplant transplant_effects arm_segments
handle_migrate_done a s gs fx stub m =
    let idle : Receiver = record {
      arriving = s;
      guests = gs;
      fixups = fx;
      threads = stub.threads;
    } in
    elim s.hijacked_stub_task [
      | none ↦ (idle, m, [])
      | some task ↦ elim s.pending_migration [
        | none ↦ (idle, m, [])
        | some req ↦
            let r = transplant s gs fx req stub in
            let here = stub.has_mm && is_guest_process r.guests stub.pid in
            let vmas = if here then take req.vma_count req.vmas else [] in
            let (m', es) = arm_segments a m 0 vmas in
            (r, m', transplant_effects s task req stub ++ (es ++ (put_task task ∷ [])))
      ]
    ]
