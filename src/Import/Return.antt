-- ===== src/Import/Return.antt =====
-- The way home: handle_return_blueprint and handle_return_done of mattx_import.c, where the deputy, the
-- process that stayed behind, takes the state of its surrogate.
pub mod Words
pub mod Home
use mattx.Base.{
  ℕ, zero, suc, ◌+◌, ◌-◌, List, [], ◌∷◌, ◌++◌, Bool, true, false, ◌&&◌, Option, none, some, ltb,
  leb, ◌==◌, if◌then◌else◌, length, take, drop, pos,
}
use mattx.Comm.Header.{u32_bytes, u32_at}
use mattx.Registry.Slots.{find_index, write}
use mattx.Registry.Exports.{ExportInfo, Exports, remove_export_process}
use mattx.Registry.Clock.{ClockFixups, clock_fixup_register, max_gang_threads}
use mattx.Migr.Blueprint.{MigrationReq, Thread}
use mattx.Migr.AddressSpace.{AddressSpace}
use mattx.Import.Effects.{Effect, put_task, set_brk, sigcont, sigstop, grow_gang, exorcise}
use mattx.Import.Pages.{Arriving}
use mattx.Import.Threads.{inject_gang, injected_tids, TidWord, tid_words}
use mattx.Import.Carver.{MemoryMap, carve_all}
use mattx.Import.Stub.{bodies, wake, infos_of, clock_offset}
use mattx.Import.Arrival.{rejoin, settled, ready_signal}

-- The first export of this process, changed.
unfoldable pub change_export : Exports → ℕ → (ExportInfo → ExportInfo) → Exports
change_export t pid f = elim (find_index (λ e. e.orig_pid == pid) t) [
  | none ↦ t
  | some (i, e) ↦ write t i (f e)
]

-- The deputy as the two handlers find it. `can_grow`: memory and the kernel's task_work_add are had.
pub record Deputy : Type 0 where
  pub task : ℕ
  pub pid : ℕ
  pub tgid : ℕ
  pub threads : List (ℕ × Thread)
  pub has_mm : Bool
  pub can_grow : Bool
  pub can_exorcise : ℕ → Bool
  pub now : ℕ

-- The missing threads are grown by the mother herself: she is woken for it and stopped again, and
-- clears the flag.
unfoldable pub grow : Exports → ℕ → Deputy → ℕ → Exports × List Effect
unfolding change_export
grow ex orig_pid d threads =
    let missing = threads - length d.threads in
    if ltb 0 missing
    then (let ex' = change_export ex orig_pid (λ e. record e { is_growing_gang = true }) in
        if d.can_grow
        then (
          change_export ex' d.tgid (λ e. record e { is_growing_gang = false }),
          grow_gang d.task missing ∷ sigcont d.task ∷ sigstop d.task ∷ [],
        )
        else (ex', []))
    else (ex, [])

module _ (k : MemoryMap) where
  unfoldable pub prepare_deputy :
      Arriving
      → Exports
      → k.Map
      → MigrationReq
      → Deputy
      → Bool
      → (ℕ → Option ℕ)
      → Arriving × Exports × k.Map × List Effect
  unfolding grow change_export
  prepare_deputy s ex m req d mpi_support cluster_map =
      let aborted = change_export ex req.orig_pid (λ e. record e { abort_rpc = true }) in
      let (ex', es) = grow aborted req.orig_pid d req.thread_count in
      let vmas = if d.has_mm then take req.vma_count req.vmas else [] in
      (
        record s { hijacked_stub_task = some d.task },
        ex',
        carve_all k mpi_support vmas m,
        es
            ++ ((elim s.hijacked_stub_task [ none ↦ [] | some old ↦ put_task old ∷ [] ])
                ++ ready_signal cluster_map s.pending_source_node),
      )

  -- `deputy` is the task with the pid of the blueprint.
  unfoldable pub handle_return_blueprint :
      Arriving
      → Exports
      → k.Map
      → ℕ
      → Option MigrationReq
      → Bool
      → Option Deputy
      → Bool
      → (ℕ → Option ℕ)
      → Arriving × Exports × k.Map × List Effect
  unfolding prepare_deputy
  handle_return_blueprint s ex m sender none allocated deputy mpi_support cluster_map =
      (s, ex, m, [])
  handle_return_blueprint s ex m sender (some req) allocated deputy mpi_support cluster_map =
      let s' = record s { pending_source_node = some sender; injected_pages_count = 0 } in
      if allocated
      then (let s'' = record s' { pending_migration = some req } in
          elim deputy [
            | none ↦ (s'', ex, m, [])
            | some d ↦ prepare_deputy s'' ex m req d mpi_support cluster_map
          ])
      else (record s' { pending_migration = none }, ex, m, [])

module _ (a : AddressSpace) where
  -- One thread's id in user memory: it is rewritten only where it still is the remote one.
  unfoldable pub fix_word : a.Space → TidWord → a.Space
  fix_word m w =
      let held = a.read m w.addr 4 in
      if w.remote == w.local
      then m
      else (if length held == 4 && u32_at held == w.remote
          then (a.write m w.addr (u32_bytes w.local)).0
          else m)

  unfoldable pub fix_words : a.Space → List TidWord → a.Space
  unfolding fix_word
  fix_words m [] = m
  fix_words m (w ∷ ws) = fix_words (fix_word m w) ws

-- The threads that the surrogate does not have any more.
unfoldable pub exorcise_all : (ℕ → Bool) → List (ℕ × Thread) → List Effect
exorcise_all can [] = []
exorcise_all can ((x, t) ∷ ts) =
    let rest = exorcise_all can ts in if can x then exorcise x ∷ rest else rest

-- `for (...) if (orig_pid == pid) { remove_export_process(i); break; }`
unfoldable pub drop_export : Exports → ℕ → Exports
drop_export t pid = elim (find_index (λ e. e.orig_pid == pid) t) [
  | none ↦ t
  | some (i, e) ↦ remove_export_process t (pos i)
]

pub record Returned : Type 0 where
  pub arriving : Arriving
  pub exports : Exports
  pub fixups : ClockFixups
  pub threads : List (ℕ × Thread)

unfoldable pub restore_deputy : Arriving → Exports → ClockFixups → MigrationReq → Deputy → Returned
unfolding drop_export
restore_deputy s ex fx req d =
    let is = infos_of req in
    let ts = bodies d.threads in
    let tids = take max_gang_threads (injected_tids is ts) in
    record {
      arriving = settled s;
      exports = drop_export ex d.pid;
      fixups =
          clock_fixup_register fx d.pid (clock_offset d.now req.monotonic_at_freeze)
            (pos (length tids)) tids;
      threads = rejoin d.threads (inject_gang req.comm is ts);
    }

unfoldable pub handle_return_done :
    (a : AddressSpace)
    → Arriving
    → Exports
    → ClockFixups
    → Deputy
    → a.Space
    → Returned × a.Space × List Effect
unfolding restore_deputy exorcise_all fix_words
handle_return_done a s ex fx d m =
    let idle : Returned = record { arriving = s; exports = ex; fixups = fx; threads = d.threads } in
    elim s.hijacked_stub_task [
      | none ↦ (idle, m, [])
      | some task ↦ elim s.pending_migration [
        | none ↦ (idle, m, [])
        | some req ↦ (
          restore_deputy s ex fx req d,
          fix_words a m (tid_words 0 (infos_of req) (bodies d.threads)),
          exorcise_all d.can_exorcise (drop (length (infos_of req)) d.threads)
              ++ ((if d.has_mm then set_brk task req.start_brk req.brk ∷ [] else [])
                  ++ (wake d.threads ++ (put_task task ∷ []))),
        )
      ]
    ]
