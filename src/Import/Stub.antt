-- ===== src/Import/Stub.antt =====
-- The stub that a process is rebuilt in, and the parts of handle_migrate_done of mattx_import.c that
-- fill its descriptors, its entry in the guest registry and its shared areas.
pub mod Segments
use mattx.Base.{
  ℕ, zero, suc, ◌+◌, ◌-◌, ◌^◌, ◌%◌, ◌/◌, List, [], ◌∷◌, ◌++◌, Bool, true, false, ◌&&◌, ◌||◌, Option,
  none, some, ltb, ◌==◌, if◌then◌else◌, length, get_elem?, set, pos, take,
}
use mattx.Registry.Slots.{find_index, write}
use mattx.Registry.Guests.{
  GuestInfo, Guests, DsmMapping, max_dsm_segments, add_guest_process, is_guest_process,
}
use mattx.Registry.Clock.{ClockFixups, clock_fixup_register}
use mattx.Migr.Blueprint.{MigrationReq, ThreadInfo, VmaInfo, Thread}
use mattx.Migr.AddressSpace.{AddressSpace}
use mattx.Import.Effects.{
  Effect, spawn_surrogate, freeze, put_task, send_ready, set_args, set_brk, set_cred, install_fd,
  sigcont, arm_tripwire,
}
use mattx.Import.Pages.{Arriving}
use mattx.Import.Threads.{inject_gang, injected_tids}

-- The stub as handle_migrate_done finds it. The threads are in the order of for_each_thread, each by
-- its address; the stub is stopped, so every pass over them finds the same ones.
pub record Stub : Type 0 where
  pub pid : ℕ
  pub threads : List (ℕ × Thread)
  pub has_mm : Bool
  pub max_fds : Option ℕ  -- `none`: no files
  pub now : ℕ
  pub cred_ok : Bool
  pub files_ok : Bool  -- the array of files is had
  pub fd_ok : ℕ → Bool  -- the proxy file for one descriptor is had

abbrev pub bodies : List (ℕ × Thread) → List Thread
bodies [] = []
bodies ((x, t) ∷ ts) = t ∷ bodies ts

abbrev pub wake : List (ℕ × Thread) → List Effect
wake [] = []
wake ((x, t) ∷ ts) = sigcont x ∷ wake ts

-- The blueprints of the threads, as far as `thread_count` goes.
abbrev pub infos_of : MigrationReq → List ThreadInfo
infos_of req = take req.thread_count req.threads

abbrev pub install_fds : ℕ → ℕ → ℕ → ℕ → (ℕ → Bool) → List ℕ → List Effect
install_fds task max_fds node orig_pid ok [] = []
install_fds task max_fds node orig_pid ok (fd ∷ fds) =
    let rest = install_fds task max_fds node orig_pid ok fds in
    if ltb fd max_fds && ok fd then install_fd task fd node orig_pid ∷ rest else rest

abbrev pub fake_fds : ℕ → ℕ → MigrationReq → Stub → List Effect
fake_fds task node req stub =
    if stub.files_ok
    then (elim stub.max_fds [
      | none ↦ []
      | some max_fds ↦
          install_fds task max_fds node req.orig_pid stub.fd_ok (take req.fd_count req.open_fds)
    ])
    else []

-- `(s64)ktime_get_ns() - (s64)monotonic_at_freeze`, as the 64 bits that are stored.
abbrev pub clock_offset : ℕ → ℕ → ℕ
clock_offset now frozen = (now + (2 ^ 64 - frozen % 2 ^ 64)) % 2 ^ 64

-- The ids that the threads had, thread by thread, and a write over the start of an array.
unfoldable pub original_tids : List ThreadInfo → List Thread → List ℕ
original_tids [] ts = []
original_tids (i ∷ is) [] = []
original_tids (i ∷ is) (t ∷ ts) = i.tid ∷ original_tids is ts

unfoldable pub overwrite : List ℕ → List ℕ → List ℕ
overwrite [] old = old
overwrite (x ∷ xs) [] = []
overwrite (x ∷ xs) (o ∷ old) = x ∷ overwrite xs old

-- `dsm_map[d_idx].base_addr = base; ...`
abbrev pub map_segment : VmaInfo → DsmMapping → DsmMapping
map_segment v m = record m { base_addr = v.vm_start; size = v.vm_end - v.vm_start; shmid = v.shmid }

abbrev pub map_at : VmaInfo → ℕ → List DsmMapping → List DsmMapping
map_at v n ms = elim (get_elem? ms n) [ none ↦ ms | some m ↦ set ms n (map_segment v m) ]

-- The loop over the areas: `n` is `dsm_count`.
unfoldable pub map_segments : List VmaInfo → ℕ → List DsmMapping → ℕ × List DsmMapping
map_segments [] n ms = (n, ms)
map_segments (v ∷ vs) n ms = elim (v.is_shm && ltb n max_dsm_segments) [
  | true ↦ map_segments vs (n + 1) (map_at v n ms)
  | false ↦ map_segments vs n ms
]

-- What is written in the entry of the new guest.
unfoldable pub fill_guest : MigrationReq → Stub → GuestInfo → GuestInfo
unfolding map_segments overwrite original_tids
fill_guest req stub g =
    let is = infos_of req in
    let ts = bodies stub.threads in
    let g' = record g {
      thread_count = req.thread_count;
      orig_tids = overwrite (original_tids is ts) g.orig_tids;
      local_tids = overwrite (injected_tids is ts) g.local_tids;
      dsm_count = 0;
    } in
    if stub.has_mm
    then (let (n, ms) = map_segments (take req.vma_count req.vmas) 0 g.dsm_map in
        record g' { dsm_count = n; dsm_map = ms })
    else g'

-- The first guest with this pid, changed.
unfoldable pub change_guest : Guests → ℕ → (GuestInfo → GuestInfo) → Guests
change_guest t pid f = elim (find_index (λ g. g.local_pid == pid) t) [
  | none ↦ t
  | some (i, g) ↦ write t i (f g)
]

module _ (a : AddressSpace) where
  -- `vm_flags | VM_PFNMAP`
  abbrev pub with_pfnmap : ℕ → ℕ
  with_pfnmap flags = if (flags / 1024) % 2 == 1 then flags else flags + 1024

  -- The area that starts at the segment's base gets the fault handler of the DSM.
  unfoldable pub arm_area : a.Space → ℕ → a.Space × List Effect
  arm_area m base = elim (a.find_vma m base) [
    | none ↦ (m, [])
    | some v ↦
        if a.vm_start m v == base
        then (a.set_flags m v (with_pfnmap (a.vm_flags m v)), arm_tripwire v ∷ [])
        else (m, [])
  ]

  unfoldable pub arm_segments : a.Space → ℕ → List VmaInfo → a.Space × List Effect
  unfolding arm_area
  arm_segments m n [] = (m, [])
  arm_segments m n (v ∷ vs) = elim (v.is_shm && ltb n max_dsm_segments) [
    | true ↦
        let (m', es) = arm_area m v.vm_start in
        let (m'', fs) = arm_segments m' (n + 1) vs in (m'', es ++ fs)
    | false ↦ arm_segments m n vs
  ]
