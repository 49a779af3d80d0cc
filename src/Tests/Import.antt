-- ===== src/Tests/Import.antt =====
-- The process of Tests/Migr where it arrives, and where it comes back.
use mattx.Base.{
  ℕ, ◌≡◌, refl, List, [], ◌∷◌, ◌++◌, map, true, false, ◌||◌, some, if◌then◌else◌, arith,
}
use mattx.Registry.Slots.{view}
use mattx.Registry.Guests.{GuestInfo, is_guest_process}
use mattx.Migr.Blueprint.{Thread, VmaInfo, capture_thread}
use mattx.Migr.Pump.{Pumped, pump_vmas, nothing_pumped}
use mattx.Import.Pages.{Arriving, inject}
use mattx.Import.Pages.Flags.{vm_flags-inject}
use mattx.Import.Pages.Arrive.{receive}
use mattx.Import.Pages.Copied.{Serves, covered, pump_vmas-receive}
use mattx.Import.Threads.{TidWord, inject_gang}
use mattx.Import.Threads.Revived.{retid, inject_gang-capture_thread}
use mattx.Import.Stub.{Stub}
use mattx.Import.Arrival.{transplant}
use mattx.Import.Arrival.Guest.{IsGuest, transplant-IsGuest}
use mattx.Import.Carver.{carve, carve_all}
use mattx.Import.Carver.Covers.{in_areas, carve_all-mapped, mapped-hole}
use mattx.Import.Return.{Deputy, restore_deputy}
use mattx.Import.Return.Home.{IsHome, restore_deputy-IsHome}
use mattx.Tests.Registry.{two_guests, two_guests-IsValid, one_export, one_export-IsValid, fixups}
use mattx.Tests.Space.{flat, source, target, length-cells, linear, heap}
use mattx.Tests.Migr.{thread_at, area, shared, blueprint, luck}

abbrev arriving : Arriving
arriving = record {
  pending_migration = some blueprint;
  pending_source_node = some 4;
  hijacked_stub_task = some 9;
  injected_pages_count = 0;
}

area-Serves : Serves flat source area
area-Serves = record {
  user = (omega arith, omega arith);
  readable = λ x n l h. length-cells source.bytes x n;
  writable = λ m x n bs l h e. e;
}

-- The read-only area of three bytes arrives.
pump_vmas-receive_example :
    (q : Pumped) × (pump_vmas flat source luck 7 false 0 (area ∷ []) nothing_pumped ≡ some q)
    × ((y : ℕ)
        → flat.byte_at (receive flat q.out (arriving, target)).1 y
          ≡ (if covered false y (area ∷ []) then source.bytes y else target.bytes y))
pump_vmas-receive_example =
    pump_vmas-receive flat source luck 7 (arriving, target) (λ i x. refl) (λ i x. refl) refl false
      (area ∷ []) (area-Serves, tt)

vm_flags-inject_example : flat.vm_flags (inject flat target 4096 (1 ∷ 2 ∷ 3 ∷ [])).0 1 ≡ 5
vm_flags-inject_example = vm_flags-inject flat target 4096 1 (1 ∷ 2 ∷ 3 ∷ [])

abbrev gang : List Thread
gang = thread_at 1 ∷ thread_at 2 ∷ []

abbrev stub_gang : List Thread
stub_gang = thread_at 31 ∷ thread_at 32 ∷ []

inject_gang-capture_thread_example :
    map capture_thread (inject_gang (109 ∷ []) (map capture_thread gang) stub_gang)
    ≡ retid (map capture_thread gang) stub_gang
inject_gang-capture_thread_example =
    inject_gang-capture_thread (109 ∷ []) gang stub_gang (refl, (refl, tt))

abbrev stub : Stub
stub = record {
  pid = 31;
  threads = (91, thread_at 31) ∷ (92, thread_at 32) ∷ [];
  has_mm = true;
  max_fds = some 64;
  now = 5000;
  cred_ok = true;
  files_ok = true;
  fd_ok = λ fd. true;
}

stub_is_new : is_guest_process two_guests 31 ≡ false
unfolding is_guest_process
stub_is_new = refl

transplant-IsGuest_example :
    (g : GuestInfo) × (view (transplant arriving two_guests fixups blueprint stub).guests
      ≡ view two_guests ++ (g ∷ []))
    × IsGuest g blueprint stub 4
transplant-IsGuest_example =
    transplant-IsGuest arriving two_guests fixups blueprint stub two_guests-IsValid (omega arith)
      stub_is_new

-- The heap has grown and a shared segment is new.
abbrev grown : VmaInfo
grown = record { vm_start = 4096; vm_end = 16384; vm_flags = 3; shmid = 0; is_shm = false }

carve_all-mapped_example :
    linear.mapped (carve_all linear true (grown ∷ shared ∷ []) heap) 12000
    ≡ (linear.mapped heap 12000 || in_areas 12000 (grown ∷ shared ∷ []))
carve_all-mapped_example =
    carve_all-mapped linear (grown ∷ shared ∷ []) heap 12000 (λ m s n p f. refl)

mapped-hole_example : linear.mapped (carve linear false grown heap) 12000 ≡ true
mapped-hole_example =
    mapped-hole linear grown heap 12000 (λ s n p f. refl) (λ s e q l h. ground arith) (omega arith)
      (omega arith)

abbrev words : List TidWord
words = record { addr = 5000; remote = 1; local = 31 } ∷ []

abbrev deputy : Deputy
deputy = record {
  task = 9;
  pid = 20;
  tgid = 20;
  threads = (91, thread_at 31) ∷ (92, thread_at 32) ∷ [];
  has_mm = true;
  can_grow = true;
  can_exorcise = λ t. true;
  now = 5000;
}

restore_deputy-IsHome_example :
    IsHome flat one_export blueprint deputy
      (restore_deputy arriving one_export fixups blueprint deputy)
restore_deputy-IsHome_example =
    restore_deputy-IsHome flat arriving one_export fixups blueprint deputy one_export-IsValid
      ((refl, (refl, tt)), omega arith)
