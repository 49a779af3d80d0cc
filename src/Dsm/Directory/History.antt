-- ===== src/Dsm/Directory/History.antt =====
-- mattx_global_dsm_dir of mattx_fileio.c under a sequence of the sections that the kworkers run with the
-- lock of the directory, those of different kworkers in any order.
use mattx.Base.{ℕ, ◌/◌, List, [], ◌∷◌, Bool, ◌&&◌, Option, inl, inr, Bool-cases, ◌==◌}
use mattx.Registry.Guests.{page_size}
use mattx.Dsm.Directory.{MasterDir, Host, AcquireReq, dsm_write_acquire_kworker, downgrade}
use mattx.Dsm.Directory.Sync.{SyncWork, downgrade_at, sync_write}
use mattx.Dsm.Directory.Fault.{FaultReq, UpdateReq, pump, dsm_update_kworker}
use mattx.Dsm.Directory.Unique.{
  IsUnique, share-IsUnique, downgrade-IsUnique, cleanup-IsUnique, downgrade_at-IsUnique,
  sync_write-IsUnique, dsm_write_acquire_kworker-IsUnique,
}

pump-IsUnique :
    (host : Host) (mode : ℕ) (dirs : List MasterDir) (req : FaultReq) (node : ℕ)
    (found whole : Bool) (bytes : List ℕ)
    → IsUnique dirs
    → IsUnique (pump host mode dirs req node found whole bytes).0
unfolding pump
pump-IsUnique host mode dirs req node found whole bytes v = elim (Bool-cases (found && whole)) [
  | inr e ↦ rw (e, pump) v
  | inl e ↦ elim (Bool-cases (mode == 2)) [
    | inl m ↦
        rw (e, m, pump) (share-IsUnique dirs req.shmid req.orig_pid (req.offset / page_size) node v)
    | inr m ↦ rw (e, m, pump) v
  ]
]

dsm_update_kworker-IsUnique :
    (host : Host) (mode : ℕ) (dirs : List MasterDir) (req : UpdateReq) (cached : Bool)
    → IsUnique dirs
    → IsUnique (dsm_update_kworker host mode dirs req cached).0
unfolding dsm_update_kworker
dsm_update_kworker-IsUnique host mode dirs req cached v =
    elim (Bool-cases (host.covers req.orig_pid req.shmid req.offset)) [
      | inr e ↦ rw (e, dsm_update_kworker) v
      | inl e ↦ elim (Bool-cases (mode == 2)) [
        | inl m ↦
            rw (e, m, dsm_update_kworker)
              (cleanup-IsUnique dirs req.shmid req.orig_pid (req.offset / page_size) v)
        | inr m ↦ rw (e, m, dsm_update_kworker) v
      ]
    ]

-- The sections of the kworkers under mattx_dsm_lock, each with what it reads besides: those of a fault
-- are `downgraded` and `pumped`, those of a touch by the home node `downgraded_at` and `synced`.
pub data Event : Type 0 where
  write_acquire : AcquireReq → (node : ℕ) → Event
  downgraded : FaultReq → Event
  pumped : (mode : ℕ) → FaultReq → (node : ℕ) → (found whole : Bool) → (bytes : List ℕ) → Event
  page_update : (mode : ℕ) → UpdateReq → (cached : Bool) → Event
  downgraded_at : (index : Option ℕ) → SyncWork → Event
  synced : (index : Option ℕ) → SyncWork → Event

unfoldable pub step : Host → List MasterDir → Event → List MasterDir
step host dirs (write_acquire req node) = (dsm_write_acquire_kworker host dirs req node).0
step host dirs (downgraded req) = downgrade dirs req.shmid (req.offset / page_size)
step host dirs (pumped mode req node found whole bytes) =
    (pump host mode dirs req node found whole bytes).0
step host dirs (page_update mode req cached) = (dsm_update_kworker host mode dirs req cached).0
step host dirs (downgraded_at index w) = downgrade_at dirs index (w.offset / page_size)
step host dirs (synced index w) = (sync_write host dirs index w).0

unfoldable pub run : Host → List MasterDir → List Event → List MasterDir
run host dirs [] = dirs
run host dirs (e ∷ es) = run host (step host dirs e) es

step-IsUnique :
    (host : Host) (dirs : List MasterDir) (e : Event) → IsUnique dirs → IsUnique (step host dirs e)
unfolding step
step-IsUnique host dirs (write_acquire req node) v =
    dsm_write_acquire_kworker-IsUnique host dirs req node v
step-IsUnique host dirs (downgraded req) v =
    downgrade-IsUnique dirs req.shmid (req.offset / page_size) v
step-IsUnique host dirs (pumped mode req node found whole bytes) v =
    pump-IsUnique host mode dirs req node found whole bytes v
step-IsUnique host dirs (page_update mode req cached) v =
    dsm_update_kworker-IsUnique host mode dirs req cached v
step-IsUnique host dirs (downgraded_at index w) v =
    downgrade_at-IsUnique dirs index (w.offset / page_size) v
step-IsUnique host dirs (synced index w) v = sync_write-IsUnique host dirs index w v

-- Whatever faults, acquires, updates and writes of the home node happen, in any order and with
-- their sections mixed, no segment gets
-- two entries in the directory: two slots in use that name the same segment are the same slot.
pub run-IsUnique :
    (host : Host) (dirs : List MasterDir) (es : List Event)
    → IsUnique dirs
    → IsUnique (run host dirs es)
unfolding run
run-IsUnique host dirs [] v = v
run-IsUnique host dirs (e ∷ es) v =
    run-IsUnique host (step host dirs e) es (step-IsUnique host dirs e v)
