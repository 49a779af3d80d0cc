-- ===== src/Dsm/Directory/Sync.antt =====
-- mattx_vm1_shm_sync_kworker of mattx_fileio.c: a process of the home node touches a page that a guest
-- may own. The kworker takes the lock of the directory anew for each section: sync_begin, where it
-- waited sync_wake and downgrade_at, and sync_write.
use mattx.Base.{
  ℕ, ◌/◌, List, [], ◌∷◌, ◌++◌, Bool, Option, none, some, ◌==◌, if◌then◌else◌, set, get_elem?, ℤ,
  pos, negsuc, zero, suc,
}
use mattx.Registry.Slots.{first}
use mattx.Registry.Guests.{shared, page_size}
use mattx.Registry.Exports.{Exports, get_export_target}
use mattx.Dsm.Directory.{
  MasterDir, Effect, Host, is_dir, put_page, owner_of, native_write, send_flush_req,
  write_mapping_page, sigcont,
}
use mattx.Dsm.Rpc.{Rpc, alloc, release}

-- struct mattx_vm1_sync_work
pub record SyncWork : Type 0 where
  pub local_pid : ℕ
  pub shmid : ℕ
  pub offset : ℕ
  pub is_write : Bool

-- `dir_idx` of the search, `none` for -1.
abbrev pub dir_idx : List MasterDir → ℕ → Option ℕ
dir_idx dirs shmid = elim (first (is_dir shmid) dirs) [ none ↦ none | some (i, d) ↦ some i ]

-- The node to ask: that of the exported owner, if it is connected.
unfoldable pub flush_target : Host → Exports → List MasterDir → SyncWork → Option (ℕ × ℕ)
flush_target host exports dirs w =
    let owner = owner_of dirs w.shmid (w.offset / page_size) in
    if owner == 0 then none else (elim (get_export_target exports owner) [
      | none ↦ none
      | some node ↦ if host.connected node then some (node, owner) else none
    ])

-- Until the kworker sleeps, or goes on at once: the slot it waits on, if it waits. `memory` is whether
-- kmalloc gives the buffer, with what it holds.
unfoldable pub sync_begin :
    Host
    → Exports
    → List MasterDir
    → Rpc
    → Option (List ℕ)
    → SyncWork
    → Rpc × Option ℕ × List Effect
sync_begin host exports dirs rpc none w = (rpc, none, [])
sync_begin host exports dirs rpc (some buf) w = elim (flush_target host exports dirs w) [
  | none ↦ (rpc, none, [])
  | some (node, owner) ↦
      let (rpc', slot) = alloc rpc (some buf) in
      elim slot [
        | none ↦ (rpc', none, [])
        | some (i, id) ↦ (rpc', some i, send_flush_req node id owner w.shmid w.offset ∷ [])
      ]
]

-- The bytes of an answer without error go to memory, where the process is there to find it by.
abbrev pub flushed : Host → SyncWork → Option ℤ → List ℕ → List Effect
flushed host w (some (pos zero)) page =
    if host.maps w.local_pid w.shmid
    then write_mapping_page w.local_pid w.shmid w.offset page ∷ []
    else []
flushed host w (some (pos (suc n))) page = []
flushed host w (some (negsuc n)) page = []
flushed host w none page = []

abbrev pub downgrade_at : List MasterDir → Option ℕ → ℕ → List MasterDir
downgrade_at dirs none page = dirs
downgrade_at dirs (some i) page = elim (get_elem? dirs i) [
  | none ↦ dirs
  | some d ↦ set dirs i (put_page d page shared 0)
]

abbrev pub write_at : Host → List MasterDir → Option ℕ → SyncWork → List MasterDir × List Effect
write_at host dirs none w = (dirs, [])
write_at host dirs (some i) w =
    if w.is_write then native_write host dirs i w.shmid w.offset else (dirs, [])

-- The end of the wait: the slot is free again and the answer goes to memory; `page` is what the
-- buffer holds. `downgrade_at` is the next step; a kworker that did not wait has neither.
unfoldable pub sync_wake : Host → Rpc → (slot : ℕ) (page : List ℕ) → SyncWork → Rpc × List Effect
sync_wake host rpc slot page w =
    let (rpc', error) = release rpc slot in (rpc', flushed host w error page)

-- The last section of the kworker and the end, `index` found before the wait. Without a write the
-- owner keeps the page.
unfoldable pub sync_write :
    Host → List MasterDir → (index : Option ℕ) → SyncWork → List MasterDir × List Effect
sync_write host dirs index w =
    let (dirs', told) = write_at host dirs index w in
    (dirs', told ++ (if host.alive w.local_pid then sigcont w.local_pid ∷ [] else []))
