-- ===== src/Dsm/Directory/Fault.antt =====
-- mattx_dsm_fault_kworker and mattx_dsm_update_kworker of mattx_fileio.c: a guest asks the home node for
-- a page, and sends one back. The first takes the lock of the directory anew for each section and sleeps
-- between them: fault_begin, then where it waited fault_wake and `downgrade` of Dsm/Directory, and pump.
use mattx.Base.{
  ℕ, ◌/◌, List, [], ◌∷◌, Bool, ◌&&◌, Option, none, some, ◌==◌, if◌then◌else◌, ℤ, pos, negsuc, zero,
  suc, ◌||◌,
}
use mattx.Registry.Guests.{page_size}
use mattx.Registry.Exports.{Exports, get_export_target}
use mattx.Dsm.Directory.{
  MasterDir, Effect, Host, owner_of, share, cleanup, send_flush_req, write_mapping_page,
  send_page_fault_reply,
}
use mattx.Dsm.Rpc.{Rpc, alloc, release}

-- struct mattx_dsm_page_fault_req
pub record FaultReq : Type 0 where
  pub req_id : ℕ
  pub orig_pid : ℕ
  pub shmid : ℕ
  pub offset : ℕ

-- The owner to ask for a flush, with its node: another process that is exported to a connected node.
unfoldable pub other_owner : Host → Exports → List MasterDir → FaultReq → Option (ℕ × ℕ)
other_owner host exports dirs req =
    let owner = owner_of dirs req.shmid (req.offset / page_size) in
    if (owner == 0) || (owner == req.orig_pid)
    then none
    else (elim (get_export_target exports owner) [
      | none ↦ none
      | some node ↦ if host.connected node then some (node, owner) else none
    ])

-- Until the kworker sleeps or goes on at once, once it has memory for its answer: the slot it waits on,
-- if it waits. `buf` is the buffer of kmalloc, `mode` is config_dsm_mode.
unfoldable pub fault_begin :
    Host
    → ℕ
    → Exports
    → List MasterDir
    → Rpc
    → Option (List ℕ)
    → FaultReq
    → Rpc × Option ℕ × List Effect
fault_begin host mode exports dirs rpc none req = (rpc, none, [])
fault_begin host mode exports dirs rpc (some buf) req =
    if host.covers req.orig_pid req.shmid req.offset && (mode == 2)
    then (elim (other_owner host exports dirs req) [
      | none ↦ (rpc, none, [])
      | some (node, owner) ↦
          let (rpc', slot) = alloc rpc (some buf) in
          elim slot [
            | none ↦ (rpc', none, [])
            | some (i, id) ↦ (rpc', some i, send_flush_req node id owner req.shmid req.offset ∷ [])
          ]
    ])
    else (rpc, none, [])

-- -EFAULT
abbrev pub efault : ℤ
efault = negsuc 13

-- The bytes of an answer without error go to memory.
abbrev pub flushed : Host → FaultReq → Option ℤ → List ℕ → List Effect
flushed host req (some (pos zero)) page =
    if host.maps req.orig_pid req.shmid
    then write_mapping_page req.orig_pid req.shmid req.offset page ∷ []
    else []
flushed host req (some (pos (suc n))) page = []
flushed host req (some (negsuc n)) page = []
flushed host req none page = []

abbrev pub fault_reply : Host → ℕ → ℕ → ℤ → List ℕ → List Effect
fault_reply host node req_id error page =
    if host.connected node then send_page_fault_reply node req_id error page ∷ [] else []

-- The pump, a section of its own after the unlocked read of the memory: `found` is whether the first
-- step found the address, `whole` whether access_process_vm read all 4096 bytes, `data'` what the
-- answer then holds.
unfoldable pub pump :
    Host
    → ℕ
    → List MasterDir
    → FaultReq
    → ℕ
    → (found whole : Bool) → (data' : List ℕ) → List MasterDir × List Effect
pump host mode dirs req node found whole data' =
    if found && whole
    then (
      (if mode == 2 then share dirs req.shmid req.orig_pid (req.offset / page_size) node else dirs),
      fault_reply host node req.req_id (pos 0) data',
    )
    else (dirs, fault_reply host node req.req_id efault data')

-- The end of the wait: the slot is free again and an answer without error goes to memory; `page` is
-- what the flush buffer holds. The downgrade of the directory is the next step, then the pump.
unfoldable pub fault_wake : Host → Rpc → (slot : ℕ) (page : List ℕ) → FaultReq → Rpc × List Effect
fault_wake host rpc slot page req =
    let (rpc', error) = release rpc slot in (rpc', flushed host req error page)

-- struct mattx_dsm_page_update_req
pub record UpdateReq : Type 0 where
  pub orig_pid : ℕ
  pub shmid : ℕ
  pub offset : ℕ
  pub page : List ℕ

-- `cached` is whether filemap_get_folio finds the page.
unfoldable pub dsm_update_kworker :
    Host → ℕ → List MasterDir → UpdateReq → (cached : Bool) → List MasterDir × List Effect
dsm_update_kworker host mode dirs req cached =
    if host.covers req.orig_pid req.shmid req.offset
    then (
      (if mode == 2 then cleanup dirs req.shmid req.orig_pid (req.offset / page_size) else dirs),
      if cached then write_mapping_page req.orig_pid req.shmid req.offset req.page ∷ [] else [],
    )
    else (dirs, [])
