-- ===== src/Dsm/Directory.antt =====
-- mattx_global_dsm_dir, the home node's directory of the pages that other nodes hold, and what the
-- kworkers of mattx_fileio.c do to it: mattx_dsm_write_acquire_kworker, the directory sections of
-- mattx_dsm_fault_kworker, mattx_dsm_update_kworker and mattx_vm1_shm_sync_kworker. A page's number
-- is `offset / PAGE_SIZE`, which the code does not check against MAX_DSM_PAGES; an array of a
-- directory is a function of that number.
pub mod Unique
pub mod History
pub mod Acquire
pub mod Sync
pub mod Fault
pub mod Sharers
use mattx.Base.{
  ℤ, ℕ, zero, suc, ◌+◌, ◌*◌, ◌/◌, ◌%◌, List, [], ◌∷◌, ◌++◌, Bool, true, false, ◌&&◌, ◌||◌, not,
  Option, none, some, ltb, leb, ◌==◌, if◌then◌else◌, update, set, get_elem?,
}
use mattx.Registry.Slots.{first}
use mattx.Registry.Guests.{PageState, invalid, shared, exclusive, page_size, max_dsm_pages}
use mattx.Cluster.{max_nodes}

-- struct mattx_dsm_master_dir. The mask of a page is an array of u64 words, and a word its bits.
pub record MasterDir : Type 0 where
  pub in_use : Bool
  pub shmid : ℕ
  pub home_pid : ℕ
  pub page_state : ℕ → PageState
  pub page_owner_pid : ℕ → ℕ
  pub page_shared_mask : ℕ → ℕ → ℕ → Bool

-- What the kworkers ask of the other nodes and of the kernel.
pub data Effect : Type 0 where
  send_invalidate : (node orig_pid shmid offset : ℕ) → Effect
  send_write_acquire_reply : (node req_id : ℕ) → Effect
  unmap_mapping_range : (pid shmid offset : ℕ) → Effect
  send_flush_req : (node req_id orig_pid shmid offset : ℕ) → Effect
  write_mapping_page : (pid shmid offset : ℕ) (page : List ℕ) → Effect
  sigcont : (pid : ℕ) → Effect
  send_page_fault_reply : (node req_id : ℕ) (error : ℤ) (page : List ℕ) → Effect

-- struct mattx_dsm_write_acquire_req
pub record AcquireReq : Type 0 where
  pub req_id : ℕ
  pub orig_pid : ℕ
  pub shmid : ℕ
  pub offset : ℕ

-- What the rest of the node has: the entries of cluster_map that are not NULL, the processes that
-- are alive with the segment mapped, those that
-- are alive, and those whose mapping of a segment reaches past an offset.
pub record Host : Type 0 where
  pub connected : ℕ → Bool
  pub maps : ℕ → ℕ → Bool
  pub alive : ℕ → Bool
  pub covers : ℕ → ℕ → ℕ → Bool

-- The test of every search of the directory.
abbrev pub is_dir : ℕ → MasterDir → Bool
is_dir shmid d = d.in_use && (d.shmid == shmid)

abbrev pub mask_bit : (ℕ → ℕ → Bool) → ℕ → Bool
mask_bit mask node = mask (node / 64) (node % 64)

abbrev pub set_bit : (ℕ → ℕ → Bool) → ℕ → ℕ → ℕ → Bool
set_bit mask node w b = (w == node / 64) && (b == node % 64) || mask w b

abbrev pub no_bits : ℕ → ℕ → Bool
no_bits w b = false

-- A page's state, owner and mask written together.
abbrev pub put_page : MasterDir → ℕ → PageState → ℕ → MasterDir
put_page d page state owner = record d {
  page_state = update d.page_state page state;
  page_owner_pid = update d.page_owner_pid page owner;
  page_shared_mask = update d.page_shared_mask page no_bits;
}

-- INVALIDATEs to the nodes of a mask, from `node` on.
unfoldable pub invalidate_from :
    Host → (ℕ → ℕ → Bool) → (pid shmid offset : ℕ) → ℕ → ℕ → List Effect
invalidate_from host mask pid shmid offset node zero = []
invalidate_from host mask pid shmid offset node (suc left) =
    let rest = invalidate_from host mask pid shmid offset (suc node) left in
    if mask_bit mask node && host.connected node
    then send_invalidate node pid shmid offset ∷ rest
    else rest

-- The page-table shootdown, if the process is there and maps the segment.
abbrev pub shootdown : Host → (pid shmid offset : ℕ) → List Effect
shootdown host pid shmid offset =
    if host.maps pid shmid then unmap_mapping_range pid shmid offset ∷ [] else []

abbrev pub reply_to : Host → ℕ → ℕ → List Effect
reply_to host node req_id =
    if host.connected node then send_write_acquire_reply node req_id ∷ [] else []

-- The directory is changed and its old mask taken; then the mask's nodes are told.
unfoldable pub dsm_write_acquire_kworker :
    Host → List MasterDir → AcquireReq → ℕ → List MasterDir × List Effect
dsm_write_acquire_kworker host dirs req target_node =
    let page = req.offset / page_size in
    elim (first (is_dir req.shmid) dirs) [
      | none ↦ (dirs, reply_to host target_node req.req_id)
      | some (i, d) ↦ (
        set dirs i (put_page d page exclusive req.orig_pid),
        (invalidate_from host (d.page_shared_mask page) req.orig_pid req.shmid req.offset 0
                max_nodes
              ++ shootdown host req.orig_pid req.shmid req.offset)
            ++ reply_to host target_node req.req_id,
      )
    ]

-- The owner that mattx_dsm_fault_kworker and mattx_vm1_shm_sync_kworker look up; 0 for none.
unfoldable pub owner_of : List MasterDir → ℕ → ℕ → ℕ
owner_of dirs shmid page = elim (first (is_dir shmid) dirs) [
  | none ↦ 0
  | some (i, d) ↦ elim (d.page_state page) [ exclusive ↦ d.page_owner_pid page | _ ↦ 0 ]
]

-- The downgrade to SHARED after a flush.
unfoldable pub downgrade : List MasterDir → ℕ → ℕ → List MasterDir
downgrade dirs shmid page = elim (first (is_dir shmid) dirs) [
  | none ↦ dirs
  | some (i, d) ↦ set dirs i (put_page d page shared 0)
]

-- The slot of a segment that is registered when its first page is asked for.
abbrev pub registered : ℕ → ℕ → MasterDir → MasterDir
registered shmid pid old = record {
  in_use = true;
  shmid = shmid;
  home_pid = pid;
  page_state = λ p. invalid;
  page_owner_pid = λ p. 0;
  page_shared_mask = λ p. no_bits;
}

-- `dir_idx` of the fault kworker, with the slot taken for it: a slot in use, or else the first free
-- one; `none` for -1.
unfoldable pub register : List MasterDir → ℕ → ℕ → List MasterDir × Option (ℕ × MasterDir)
register dirs shmid pid = elim (first (is_dir shmid) dirs) [
  | some found ↦ (dirs, some found)
  | none ↦ elim (first (λ d. not d.in_use) dirs) [
    | none ↦ (dirs, none)
    | some (i, old) ↦ let d = registered shmid pid old in (set dirs i d, some (i, d))
  ]
]

-- INVALID becomes SHARED.
abbrev pub at_least_shared : PageState → PageState
at_least_shared invalid = shared
at_least_shared shared = shared
at_least_shared exclusive = exclusive

abbrev pub add_sharer : MasterDir → ℕ → ℕ → MasterDir
add_sharer d page node = record d {
  page_state = update d.page_state page (at_least_shared (d.page_state page));
  page_shared_mask = update d.page_shared_mask page (set_bit (d.page_shared_mask page) node);
}

-- The directory update of the fault kworker once it has the page's bytes for `node`.
unfoldable pub share : List MasterDir → (shmid pid page node : ℕ) → List MasterDir
unfolding register
share dirs shmid pid page node =
    let (dirs', slot) = register dirs shmid pid in
    elim slot [ none ↦ dirs' | some (i, d) ↦ set dirs' i (add_sharer d page node) ]

abbrev pub is_owned_by : MasterDir → ℕ → ℕ → Bool
is_owned_by d page pid = elim (d.page_state page) [
  | exclusive ↦ d.page_owner_pid page == pid
  | _ ↦ false
]

-- The directory cleanup of mattx_dsm_update_kworker, after the bytes are written.
unfoldable pub cleanup : List MasterDir → (shmid pid page : ℕ) → List MasterDir
cleanup dirs shmid pid page = elim (first (is_dir shmid) dirs) [
  | none ↦ dirs
  | some (i, d) ↦ if is_owned_by d page pid then set dirs i (put_page d page shared 0) else dirs
]

-- The write of a process of the home node itself, in mattx_vm1_shm_sync_kworker, at the slot that
-- its search found: owner 0 is the home node.
unfoldable pub native_write :
    Host → List MasterDir → ℕ → (shmid offset : ℕ) → List MasterDir × List Effect
native_write host dirs i shmid offset =
    let page = offset / page_size in
    elim (get_elem? dirs i) [
      | none ↦ (dirs, [])
      | some d ↦ (
        set dirs i (put_page d page exclusive 0),
        invalidate_from host (d.page_shared_mask page) 0 shmid offset 0 max_nodes,
      )
    ]
