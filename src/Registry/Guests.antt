-- ===== src/Registry/Guests.antt =====
-- The guest registry of mattx_guest.c: the processes of other nodes that run here. An index is an
-- int that the code checks for its sign; a pid, a node and a u32 are numbers.
pub mod Table
use mattx.Base.{
  ℕ, zero, suc, ◌+◌, ◌-◌, ◌<◌, List, [], ◌∷◌, ◌++◌, Bool, true, false, ◌&&◌, Option, none, some,
  ltb, leb, ◌==◌, if◌then◌else◌, is_some, get_elem?, replicate, take, ℤ, pos, negsuc, ◌||◌,
}
use mattx.Effects.{Effect, free_page}
use mattx.Registry.Slots.{Slots, view, max_guests, find_index, move_last, write}

-- enum mattx_dsm_page_state
pub data PageState : Type 0 where
  invalid shared exclusive : PageState

-- MAX_DSM_PAGES, MAX_DSM_SEGMENTS, PAGE_SIZE
abbrev pub max_dsm_pages : ℕ
max_dsm_pages = 256

abbrev pub max_dsm_segments : ℕ
max_dsm_segments = 16

abbrev pub page_size : ℕ
page_size = 4096

-- struct mattx_dsm_mapping. A page of the pool is NULL or holds some bytes; the arrays are functions
-- of the page's number, which is below `max_dsm_pages` wherever the code reads or writes them.
pub record DsmMapping : Type 0 where
  pub base_addr : ℕ
  pub shmid : ℕ
  pub size : ℕ
  pub present_pages : ℕ → Bool
  pub pages : ℕ → Option (List ℕ)
  pub page_states : ℕ → PageState

-- What memset leaves.
abbrev pub zero_mapping : DsmMapping
zero_mapping = record {
  base_addr = 0;
  shmid = 0;
  size = 0;
  present_pages = λ _. false;
  pages = λ _. none;
  page_states = λ _. invalid;
}

-- struct mattx_guest_info. Pointers are `none` for NULL, or an address.
pub record GuestInfo : Type 0 where
  pub local_pid : ℕ
  pub orig_pid : ℕ
  pub home_node : ℕ
  pub rpc_wq : Option ℕ
  pub rpc_remote_fd : ℕ
  pub rpc_done : Bool
  pub rpc_read_buf : Option ℕ
  pub rpc_read_bytes : ℕ
  pub rpc_lseek_res : ℕ
  pub rpc_statx_buf : Option ℕ
  pub rpc_fsync_res : ℕ
  pub is_migrating : Bool
  pub thread_count : ℕ
  pub orig_tids : List ℕ
  pub local_tids : List ℕ
  pub dsm_count : ℕ
  pub dsm_map : List DsmMapping
  pub dsm_step_pending : Bool
  pub dsm_step_is_write : Bool
  pub dsm_step_addr : ℕ
  pub dsm_step_shmid : ℕ

abbrev pub Guests : Type 0
Guests = Slots GuestInfo

-- The fields that add_guest_process writes; the others keep what the slot held before.
abbrev pub fresh_guest : ℕ → ℕ → ℕ → GuestInfo → GuestInfo
fresh_guest local_pid orig_pid home_node old = record old {
  local_pid = local_pid;
  orig_pid = orig_pid;
  home_node = home_node;
  is_migrating = false;
  rpc_wq = none;
  rpc_done = false;
  rpc_read_buf = none;
  rpc_read_bytes = 0;
  rpc_lseek_res = 0;
  rpc_statx_buf = none;
  rpc_fsync_res = 0;
  dsm_count = 0;
  dsm_map = replicate max_dsm_segments zero_mapping;
}

unfoldable pub is_guest_process : Guests → ℕ → Bool
is_guest_process t pid = is_some (find_index (λ g. g.local_pid == pid) t)

-- A full registry is logged, and nothing is written.
unfoldable pub add_guest_process : Guests → ℕ → ℕ → ℕ → Guests
add_guest_process t local_pid orig_pid home_node =
    if ltb t.count max_guests
    then (elim (get_elem? t.entries t.count) [
      | none ↦ t
      | some old ↦
          let t' = write t t.count (fresh_guest local_pid orig_pid home_node old) in
          record t' { count = t.count + 1 }
    ])
    else t

-- The pages that are not NULL, in order.
abbrev pub pool : (ℕ → Option (List ℕ)) → ℕ → List (List ℕ)
pool pages zero = []
pool pages (suc p) = pool pages p ++ (elim (pages p) [ none ↦ [] | some page ↦ page ∷ [] ])

abbrev pub pool_of : List DsmMapping → List (List ℕ)
pool_of [] = []
pool_of (m ∷ ms) = pool m.pages max_dsm_pages ++ pool_of ms

abbrev pub pages_of : GuestInfo → List (List ℕ)
pages_of g = pool_of (take g.dsm_count g.dsm_map)

abbrev pub free_pages : List (List ℕ) → List Effect
free_pages [] = []
free_pages (p ∷ ps) = free_page p ∷ free_pages ps

-- `pages[p] = NULL` for every page of the segments in use.
abbrev clear_pages : ℕ → List DsmMapping → List DsmMapping
clear_pages zero ms = ms
clear_pages (suc n) [] = []
clear_pages (suc n) (m ∷ ms) =
    record m { pages = λ p. if ltb p max_dsm_pages then none else m.pages p } ∷ clear_pages n ms

abbrev pub cleared : GuestInfo → GuestInfo
cleared g = record g { dsm_map = clear_pages g.dsm_count g.dsm_map }

remove_at : Guests → ℕ → Guests × List Effect
remove_at t index = elim (get_elem? t.entries index) [
  | none ↦ (t, [])
  | some g ↦ (move_last (write t index (cleared g)) index, free_pages (pages_of g))
]

-- An index outside the entries in use does nothing.
unfoldable pub remove_guest_process : Guests → ℤ → Guests × List Effect
unfolding remove_at
remove_guest_process t (negsuc n) = (t, [])
remove_guest_process t (pos index) = if leb t.count index then (t, []) else remove_at t index

-- Whether the guest is waiting for its home node.
unfoldable pub is_rpc_pending : Guests → ℕ → Bool
is_rpc_pending t pid = elim (find_index (λ g. g.local_pid == pid) t) [
  | none ↦ false
  | some (i, g) ↦ is_some g.rpc_wq
]
