-- ===== src/Registry/Watch.antt =====
-- The two watchers in mattx_balancer_loop of mattx_sched.c, which clean up after processes that have
-- ended: guests here, and deputies of processes that run elsewhere.
pub mod Burials
pub mod Rites
use mattx.Base.{
  ℕ, zero, suc, ◌+◌, ◌*◌, List, [], ◌∷◌, ◌++◌, Bool, true, false, ◌&&◌, not, Option, none, some,
  ltb, ◌==◌, if◌then◌else◌, take, pos,
}
use mattx.Effects.{Effect, send_process_exit, send_kill_surrogate, send_page_update, fput, kfree}
use mattx.Registry.Slots.{Slots, find_index}
use mattx.Registry.Guests.{
  PageState, invalid, shared, exclusive, max_dsm_pages, page_size, DsmMapping, GuestInfo, Guests,
  remove_guest_process,
}
use mattx.Registry.Exports.{ExportInfo, Exports, remove_export_process}

-- What the watchers read: whether a pid has no live task (pid_task gives NULL, or its exit_state is
-- not 0), which nodes are connected, the DSM mode, and whether kmalloc gives memory.
pub record World : Type 0 where
  pub dead : ℕ → Bool
  pub connected : ℕ → Bool
  pub dsm_mode : ℕ
  pub memory : Bool

-- What memcpy reads through a page pointer.
abbrev pub contents : Option (List ℕ) → List ℕ
contents none = []
contents (some page) = page

-- The updates of the EXCLUSIVE pages below `p` of one segment, in order.
abbrev pub dirty_pages : GuestInfo → DsmMapping → ℕ → List Effect
dirty_pages g m zero = []
dirty_pages g m (suc p) = dirty_pages g m p ++ (elim (m.page_states p) [
  | exclusive ↦
      send_page_update g.home_node g.orig_pid m.shmid (p * page_size) (contents (m.pages p)) ∷ []
  | _ ↦ []
])

abbrev pub dirty : GuestInfo → List DsmMapping → List Effect
dirty g [] = []
dirty g (m ∷ ms) = dirty_pages g m max_dsm_pages ++ dirty g ms

abbrev pub kfree_buf : Option ℕ → List Effect
kfree_buf none = []
kfree_buf (some buf) = kfree buf ∷ []

-- Close the files that are there.
abbrev pub fput_all : List (Option ℕ) → List Effect
fput_all [] = []
fput_all (none ∷ fs) = fput_all fs
fput_all (some f ∷ fs) = fput f ∷ fput_all fs

module _ (w : World) where
  open w use {dead, connected, dsm_mode, memory}

  -- The dirty pages of a guest go home in mode 2, if the array for them could be had.
  unfoldable pub flush : GuestInfo → List Effect
  flush g =
      if (dsm_mode == 2) && memory && connected g.home_node
      then dirty g (take g.dsm_count g.dsm_map)
      else []

  -- The home node is told, unless the guest was recalled.
  unfoldable pub exit_notice : GuestInfo → List Effect
  exit_notice g =
      if not g.is_migrating && connected g.home_node
      then send_process_exit g.home_node g.orig_pid ∷ []
      else []

  -- What follows the removal of a dead guest from the registry.
  abbrev pub funeral : GuestInfo → List Effect
  funeral g = flush g ++ (kfree_buf g.rpc_read_buf ++ (kfree_buf g.rpc_statx_buf ++ exit_notice g))

  -- The guest watcher, which starts again after each removal. On fuel.
  unfoldable pub watch_guests : ℕ → Guests → Guests × List Effect
  watch_guests zero t = (t, [])
  watch_guests (suc fuel) t = elim (find_index (λ g. dead g.local_pid) t) [
    | none ↦ (t, [])
    | some (i, g) ↦
        let (t₁, freed) = remove_guest_process t (pos i) in
        let (t₂, rest) = watch_guests fuel t₁ in (t₂, freed ++ (funeral g ++ rest))
  ]

  -- What follows the removal of a dead deputy: its files are closed, and its surrogate is killed.
  abbrev pub last_rites : ExportInfo → List Effect
  last_rites e =
      (if memory then fput_all e.remote_files else [])
      ++ (if connected e.target_node then send_kill_surrogate e.target_node e.orig_pid ∷ [] else [])

  -- The home watcher.
  unfoldable pub watch_exports : ℕ → Exports → Exports × List Effect
  watch_exports zero t = (t, [])
  watch_exports (suc fuel) t = elim (find_index (λ e. dead e.orig_pid) t) [
    | none ↦ (t, [])
    | some (i, e) ↦
        let (t₂, rest) = watch_exports fuel (remove_export_process t (pos i)) in
        (t₂, last_rites e ++ rest)
  ]
