-- ===== src/Registry/Exports.antt =====
-- The export registry of mattx_guest.c: the processes of this node that run elsewhere.
pub mod Table
use mattx.Base.{
  ℕ, suc, ◌+◌, ◌-◌, ◌<◌, List, [], ◌∷◌, Bool, true, false, Option, none, some, ltb, leb, ◌==◌,
  if◌then◌else◌, get_elem?, ℤ, pos, negsuc,
}
use mattx.Registry.Slots.{Slots, max_guests, find_index, move_last, write}

-- struct mattx_export_info. `remote_files` has MAX_FDS pointers. The directory `dsm_dirs` of the
-- struct is never written: the directory in use is the global one.
pub record ExportInfo : Type 0 where
  pub orig_pid : ℕ
  pub target_node : ℕ
  pub remote_files : List (Option ℕ)
  pub abort_rpc : Bool
  pub is_growing_gang : Bool

abbrev pub Exports : Type 0
Exports = Slots ExportInfo

-- The fields that add_export_process writes; `remote_files` keeps what the slot held before.
abbrev pub fresh_export : ℕ → ℕ → ExportInfo → ExportInfo
fresh_export orig_pid target_node old = record old {
  orig_pid = orig_pid;
  target_node = target_node;
  abort_rpc = false;
  is_growing_gang = false;
}

unfoldable pub add_export_process : Exports → ℕ → ℕ → Exports
add_export_process t orig_pid target_node =
    if ltb t.count max_guests
    then (elim (get_elem? t.entries t.count) [
      | none ↦ t
      | some old ↦
          let t' = write t t.count (fresh_export orig_pid target_node old) in
          record t' { count = t.count + 1 }
    ])
    else t

unfoldable pub remove_export_process : Exports → ℤ → Exports
remove_export_process t (negsuc n) = t
remove_export_process t (pos index) = if leb t.count index then t else move_last t index

-- `none` is the -1 of a process that is not exported.
unfoldable pub get_export_target : Exports → ℕ → Option ℕ
get_export_target t orig_pid = elim (find_index (λ e. e.orig_pid == orig_pid) t) [
  | none ↦ none
  | some (i, e) ↦ some e.target_node
]
