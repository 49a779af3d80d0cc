-- ===== src/Registry/Lifecycle.antt =====
-- handle_process_exit and handle_kill_surrogate of mattx_guest.c: the ends of processes that another
-- node announces. `sender_id` is the header's; a NULL payload is `none`.
pub mod Authority
use mattx.Base.{
  ℕ, List, [], ◌∷◌, ◌++◌, Bool, true, false, ◌&&◌, Option, none, some, ◌==◌, if◌then◌else◌, pos,
}
use mattx.Effects.{Effect, sigkill}
use mattx.Registry.Slots.{find_index}
use mattx.Registry.Guests.{GuestInfo, Guests, remove_guest_process}
use mattx.Registry.Exports.{ExportInfo, Exports, remove_export_process}
use mattx.Registry.Watch.{fput_all, kfree_buf}

-- What the handlers read: which pids have a task, and whether kzalloc gives memory.
pub record Tasks : Type 0 where
  pub exists : ℕ → Bool
  pub memory : Bool

abbrev pub kill_task : Tasks → ℕ → List Effect
kill_task w pid = if w.exists pid then sigkill pid ∷ [] else []

-- The payload is the `orig_pid` of the deputy.
unfoldable pub handle_process_exit : Tasks → Exports → Option ℕ → Exports × List Effect
handle_process_exit w t none = (t, [])
handle_process_exit w t (some orig_pid) = elim (find_index (λ e. e.orig_pid == orig_pid) t) [
  | none ↦ (t, kill_task w orig_pid)
  | some (i, e) ↦ (
    remove_export_process t (pos i),
    kill_task w orig_pid ++ (if w.memory then fput_all e.remote_files else []),
  )
]

unfoldable pub handle_kill_surrogate : Tasks → Guests → ℕ → Option ℕ → Guests × List Effect
handle_kill_surrogate w t sender_id none = (t, [])
handle_kill_surrogate w t sender_id (some orig_pid) =
    elim (find_index (λ g. g.orig_pid == orig_pid && g.home_node == sender_id) t) [
      | none ↦ (t, [])
      | some (i, g) ↦
          let (t', freed) = remove_guest_process t (pos i) in
          (
            t',
            freed
                ++ (kfree_buf g.rpc_read_buf
                    ++ (kfree_buf g.rpc_statx_buf ++ kill_task w g.local_pid)),
          )
    ]
