-- ===== src/Registry/Lifecycle/Authority.antt =====
-- The two handlers of mattx_guest.c that end a process on another node's word.
use mattx.Base.{
  ℕ, ◌≡◌, refl, ap, inl, inr, ◌⊎◌, [], ◌∷◌, ◌++◌, false, ◌&&◌, Perm, some, arith, ◌==◌,
  if◌then◌else◌, All,
}
use mattx.Registry.Slots.{view, IsValid, first-cases}
use mattx.Registry.Guests.{GuestInfo, Guests, free_pages, pages_of}
use mattx.Registry.Guests.Table.{remove_guest_process-perm}
use mattx.Registry.Exports.{ExportInfo, Exports}
use mattx.Registry.Exports.Table.{remove_export_process-perm}
use mattx.Registry.Watch.{fput_all, kfree_buf}
use mattx.Registry.Lifecycle.{Tasks, kill_task, handle_process_exit, handle_kill_surrogate}

-- A guest is the sender's process `orig_pid`.
abbrev pub IsTarget : ℕ → ℕ → GuestInfo → Type 0
IsTarget sender_id orig_pid g = (g.orig_pid ≡ orig_pid) × (g.home_node ≡ sender_id)

-- A node can end only its own guests: where it has none with this pid, nothing happens; else one such
-- guest leaves the registry, its pages and buffers are freed, and the one task that is killed is its
-- own. Every other guest stays.
pub handle_kill_surrogate-IsTarget :
    (w : Tasks) (t : Guests) (sender_id orig_pid : ℕ)
    → IsValid t
    → let (t', effects) = handle_kill_surrogate w t sender_id (some orig_pid) in
      ((t' ≡ t)
        × (effects ≡ [])
        × All (λ g. (g.orig_pid == orig_pid && g.home_node == sender_id) ≡ false) (view t))
      ⊎ ((g : GuestInfo) × IsTarget sender_id orig_pid g
          × Perm (view t) (g ∷ view t')
          × IsValid t'
          × (effects
              ≡ free_pages (pages_of g)
                ++ (kfree_buf g.rpc_read_buf
                    ++ (kfree_buf g.rpc_statx_buf ++ kill_task w g.local_pid))))
unfolding handle_kill_surrogate
handle_kill_surrogate-IsTarget w t s o v =
    elim (first-cases (λ g. g.orig_pid == o && g.home_node == s) (view t)) [
      | inl (e, a) ↦ rw (e, handle_kill_surrogate) (inl (refl, refl, a))
      | inr (i, g, e, q, hit) ↦
          let (p, v', freed) = remove_guest_process-perm t i g v q in
          rw (e, handle_kill_surrogate)
            (inr (
              g,
              (ground arith, ground arith),
              p,
              v',
              ap
                  (λ u.
                    u
                    ++ (kfree_buf g.rpc_read_buf
                        ++ (kfree_buf g.rpc_statx_buf ++ kill_task w g.local_pid)))
                  freed,
            ))
    ]

-- The exit of a process: its deputy is killed if it is still there; of its exports the first leaves
-- the registry, and its files are closed.
pub handle_process_exit_lem :
    (w : Tasks) (t : Exports) (orig_pid : ℕ)
    → IsValid t
    → let (t', effects) = handle_process_exit w t (some orig_pid) in
      ((t' ≡ t)
        × (effects ≡ kill_task w orig_pid)
        × All (λ e. (e.orig_pid == orig_pid) ≡ false) (view t))
      ⊎ ((e : ExportInfo) × (e.orig_pid ≡ orig_pid)
          × Perm (view t) (e ∷ view t')
          × IsValid t'
          × (effects ≡ kill_task w orig_pid ++ (if w.memory then fput_all e.remote_files else [])))
unfolding handle_process_exit
handle_process_exit_lem w t o v = elim (first-cases (λ e. e.orig_pid == o) (view t)) [
  | inl (e, a) ↦ rw (e, handle_process_exit) (inl (refl, refl, a))
  | inr (i, x, e, q, hit) ↦
      let (p, v') = remove_export_process-perm t i x v q in
      rw (e, handle_process_exit) (inr (x, ground arith, p, v', refl))
]
