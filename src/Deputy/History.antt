-- ===== src/Deputy/History.antt =====
-- The descriptors that a home node serves, over a history of requests.
use mattx.Base.{List, [], ◌∷◌, Option, inl, inr, Option-cases, Bool-cases}
use mattx.Vfs.Disk.{FileSystem}
use mattx.Deputy.{
  Positions, Host, Grants, Request, Reply, sys_open, syscall_fwd, sys_read, sys_close, sys_lseek,
  sys_fsync, sys_dup, remote_file, serve_syscall, scheduled, handle_sys_read_req,
  handle_syscall_fwd, lseek_kworker, fsync_kworker, open_kworker, dup_kworker,
}
use mattx.Deputy.Counted.{
  IsCounted, used-IsCounted, open_file-IsCounted, handle_sys_close_req-IsCounted,
  dup_file-IsCounted,
}

module _ (fs : FileSystem) (ps : Positions fs) where
  unfoldable pub run : Host fs → List (Grants × Request) → Host fs
  run h [] = h
  run h ((g, req) ∷ reqs) = run (serve_syscall fs ps h g req).0 reqs

  scheduled-IsCounted :
      (h : Host fs) (g : Grants) (done : Host fs × Option Reply)
      → IsCounted fs ps h
      → IsCounted fs ps done.0
      → IsCounted fs ps (scheduled fs ps h g done).0
  scheduled-IsCounted h g done v w = elim (Bool-cases g.has_ctx) [ inl m ↦ rw m w | inr m ↦ rw m v ]

  serve_syscall-IsCounted :
      (h : Host fs) (g : Grants) (req : Request)
      → IsCounted fs ps h
      → IsCounted fs ps (serve_syscall fs ps h g req).0
  unfolding serve_syscall handle_sys_read_req handle_syscall_fwd lseek_kworker fsync_kworker
      open_kworker dup_kworker
  serve_syscall-IsCounted h g (sys_open p flags mode path) v =
      scheduled-IsCounted h g _ v (open_file-IsCounted fs ps h p flags mode path v)
  serve_syscall-IsCounted h g (syscall_fwd p fd content) v =
      elim (Option-cases (remote_file fs ps h p fd)) [
        | inl e ↦ rw (handle_syscall_fwd, e) v
        | inr (f, e) ↦ rw (handle_syscall_fwd, e) (used-IsCounted fs ps h _ f v)
      ]
  serve_syscall-IsCounted h g (sys_read p fd count) v =
      elim (Option-cases (remote_file fs ps h p fd)) [
        | inl e ↦ rw (handle_sys_read_req, e) v
        | inr (f, e) ↦ elim (Bool-cases g.has_read_buf) [
          | inl m ↦ rw (handle_sys_read_req, e, m) (used-IsCounted fs ps h _ f v)
          | inr m ↦ rw (handle_sys_read_req, e, m) (used-IsCounted fs ps h h.disk f v)
        ]
      ]
  serve_syscall-IsCounted h g (sys_close p fd) v = handle_sys_close_req-IsCounted fs ps h p fd v
  serve_syscall-IsCounted h g (sys_lseek p fd offset whence) v =
      scheduled-IsCounted h g _ v (elim (Option-cases (remote_file fs ps h p fd)) [
        | inl e ↦ rw (lseek_kworker, e) v
        | inr (f, e) ↦ rw (lseek_kworker, e) (used-IsCounted fs ps h _ f v)
      ])
  serve_syscall-IsCounted h g (sys_fsync p fd start end datasync) v =
      scheduled-IsCounted h g _ v (elim (Option-cases (remote_file fs ps h p fd)) [
        | inl e ↦ rw (fsync_kworker, e) v
        | inr (f, e) ↦ rw (fsync_kworker, e) (used-IsCounted fs ps h _ f v)
      ])
  serve_syscall-IsCounted h g (sys_dup p old_fd new_fd) v =
      scheduled-IsCounted h g _ v (dup_file-IsCounted fs ps h p old_fd new_fd v)

  -- Over any history of opens, forwarded writes, reads, closes, lseeks, fsyncs and dups of guests, and
  -- of no other request, on every error path: where the references on a file are exactly the
  -- descriptors of deputies and the slots of exports that hold it, they still are afterwards, so none
  -- of these requests loses a file of a guest or puts one back that is open.
  pub run_syscalls-IsCounted :
      (h : Host fs) (reqs : List (Grants × Request))
      → IsCounted fs ps h
      → IsCounted fs ps (run h reqs)
  unfolding run
  run_syscalls-IsCounted h [] v = v
  run_syscalls-IsCounted h ((g, req) ∷ reqs) v =
      run_syscalls-IsCounted (serve_syscall fs ps h g req).0 reqs
        (serve_syscall-IsCounted h g req v)
