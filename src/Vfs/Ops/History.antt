-- ===== src/Vfs/Ops/History.antt =====
-- mfs_open_files over a history of requests of other nodes and of calls of its own node.
use mattx.Base.{ℕ, ◌≡◌, ◌⊎◌, refl, List, [], ◌∷◌, inl, inr, Option-cases, Bool-cases}
use mattx.Dsm.Rpc.{Stat}
use mattx.Vfs.Disk.{FileSystem, Cred, root, own, Looked, missing, found}
use mattx.Vfs.Wire.{
  Request, getattr_req, readdir_req, open_req, read_req, write_req, lseek_req, fsync_req,
  unlink_req, close_req,
}
use mattx.Vfs.Home.{
  Home, Grants, file_at, handle_getattr, handle_open, handle_read, handle_write, handle_lseek,
  handle_fsync, handle_unlink, handle_close, unlink, mask, unlink_as, is_zero, on_disk,
}
use mattx.Vfs.Home.Counted.{
  IsCounted, used-IsCounted, on_disk-IsCounted, open_as-IsCounted, handle_close-IsCounted,
  Opened-cases,
}
use mattx.Vfs.Readdir.{list_dir, handle_readdir, o_directory}
use mattx.Vfs.Client.{Site, start_of}
use mattx.Vfs.Ops.{
  serve, local_read, local_write, local_llseek, local_fsync, local_open, local_unlink,
}
use mattx.Vfs.Ops.Call.{Call, read, write, llseek, fsync, open_file, remove, on_node}

-- A request that comes in, or a call, a listing or a close of this node's own.
pub data Event : Type 0 where
  request : Grants → Request → Event
  call : Site → Call → Event
  listing : Cred → List ℕ → ℕ → Event
  close : ℕ → Event

Looked-cases : (x : Looked) → ((e : ℕ) × (x ≡ missing e)) ⊎ ((s : Stat) × (x ≡ found s))
Looked-cases (missing e) = inl (e, refl)
Looked-cases (found s) = inr (s, refl)

module _ (fs : FileSystem) where
  unfoldable pub step : Home fs → Event → Home fs
  step h (request g req) = (serve fs h g req).0
  step h (call s c) = (on_node fs h s c).0
  step h (listing who path offset) = (list_dir fs h who path offset).0
  step h (close fd) = handle_close fs h fd

  unfoldable pub run : Home fs → List Event → Home fs
  run h [] = h
  run h (e ∷ es) = run (step h e) es

  list_dir-IsCounted :
      (h : Home fs) (who : Cred) (path : List ℕ) (offset : ℕ)
      → IsCounted fs h
      → IsCounted fs (list_dir fs h who path offset).0
  unfolding list_dir
  list_dir-IsCounted h who path offset v =
      elim (Opened-cases (fs.filp_open h.disk who own path o_directory 0).1) [
        | inl (e, q) ↦ rw (q, list_dir) (on_disk-IsCounted fs h _ v)
        | inr (f, q) ↦
            let d = (fs.filp_open h.disk who own path o_directory 0).0 in
            rw (q, list_dir) (used-IsCounted fs (on_disk fs h d) d f (on_disk-IsCounted fs h d v))
      ]

  unlink-IsCounted :
      (h : Home fs) (who : Cred) (path : List ℕ)
      → IsCounted fs h
      → IsCounted fs (unlink fs h who path).0
  unfolding unlink
  unlink-IsCounted h who path v = elim (Opened-cases (fs.kern_path h.disk who path)) [
    | inl (e, q) ↦ rw (q, unlink) v
    | inr (victim, q) ↦ elim (Bool-cases (is_zero (fs.mnt_want_write h.disk victim))) [
      | inl w ↦ elim (Bool-cases (fs.in_place h.disk victim)) [
        | inl t ↦ rw (q, unlink, w, t) (on_disk-IsCounted fs h _ v)
        | inr t ↦ rw (q, unlink, w, t) v
      ]
      | inr w ↦ rw (q, unlink, w) v
    ]
  ]

  on_node-IsCounted :
      (h : Home fs) (s : Site) (c : Call) → IsCounted fs h → IsCounted fs (on_node fs h s c).0
  unfolding on_node local_read local_write local_llseek local_fsync local_open local_unlink
  on_node-IsCounted h s (read fd buf count at) v = elim (Option-cases (file_at h.open_files fd)) [
    | inl e ↦ rw (e, local_read) v
    | inr (f, e) ↦ rw (e, local_read) (used-IsCounted fs h _ f v)
  ]
  on_node-IsCounted h s (write fd content at) v = elim (Option-cases (file_at h.open_files fd)) [
    | inl e ↦ rw (e, local_write) v
    | inr (f, e) ↦ rw (e, local_write) (used-IsCounted fs h _ f v)
  ]
  on_node-IsCounted h s (llseek fd offset whence) v =
      elim (Option-cases (file_at h.open_files fd)) [
        | inl e ↦ rw (e, local_llseek) v
        | inr (f, e) ↦ rw (e, local_llseek) (used-IsCounted fs h _ f v)
      ]
  on_node-IsCounted h s (fsync fd start end datasync) v =
      elim (Option-cases (file_at h.open_files fd)) [
        | inl e ↦ rw (e, local_fsync) v
        | inr (f, e) ↦ rw (e, local_fsync) (used-IsCounted fs h _ f v)
      ]
  on_node-IsCounted h s (open_file path flags mode) v =
      open_as-IsCounted fs h s.cred (start_of s s.my_node_id path) path flags mode v
  on_node-IsCounted h s (remove path) v = unlink-IsCounted h s.cred path v

  serve-IsCounted :
      (h : Home fs) (g : Grants) (req : Request)
      → IsCounted fs h
      → IsCounted fs (serve fs h g req).0
  unfolding serve handle_getattr handle_open handle_read handle_write handle_lseek handle_fsync
      handle_unlink handle_readdir
  serve-IsCounted h g (getattr_req id path) v = elim (Looked-cases (fs.getattr h.disk own path)) [
    | inl (e, q) ↦ rw (q, handle_getattr) v
    | inr (st, q) ↦ rw (q, handle_getattr) v
  ]
  serve-IsCounted h g (readdir_req id offset path) v = elim (Bool-cases g.has_reply) [
    | inl m ↦ rw m (list_dir-IsCounted h root path offset v)
    | inr m ↦ rw m v
  ]
  serve-IsCounted h g (open_req id flags mode uid gid path) v =
      open_as-IsCounted fs h (mask g uid gid) own path flags mode v
  serve-IsCounted h g (read_req id fd count at) v = elim (Option-cases (file_at h.open_files fd)) [
    | inl e ↦ rw (e, handle_read) v
    | inr (f, e) ↦ elim (Bool-cases g.has_read_buf) [
      | inl m ↦ rw (e, handle_read, m) (used-IsCounted fs h _ f v)
      | inr m ↦ rw (e, handle_read, m) (used-IsCounted fs h h.disk f v)
    ]
  ]
  serve-IsCounted h g (write_req id fd at content) v =
      elim (Option-cases (file_at h.open_files fd)) [
        | inl e ↦ rw (e, handle_write) v
        | inr (f, e) ↦ rw (e, handle_write) (used-IsCounted fs h _ f v)
      ]
  serve-IsCounted h g (lseek_req id fd offset whence) v =
      elim (Option-cases (file_at h.open_files fd)) [
        | inl e ↦ rw (e, handle_lseek) v
        | inr (f, e) ↦ rw (e, handle_lseek) (used-IsCounted fs h _ f v)
      ]
  serve-IsCounted h g (fsync_req id fd start end datasync) v =
      elim (Option-cases (file_at h.open_files fd)) [
        | inl e ↦ rw (e, handle_fsync) v
        | inr (f, e) ↦ rw (e, handle_fsync) (used-IsCounted fs h _ f v)
      ]
  serve-IsCounted h g (unlink_req id orig_pid uid gid path) v =
      unlink-IsCounted h (unlink_as fs g orig_pid uid gid) path v
  serve-IsCounted h g (close_req fd) v = handle_close-IsCounted fs h fd v

  step-IsCounted : (h : Home fs) (e : Event) → IsCounted fs h → IsCounted fs (step h e)
  unfolding step
  step-IsCounted h (request g req) v = serve-IsCounted h g req v
  step-IsCounted h (call s c) v = on_node-IsCounted h s c v
  step-IsCounted h (listing who path offset) v = list_dir-IsCounted h who path offset v
  step-IsCounted h (close fd) v = handle_close-IsCounted fs h fd v

  -- Whatever requests come in and whatever the node calls itself, in any order and on every error
  -- path: the references that the module holds on a file are exactly the slots of mfs_open_files that
  -- hold it, so no open file is lost and none is put back while a descriptor is left.
  pub run-IsCounted : (h : Home fs) (es : List Event) → IsCounted fs h → IsCounted fs (run h es)
  unfolding run
  run-IsCounted h [] v = v
  run-IsCounted h (e ∷ es) v = run-IsCounted (step h e) es (step-IsCounted h e v)
