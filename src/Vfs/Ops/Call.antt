-- ===== src/Vfs/Ops/Call.antt =====
-- The calls of mattx_rpc_vfs_x on a file or a path as one type: each for another node, and as that
-- node makes it for itself.
use mattx.Base.{ℕ, ◌<◌, ◌≡◌, List, true, false, Option, none, some, length, ℤ}
use mattx.Dsm.Rpc.{Rpc, RpcCtx}
use mattx.Vfs.Disk.{FileSystem}
use mattx.Vfs.Wire.{Request, Reply, open_req, read_req, write_req, lseek_req, fsync_req, unlink_req}
use mattx.Vfs.Home.{masked, Home, Grants, file_at}
use mattx.Vfs.Calls.{handle_vfs_reply}
use mattx.Vfs.Client.{
  Site, Outcome, Begun, collect, is_local_hpc, wire_path, advance, read_outcome, write_outcome,
  lseek_outcome, open_outcome, error_outcome,
}
use mattx.Vfs.Ops.{
  local_read, local_write, local_llseek, local_fsync, local_open, local_unlink, rpc_vfs_read,
  rpc_vfs_write, rpc_vfs_llseek, rpc_vfs_fsync, rpc_vfs_open, rpc_vfs_unlink,
}

-- The calls on a file and on a path.
pub data Call : Type 0 where
  read : (fd : ℕ) → (buf : List ℕ) → (count at : ℕ) → Call
  write : (fd : ℕ) → List ℕ → (at : ℕ) → Call
  llseek : (fd : ℕ) → ℤ → (whence : ℕ) → Call
  fsync : (fd start end datasync : ℕ) → Call
  open_file : (path : List ℕ) → (flags mode : ℕ) → Call
  remove : (path : List ℕ) → Call

-- What a woken call reads from its slot.
abbrev pub outcome : Call → RpcCtx → Outcome
outcome (read fd buf count at) = read_outcome at
outcome (write fd content at) = write_outcome at
outcome (llseek fd offset whence) = lseek_outcome
outcome (fsync fd start end datasync) = error_outcome
outcome (open_file path flags mode) = open_outcome
outcome (remove path) = error_outcome

abbrev pub request : Site → Call → ℕ → Request
request s (read fd buf count at) id = read_req id fd count at
request s (write fd content at) id = write_req id fd at content
request s (llseek fd offset whence) id = lseek_req id fd offset whence
request s (fsync fd start end datasync) id = fsync_req id fd start end datasync
request s (open_file path flags mode) id =
    open_req id flags mode s.cred.uid s.cred.gid (wire_path path)
request s (remove path) id = unlink_req id 0 s.cred.uid s.cred.gid (wire_path path)

-- A thread of another node's kernel that has the ids of the caller.
abbrev pub moved_to : Site → ℕ → Site
moved_to s node = record s { my_node_id = node; cred = masked s.cred.uid s.cred.gid }

module _ (fs : FileSystem) where
  unfoldable pub rpc_vfs : Site → Home fs → Rpc → (node : ℕ) → Call → Home fs × Rpc × Begun Outcome
  rpc_vfs s h r node (read fd buf count at) = rpc_vfs_read fs s h r node fd buf count at
  rpc_vfs s h r node (write fd content at) = rpc_vfs_write fs s h r node fd content at
  rpc_vfs s h r node (llseek fd offset whence) = rpc_vfs_llseek fs s h r node fd offset whence
  rpc_vfs s h r node (fsync fd start end datasync) =
      rpc_vfs_fsync fs s h r node fd start end datasync
  rpc_vfs s h r node (open_file path flags mode) = rpc_vfs_open fs s h r node path flags mode
  rpc_vfs s h r node (remove path) = rpc_vfs_unlink fs s h r node path

  -- The call as a node serves it for itself.
  unfoldable pub on_node : Home fs → Site → Call → Home fs × Outcome
  on_node h s (read fd buf count at) = local_read fs h fd buf count at
  on_node h s (write fd content at) = local_write fs h fd content at
  on_node h s (llseek fd offset whence) = local_llseek fs h fd offset whence
  on_node h s (fsync fd start end datasync) = local_fsync fs h fd start end datasync
  on_node h s (open_file path flags mode) = local_open fs h s s.my_node_id path flags mode
  on_node h s (remove path) = local_unlink fs h s path

  -- What the caller has when the answer, if there is one, has woken it.
  abbrev pub woken : Rpc → Option Reply → ℕ → Call → Option Outcome
  woken r none slot c = none
  woken r (some reply) slot c = (collect (handle_vfs_reply r reply) slot (outcome c)).1

  -- The descriptor of a read is open and there is memory for the bytes; a write goes where it was asked
  -- to; a path fits into a message, is not read locally, and the home node has memory to take on the
  -- ids of the caller.
  abbrev pub CanServe : Site → Home fs → Grants → Call → Type 0
  CanServe s h g (read fd buf count at) =
      ((f : ℕ) × (file_at h.open_files fd ≡ some f))
      × (g.has_read_buf ≡ true)
      × (g.has_reply ≡ true)
  CanServe s h g (write fd content at) =
      (s.has_mem ≡ true)
      × ((f : ℕ)
          → (fs.kernel_write h.disk f content at).2
            ≡ advance at (fs.kernel_write h.disk f content at).1)
  CanServe s h g (llseek fd offset whence) = Unit {0}
  CanServe s h g (fsync fd start end datasync) = Unit {0}
  CanServe s h g (open_file path flags mode) =
      (is_local_hpc s path ≡ false) × (length path < 255) × (g.has_cred ≡ true)
  CanServe s h g (remove path) = (length path < 255) × (g.has_cred ≡ true)
