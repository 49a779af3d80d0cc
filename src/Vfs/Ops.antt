-- ===== src/Vfs/Ops.antt =====
-- The calls of mattx_rpc_vfs_x one by one: each for this node, and as a request to another.
pub mod Call
pub mod Remote
pub mod Answers
pub mod Listed
pub mod History
use mattx.Base.{
  ℕ, zero, suc, ◌+◌, List, [], ◌∷◌, Bool, true, false, ◌||◌, Option, none, some, ◌==◌,
  if◌then◌else◌, length, set, ℤ, pos, negsuc,
}
use mattx.Dsm.Rpc.{Rpc, RpcCtx, Stat, Dirent}
use mattx.Vfs.Disk.{FileSystem, Cred, root, failed, opened, missing, found}
use mattx.Vfs.Wire.{
  Request, Reply, getattr_req, readdir_req, open_req, read_req, write_req, lseek_req, fsync_req,
  unlink_req, close_req,
}
use mattx.Vfs.Home.{
  Home, Grants, file_at, get_file, fput, on_disk, keep_open, unlink, handle_getattr, handle_open,
  handle_read, handle_write, handle_lseek, handle_fsync, handle_unlink, handle_close, is_zero,
  open_as, ebadf,
}
use mattx.Vfs.Readdir.{list_dir, handle_readdir}
use mattx.Vfs.Calls.{take_slot, memcpy}
use mattx.Vfs.Client.{
  Site, Outcome, Begun, done, asleep, result, ask, unprepared, collect, is_local_hpc, start_of,
  wire_path, enomem, got_as, opened_as, read_outcome, write_outcome, lseek_outcome, open_outcome,
  error_outcome,
}

-- What mattx_rpc_vfs_getattr returns, and what it stores.
pub record Attrs : Type 0 where
  pub err : ℤ
  pub stat : Option Stat

-- What mattx_rpc_vfs_readdir returns, and what it stores: the position, the count, the buffer.
pub record Listing : Type 0 where
  pub err : ℤ
  pub offset : ℕ
  pub count : Option ℕ
  pub entries : Option (List Dirent)

abbrev pub attrs_of : RpcCtx → Attrs
attrs_of c = record { err = c.error; stat = if is_zero c.error then some c.stat else none }

abbrev pub listing_of : ℕ → RpcCtx → Listing
listing_of offset c =
    if is_zero c.error
    then record {
      err = c.error;
      offset = c.new_offset;
      count = some c.dirent_count;
      entries = c.dirents;
    }
    else record { err = c.error; offset = offset; count = none; entries = c.dirents }

-- A call for another node leaves the open files of this one.
abbrev untouched : {H A : Type 0} → H → Rpc × Begun A → H × Rpc × Begun A
untouched h p = (h, p.0, p.1)

abbrev listed : {H : Type 0} → List Dirent → ℕ → H × ℤ × List Dirent × ℕ → Listing
listed entries offset (h, err, block, next) =
    if is_zero err
    then record {
      err = err;
      offset = next;
      count = some (length block);
      entries = memcpy block (some entries);
    }
    else record { err = err; offset = offset; count = none; entries = some entries }

module _ (fs : FileSystem) where
  unfoldable pub local_read : Home fs → (fd : ℕ) → List ℕ → (count at : ℕ) → Home fs × Outcome
  local_read h fd buf count at = elim (file_at h.open_files fd) [
    | none ↦ (h, record { ret = ebadf; buf = some buf; at = at; fd = none })
    | some f ↦
        let h' = get_file fs h f in
        let (d, x, moved) = fs.kernel_read h'.disk f count at in
        (fput fs (on_disk fs h' d) f, got_as x buf moved)
  ]

  unfoldable pub local_write : Home fs → (fd : ℕ) → List ℕ → (at : ℕ) → Home fs × Outcome
  local_write h fd content at = elim (file_at h.open_files fd) [
    | none ↦ (h, record { ret = ebadf; buf = none; at = at; fd = none })
    | some f ↦
        let h' = get_file fs h f in
        let (d, ret, moved) = fs.kernel_write h'.disk f content at in
        (fput fs (on_disk fs h' d) f, record { ret = ret; buf = none; at = moved; fd = none })
  ]

  unfoldable pub local_llseek : Home fs → (fd : ℕ) → ℤ → (whence : ℕ) → Home fs × Outcome
  local_llseek h fd offset whence = elim (file_at h.open_files fd) [
    | none ↦ (h, result ebadf)
    | some f ↦
        let h' = get_file fs h f in
        let (d, res) = fs.vfs_llseek h'.disk f offset whence in
        (fput fs (on_disk fs h' d) f, result res)
  ]

  unfoldable pub local_fsync : Home fs → (fd start end datasync : ℕ) → Home fs × Outcome
  local_fsync h fd start end datasync = elim (file_at h.open_files fd) [
    | none ↦ (h, result ebadf)
    | some f ↦
        let h' = get_file fs h f in
        let (d, res) = fs.vfs_fsync_range h'.disk f start end datasync in
        (fput fs (on_disk fs h' d) f, result res)
  ]

  unfoldable pub local_open :
      Home fs → Site → (node : ℕ) → List ℕ → (flags mode : ℕ) → Home fs × Outcome
  local_open h s node path flags mode =
      let (h', x) = open_as fs h s.cred (start_of s node path) path flags mode in (h', opened_as x)

  unfoldable pub local_unlink : Home fs → Site → List ℕ → Home fs × Outcome
  local_unlink h s path = let (h', res) = unlink fs h s.cred path in (h', result res)

  unfoldable pub rpc_vfs_read :
      Site → Home fs → Rpc → (node fd : ℕ) → List ℕ → (count at : ℕ) → Home fs × Rpc × Begun Outcome
  rpc_vfs_read s h r node fd buf count at =
      if node == s.my_node_id
      then ((local_read h fd buf count at).0, r, done (local_read h fd buf count at).1)
      else untouched h (
          ask s node (λ e. record { ret = e; buf = some buf; at = at; fd = none })
            (λ c. record c { data_buf = some buf }) (λ id. read_req id fd count at) r)

  unfoldable pub rpc_vfs_write :
      Site → Home fs → Rpc → (node fd : ℕ) → List ℕ → (at : ℕ) → Home fs × Rpc × Begun Outcome
  rpc_vfs_write s h r node fd content at =
      if s.has_mem
      then (if node == s.my_node_id
          then ((local_write h fd content at).0, r, done (local_write h fd content at).1)
          else untouched h (
              ask s node (λ e. record { ret = e; buf = none; at = at; fd = none }) unprepared
                (λ id. write_req id fd at content) r))
      else (h, r, done (record { ret = enomem; buf = none; at = at; fd = none }))

  unfoldable pub rpc_vfs_llseek :
      Site → Home fs → Rpc → (node fd : ℕ) → ℤ → (whence : ℕ) → Home fs × Rpc × Begun Outcome
  rpc_vfs_llseek s h r node fd offset whence =
      if node == s.my_node_id
      then ((local_llseek h fd offset whence).0, r, done (local_llseek h fd offset whence).1)
      else untouched h (ask s node result unprepared (λ id. lseek_req id fd offset whence) r)

  unfoldable pub rpc_vfs_fsync :
      Site → Home fs → Rpc → (node fd start end datasync : ℕ) → Home fs × Rpc × Begun Outcome
  rpc_vfs_fsync s h r node fd start end datasync =
      if node == s.my_node_id
      then (
        (local_fsync h fd start end datasync).0,
        r,
        done (local_fsync h fd start end datasync).1,
      )
      else untouched h (ask s node result unprepared (λ id. fsync_req id fd start end datasync) r)

  unfoldable pub rpc_vfs_open :
      Site → Home fs → Rpc → (node : ℕ) → List ℕ → (flags mode : ℕ) → Home fs × Rpc × Begun Outcome
  rpc_vfs_open s h r node path flags mode =
      if node == s.my_node_id || is_local_hpc s path
      then (
        (local_open h s node path flags mode).0,
        r,
        done (local_open h s node path flags mode).1,
      )
      else untouched h (
          ask s node result unprepared
            (λ id. open_req id flags mode s.cred.uid s.cred.gid (wire_path path)) r)

  unfoldable pub rpc_vfs_unlink :
      Site → Home fs → Rpc → (node : ℕ) → List ℕ → Home fs × Rpc × Begun Outcome
  rpc_vfs_unlink s h r node path =
      if node == s.my_node_id
      then ((local_unlink h s path).0, r, done (local_unlink h s path).1)
      else untouched h (
          ask s node result unprepared
            (λ id. unlink_req id 0 s.cred.uid s.cred.gid (wire_path path)) r)

  unfoldable pub rpc_vfs_getattr : Site → Home fs → Rpc → (node : ℕ) → List ℕ → Rpc × Begun Attrs
  rpc_vfs_getattr s h r node path =
      if node == s.my_node_id || is_local_hpc s path
      then (elim (fs.getattr h.disk (start_of s node path) path) [
        | missing e ↦ (r, done (record { err = negsuc e; stat = none }))
        | found st ↦ (r, done (record { err = pos 0; stat = some st }))
      ])
      else (ask s node (λ e. record { err = e; stat = none }) unprepared
          (λ id. getattr_req id (wire_path path)) r)

  unfoldable pub rpc_vfs_readdir :
      Site
      → Home fs
      → Rpc
      → (node : ℕ) → List ℕ
      → (offset : ℕ) → List Dirent
      → Home fs × Rpc × Begun Listing
  rpc_vfs_readdir s h r node path offset entries =
      if node == s.my_node_id
      then (
        (list_dir fs h s.cred path offset).0,
        r,
        done (listed entries offset (list_dir fs h s.cred path offset)),
      )
      else untouched h (
          ask s node
            (λ e. record { err = e; offset = offset; count = none; entries = some entries })
            (λ c. record c { dirents = some entries })
            (λ id. readdir_req id offset (wire_path path)) r)

  -- The close is not answered: the new table here, or the request for the other node.
  unfoldable pub rpc_vfs_close : Site → Home fs → (node fd : ℕ) → Home fs × Option Request
  rpc_vfs_close s h node fd =
      if node == s.my_node_id
      then (handle_close fs h fd, none)
      else (h, if s.connected node then some (close_req fd) else none)

  -- What the home node does with a message; only some are answered.
  unfoldable pub serve : Home fs → Grants → Request → Home fs × Option Reply
  serve h g (getattr_req id path) = handle_getattr fs h g id path
  serve h g (readdir_req id offset path) = handle_readdir fs h g id offset path
  serve h g (open_req id flags mode uid gid path) = handle_open fs h g id flags mode uid gid path
  serve h g (read_req id fd count at) = handle_read fs h g id fd count at
  serve h g (write_req id fd at content) = handle_write fs h g id fd at content
  serve h g (lseek_req id fd offset whence) = handle_lseek fs h g id fd offset whence
  serve h g (fsync_req id fd start end datasync) = handle_fsync fs h g id fd start end datasync
  serve h g (unlink_req id orig_pid uid gid path) = handle_unlink fs h g id orig_pid uid gid path
  serve h g (close_req fd) = (handle_close fs h fd, none)
