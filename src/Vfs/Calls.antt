-- ===== src/Vfs/Calls.antt =====
-- The node that asks: a slot of vfs_rpc_registry for a call, the answers that fill it, and what the
-- caller reads from it when it wakes.
pub mod Answered
use mattx.Base.{
  ℕ, zero, suc, ◌+◌, ◌%◌, List, [], ◌∷◌, ◌++◌, Bool, true, false, Option, none, some, ◌==◌,
  if◌then◌else◌, get_elem?, set, length, drop, ℤ, pos, negsuc,
}
use mattx.Registry.Slots.{first}
use mattx.Dsm.Rpc.{Rpc, RpcCtx, Stat, Dirent, is_free, waits_for, release, u64}
use mattx.Vfs.Wire.{
  Reply, getattr_reply, readdir_reply, open_reply, read_reply, write_reply, lseek_reply,
  fsync_reply, unlink_reply,
}
use mattx.Vfs.Home.{is_zero}

abbrev pub enotconn : ℤ
enotconn = negsuc 106

abbrev pub ebusy : ℤ
ebusy = negsuc 15

-- The slot as every call takes it; `prepare` is what one kind of call writes besides.
abbrev pub claimed : ℕ → RpcCtx → RpcCtx
claimed id old = record old { in_use = true; req_id = id; done = false }

unfoldable pub take_slot : (RpcCtx → RpcCtx) → Rpc → Rpc × Option (ℕ × ℕ)
take_slot prepare t = elim (first is_free t.registry) [
  | none ↦ (t, none)
  | some (i, old) ↦ (
    record {
      registry = set t.registry i (prepare (claimed t.next_req_id old));
      next_req_id = suc t.next_req_id % u64;
    },
    some (i, t.next_req_id),
  )
]

-- An answer: `write` fills the first slot that waits for its id, which is done then.
abbrev pub complete : (RpcCtx → RpcCtx) → RpcCtx → RpcCtx
complete write c = record (write c) { done = true }

unfoldable pub fill_slot : (RpcCtx → RpcCtx) → ℕ → Rpc → Rpc
fill_slot write id t = elim (first (waits_for id) t.registry) [
  | none ↦ t
  | some (i, c) ↦ record t { registry = set t.registry i (complete write c) }
]

abbrev pub copied_stat : ℤ → Stat → RpcCtx → RpcCtx
copied_stat err s c =
    let old = c.stat in
    let new = record old {
      mode = s.mode;
      size = s.size;
      blocks = s.blocks;
      blksize = s.blksize;
      uid = s.uid;
      gid = s.gid;
      nlink = s.nlink;
    } in
    record c { error = err; stat = if is_zero err then new else old }

-- memcpy of a block into a buffer of the caller, which keeps what lies behind.
abbrev pub memcpy {ℓ} : {A : Type ℓ} → List A → Option (List A) → Option (List A)
memcpy bs none = none
memcpy bs (some buf) = some (bs ++ drop (length bs) buf)

abbrev pub copied_block : ℤ → ℕ → List Dirent → RpcCtx → RpcCtx
copied_block err next block c =
    if is_zero err
    then record c {
      error = err;
      new_offset = next;
      dirent_count = length block;
      dirents = memcpy block c.dirents;
    }
    else record c { error = err }

abbrev pub copied_fd : ℤ → ℕ → RpcCtx → RpcCtx
copied_fd err fd c = record c { error = err; remote_fd = fd }

abbrev pub copied_bytes : ℤ → List ℕ → RpcCtx → RpcCtx
copied_bytes n bs c = record c { bytes_rw = n; data_buf = memcpy bs c.data_buf }

abbrev pub copied_count : ℤ → ℤ → RpcCtx → RpcCtx
copied_count err n c = record c { bytes_rw = n; error = err }

abbrev pub copied_offset : ℤ → ℤ → RpcCtx → RpcCtx
copied_offset err offset c = record c { error = err; ret_offset = offset }

abbrev pub copied_error : ℤ → RpcCtx → RpcCtx
copied_error err c = record c { error = err }

-- handle_vfs_x_reply and handle_sys_unlink_reply, as far as they change the table.
abbrev pub written : Reply → RpcCtx → RpcCtx
written (getattr_reply id err s) c = copied_stat err s c
written (readdir_reply id err next block) c = copied_block err next block c
written (open_reply id err fd) c = copied_fd err fd c
written (read_reply id n bs) c = copied_bytes n bs c
written (write_reply id err n) c = copied_count err n c
written (lseek_reply id err offset) c = copied_offset err offset c
written (fsync_reply id err) c = copied_error err c
written (unlink_reply id orig_pid err) c = copied_error err c

abbrev pub id_of : Reply → ℕ
id_of (getattr_reply id _ _) = id
id_of (readdir_reply id _ _ _) = id
id_of (open_reply id _ _) = id
id_of (read_reply id _ _) = id
id_of (write_reply id _ _) = id
id_of (lseek_reply id _ _) = id
id_of (fsync_reply id _) = id
id_of (unlink_reply id _ _) = id

abbrev pub is_addressed : Reply → Bool
is_addressed (unlink_reply zero _ _) = false
is_addressed _ = true

unfoldable pub handle_vfs_reply : Rpc → Reply → Rpc
handle_vfs_reply t r = if is_addressed r then fill_slot (written r) (id_of r) t else t
