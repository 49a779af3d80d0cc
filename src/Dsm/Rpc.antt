-- ===== src/Dsm/Rpc.antt =====
-- vfs_rpc_registry of mattx_fileio.c, the calls that wait for another node's answer: how a slot is
-- taken, answered and given back. The calls of Vfs share it.
pub mod Slots
pub mod Answers
use mattx.Base.{
  ℕ, zero, suc, ◌+◌, ◌%◌, List, [], ◌∷◌, Bool, true, false, ◌&&◌, not, Option, none, some, ◌==◌,
  if◌then◌else◌, set, get_elem?, ℤ, pos, negsuc,
}
use mattx.Registry.Slots.{first}

-- struct kstat, as far as the module copies it.
pub record Stat : Type 0 where
  pub ino : ℕ
  pub mode : ℕ
  pub size : ℕ
  pub blocks : ℕ
  pub blksize : ℕ
  pub uid : ℕ
  pub gid : ℕ
  pub nlink : ℕ

-- struct mattx_dirent
pub record Dirent : Type 0 where
  pub ino : ℕ
  pub offset : ℕ
  pub type : ℕ
  pub name : List ℕ

-- struct vfs_rpc_ctx. A buffer is `none` for NULL, or what it holds.
pub record RpcCtx : Type 0 where
  pub in_use : Bool
  pub req_id : ℕ
  pub done : Bool
  pub error : ℤ
  pub stat : Stat
  pub dirents : Option (List Dirent)
  pub dirent_count : ℕ
  pub new_offset : ℕ
  pub remote_fd : ℕ
  pub bytes_rw : ℤ
  pub data_buf : Option (List ℕ)
  pub ret_offset : ℤ

pub record Rpc : Type 0 where
  pub registry : List RpcCtx
  pub next_req_id : ℕ

-- MAX_VFS_RPC
abbrev pub max_vfs_rpc : ℕ
max_vfs_rpc = 64

-- 2 ^ 64
abbrev pub u64 : ℕ
u64 = 18446744073709551616

-- The slot as the code takes it: `error` is not written.
abbrev pub taken : ℕ → Option (List ℕ) → RpcCtx → RpcCtx
taken id buf old = record old { in_use = true; req_id = id; done = false; data_buf = buf }

abbrev pub is_free : RpcCtx → Bool
is_free r = not r.in_use

-- The first free slot, with its request's id; `none` for the -1 of a full table.
unfoldable pub alloc : Rpc → Option (List ℕ) → Rpc × Option (ℕ × ℕ)
alloc t buf = elim (first is_free t.registry) [
  | none ↦ (t, none)
  | some (i, old) ↦ (
    record {
      registry = set t.registry i (taken t.next_req_id buf old);
      next_req_id = suc t.next_req_id % u64;
    },
    some (i, t.next_req_id),
  )
]

-- An answer's bytes go to the caller's buffer, if it has one and the answer is no error.
abbrev pub fill : ℤ → List ℕ → Option (List ℕ) → Option (List ℕ)
fill (pos zero) bytes (some _) = some bytes
fill (pos zero) bytes none = none
fill (pos (suc _)) bytes buf = buf
fill (negsuc _) bytes buf = buf

abbrev pub answered : ℤ → List ℕ → RpcCtx → RpcCtx
answered error bytes r = record r {
  error = error;
  data_buf = fill error bytes r.data_buf;
  done = true;
}

abbrev pub waits_for : ℕ → RpcCtx → Bool
waits_for id r = r.in_use && (r.req_id == id)

-- handle_dsm_page_fault_reply and handle_dsm_flush_reply.
unfoldable pub handle_reply : Rpc → (req_id : ℕ) → (error : ℤ) → (bytes : List ℕ) → Rpc
handle_reply t id error bytes = elim (first (waits_for id) t.registry) [
  | none ↦ t
  | some (i, r) ↦ record t { registry = set t.registry i (answered error bytes r) }
]

-- handle_dsm_write_acquire_reply, which has no bytes.
unfoldable pub handle_dsm_write_acquire_reply : Rpc → (req_id : ℕ) → (error : ℤ) → Rpc
handle_dsm_write_acquire_reply t id error = elim (first (waits_for id) t.registry) [
  | none ↦ t
  | some (i, r) ↦ record t { registry = set t.registry i (record r { error = error; done = true }) }
]

-- What the caller does when its wait is over: it reads the slot's error and gives the slot back.
unfoldable pub release : Rpc → ℕ → Rpc × Option ℤ
release t slot = elim (get_elem? t.registry slot) [
  | none ↦ (t, none)
  | some r ↦
      (record t { registry = set t.registry slot (record r { in_use = false }) }, some r.error)
]
