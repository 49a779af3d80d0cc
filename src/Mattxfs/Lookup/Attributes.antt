-- ===== src/Mattxfs/Lookup/Attributes.antt =====
-- A file's attributes as mattxfs/mattxfs.c gets them from the file's node.
use mattx.Base.{
  ℕ, suc, ◌<◌, ◌≡◌, refl, ap, List, true, false, Option, none, some, arith, ◌==◌, length, take_all,
  pos,
}
use mattx.Registry.Slots.{first}
use mattx.Dsm.Rpc.{Rpc, RpcCtx, Stat, is_free, u64}
use mattx.Dsm.Rpc.Slots.{IsValid}
use mattx.Vfs.Disk.{FileSystem, own, found}
use mattx.Vfs.Wire.{Reply, getattr_req, getattr_reply}
use mattx.Vfs.Home.{Home, Grants, handle_getattr}
use mattx.Vfs.Calls.{handle_vfs_reply, copied_stat}
use mattx.Vfs.Calls.Answered.{call_answered}
use mattx.Vfs.Client.{Site, asleep, collect, is_local_hpc}
use mattx.Vfs.Ops.{Attrs, attrs_of, rpc_vfs_getattr, serve}
use mattx.Vfs.Ops.Remote.{ask_lem}
use mattx.Mattxfs.Lookup.{Inode, Entry, inode, inode_of, remote_lookup}

-- mattxfs_remote_lookup on what the call gave.
abbrev pub looked : Option Attrs → Option Entry
looked none = none
looked (some a) = some (remote_lookup true a)

-- What an inode takes over from a file, its number apart.
pub record IsInode (i : Inode) (st : Stat) (number : ℕ) : Type 0 where
  pub mode : i.i_mode ≡ st.mode
  pub size : i.i_size ≡ st.size
  pub blocks : i.i_blocks ≡ st.blocks
  pub uid : i.i_uid ≡ st.uid
  pub gid : i.i_gid ≡ st.gid
  pub ino : i.i_ino ≡ number

module _ (fs : FileSystem) where
  abbrev pub woken_attrs : Rpc → Option Reply → ℕ → Option Attrs
  woken_attrs r none slot = none
  woken_attrs r (some reply) slot = (collect (handle_vfs_reply r reply) slot attrs_of).1

  -- A name in a directory of another node, whose file is there and is not read locally, where each
  -- waiting call has its own id and ids have not run out, a slot is free, the two nodes are connected
  -- both ways and the path is shorter than 255 bytes: the look-up sleeps on the first free slot, and
  -- the answer gives an inode with the file's own mode, size, blocks and owner. Its number is not the
  -- file's: it is whatever number the slot held before, since the answer has none.
  pub remote_lookup-serve :
      (s : Site) (here h : Home fs) (r : Rpc) (node slot : ℕ) (old : RpcCtx) (g : Grants)
      (path : List ℕ) (st : Stat)
      → IsValid r
      → suc r.next_req_id < u64
      → first is_free r.registry ≡ some (slot, old)
      → (node == s.my_node_id) ≡ false
      → is_local_hpc s path ≡ false
      → s.connected node ≡ true
      → g.connected ≡ true
      → length path < 255
      → fs.getattr h.disk own path ≡ found st
      → let (r', begun) = rpc_vfs_getattr fs s here r node path in
        let (h', reply) = serve fs h g (getattr_req r.next_req_id path) in
        (begun ≡ asleep slot (getattr_req r.next_req_id path))
        × (h' ≡ h)
        × (i : Inode) × (looked (woken_attrs r' reply slot) ≡ some (inode i))
        × IsInode i st old.stat.ino
  unfolding rpc_vfs_getattr serve handle_getattr handle_vfs_reply remote_lookup
  remote_lookup-serve s here h r node slot old g path st v u free n local k l short o =
      let whole = take_all 255 path (omega arith) in
      let asks = ask_lem s node _ _ _ r slot old free k in
      let sent = record st { ino = 0 } in
      let answers : (handle_getattr fs h g r.next_req_id path)
          ≡ (h, some (getattr_reply r.next_req_id (pos 0) sent)) =
        rw (handle_getattr, o, l) refl in
      let wakes =
        call_answered r (λ c. c) slot old (copied_stat (pos 0) sent) attrs_of v u free
          (λ c. refl) in
      rw (n, local, whole, answers)
        (
          ap (λ x. x.1) asks,
          refl,
          inode_of (record st { ino = old.stat.ino }),
          rw asks (ap looked wakes),
          record { mode = refl; size = refl; blocks = refl; uid = refl; gid = refl; ino = refl },
        )
