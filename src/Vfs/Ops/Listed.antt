-- ===== src/Vfs/Ops/Listed.antt =====
-- A listing for another node of mattx_fileio.c.
use mattx.Base.{
  ℕ, suc, map, ◌∙◌, ◌<◌, ◌≡◌, refl, ap, List, ◌++◌, true, false, Option, none, some, arith, ◌==◌,
  length, drop, take_all, [], pos,
}
use mattx.Registry.Slots.{first}
use mattx.Dsm.Rpc.{Rpc, RpcCtx, Dirent, is_free, u64}
use mattx.Dsm.Rpc.Slots.{IsValid}
use mattx.Vfs.Disk.{FileSystem, root, own, opened}
use mattx.Vfs.Wire.{Reply, readdir_req, readdir_reply}
use mattx.Vfs.Home.{Home, Grants}
use mattx.Vfs.Readdir.Block.{entries_from, iterate-entries_from}
use mattx.Vfs.Readdir.{dirent, filldir, o_directory, list_dir, handle_readdir}
use mattx.Vfs.Calls.{handle_vfs_reply, copied_block}
use mattx.Vfs.Calls.Answered.{call_answered}
use mattx.Vfs.Client.{Site, asleep, collect}
use mattx.Vfs.Ops.{Listing, listing_of, rpc_vfs_readdir, serve}
use mattx.Vfs.Ops.Remote.{ask_lem}

module _ (fs : FileSystem) where
  -- The block from a position of an open directory, in a buffer that held `buf`.
  abbrev pub block_at : fs.Disk → (file : ℕ) → List Dirent → ℕ → Listing
  block_at d f buf p =
      let (block, next) = fs.iterate_dir d f filldir p [] in
      record {
        err = pos 0;
        offset = next;
        count = some (length block);
        entries = some (block ++ drop (length block) buf);
      }

  -- The next 20 entries of the directory itself, or those that are left, in a buffer that held `buf`.
  abbrev pub listed_at : fs.Disk → (file : ℕ) → List Dirent → ℕ → Listing
  listed_at d f buf p =
      let (es, next) = entries_from fs d f 20 p in
      record {
        err = pos 0;
        offset = next;
        count = some (length (map dirent es));
        entries = some (map dirent es ++ drop (length (map dirent es)) buf);
      }

  abbrev pub woken_listing : Rpc → Option Reply → ℕ → ℕ → Option Listing
  woken_listing r none slot offset = none
  woken_listing r (some reply) slot offset =
      (collect (handle_vfs_reply r reply) slot (listing_of offset)).1

  -- Where each waiting call has its own id and ids have not run out, a slot is free, the two nodes are
  -- connected both ways, the path is shorter than 255 bytes, and the other node has memory for the
  -- answer and can open the directory: a listing of the other node sleeps on the first free slot, and
  -- the answer gives the caller the next 20 entries of the directory from its position, or those that
  -- are left, in its buffer, with their count and the position after them.
  pub woken_listing-listed_at :
      (s : Site) (here h : Home fs) (r : Rpc) (node slot : ℕ) (old : RpcCtx) (g : Grants)
      (path : List ℕ) (offset f : ℕ) (buf : List Dirent)
      → IsValid r
      → suc r.next_req_id < u64
      → first is_free r.registry ≡ some (slot, old)
      → (node == s.my_node_id) ≡ false
      → s.connected node ≡ true
      → g.connected ≡ true
      → g.has_reply ≡ true
      → length path < 255
      → (fs.filp_open h.disk root own path o_directory 0).1 ≡ opened f
      → let (here', r', begun) = rpc_vfs_readdir fs s here r node path offset buf in
        let (h', reply) = serve fs h g (readdir_req r.next_req_id offset path) in
        (begun ≡ asleep slot (readdir_req r.next_req_id offset path))
        × (woken_listing r' reply slot offset
            ≡ some (listed_at (fs.filp_open h.disk root own path o_directory 0).0 f buf offset))
  unfolding rpc_vfs_readdir serve handle_readdir list_dir handle_vfs_reply
  woken_listing-listed_at s here h r node slot old g path offset f buf v u free n k l m short o =
      let whole = take_all 255 path (omega arith) in
      let d = (fs.filp_open h.disk root own path o_directory 0).0 in
      let block = (fs.iterate_dir d f filldir offset []).0 in
      let next = (fs.iterate_dir d f filldir offset []).1 in
      let paged = iterate-entries_from fs d f 20 offset [] refl in
      let asks = ask_lem s node _ _ _ r slot old free k in
      let wakes =
        call_answered r (λ c. record c { dirents = some buf }) slot old
          (copied_block (pos 0) next block) (listing_of offset) v u free (λ c. refl) in
      let answers : (handle_readdir fs h g r.next_req_id offset path).1
          ≡ some (readdir_reply r.next_req_id (pos 0) next block) =
        rw (m, list_dir, o, l) refl in
      rw (n, whole) (ap (λ x. x.1) asks, rw (answers, asks) (wakes ∙ rw paged refl))
