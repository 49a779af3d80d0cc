-- ===== src/Vfs/Ops/Remote.antt =====
-- A call for another node of mattx_fileio.c, beside the same call made on that node.
use mattx.Base.{
  ℕ, zero, suc, ◌<◌, ◌≡◌, refl, ap, ◌∙◌, List, true, false, some, arith, ◌==◌, take_all, ℤ, pos,
  negsuc, Option-cases, inl, inr,
}
use mattx.Registry.Slots.{first}
use mattx.Dsm.Rpc.{Rpc, RpcCtx, is_free, u64}
use mattx.Dsm.Rpc.Slots.{IsValid}
use mattx.Vfs.Disk.{FileSystem, Got, error, bytes, own, Opened, failed, opened}
use mattx.Vfs.Wire.{Request, Reply, write_reply, fsync_reply, lseek_reply, unlink_reply}
use mattx.Vfs.Home.{
  masked, Home, Grants, file_at, handle_read, handle_write, handle_lseek, handle_fsync, handle_open,
  handle_unlink, unlink, ebadf, error_of, seek_reply, read_answer, open_answer, open_as,
}
use mattx.Vfs.Calls.{take_slot, fill_slot, handle_vfs_reply, written, complete, claimed}
use mattx.Vfs.Calls.Answered.{call_answered, take_slot_lem, Keeps}
use mattx.Vfs.Client.{
  Site, asleep, ask, collect, result, got_as, opened_as, read_outcome, lseek_outcome, open_outcome,
}
use mattx.Vfs.Ops.{
  local_read, local_write, local_llseek, local_fsync, local_open, local_unlink, rpc_vfs_read,
  rpc_vfs_write, rpc_vfs_llseek, rpc_vfs_fsync, rpc_vfs_open, rpc_vfs_unlink, serve,
}
use mattx.Vfs.Ops.Call.{
  Call, read, write, llseek, fsync, open_file, remove, outcome, request, moved_to, rpc_vfs, on_node,
  woken, CanServe,
}

pub ask_lem :
    {A : Type 0} (s : Site) (node : ℕ) (refused : ℤ → A) (prepare : RpcCtx → RpcCtx)
    (req : ℕ → Request) (r : Rpc) (slot : ℕ) (old : RpcCtx)
    → first is_free r.registry ≡ some (slot, old)
    → s.connected node ≡ true
    → ask s node refused prepare req r ≡ ((take_slot prepare r).0, asleep slot (req r.next_req_id))
unfolding ask
ask_lem s node refused prepare req r slot old f c =
    rw (c, ask, ap (λ x. x.1) (take_slot_lem r prepare slot old f)) refl

-- What a call writes to its slot when it takes it.
abbrev prepare : Call → RpcCtx → RpcCtx
prepare (read fd buf count at) c = record c { data_buf = some buf }
prepare _ c = c

prepare-Keeps : (c : Call) → Keeps (prepare c)
prepare-Keeps (read fd buf count at) x = refl
prepare-Keeps (write fd content at) x = refl
prepare-Keeps (llseek fd offset whence) x = refl
prepare-Keeps (fsync fd start end datasync) x = refl
prepare-Keeps (open_file path flags mode) x = refl
prepare-Keeps (remove path) x = refl

module _ (fs : FileSystem) where
  rpc_vfs_asks :
      (s : Site) (here h : Home fs) (r : Rpc) (node slot : ℕ) (old : RpcCtx) (g : Grants) (c : Call)
      → first is_free r.registry ≡ some (slot, old)
      → (node == s.my_node_id) ≡ false
      → s.connected node ≡ true
      → CanServe fs s h g c
      → rpc_vfs fs s here r node c
        ≡ (here, (take_slot (prepare c) r).0, asleep slot (request s c r.next_req_id))
  unfolding rpc_vfs rpc_vfs_read rpc_vfs_write rpc_vfs_llseek rpc_vfs_fsync rpc_vfs_open
      rpc_vfs_unlink
  rpc_vfs_asks s here h r node slot old g (read fd buf count at) f n k can =
      rw n (ap (λ x. (here, x.0, x.1)) (ask_lem s node _ _ _ r slot old f k))
  rpc_vfs_asks s here h r node slot old g (write fd content at) f n k can =
      simp (can.0) (rw n (ap (λ x. (here, x.0, x.1)) (ask_lem s node _ _ _ r slot old f k)))
  rpc_vfs_asks s here h r node slot old g (llseek fd offset whence) f n k can =
      rw n (ap (λ x. (here, x.0, x.1)) (ask_lem s node _ _ _ r slot old f k))
  rpc_vfs_asks s here h r node slot old g (fsync fd start end datasync) f n k can =
      rw n (ap (λ x. (here, x.0, x.1)) (ask_lem s node _ _ _ r slot old f k))
  rpc_vfs_asks s here h r node slot old g (open_file path flags mode) f n k can =
      rw (n, can.0) (ap (λ x. (here, x.0, x.1)) (ask_lem s node _ _ _ r slot old f k))
  rpc_vfs_asks s here h r node slot old g (remove path) f n k can =
      rw n (ap (λ x. (here, x.0, x.1)) (ask_lem s node _ _ _ r slot old f k))

  seek_addressed :
      (id : ℕ) (res : ℤ) (r : Rpc)
      → handle_vfs_reply r (seek_reply id res) ≡ fill_slot (written (seek_reply id res)) id r
  unfolding handle_vfs_reply
  seek_addressed id (pos n) r = refl
  seek_addressed id (negsuc n) r = refl

  seek_says :
      (id : ℕ) (res : ℤ) (old : RpcCtx)
      → lseek_outcome (complete (written (seek_reply id res)) (claimed id old)) ≡ result res
  seek_says id (pos n) old = refl
  seek_says id (negsuc n) old = refl

  read_addressed :
      (id : ℕ) (x : Got) (r : Rpc)
      → handle_vfs_reply r (read_answer fs id x) ≡ fill_slot (written (read_answer fs id x)) id r
  unfolding handle_vfs_reply
  read_addressed id (error e) r = refl
  read_addressed id (bytes bs) r = refl

  read_says :
      (id : ℕ) (d : fs.Disk) (f : ℕ) (buf : List ℕ) (count at : ℕ) (old : RpcCtx) (x : Got)
      → (fs.kernel_read d f count at).1 ≡ x
      → read_outcome at (
          complete (written (read_answer fs id x)) (prepare (read f buf count at) (claimed id old)))
        ≡ got_as x buf (fs.kernel_read d f count at).2
  read_says id d f buf count at old (error e) q = rw (fs.read_stays d f count at q) refl
  read_says id d f buf count at old (bytes bs) q = rw (fs.read_moves d f count at q) refl

  unlink_addressed :
      (id : ℕ) (res : ℤ)
      → 0 < id
      → (r : Rpc)
      → handle_vfs_reply r (unlink_reply id 0 res)
        ≡ fill_slot (written (unlink_reply id 0 res)) id r
  unfolding handle_vfs_reply
  unlink_addressed zero res p r = absurd (omega arith)
  unlink_addressed (suc id) res p r = refl

  open_addressed :
      (id : ℕ) (slot : Opened) (r : Rpc)
      → handle_vfs_reply r (open_answer fs id slot)
        ≡ fill_slot (written (open_answer fs id slot)) id r
  unfolding handle_vfs_reply
  open_addressed id (failed e) r = refl
  open_addressed id (opened i) r = refl

  open_says :
      (id : ℕ) (slot : Opened) (old : RpcCtx)
      → open_outcome (complete (written (open_answer fs id slot)) (claimed id old)) ≡ opened_as slot
  open_says id (failed e) old = refl
  open_says id (opened i) old = refl

  -- What the home node does, its answer, and what the caller makes of it.
  record IsServed (s : Site) (h : Home fs) (g : Grants) (node id : ℕ) (c : Call) : Type 0 where
    reply : Reply
    serves : serve fs h g (request s c id) ≡ ((on_node fs h (moved_to s node) c).0, some reply)
    addressed : (r : Rpc) → handle_vfs_reply r reply ≡ fill_slot (written reply) id r
    says :
        (old : RpcCtx)
        → outcome c (complete (written reply) (prepare c (claimed id old)))
          ≡ (on_node fs h (moved_to s node) c).1

  serve-IsServed :
      (s : Site) (h : Home fs) (g : Grants) (node id : ℕ) (c : Call)
      → 0 < id
      → g.connected ≡ true
      → CanServe fs s h g c
      → IsServed s h g node id c
  unfolding serve on_node handle_vfs_reply handle_read handle_write handle_lseek handle_fsync
      handle_open handle_unlink local_read local_write local_llseek local_fsync local_open
      local_unlink
  serve-IsServed s h g node id (read fd buf count at) p k ((f, e), b, m) = record {
    reply = read_answer fs id (fs.kernel_read h.disk f count at).1;
    serves = rw (e, b, m, k, handle_read, local_read) refl;
    addressed = read_addressed id (fs.kernel_read h.disk f count at).1;
    says = λ old.
        rw (e, local_read)
          (read_says id h.disk f buf count at old (fs.kernel_read h.disk f count at).1 refl);
  }
  serve-IsServed s h g node id (write fd content at) p k (m, moved) =
      elim (Option-cases (file_at h.open_files fd)) [
        | inl e ↦ record {
          reply = write_reply id (pos 0) ebadf;
          serves = rw (e, k, handle_write, local_write) refl;
          addressed = λ r. refl;
          says = λ old. rw (e, local_write) refl;
        }
        | inr (f, e) ↦
            let ret = (fs.kernel_write h.disk f content at).1 in
            record {
              reply = write_reply id (error_of ret) ret;
              serves = rw (e, k, handle_write, local_write) refl;
              addressed = λ r. refl;
              says = λ old. rw (e, local_write) (rw (moved f) refl);
            }
      ]
  serve-IsServed s h g node id (llseek fd offset whence) p k can =
      elim (Option-cases (file_at h.open_files fd)) [
        | inl e ↦ record {
          reply = lseek_reply id ebadf (pos 0);
          serves = rw (e, k, handle_lseek, local_llseek) refl;
          addressed = λ r. refl;
          says = λ old. rw (e, local_llseek) refl;
        }
        | inr (f, e) ↦
            let res = (fs.vfs_llseek h.disk f offset whence).1 in
            record {
              reply = seek_reply id res;
              serves = rw (e, k, handle_lseek, local_llseek) refl;
              addressed = λ r. seek_addressed id res r;
              says = λ old. rw (e, local_llseek) (seek_says id res old);
            }
      ]
  serve-IsServed s h g node id (fsync fd start end datasync) p k can =
      elim (Option-cases (file_at h.open_files fd)) [
        | inl e ↦ record {
          reply = fsync_reply id ebadf;
          serves = rw (e, k, handle_fsync, local_fsync) refl;
          addressed = λ r. refl;
          says = λ old. rw (e, local_fsync) refl;
        }
        | inr (f, e) ↦ record {
          reply = fsync_reply id (fs.vfs_fsync_range h.disk f start end datasync).1;
          serves = rw (e, k, handle_fsync, local_fsync) refl;
          addressed = λ r. refl;
          says = λ old. rw (e, local_fsync) refl;
        }
      ]
  serve-IsServed s h g node id (open_file path flags mode) p k (local, short, m) =
      let whole = take_all 255 path (omega arith) in
      let x = (open_as fs h (masked s.cred.uid s.cred.gid) own path flags mode).1 in
      record {
        reply = open_answer fs id x;
        serves = rw (whole, m, local, k, handle_open, local_open) refl;
        addressed = open_addressed id x;
        says = λ old. rw (local, local_open) (open_says id x old);
      }
  serve-IsServed s h g node id (remove path) p k (short, m) =
      let whole = take_all 255 path (omega arith) in
      record {
        reply = unlink_reply id 0 (unlink fs h (masked s.cred.uid s.cred.gid) path).1;
        serves = rw (whole, m, k, handle_unlink, local_unlink) refl;
        addressed = unlink_addressed id _ p;
        says = λ old. refl;
      }

  -- Where each waiting call has its own id, ids have not run out and start at 1, a slot is free and
  -- the two nodes are connected both ways: a read, write, llseek, fsync, open or unlink for another
  -- node that can be served sleeps on the first free slot; the request changes the home node exactly
  -- as the same call there does by a thread with the uid and gid of the caller and the groups and
  -- capabilities of the kernel, and once the answer has come the caller gets exactly that call's
  -- result, with the same bytes, position and descriptor. (CanServe: a descriptor that is read is open
  -- and there is memory for the bytes; a write has memory and moves its position by what it wrote; a
  -- path is shorter than 255 bytes, a file to open is not read locally, and the home node has memory
  -- for the credentials.)
  pub woken-on_node :
      (s : Site) (here h : Home fs) (r : Rpc) (node slot : ℕ) (old : RpcCtx) (g : Grants) (c : Call)
      → IsValid r
      → 0 < r.next_req_id
      → suc r.next_req_id < u64
      → first is_free r.registry ≡ some (slot, old)
      → (node == s.my_node_id) ≡ false
      → s.connected node ≡ true
      → g.connected ≡ true
      → CanServe fs s h g c
      → let (here', r', begun) = rpc_vfs fs s here r node c in
        let (h', reply) = serve fs h g (request s c r.next_req_id) in
        let (h'', out) = on_node fs h (moved_to s node) c in
        (here' ≡ here)
        × (begun ≡ asleep slot (request s c r.next_req_id))
        × (h' ≡ h'')
        × (woken fs r' reply slot c ≡ some out)
  woken-on_node s here h r node slot old g c v p u f n k l can =
      let asks = rpc_vfs_asks s here h r node slot old g c f n k can in
      let x = serve-IsServed s h g node r.next_req_id c p l can in
      let wakes =
        call_answered r (prepare c) slot old (written x.reply) (outcome c) v u f
          (prepare-Keeps c) in
      (
        ap (λ y. y.0) asks,
        ap (λ y. y.2) asks,
        ap (λ y. y.0) x.serves,
        rw (ap (λ y. y.1) x.serves, asks)
            (ap (λ y. (collect y slot (outcome c)).1) (x.addressed (take_slot (prepare c) r).0)
              ∙ wakes
              ∙ ap some (x.says old)),
      )
