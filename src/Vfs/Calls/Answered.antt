-- ===== src/Vfs/Calls/Answered.antt =====
-- A call of mattx_fileio.c, its answer and its wakeup, on vfs_rpc_registry.
use mattx.Base.{
  ℕ, suc, ◌%◌, ◌<◌, ◌≡◌, refl, true, some, arith, set, get_elem?, get_elem?_lt, get_elem?-set_self,
}
use mattx.Registry.Slots.{first}
use mattx.Dsm.Rpc.{Rpc, RpcCtx, is_free, waits_for, u64}
use mattx.Dsm.Rpc.Slots.{IsValid, key, key_at-set}
use mattx.Dsm.Rpc.Answers.{first-some, first-waits_for}
use mattx.Vfs.Calls.{take_slot, fill_slot, claimed, complete}
use mattx.Vfs.Client.{collect}

-- What a call writes to its slot leaves who uses it.
abbrev pub Keeps : (RpcCtx → RpcCtx) → Type 0
Keeps f = (c : RpcCtx) → key (f c) ≡ key c

key→waits_for : (c : RpcCtx) (id : ℕ) → key c ≡ some id → waits_for id c ≡ true
key→waits_for c id e = ground (arith, e)

fill_slot_lem :
    (u : Rpc) (i id : ℕ) (c : RpcCtx) (write : RpcCtx → RpcCtx)
    → IsValid u
    → get_elem? u.registry i ≡ some c
    → waits_for id c ≡ true
    → get_elem? (fill_slot write id u).registry i ≡ some (complete write c)
unfolding fill_slot
fill_slot_lem u i id c write v e w =
    rw (first-waits_for u i id c e w v, fill_slot)
      (get_elem?-set_self u.registry i (complete write c) (get_elem?_lt u.registry i e))

module _ (t : Rpc) (prepare : RpcCtx → RpcCtx) (slot : ℕ) (old : RpcCtx) where
  pub take_slot_lem :
      first is_free t.registry ≡ some (slot, old)
      → take_slot prepare t ≡ (
        record {
          registry = set t.registry slot (prepare (claimed t.next_req_id old));
          next_req_id = suc t.next_req_id % u64;
        },
        some (slot, t.next_req_id),
      )
  unfolding take_slot
  take_slot_lem f = rw (f, take_slot) refl

  taken-IsValid :
      IsValid t
      → suc t.next_req_id < u64
      → first is_free t.registry ≡ some (slot, old)
      → Keeps prepare
      → IsValid (take_slot prepare t).0
  taken-IsValid v h f k =
      let at = first-some t.registry slot old f in
      let new = prepare (claimed t.next_req_id old) in
      let same : key new ≡ some t.next_req_id = k (claimed t.next_req_id old) in
      rw (take_slot_lem f) (record {
        once = λ a b id p q. ground (
          arith,
          same,
          v.once a b id,
          v.used a id,
          v.used b id,
          key_at-set t.registry slot a old new at,
          key_at-set t.registry slot b old new at,
        );
        used = λ a id p. ground (arith, same, v.used a id, key_at-set t.registry slot a old new at);
      })

  -- The slot as the answer leaves it.
  slot_after :
      (write : RpcCtx → RpcCtx)
      → IsValid t
      → suc t.next_req_id < u64
      → first is_free t.registry ≡ some (slot, old)
      → Keeps prepare
      → get_elem? (fill_slot write t.next_req_id (take_slot prepare t).0).registry slot
        ≡ some (complete write (prepare (claimed t.next_req_id old)))
  slot_after write v h f k =
      let new = prepare (claimed t.next_req_id old) in
      let lt = get_elem?_lt t.registry slot (first-some t.registry slot old f) in
      fill_slot_lem (take_slot prepare t).0 slot t.next_req_id new write (taken-IsValid v h f k)
        (rw (take_slot_lem f) (get_elem?-set_self t.registry slot new lt))
        (key→waits_for new t.next_req_id (k (claimed t.next_req_id old)))

  pub call_answered :
      {A : Type 0} (write : RpcCtx → RpcCtx) (get : RpcCtx → A)
      → IsValid t
      → suc t.next_req_id < u64
      → first is_free t.registry ≡ some (slot, old)
      → Keeps prepare
      → (collect (fill_slot write t.next_req_id (take_slot prepare t).0) slot get).1
        ≡ some (get (complete write (prepare (claimed t.next_req_id old))))
  unfolding collect
  call_answered write get v h f k = rw (slot_after write v h f k, collect) refl
