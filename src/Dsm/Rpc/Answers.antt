-- ===== src/Dsm/Rpc/Answers.antt =====
-- vfs_rpc_registry of mattx_fileio.c: calls and their answers.
use mattx.Base.{
  ℕ, zero, suc, ◌≡◌, ◌≢◌, refl, sym, ◌∙◌, List, [], ◌∷◌, true, false, Option, some, arith,
  get_elem?, get_elem?_lt, get_elem?-set_self, get_elem?-set_ne, inl, inr, ℤ, All,
}
use mattx.Registry.Slots.{first, first-cases}
use mattx.Dsm.Rpc.{Rpc, RpcCtx, taken, is_free, alloc, waits_for, answered, handle_reply, release}
use mattx.Dsm.Rpc.Slots.{IsValid, key_at_hit}

-- The one slot that waits for an id is the one that a search finds.
pub first-waits_for :
    (t : Rpc) (i id : ℕ) (r : RpcCtx)
    → get_elem? t.registry i ≡ some r
    → waits_for id r ≡ true
    → IsValid t
    → first (waits_for id) t.registry ≡ some (i, r)
first-waits_for t i id r e w v = elim (first-cases (waits_for id) t.registry) [
  | inl (f, a) ↦ absurd (unseen t.registry i r a e w)
  | inr (j, q, f, at_j, hit) ↦
      let same : j ≡ i =
        ground
          (arith, v.once j i id, key_at_hit t.registry j q at_j, key_at_hit t.registry i r e) in
      f ∙ ground (arith, same, at_j, e)
]
  where
    unseen :
        (xs : List RpcCtx) (i : ℕ) (r : RpcCtx)
        → All (λ x. waits_for id x ≡ false) xs
        → get_elem? xs i ≡ some r
        → waits_for id r ≢ true
    unseen [] i r a e w = ground (arith, e)
    unseen (x ∷ xs) zero r (a, b) e w = ground (arith, a, e, w)
    unseen (x ∷ xs) (suc i) r (a, b) e w = unseen xs i r b e w

-- An answer to a call that waits marks that call's slot as done, with the answer's error and, where
-- it is no error, its bytes; every other slot stays as it was.
pub handle_reply_lem :
    (t : Rpc) (i id : ℕ) (r : RpcCtx) (error : ℤ) (bytes : List ℕ)
    → IsValid t
    → get_elem? t.registry i ≡ some r
    → waits_for id r ≡ true
    → (get_elem? (handle_reply t id error bytes).registry i ≡ some (answered error bytes r))
      × ((j : ℕ)
          → j ≢ i
          → get_elem? (handle_reply t id error bytes).registry j ≡ get_elem? t.registry j)
unfolding handle_reply
handle_reply_lem t i id r error bytes v e w =
    rw (first-waits_for t i id r e w v, handle_reply)
      (
        get_elem?-set_self t.registry i (answered error bytes r) (get_elem?_lt t.registry i e),
        λ j n. get_elem?-set_ne t.registry (answered error bytes r) (λ q. n (sym q)),
      )

pub first-some :
    (xs : List RpcCtx) (i : ℕ) (r : RpcCtx)
    → first is_free xs ≡ some (i, r)
    → get_elem? xs i ≡ some r
first-some xs i r e = elim (first-cases is_free xs) [
  | inl (f, a) ↦ absurd (ground (arith, e, f))
  | inr (j, q, f, at_j, hit) ↦ ground (arith, e, f, at_j)
]

-- A call whose wait ends before its answer, as a signal makes it, reads the error that the slot's
-- last call left there: taking the first free slot gives it the next id, and giving it back with no
-- answer between yields the old error.
pub release-alloc :
    (t : Rpc) (i : ℕ) (old : RpcCtx) (buf : Option (List ℕ))
    → first is_free t.registry ≡ some (i, old)
    → ((alloc t buf).1 ≡ some (i, t.next_req_id)) × ((release (alloc t buf).0 i).1 ≡ some old.error)
unfolding alloc release
release-alloc t i old buf e =
    let at_i = first-some t.registry i old e in
    rw (e, alloc, release)
      (
        refl,
        rw
            (get_elem?-set_self t.registry i (taken t.next_req_id buf old)
              (get_elem?_lt t.registry i at_i))
            refl,
      )
