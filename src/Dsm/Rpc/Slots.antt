-- ===== src/Dsm/Rpc/Slots.antt =====
-- vfs_rpc_registry of mattx_fileio.c: the ids of the calls that wait.
use mattx.Base.{
  ◌≤◌, ℕ, suc, ◌+◌, ◌<◌, ◌≡◌, refl, List, [], ◌∷◌, true, false, Option, none, some, arith, ◌==◌,
  ◌⊎◌, if◌then◌else◌, set, get_elem?, get_elem?_lt, get_elem?-set_self, get_elem?-set_ne, inl, inr,
  Option-cases, ℤ, length,
}
use native.Mathlib.Decide.{ℕ_discrete}
use mattx.Registry.Slots.{first-cases}
use mattx.Dsm.Rpc.{
  Rpc, RpcCtx, u64, taken, is_free, alloc, waits_for, answered, handle_reply,
  handle_dsm_write_acquire_reply, release,
}

-- The id that a slot waits for.
abbrev pub key : RpcCtx → Option ℕ
key r = if r.in_use then some r.req_id else none

abbrev key_of : Option RpcCtx → Option ℕ
key_of none = none
key_of (some r) = key r

unfoldable pub key_at : List RpcCtx → ℕ → Option ℕ
key_at xs i = key_of (get_elem? xs i)

pub record IsValid (t : Rpc) : Type 0 where
  pub once : (i j id : ℕ) → key_at t.registry i ≡ some id → key_at t.registry j ≡ some id → i ≡ j
  pub used : (i id : ℕ) → key_at t.registry i ≡ some id → id < t.next_req_id

pub key_at-set :
    (xs : List RpcCtx) (i j : ℕ) (r r' : RpcCtx)
    → get_elem? xs i ≡ some r
    → key_at (set xs i r') j ≡ (if i == j then key r' else key_at xs j)
unfolding key_at
key_at-set xs i j r r' e = elim (ℕ_discrete i j) [
  | yes q ↦
      let same : (i == j) ≡ true = ground arith in
      rw (same, ← q, get_elem?-set_self xs i r' (get_elem?_lt xs i e)) refl
  | no n ↦
      let other : (i == j) ≡ false = ground (arith, n) in rw (other, get_elem?-set_ne xs r' n) refl
]

pub key_at_hit :
    (xs : List RpcCtx) (i : ℕ) (r : RpcCtx) → get_elem? xs i ≡ some r → key_at xs i ≡ key r
unfolding key_at
key_at_hit xs i r e = rw e refl

pub alloc-IsValid :
    (t : Rpc) (buf : Option (List ℕ))
    → suc t.next_req_id < u64
    → IsValid t
    → IsValid (alloc t buf).0
unfolding alloc
alloc-IsValid t buf h v = elim (first-cases is_free t.registry) [
  | inl (e, a) ↦ rw (e, alloc) v
  | inr (i, old, e, at_i, free) ↦
      rw (e, alloc)
        (record {
          once = λ a b id p q. ground (
            arith,
            v.once a b id,
            v.used a id,
            v.used b id,
            key_at-set t.registry i a old (taken t.next_req_id buf old) at_i,
            key_at-set t.registry i b old (taken t.next_req_id buf old) at_i,
          );
          used = λ a id p. ground (
            arith,
            v.used a id,
            key_at-set t.registry i a old (taken t.next_req_id buf old) at_i,
          );
        })
]

-- A slot that is written and keeps what it waits for, or waits no more.
set-IsValid :
    (t : Rpc) (i : ℕ) (r r' : RpcCtx)
    → get_elem? t.registry i ≡ some r
    → (key r' ≡ key r) ⊎ (key r' ≡ none)
    → IsValid t
    → IsValid (record t { registry = set t.registry i r' })
set-IsValid t i r r' e k v = record {
  once = λ a b id p q. ground (
    arith,
    k,
    v.once a b id,
    key_at_hit t.registry i r e,
    key_at-set t.registry i a r r' e,
    key_at-set t.registry i b r r' e,
  );
  used = λ a id p.
      ground (arith, k, v.used a id, key_at_hit t.registry i r e, key_at-set t.registry i a r r' e);
}

handle_reply-IsValid :
    (t : Rpc) (id : ℕ) (error : ℤ) (bytes : List ℕ)
    → IsValid t
    → IsValid (handle_reply t id error bytes)
unfolding handle_reply
handle_reply-IsValid t id error bytes v = elim (first-cases (waits_for id) t.registry) [
  | inl (e, a) ↦ rw (e, handle_reply) v
  | inr (i, r, e, at_i, hit) ↦
      rw (e, handle_reply) (set-IsValid t i r (answered error bytes r) at_i (inl refl) v)
]

handle_dsm_write_acquire_reply-IsValid :
    (t : Rpc) (id : ℕ) (error : ℤ) → IsValid t → IsValid (handle_dsm_write_acquire_reply t id error)
unfolding handle_dsm_write_acquire_reply
handle_dsm_write_acquire_reply-IsValid t id error v = elim (first-cases (waits_for id) t.registry) [
  | inl (e, a) ↦ rw (e, handle_dsm_write_acquire_reply) v
  | inr (i, r, e, at_i, hit) ↦
      rw (e, handle_dsm_write_acquire_reply)
        (set-IsValid t i r (record r { error = error; done = true }) at_i (inl refl) v)
]

release-IsValid : (t : Rpc) (slot : ℕ) → IsValid t → IsValid (release t slot).0
unfolding release
release-IsValid t slot v = elim (Option-cases (get_elem? t.registry slot)) [
  | inl e ↦ rw (e, release) v
  | inr (r, e) ↦ rw (e, release) (set-IsValid t slot r (record r { in_use = false }) e (inr refl) v)
]

-- What callers and answers do to the table.
pub data Event : Type 0 where
  call : Option (List ℕ) → Event
  reply : (req_id : ℕ) → (error : ℤ) → (bytes : List ℕ) → Event
  acquire_reply : (req_id : ℕ) → (error : ℤ) → Event
  give_back : (slot : ℕ) → Event

unfoldable pub step : Rpc → Event → Rpc
step t (call buf) = (alloc t buf).0
step t (reply id error bytes) = handle_reply t id error bytes
step t (acquire_reply id error) = handle_dsm_write_acquire_reply t id error
step t (give_back slot) = (release t slot).0

unfoldable pub run : Rpc → List Event → Rpc
run t [] = t
run t (e ∷ es) = run (step t e) es

step-IsValid : (t : Rpc) (e : Event) → suc t.next_req_id < u64 → IsValid t → IsValid (step t e)
unfolding step
step-IsValid t (call buf) h v = alloc-IsValid t buf h v
step-IsValid t (reply id error bytes) h v = handle_reply-IsValid t id error bytes v
step-IsValid t (acquire_reply id error) h v = handle_dsm_write_acquire_reply-IsValid t id error v
step-IsValid t (give_back slot) h v = release-IsValid t slot v

-- A step takes one id at most.
next-step : (t : Rpc) (e : Event) → (step t e).next_req_id ≤ suc t.next_req_id
unfolding step alloc handle_reply handle_dsm_write_acquire_reply release
next-step t (call buf) = elim (first-cases is_free t.registry) [
  | inl (e, a) ↦ rw (e, step, alloc) (omega arith)
  | inr (i, old, e, at_i, free) ↦ rw (e, step, alloc) (omega arith)
]
next-step t (reply id error bytes) = elim (first-cases (waits_for id) t.registry) [
  | inl (e, a) ↦ rw (e, step, handle_reply) (omega arith)
  | inr (i, r, e, at_i, hit) ↦ rw (e, step, handle_reply) (omega arith)
]
next-step t (acquire_reply id error) = elim (first-cases (waits_for id) t.registry) [
  | inl (e, a) ↦ rw (e, step, handle_dsm_write_acquire_reply) (omega arith)
  | inr (i, r, e, at_i, hit) ↦ rw (e, step, handle_dsm_write_acquire_reply) (omega arith)
]
next-step t (give_back slot) = elim (Option-cases (get_elem? t.registry slot)) [
  | inl e ↦ rw (e, step, release) (omega arith)
  | inr (r, e) ↦ rw (e, step, release) (omega arith)
]

-- As long as the 64-bit counter of ids does not wrap, whatever calls are made, answered and given
-- back, two slots that wait never have the same id.
pub run-IsValid :
    (t : Rpc) (es : List Event) → t.next_req_id + length es < u64 → IsValid t → IsValid (run t es)
unfolding run
run-IsValid t [] h v = v
run-IsValid t (e ∷ es) h v =
    run-IsValid (step t e) es (omega (arith, next-step t e)) (step-IsValid t e (omega arith) v)
