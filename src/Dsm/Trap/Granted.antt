-- ===== src/Dsm/Trap/Granted.antt =====
-- What a guest has of a page once its fault is answered.
use mattx.Base.{
  ℕ, suc, ◌/◌, ◌-◌, ◌<◌, ◌≡◌, refl, ap, List, Bool, true, ◌||◌, some, update, get_elem?,
  get_elem?_lt, get_elem?-set_self, is_some, arith, Bool-cases, inl, inr, pos,
}
use mattx.Registry.Slots.{first}
use mattx.Registry.Guests.{Guests, GuestInfo, DsmMapping, shared, page_size}
use mattx.Dsm.Guest.{write_copy, set_state}
use mattx.Dsm.Rpc.{Rpc, RpcCtx, alloc, release, is_free, taken, answered, handle_reply, u64}
use mattx.Dsm.Rpc.Slots.{IsValid, alloc-IsValid}
use mattx.Dsm.Rpc.Answers.{handle_reply_lem, first-some}
use mattx.Dsm.Trap.{
  Access, nopage, waits, Woken, translate, page_start, find_segment, install, dsm_fault_begin,
  dsm_fault_end,
}

-- The page with the bytes of the answer, SHARED.
abbrev pub delivered : DsmMapping → ℕ → List ℕ → DsmMapping
delivered m page bytes =
    set_state (record m { pages = update m.pages page (some bytes) }) page shared

install_lem :
    (t : Guests) (w : Woken) (tgid addr : ℕ) (a : Access) (bytes : List ℕ) (i d : ℕ) (g : GuestInfo)
    (m : DsmMapping)
    → find_segment t tgid (addr - a.offset) ≡ some ((i, g), d, m)
    → (is_some (m.pages (a.offset / page_size)) || w.has_free) ≡ true
    → w.inserted ≡ nopage
    → install t w tgid addr a bytes
      ≡ (write_copy t i g d (delivered m (a.offset / page_size) bytes), nopage)
unfolding install
install_lem t w tgid addr a bytes i d g m e h n =
    elim (Bool-cases (is_some (m.pages (a.offset / page_size)))) [
      | inl q ↦ rw (e, install, q, n) refl
      | inr q ↦
          let free : w.has_free ≡ true = ground (arith, h, q) in rw (e, install, q, free, n) refl
    ]

-- The slot after the request and its answer.
answered_slot :
    (r : Rpc) (slot : ℕ) (old : RpcCtx) (buf bytes : List ℕ)
    → IsValid r
    → suc r.next_req_id < u64
    → first is_free r.registry ≡ some (slot, old)
    → get_elem? (handle_reply (alloc r (some buf)).0 r.next_req_id (pos 0) bytes).registry slot
      ≡ some (answered (pos 0) bytes (taken r.next_req_id (some buf) old))
unfolding alloc
answered_slot r slot old buf bytes v h e =
    let c = taken r.next_req_id (some buf) old in
    let at_slot = first-some r.registry slot old e in
    let here : get_elem? (alloc r (some buf)).0.registry slot ≡ some c =
      rw (e, alloc) (get_elem?-set_self r.registry slot c (get_elem?_lt r.registry slot at_slot)) in
    (handle_reply_lem (alloc r (some buf)).0 slot r.next_req_id c (pos 0) bytes
      (alloc-IsValid r (some buf) h v) here (ground arith)).0

release_lem :
    (r : Rpc) (slot id : ℕ) (old : RpcCtx) (buf bytes : List ℕ)
    → get_elem? r.registry slot ≡ some (answered (pos 0) bytes (taken id (some buf) old))
    → (release r slot).1 ≡ some (pos 0)
unfolding release
release_lem r slot id old buf bytes e = rw (e, release) refl

dsm_fault_end_lem :
    (t : Guests) (r : Rpc) (w : Woken) (tgid address slot id : ℕ) (a : Access) (old : RpcCtx)
    (buf bytes : List ℕ)
    → get_elem? r.registry slot ≡ some (answered (pos 0) bytes (taken id (some buf) old))
    → dsm_fault_end t r w tgid address slot a ≡ (
      (install t w tgid (page_start address) a bytes).0,
      (release r slot).0,
      (install t w tgid (page_start address) a bytes).1,
    )
unfolding dsm_fault_end
dsm_fault_end_lem t r w tgid address slot id a old buf bytes e =
    rw (dsm_fault_end, release_lem r slot id old buf bytes e, e) refl

dsm_fault_begin_lem :
    (t : Guests) (r : Rpc) (connected : ℕ → Bool) (tgid address slot : ℕ) (a : Access)
    (old : RpcCtx) (buf : List ℕ)
    → translate t tgid (page_start address) ≡ some a
    → connected a.home_node ≡ true
    → first is_free r.registry ≡ some (slot, old)
    → (dsm_fault_begin t r connected tgid address (some buf)).0 ≡ (alloc r (some buf)).0
unfolding dsm_fault_begin alloc
dsm_fault_begin_lem t r connected tgid address slot a old buf e c f =
    rw (e, dsm_fault_begin, c, f, alloc) refl

dsm_fault_begin-waits :
    (t : Guests) (r : Rpc) (connected : ℕ → Bool) (tgid address slot : ℕ) (a : Access)
    (old : RpcCtx) (buf : List ℕ)
    → translate t tgid (page_start address) ≡ some a
    → connected a.home_node ≡ true
    → first is_free r.registry ≡ some (slot, old)
    → (dsm_fault_begin t r connected tgid address (some buf)).1 ≡ waits slot r.next_req_id a
unfolding dsm_fault_begin alloc
dsm_fault_begin-waits t r connected tgid address slot a old buf e c f =
    rw (e, dsm_fault_begin, c, f, alloc) refl

-- Where each waiting call has its own id and the ids have not run out, a fault on a shared segment
-- whose home node is connected waits on the first free slot. When it wakes after an answer to its
-- request without an error, in a registry t' that still has the segment, and there is room for the
-- page and its table entry, the page of t' has exactly the bytes of the answer and is SHARED, and
-- nothing else of t' is changed.
pub dsm_fault_end-handle_reply :
    (t t' : Guests) (r : Rpc) (connected : ℕ → Bool) (w : Woken) (tgid address slot : ℕ)
    (a : Access) (old : RpcCtx) (buf bytes : List ℕ) (i d : ℕ) (g : GuestInfo) (m : DsmMapping)
    → IsValid r
    → suc r.next_req_id < u64
    → first is_free r.registry ≡ some (slot, old)
    → translate t tgid (page_start address) ≡ some a
    → connected a.home_node ≡ true
    → find_segment t' tgid (page_start address - a.offset) ≡ some ((i, g), d, m)
    → (is_some (m.pages (a.offset / page_size)) || w.has_free) ≡ true
    → w.inserted ≡ nopage
    → let (r₁, begun) = dsm_fault_begin t r connected tgid address (some buf) in
      let r₂ = handle_reply r₁ r.next_req_id (pos 0) bytes in
      (begun ≡ waits slot r.next_req_id a)
      × ((dsm_fault_end t' r₂ w tgid address slot a).0
          ≡ write_copy t' i g d (delivered m (a.offset / page_size) bytes))
      × ((dsm_fault_end t' r₂ w tgid address slot a).2 ≡ nopage)
dsm_fault_end-handle_reply t t' r connected w tgid address slot a old buf bytes i d g m v h f e c s
      p n =
    let r₁ = dsm_fault_begin_lem t r connected tgid address slot a old buf e c f in
    let at_slot = answered_slot r slot old buf bytes v h f in
    let put = install_lem t' w tgid (page_start address) a bytes i d g m s p n in
    let end =
      dsm_fault_end_lem t' (handle_reply (alloc r (some buf)).0 r.next_req_id (pos 0) bytes) w tgid
        address slot r.next_req_id a old buf bytes at_slot in
    (
      dsm_fault_begin-waits t r connected tgid address slot a old buf e c f,
      rw r₁ (rw end (ap (λ x. x.0) put)),
      rw r₁ (rw end (ap (λ x. x.1) put)),
    )
