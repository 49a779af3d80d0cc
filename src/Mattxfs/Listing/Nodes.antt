-- ===== src/Mattxfs/Listing/Nodes.antt =====
-- The root directory of mattxfs/mattxfs.c over several reads.
use mattx.Base.{
  ℕ, zero, suc, ◌+◌, ◌-◌, ◌≤◌, ◌≡◌, refl, List, [], ◌∷◌, Bool, arith, leb, drop, Bool-cases, inl,
  inr,
}
use mattx.Mattxfs.Listing.{emit_nodes, root_iterate, offer}

drop-nil : (n : ℕ) → drop {A = ℕ} n [] ≡ []
drop-nil zero = refl
drop-nil (suc n) = refl

module _ {S : Type 0} (emit : ℕ → S → Bool × S) where
  -- The nodes below the position are passed over; from there on each is offered once, in order.
  emit_nodes-offer :
      (ns : List ℕ) (i at : ℕ) (s : S)
      → i + 2 ≤ at
      → emit_nodes emit ns i at s ≡ (
        at + (offer emit (drop (at - (i + 2)) ns) s).0,
        (offer emit (drop (at - (i + 2)) ns) s).1,
      )
  unfolding emit_nodes offer
  emit_nodes-offer [] i at s h =
      let e : at + 0 ≡ at = omega arith in rw (drop-nil (at - (i + 2)), e) refl
  emit_nodes-offer (n ∷ ns) i at s h = elim (Bool-cases (leb at (i + 2))) [
    | inl here ↦
        let d : at - (i + 2) ≡ 0 = ground (arith, here) in
        let ih = emit_nodes-offer ns (suc i) (suc at) (emit n s).1 (omega arith) in
        let e : suc at - (suc i + 2) ≡ 0 = ground (arith, here) in
        elim (Bool-cases (emit n s).0) [
          | inl took ↦
              let f : suc at + (offer emit ns (emit n s).1).0
                  ≡ at + suc (offer emit ns (emit n s).1).0 =
                omega arith in
              rw (here, d, took, ih, e, f) refl
          | inr full ↦ let f : at + 0 ≡ at = omega arith in rw (here, d, full, f) refl
        ]
    | inr past ↦
        let d : at - (i + 2) ≡ suc (at - (suc i + 2)) = ground (arith, past) in
        rw (past, d) (emit_nodes-offer ns (suc i) at s (ground (arith, past)))
  ]

  -- One read of the root directory offers the reader exactly the nodes from its position on, each
  -- once and in order, until its buffer refuses one, and the position moves on by the number that it
  -- took, so the next read starts with the first node that it did not get.
  pub root_iterate-offer :
      (nodes : List ℕ) (at : ℕ) (s : S)
      → 2 ≤ at
      → root_iterate emit nodes at s
        ≡ (at + (offer emit (drop (at - 2) nodes) s).0, (offer emit (drop (at - 2) nodes) s).1)
  unfolding root_iterate
  root_iterate-offer nodes at s h = emit_nodes-offer nodes 0 at s h
