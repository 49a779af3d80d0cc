-- ===== src/Cluster/Active.antt =====
-- mattx_get_active_nodes of mattx_main.c.
use mattx.Base.{
  ℕ, zero, suc, ◌<◌, ◌≤◌, ◌≡◌, List, [], ◌∷◌, ◌++◌, Bool, true, ◌&&◌, ◌||◌, not, some, arith, ltb,
  ◌==◌, ==_refl, is_some, All, length, length-append, inl, inr, Bool-cases, Option-cases,
}
use mattx.Cluster.{Cluster, max_nodes, linked, active_from, get_active_nodes}
use mattx.Cluster.Links.{IsMapped}

-- A node that the map has, or this node.
abbrev pub is_known : Cluster → ℕ → Bool
is_known c id = is_some (c.map id) || (id == c.my_node_id)

-- The id at an index is the index.
linked_self : (c : Cluster) (i id : ℕ) → IsMapped c → linked c i ≡ some id → is_known c id ≡ true
linked_self c i id v e = elim (Option-cases (c.map i)) [
  | inl q ↦ absurd (ground (arith, rw (q, linked) at e))
  | inr (a, q) ↦ ground (arith, rw (q, linked) at e, v.mapped i a q, q)
]

active_from-is_known :
    (c : Cluster) (i left room : ℕ)
    → IsMapped c
    → All (λ id. is_known c id ≡ true) (active_from c i left room)
      × (length (active_from c i left room) ≤ room)
unfolding active_from
active_from-is_known c i zero room v = (tt, omega arith)
active_from-is_known c i (suc left) zero v = (tt, omega arith)
active_from-is_known c i (suc left) (suc room) v = elim (Option-cases (linked c i)) [
  | inl e ↦ rw (e, active_from) (active_from-is_known c (suc i) left (suc room) v)
  | inr (id, e) ↦
      let rest = active_from-is_known c (suc i) left room v in
      rw (e, active_from) ((linked_self c i id v e, rest.0), omega (arith, rest.1))
]

All-end :
    (p : ℕ → Bool) (xs : List ℕ) (x : ℕ)
    → All (λ y. p y ≡ true) xs
    → p x ≡ true
    → All (λ y. p y ≡ true) (xs ++ (x ∷ []))
All-end p [] x a e = (e, tt)
All-end p (y ∷ ys) x a e = (a.0, All-end p ys x a.1 e)

-- Where the map and the links agree, the list of active nodes holds at most as many ids as there is
-- room for, and each is a node of the map or this node.
pub get_active_nodes-is_known :
    (c : Cluster) (room : ℕ)
    → IsMapped c
    → All (λ id. is_known c id ≡ true) (get_active_nodes c room)
      × (length (get_active_nodes c room) ≤ room)
unfolding get_active_nodes
get_active_nodes-is_known c room v =
    let found = active_from c 0 max_nodes room in
    let known = active_from-is_known c 0 max_nodes room v in
    elim (Bool-cases (ltb (length found) room && not (c.my_node_id == 0))) [
      | inr e ↦ rw (e, get_active_nodes) known
      | inl e ↦
          rw (e, get_active_nodes)
            (
              All-end (is_known c) found c.my_node_id known.0
                  (ground (arith, ==_refl c.my_node_id)),
              omega (arith, length-append found (c.my_node_id ∷ []), room_left found room e),
            )
    ]
  where
    room_left :
        (found : List ℕ) (room : ℕ)
        → (ltb (length found) room && not (c.my_node_id == 0)) ≡ true
        → length found < room
    room_left found room e = ground (arith, e)
