-- ===== src/Cluster/Unload.antt =====
-- What mattx_exit of mattx_main.c leaves of the links when the module is unloaded.
use mattx.Base.{
  ℕ, zero, suc, ◌<◌, ◌≤◌, ◌≡◌, refl, ap, Bool, false, Option, none, some, arith, ltb, leb, ◌==◌,
  if◌then◌else◌, is_some, pos, inl, inr, Bool-cases, Option-cases,
}
use mattx.Cluster.{
  Link, Cluster, max_nodes, free_link, comm_disconnect, ident, disconnect_all, id_of,
}
use mattx.Cluster.Links.{IsMapped, ident-update, comm_disconnect-IsMapped}

-- The map and the links agree: besides, every identified link is the entry of its node.
pub record IsWired (c : Cluster) : Type 0 where
  pub is_mapped : IsMapped c
  pub listed : (i a : ℕ) → ident c.heap a ≡ some i → c.map i ≡ some a

comm_disconnect-IsWired : (c : Cluster) (n : ℕ) → IsWired c → IsWired (comm_disconnect c (pos n)).0
unfolding comm_disconnect free_link
comm_disconnect-IsWired c n v = record {
  is_mapped = comm_disconnect-IsMapped c (pos n) v.is_mapped;
  listed = λ i b q. elim (Bool-cases (leb max_nodes n)) [
    | inl out ↦ rw out (v.listed i b (rw out at q))
    | inr inside ↦ elim (Option-cases (c.map n)) [
      | inl e ↦ rw (inside, e) (v.listed i b (rw (inside, e) at q))
      | inr (a, e) ↦
          let q' = rw (inside, e) at q in
          rw (inside, e)
            (ground
              (arith, q', ident-update c.heap a none b, v.is_mapped.mapped n a e, v.listed i b))
    ]
  ];
}

abbrev pub below : ℕ → Option ℕ → Bool
below n none = false
below n (some i) = ltb i n

abbrev is_id : ℕ → Option ℕ → Bool
is_id n none = false
is_id n (some i) = i == n

comm_disconnect-heap :
    (c : Cluster) (n a : ℕ)
    → n < max_nodes
    → IsWired c
    → (comm_disconnect c (pos n)).0.heap a ≡ (if is_id n (ident c.heap a) then none else c.heap a)
unfolding comm_disconnect free_link
comm_disconnect-heap c n a h v =
    let inside : leb max_nodes n ≡ false = ground arith in
    elim (Option-cases (c.map n)) [
      | inl e ↦ rw (inside, e) (ground (arith, e, v.listed n a))
      | inr (b, e) ↦ rw (inside, e) (ground (arith, e, v.listed n a, v.is_mapped.mapped n b e))
    ]

disconnect_all-IsWired : (n : ℕ) (c : Cluster) → IsWired c → IsWired (disconnect_all n c)
unfolding disconnect_all
disconnect_all-IsWired zero c v = v
disconnect_all-IsWired (suc n) c v =
    comm_disconnect-IsWired (disconnect_all n c) n (disconnect_all-IsWired n c v)

ident-heap : (h h' : ℕ → Option Link) (a : ℕ) → h a ≡ h' a → ident h a ≡ ident h' a
unfolding ident
ident-heap h h' a e = ap id_of e

ident-none : (h : ℕ → Option Link) (a : ℕ) → h a ≡ none → ident h a ≡ none
unfolding ident
ident-none h a e = rw (e, ident) refl

disconnect_all-heap :
    (n : ℕ) (c : Cluster) (a : ℕ)
    → n ≤ max_nodes
    → IsWired c
    → (disconnect_all n c).heap a ≡ (if below n (ident c.heap a) then none else c.heap a)
unfolding disconnect_all
disconnect_all-heap zero c a h v = ground arith
disconnect_all-heap (suc n) c a h v =
    let before = disconnect_all-heap n c a (omega arith) v in
    let here =
      comm_disconnect-heap (disconnect_all n c) n a (omega arith) (disconnect_all-IsWired n c v) in
    ground (
      arith,
      before,
      here,
      ident-heap (disconnect_all n c).heap c.heap a,
      ident-none (disconnect_all n c).heap a,
    )

-- Where the map and the links agree, the disconnects of mattx_exit free every link that is identified
-- and leave every other link as it was, one that is allocated but has not said who it is included.
pub disconnect_all_lem :
    (c : Cluster) (a : ℕ)
    → IsWired c
    → (disconnect_all max_nodes c).heap a ≡ (if is_some (ident c.heap a) then none else c.heap a)
disconnect_all_lem c a v = elim (Option-cases (ident c.heap a)) [
  | inl e ↦ ground (arith, e, disconnect_all-heap max_nodes c a (omega arith) v)
  | inr (i, e) ↦ ground (
    arith,
    e,
    disconnect_all-heap max_nodes c a (omega arith) v,
    v.is_mapped.mapped i a,
    v.listed i a e,
  )
]
