-- ===== src/Cluster/Links.antt =====
-- When cluster_map and the allocated links agree, and the changes of a single link.
use mattx.Base.{
  ℕ, ◌≤◌, ◌<◌, ◌≡◌, refl, Option, none, some, arith, leb, ◌==◌, if◌then◌else◌, update, pos, negsuc,
  Bool-cases, Option-cases, ℤ, inl, inr,
}
use mattx.Cluster.{
  id_of, Link, Cluster, max_nodes, free_link, comm_disconnect, accept, ident, init, identify,
}

-- The entry of the map at a node is an allocated link that is identified as that node; so no entry
-- dangles and no link is in the map twice.
pub record IsMapped (c : Cluster) : Type 0 where
  pub mapped : (i a : ℕ) → c.map i ≡ some a → (i < max_nodes) × (ident c.heap a ≡ some i)
  pub fresh : (a : ℕ) → c.next ≤ a → c.heap a ≡ none

pub ident-update :
    (heap : ℕ → Option Link) (a : ℕ) (o : Option Link) (b : ℕ)
    → ident (update heap a o) b ≡ (if a == b then id_of o else ident heap b)
unfolding ident
ident-update heap a o b = elim (Bool-cases (a == b)) [ inl e ↦ rw e | inr e ↦ rw e ]

pub ident-none : (heap : ℕ → Option Link) (a : ℕ) → heap a ≡ none → ident heap a ≡ none
unfolding ident
ident-none heap a e = rw e

pub ident-some :
    (heap : ℕ → Option Link) (a : ℕ) (l : Link) → heap a ≡ some l → ident heap a ≡ l.node_id
unfolding ident
ident-some heap a l e = rw e

pub init-IsMapped : IsMapped init
unfolding ident
init-IsMapped = record { mapped = λ i a e. absurd (ground arith); fresh = λ a h. refl }

-- A link leaves the heap and the map together.
pub free_link-IsMapped :
    (c : Cluster) (n a : ℕ) → c.map n ≡ some a → IsMapped c → IsMapped (free_link c n (some a)).0
unfolding free_link
free_link-IsMapped c n a e v = record {
  mapped = λ i b q. ground (arith, ident-update c.heap a none b, v.mapped i b, v.mapped n a e);
  fresh = λ b h. ground (arith, v.fresh b h);
}

pub comm_disconnect-IsMapped : (c : Cluster) (n : ℤ) → IsMapped c → IsMapped (comm_disconnect c n).0
unfolding comm_disconnect
comm_disconnect-IsMapped c (negsuc n) v = v
comm_disconnect-IsMapped c (pos n) v = elim (Bool-cases (leb max_nodes n)) [
  | inl out ↦ rw out v
  | inr inside ↦ elim (Option-cases (c.map n)) [
    | inl e ↦ rw (inside, e, free_link) v
    | inr (a, e) ↦ rw (inside, e) (free_link-IsMapped c n a e v)
  ]
]

-- A new link that is not identified.
pub accept-IsMapped : (c : Cluster) (ip : ℕ) → IsMapped c → IsMapped (accept c ip)
unfolding accept
accept-IsMapped c ip v = record {
  mapped = λ i b q. ground (
    arith,
    v.mapped i b q,
    v.fresh b,
    ident-none c.heap c.next (v.fresh c.next (omega arith)),
    ident-update c.heap c.next (some (record { node_id = none; ip_addr = ip })) b,
  );
  fresh = λ b h. ground (arith, v.fresh b);
}

-- A link that nobody knew becomes the entry of a node.
pub identify-IsMapped :
    (c : Cluster) (a : ℕ) (l : Link) (s : ℕ)
    → c.heap a ≡ some l
    → l.node_id ≡ none
    → s < max_nodes
    → IsMapped c
    → IsMapped (identify c a l s)
identify-IsMapped c a l s e q h v = record {
  mapped = λ i b p. ground (
    arith,
    v.mapped i b,
    ident-some c.heap a l e,
    ident-update c.heap a (some (record l { node_id = some s })) b,
  );
  fresh = λ b p. ground (arith, v.fresh b p);
}
