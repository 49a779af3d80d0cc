-- ===== src/Cluster/Mapped.antt =====
-- cluster_map against the links that are allocated, event by event.
use mattx.Base.{
  ℕ, ◌<◌, ◌≡◌, refl, List, [], ◌∷◌, true, false, Bool, ◌&&◌, Option, none, some, arith, ltb, leb,
  is_some, pos, Bool-cases, Option-cases, inl, inr,
}
use mattx.Sched.Balance.{LoadInfo}
use mattx.Cluster.{
  rename, Cluster, Event, max_nodes, comm_connect, is_news, heartbeat_begin, heartbeat_end,
  identified, handle_load_update, join_begin, join_end, nl_cmd_node_leave, nl_cmd_set_local_ip,
  step, run, init, accepted, heartbeat, load_update, join, connected, leave, set_local_ip, is_other,
}
use mattx.Cluster.Links.{
  IsMapped, ident-update, ident-none, init-IsMapped, comm_disconnect-IsMapped, accept-IsMapped,
  identify-IsMapped,
}

heartbeat_begin-IsMapped :
    (c : Cluster) (a sender : ℕ) → IsMapped c → IsMapped (heartbeat_begin c a sender).0
unfolding heartbeat_begin
heartbeat_begin-IsMapped c a s v = elim (Option-cases (c.heap a)) [
  | inl e ↦ rw (e, heartbeat_begin) v
  | inr (l, e) ↦ elim (Bool-cases (is_news l s && is_other a (c.map s))) [
    | inr kept ↦ rw (e, kept, heartbeat_begin) v
    | inl other ↦ rw (e, other, heartbeat_begin) (comm_disconnect-IsMapped c (pos s) v)
  ]
]

heartbeat_end-IsMapped :
    (c : Cluster) (a sender : ℕ) → IsMapped c → IsMapped (heartbeat_end c a sender)
unfolding heartbeat_end
heartbeat_end-IsMapped c a s v = elim (Option-cases (c.heap a)) [
  | inl e ↦ rw (e, heartbeat_end) v
  | inr (l, e) ↦ elim (Bool-cases (is_news l s)) [
    | inr kept ↦ rw (e, kept, heartbeat_end) v
    | inl told ↦
        rw (e, told, heartbeat_end)
          (identify-IsMapped c a l s e (ground (arith, told)) (ground (arith, told)) v)
  ]
]

handle_load_update-IsMapped :
    (c : Cluster) (s : ℕ) (o : Option LoadInfo) → IsMapped c → IsMapped (handle_load_update c s o)
unfolding handle_load_update
handle_load_update-IsMapped c s none v = v
handle_load_update-IsMapped c s (some load) v = elim (Bool-cases (ltb s max_nodes)) [
  | inl e ↦ rw e (record { mapped = v.mapped; fresh = v.fresh })
  | inr e ↦ rw e v
]

rename-IsMapped : (c : Cluster) (id : Option ℕ) → IsMapped c → IsMapped (rename c id)
rename-IsMapped c none v = v
rename-IsMapped c (some id) v = record { mapped = v.mapped; fresh = v.fresh }

nl_cmd_set_local_ip-IsMapped :
    (c : Cluster) (ip id : Option ℕ) → IsMapped c → IsMapped (nl_cmd_set_local_ip c ip id)
unfolding nl_cmd_set_local_ip
nl_cmd_set_local_ip-IsMapped c none id v = rename-IsMapped c id v
nl_cmd_set_local_ip-IsMapped c (some ip) id v =
    rename-IsMapped (record c { my_ip_addr = ip }) id
      (record { mapped = v.mapped; fresh = v.fresh })

-- A new link becomes the entry of its node, whatever the entry was.
join_end-IsMapped :
    (c : Cluster) (n ip : ℕ) (reached : Bool)
    → n < max_nodes
    → IsMapped c
    → IsMapped (join_end c n ip reached).0
unfolding join_end comm_connect
join_end-IsMapped c n ip false h v = v
join_end-IsMapped c n ip true h v = record {
  mapped = λ i b q. ground (
    arith,
    v.mapped i b,
    v.fresh c.next,
    ident-none c.heap c.next (v.fresh c.next (omega arith)),
    ident-update c.heap c.next (some (record { node_id = some n; ip_addr = ip })) b,
  );
  fresh = λ b p. ground (arith, v.fresh b);
}

join_begin-IsMapped :
    (c : Cluster) (n : ℕ) (id : Option ℕ) → IsMapped c → IsMapped (join_begin c n id).0
unfolding join_begin
join_begin-IsMapped c₀ n id v₀ = named (rename c₀ id) (rename-IsMapped c₀ id v₀) refl
  where
    named : (c : Cluster) → IsMapped c → rename c₀ id ≡ c → IsMapped (join_begin c₀ n id).0
    named c v r = elim (Bool-cases (leb max_nodes n)) [
      | inl out ↦ rw (r, out) v
      | inr inside ↦ elim (Bool-cases (is_some (c.map n))) [
        | inl old ↦ rw (r, inside, old) (comm_disconnect-IsMapped c (pos n) v)
        | inr new ↦ rw (r, inside, new) v
      ]
    ]

step-IsMapped : (c : Cluster) (e : Event) → IsMapped c → IsMapped (step c e)
unfolding step nl_cmd_node_leave
step-IsMapped c (accepted ip) v = accept-IsMapped c ip v
step-IsMapped c (heartbeat a s) v = heartbeat_begin-IsMapped c a s v
step-IsMapped c (identified a s) v = heartbeat_end-IsMapped c a s v
step-IsMapped c (load_update s load) v = handle_load_update-IsMapped c s load v
step-IsMapped c (join n id) v = join_begin-IsMapped c n id v
step-IsMapped c (connected n ip reached) v = elim (Bool-cases (ltb n max_nodes)) [
  | inl h ↦ rw h (join_end-IsMapped c n ip reached (ground arith) v)
  | inr h ↦ rw h v
]
step-IsMapped c (leave n) v = comm_disconnect-IsMapped c n v
step-IsMapped c (set_local_ip ip id) v = nl_cmd_set_local_ip-IsMapped c ip id v

pub run-keeps : (c : Cluster) (es : List Event) → IsMapped c → IsMapped (run c es)
unfolding run
run-keeps c [] v = v
run-keeps c (e ∷ es) v = run-keeps (step c e) es (step-IsMapped c e v)

-- Whatever connections, heartbeats, load reports and commands follow the loading of the module, where any
-- of them may come between the two halves of a join or of a heartbeat, and a teardown takes effect at the
-- end of its wait, at most one of a node at a time: every entry of the map is a link that is allocated
-- and is identified as the node of the entry, so the map has no entry for a link that was freed, and no
-- link twice. (A link that is identified may be missing from the map.)
pub run-IsMapped : (es : List Event) → IsMapped (run init es)
run-IsMapped es = run-keeps init es init-IsMapped
