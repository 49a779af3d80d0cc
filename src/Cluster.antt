-- ===== src/Cluster.antt =====
-- The links between nodes: the heap of `struct mattx_link`, cluster_map and cluster_load_table, and
-- what changes them, in mattx_comm.c (mattx_comm_connect, mattx_comm_disconnect, the accept loop),
-- mattx_sched.c (handle_heartbeat, handle_load_update) and mattx_main.c (the netlink commands,
-- mattx_get_active_nodes, mattx_exit). A link is known by its address.
pub mod Links
pub mod Mapped
pub mod Unload
pub mod Active
use mattx.Base.{
  ℕ, zero, suc, ◌+◌, List, [], ◌∷◌, ◌++◌, Bool, true, false, ◌&&◌, ◌||◌, not, Option, none, some,
  ltb, leb, ◌==◌, if◌then◌else◌, is_some, update, ℤ, pos, negsuc,
}
use mattx.Sched.Balance.{LoadInfo}

-- MAX_NODES
abbrev pub max_nodes : ℕ
max_nodes = 1024

-- struct mattx_link: `node_id` is `none` for the -1 of a connection that has not said who it is. A
-- link has its socket and its receiver thread as long as it is allocated.
pub record Link : Type 0 where
  pub node_id : Option ℕ
  pub ip_addr : ℕ

-- `next` is an address that kzalloc has not handed out.
pub record Cluster : Type 0 where
  pub heap : ℕ → Option Link
  pub next : ℕ
  pub map : ℕ → Option ℕ
  pub loads : ℕ → LoadInfo
  pub my_node_id : ℕ
  pub my_ip_addr : ℕ

pub data Effect : Type 0 where
  stop_receiver : (link : ℕ) → Effect
  sock_release : (link : ℕ) → Effect
  send_heartbeat : (link : ℕ) → Effect

unfoldable pub free_link : Cluster → ℕ → Option ℕ → Cluster × List Effect
free_link c node none = (c, [])
free_link c node (some a) = (
  record c { heap = update c.heap a none; map = update c.map node none },
  stop_receiver a ∷ sock_release a ∷ [],
)

-- A node outside the map, or not in it, is left alone.
unfoldable pub comm_disconnect : Cluster → ℤ → Cluster × List Effect
unfolding free_link
comm_disconnect c (negsuc n) = (c, [])
comm_disconnect c (pos node) = if leb max_nodes node then (c, []) else free_link c node (c.map node)

-- kzalloc of a link, with its receiver thread.
abbrev pub new_link : Cluster → Option ℕ → ℕ → Cluster
new_link c node_id ip_addr = record c {
  heap = update c.heap c.next (some (record { node_id = node_id; ip_addr = ip_addr }));
  next = suc c.next;
}

-- `reached`: memory, a socket and the connection were had. Else what was had is given back.
unfoldable pub comm_connect : Cluster → ℕ → ℕ → Bool → Cluster × Option ℕ
comm_connect c ip_addr node_id reached =
    if reached then (new_link c (some node_id) ip_addr, some c.next) else (c, none)

-- One turn of the accept loop that got a client and memory for its link.
unfoldable pub accept : Cluster → ℕ → Cluster
accept c ip_addr = new_link c none ip_addr

-- `link->node_id = sender; cluster_map[sender] = link`
abbrev pub identify : Cluster → ℕ → Link → ℕ → Cluster
identify c a l sender = record c {
  heap = update c.heap a (some (record l { node_id = some sender }));
  map = update c.map sender (some a);
}

abbrev pub is_other : ℕ → Option ℕ → Bool
is_other a none = false
is_other a (some b) = not (b == a)

-- `link->node_id == -1 && hdr->sender_id < MAX_NODES`
abbrev pub is_news : Link → ℕ → Bool
is_news l sender = not (is_some l.node_id) && ltb sender max_nodes

-- handle_heartbeat, run by the receiver thread of link `a` and under no lock: first the other link of the
-- sender is torn down, for which it waits; then the link is entered.
unfoldable pub heartbeat_begin : Cluster → ℕ → ℕ → Cluster × List Effect
heartbeat_begin c a sender = elim (c.heap a) [
  | none ↦ (c, [])
  | some l ↦
      if is_news l sender && is_other a (c.map sender)
      then comm_disconnect c (pos sender)
      else (c, [])
]

unfoldable pub heartbeat_end : Cluster → ℕ → ℕ → Cluster
heartbeat_end c a sender = elim (c.heap a) [
  | none ↦ c
  | some l ↦ if is_news l sender then identify c a l sender else c
]

unfoldable pub handle_load_update : Cluster → ℕ → Option LoadInfo → Cluster
handle_load_update c sender none = c
handle_load_update c sender (some load) =
    if ltb sender max_nodes then record c { loads = update c.loads sender load } else c

-- The return values of mattx_nl_cmd_node_join.
pub data JoinResult : Type 0 where
  joined einval econnrefused : JoinResult

abbrev pub rename : Cluster → Option ℕ → Cluster
rename c none = c
rename c (some id) = record c { my_node_id = id }

-- mattx_nl_cmd_node_join, which holds no lock, until it connects: `some` of EINVAL, or it goes on.
unfoldable pub join_begin : Cluster → ℕ → Option ℕ → Cluster × Option JoinResult × List Effect
join_begin c₀ node my_id =
    let c = rename c₀ my_id in
    if leb max_nodes node
    then (c, some einval, [])
    else (let (c', effects) =
          if is_some (c.map node) then comm_disconnect c (pos node) else (c, []) in
        (c', none, effects))

-- Its end, once kernel_connect has returned: whatever is the entry of the node by then is replaced.
unfoldable pub join_end : Cluster → ℕ → ℕ → Bool → Cluster × JoinResult × List Effect
join_end c node ip_addr reached = elim (comm_connect c ip_addr node reached).1 [
  | none ↦ ((comm_connect c ip_addr node reached).0, econnrefused, [])
  | some a ↦
      let c' = (comm_connect c ip_addr node reached).0 in
      (record c' { map = update c'.map node (some a) }, joined, send_heartbeat a ∷ [])
]

unfoldable pub nl_cmd_node_leave : Cluster → ℤ → Cluster × List Effect
nl_cmd_node_leave c node = comm_disconnect c node

unfoldable pub nl_cmd_set_local_ip : Cluster → Option ℕ → Option ℕ → Cluster
nl_cmd_set_local_ip c none my_id = rename c my_id
nl_cmd_set_local_ip c (some ip) my_id = rename (record c { my_ip_addr = ip }) my_id

-- The id of the link in the map at index `i`, if it is identified.
abbrev pub id_of : Option Link → Option ℕ
id_of none = none
id_of (some l) = l.node_id

unfoldable pub ident : (ℕ → Option Link) → ℕ → Option ℕ
ident heap a = id_of (heap a)

abbrev pub linked : Cluster → ℕ → Option ℕ
linked c i = elim (c.map i) [ none ↦ none | some a ↦ ident c.heap a ]

-- The loop of mattx_get_active_nodes over `left` indices from `i` on, with room for `room` ids.
unfoldable pub active_from : Cluster → ℕ → ℕ → ℕ → List ℕ
active_from c i zero room = []
active_from c i (suc left) zero = []
active_from c i (suc left) (suc room) = elim (linked c i) [
  | some id ↦ id ∷ active_from c (suc i) left room
  | none ↦ active_from c (suc i) left (suc room)
]

-- The same with the node's own id behind, if there is room and it is not 0.
unfoldable pub get_active_nodes : Cluster → ℕ → List ℕ
get_active_nodes c room =
    let found = active_from c 0 max_nodes room in
    if ltb (mattx.Base.length found) room && not (c.my_node_id == 0)
    then found ++ (c.my_node_id ∷ [])
    else found

-- `for (i = 0; i < MAX_NODES; i++) mattx_comm_disconnect(i)` of mattx_exit, for the first `n`.
unfoldable pub disconnect_all : ℕ → Cluster → Cluster
disconnect_all zero c = c
disconnect_all (suc n) c = (comm_disconnect (disconnect_all n c) (pos n)).0

-- What can happen to the links. A join is two events, its begin and its end (`connected`), as is a
-- heartbeat (`identified`), and others may come in between; an end comes only where the test of the
-- begin was passed. A teardown is part of the event that asks for it, which stands where the wait for the
-- receiver's thread ends: the code reads cluster_map anew after it, so it frees the link that the map has
-- then. Two teardowns of one node at a time (the second follows NULL) are left out, and so is what comes
-- between kfree and the write of NULL.
pub data Event : Type 0 where
  accepted : (ip_addr : ℕ) → Event
  heartbeat : (link sender : ℕ) → Event
  identified : (link sender : ℕ) → Event
  load_update : (sender : ℕ) → Option LoadInfo → Event
  join : (node : ℕ) → Option ℕ → Event
  connected : (node ip_addr : ℕ) → (reached : Bool) → Event
  leave : ℤ → Event
  set_local_ip : Option ℕ → Option ℕ → Event

unfoldable pub step : Cluster → Event → Cluster
step c (accepted ip) = accept c ip
step c (heartbeat a sender) = (heartbeat_begin c a sender).0
step c (identified a sender) = heartbeat_end c a sender
step c (load_update sender load) = handle_load_update c sender load
step c (join node my_id) = (join_begin c node my_id).0
step c (connected node ip reached) =
    if ltb node max_nodes then (join_end c node ip reached).0 else c
step c (leave node) = (nl_cmd_node_leave c node).0
step c (set_local_ip ip my_id) = nl_cmd_set_local_ip c ip my_id

unfoldable pub run : Cluster → List Event → Cluster
run c [] = c
run c (e ∷ es) = run (step c e) es

-- The state of a module that was just loaded.
abbrev pub init : Cluster
init = record {
  heap = λ _. none;
  next = 0;
  map = λ _. none;
  loads = λ _. record { cpu_load = 0; mem_free_mb = 0; affinity = 0; accept_guests = 0 };
  my_node_id = 0;
  my_ip_addr = 0;
}
