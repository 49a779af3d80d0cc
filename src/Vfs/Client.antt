-- ===== src/Vfs/Client.antt =====
-- mattx_rpc_vfs_x of mattx_fileio.c: what mattxfs calls. A call for this node, or for a library that is
-- read locally, is served at once; another takes a slot and sleeps, and `_end` is what it does when it
-- wakes.
use Prim.Native.Char.{code}
use Prim.Native.String.{String}
use mattx.Base.{
  ℕ, ◌+◌, List, [], ◌∷◌, Bool, true, false, ◌&&◌, ◌||◌, not, Option, none, some, ◌==◌,
  if◌then◌else◌, get_elem?, take, length, ℤ, pos, negsuc,
}
use mattx.Dsm.Rpc.{Rpc, RpcCtx, release}
use mattx.Vfs.Disk.{Cred, Start, own, host, Opened, failed, opened, Got, error, bytes}
use mattx.Vfs.Wire.{Request}
use mattx.Vfs.Home.{is_zero}
use mattx.Vfs.Calls.{take_slot, memcpy, enotconn, ebusy}

abbrev codes : String → List ℕ
codes String.[] = []
codes (String.◌∷◌ c s) = code c ∷ codes s

-- `strncmp(path, prefix, strlen(prefix)) == 0`
abbrev pub starts_with : List ℕ → List ℕ → Bool
starts_with [] path = true
starts_with (c ∷ cs) [] = false
starts_with (c ∷ cs) (d ∷ ds) = c == d && starts_with cs ds

abbrev starts_with_any : List (List ℕ) → List ℕ → Bool
starts_with_any [] path = false
starts_with_any (p ∷ ps) path = starts_with p path || starts_with_any ps path

abbrev local_libs : List (List ℕ)
local_libs =
    codes "/lib/"
    ∷ codes "/lib64/"
    ∷ codes "/usr/lib/"
    ∷ codes "/usr/lib64/"
    ∷ codes "/etc/ld.so.cache"
    ∷ codes "/usr/share/locale/"
    ∷ codes "/proc/"
    ∷ codes "/sys/"
    ∷ []

unfoldable pub is_hpc_local_lib : List ℕ → Bool
is_hpc_local_lib path = starts_with_any local_libs path

-- The caller: its node and process, the configuration, whether the balancer's thread runs, and
-- whether memory is granted.
pub record Site : Type 0 where
  pub my_node_id : ℕ
  pub connected : ℕ → Bool
  pub hpc_local_libs : Bool
  pub has_balancer : Bool
  pub cred : Cred
  pub has_mem : Bool

abbrev pub is_local_hpc : Site → List ℕ → Bool
is_local_hpc s path = s.hpc_local_libs && is_hpc_local_lib path

-- The root of the host is borrowed for a library of another node.
abbrev pub start_of : Site → ℕ → List ℕ → Start
start_of s node path =
    if is_local_hpc s path && (not (node == s.my_node_id) && s.has_balancer) then host else own

-- `strncpy(req.path, path, sizeof(req.path) - 1)`
abbrev pub wire_path : List ℕ → List ℕ
wire_path path = take 255 path

abbrev pub enomem : ℤ
enomem = negsuc 11

-- What a call gives back: its result, and the buffer, the position and the descriptor that it was
-- given a pointer to.
pub record Outcome : Type 0 where
  pub ret : ℤ
  pub buf : Option (List ℕ)
  pub at : ℕ
  pub fd : Option ℕ

pub data Begun (A : Type 0) : Type 0 where
  done : A → Begun A
  asleep : (slot : ℕ) → Request → Begun A

abbrev pub result : ℤ → Outcome
result ret = record { ret = ret; buf = none; at = 0; fd = none }

-- `if (n > 0) *pos += n`
abbrev pub advance : ℕ → ℤ → ℕ
advance at (pos n) = at + n
advance at (negsuc n) = at

-- The request of a call for another node.
unfoldable pub ask :
    {A : Type 0} → Site → ℕ → (ℤ → A) → (RpcCtx → RpcCtx) → (ℕ → Request) → Rpc → Rpc × Begun A
ask s node refused prepare request r =
    if s.connected node
    then (elim (take_slot prepare r).1 [
      | none ↦ ((take_slot prepare r).0, done (refused ebusy))
      | some (slot, id) ↦ ((take_slot prepare r).0, asleep slot (request id))
    ])
    else (r, done (refused enotconn))

abbrev pub unprepared : RpcCtx → RpcCtx
unprepared c = c

-- The caller reads its slot and gives it back.
unfoldable pub collect : {A : Type 0} → Rpc → ℕ → (RpcCtx → A) → Rpc × Option A
collect r slot get = elim (get_elem? r.registry slot) [
  | none ↦ (r, none)
  | some c ↦ ((release r slot).0, some (get c))
]

abbrev pub read_outcome : ℕ → RpcCtx → Outcome
read_outcome at c = record {
  ret = c.bytes_rw;
  buf = c.data_buf;
  at = advance at c.bytes_rw;
  fd = none;
}

abbrev pub write_outcome : ℕ → RpcCtx → Outcome
write_outcome at c = record { ret = c.bytes_rw; buf = none; at = advance at c.bytes_rw; fd = none }

abbrev pub lseek_outcome : RpcCtx → Outcome
lseek_outcome c = result (if is_zero c.error then c.ret_offset else c.error)

abbrev pub open_outcome : RpcCtx → Outcome
open_outcome c = record {
  ret = c.error;
  buf = none;
  at = 0;
  fd = if is_zero c.error then some c.remote_fd else none;
}

abbrev pub error_outcome : RpcCtx → Outcome
error_outcome c = result c.error

abbrev pub got_as : Got → List ℕ → ℕ → Outcome
got_as (error e) buf at = record { ret = negsuc e; buf = some buf; at = at; fd = none }
got_as (bytes bs) buf at = record {
  ret = pos (length bs);
  buf = memcpy bs (some buf);
  at = at;
  fd = none;
}

abbrev pub opened_as : Opened → Outcome
opened_as (failed e) = result (negsuc e)
opened_as (opened i) = record { ret = pos 0; buf = none; at = 0; fd = some i }
