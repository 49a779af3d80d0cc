-- ===== src/Comm/Send.antt =====
-- mattx_comm_send and mattx_comm_send_ctrl of mattx_comm.c.
pub mod Wire
use mattx.Base.{
  ℕ, zero, suc, ◌+◌, ◌-◌, ◌%◌, ◌^◌, List, ◌++◌, Bool, true, false, ◌&&◌, Option, none, some, ltb,
  is_some, if◌then◌else◌, drop, take,
}
use mattx.Comm.Header.{Header, pack, magic_number, header_size}
use mattx.Comm.Kernel.{refused, took, Outbound}

-- The `int` that the senders return.
pub data Result : Type 0 where
  sent : ℕ → Result
  net_error : ℕ → Result  -- the `ret <= 0` of kernel_sendmsg
  enomem : Result
  ebusy : Result
  out_of_fuel : Result

-- The header that a sender fills in.
abbrev pub header_of : ℕ → ℕ → ℕ → Header
header_of my_node_id kind len = record {
  magic = magic_number;
  kind = kind;
  size = len;
  sender_id = my_node_id;
}

-- The bytes of an optional buffer.
abbrev pub bytes_of : Option (List ℕ) → List ℕ
bytes_of none = mattx.Base.[]
bytes_of (some bs) = bs

-- The packet buffer: the header, then `memcpy` of `len` bytes `if (len > 0 && data)`; where nothing
-- is copied the buffer keeps what the allocator left in it.
unfoldable pub fill : ℕ → ℕ → Option (List ℕ) → ℕ → List ℕ → List ℕ
fill my_node_id kind payload len buf =
    pack (header_of my_node_id kind len)
    ++ (if ltb 0 len && is_some payload then take len (bytes_of payload) else drop header_size buf)

-- `int total_len = sizeof(struct mattx_header) + len`, of a u32 `len`, as the size_t that kvmalloc gets,
-- and as the limit of the loop, which makes no round for a negative one. (Where the sum is 2^32 or
-- more, the buffer is too small for the header; what the copies into it do then is not described.)
abbrev total_len : ℕ → ℕ
total_len len = (header_size + len) % 2 ^ 32

unfoldable pub alloc_size : ℕ → ℕ
alloc_size len =
    if ltb (total_len len) (2 ^ 31) then total_len len else 2 ^ 64 - 2 ^ 32 + total_len len

unfoldable pub loop_limit : ℕ → ℕ
loop_limit len = if ltb (total_len len) (2 ^ 31) then total_len len else 0

module _ (k : Outbound) where
  open k use {S, sendmsg, kvmalloc}

  -- `while (sent < total_len)`, on fuel.
  unfoldable pub send_loop : ℕ → S → List ℕ → ℕ → ℕ → Result × S
  send_loop zero s buf done total = (if ltb done total then out_of_fuel else sent done, s)
  send_loop (suc fuel) s buf done total = elim (ltb done total) [
    | false ↦ (sent done, s)
    | true ↦
        let (r, s') = sendmsg s (drop done buf) in
        elim r [
          | refused code ↦ (net_error code, s')
          | took n ↦ send_loop fuel s' buf (done + n) total
        ]
  ]

  -- The mutex is held from before the loop to the return: one call is one step of the node.
  unfoldable pub comm_send : ℕ → S → ℕ → Option (List ℕ) → ℕ → Result × S
  comm_send my_node_id s kind payload len = elim (kvmalloc s (alloc_size len)) [
    | none ↦ (enomem, s)
    | some buf ↦
        send_loop (loop_limit len) s (fill my_node_id kind payload len buf) 0 (loop_limit len)
  ]

  -- `free` is what mutex_trylock returns.
  pub comm_send_ctrl : ℕ → S → Bool → ℕ → Option (List ℕ) → ℕ → Result × S
  comm_send_ctrl my_node_id s free kind payload len = elim free [
    | false ↦ (ebusy, s)
    | true ↦ elim (kvmalloc s (alloc_size len)) [
      | none ↦ (enomem, s)
      | some buf ↦
          send_loop (loop_limit len) s (fill my_node_id kind payload len buf) 0 (loop_limit len)
    ]
  ]
