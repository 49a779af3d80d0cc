-- ===== src/Comm/Receive.antt =====
-- mattx_recv_exact and mattx_receiver_loop of mattx_comm.c.
pub mod Bytes
pub mod Delivery
use mattx.Base.{
  ℕ, zero, suc, ◌+◌, ◌-◌, List, [], ◌++◌, Bool, true, false, not, Option, none, some, ltb, ◌==◌,
  if◌then◌else◌, length,
}
use mattx.Comm.Header.{Header, unpack, magic_number, max_payload, header_size}
use mattx.Comm.Kernel.{stopped, got, Inbound}

-- What mattx_recv_exact returns with the buffer: all the bytes, or the `ret <= 0` of the kernel.
pub data Exact : Type 0 where
  full : List ℕ → Exact
  broken : ℕ → Exact
  out_of_fuel : Exact

-- Why the loop of a receiver thread ends.
pub data Stop : Type 0 where
  should_stop : Stop
  header_error : ℕ → Stop
  bad_magic : ℕ → Stop
  too_large : ℕ → Stop
  no_memory : Stop
  payload_error : ℕ → Stop
  starved : Stop

-- One round of the loop: a message for the dispatcher, or the end.
pub data Round : Type 0 where
  message : Header → Option (List ℕ) → Round
  stop : Stop → Round

module _ (k : Inbound) where
  open k use {S, recvmsg, kvmalloc}

  -- `while (received < len)`, on fuel. `buf` holds the bytes received so far.
  recv_loop : ℕ → S → ℕ → List ℕ → ℕ → Exact × S
  recv_loop zero s received buf len = (if ltb received len then out_of_fuel else full buf, s)
  recv_loop (suc fuel) s received buf len = elim (ltb received len) [
    | false ↦ (full buf, s)
    | true ↦
        let (r, s') = recvmsg s (len - received) in
        elim r [
          | stopped code ↦ (broken code, s')
          | got bs ↦ recv_loop fuel s' (received + length bs) (buf ++ bs) len
        ]
  ]

  -- Each call brings a byte at least, so `len` rounds are enough.
  pub recv_exact : S → ℕ → Exact × S
  recv_exact s len = recv_loop len s 0 [] len

  read_payload : S → Header → Round × S
  read_payload s hdr = elim (kvmalloc s hdr.size) [
    | false ↦ (stop no_memory, s)
    | true ↦
        let (r, s') = recv_exact s hdr.size in
        elim r [
          | full bs ↦ (message hdr (some bs), s')
          | broken code ↦ (stop (payload_error code), s')
          | out_of_fuel ↦ (stop starved, s')
        ]
  ]

  check_header : S → Header → Round × S
  check_header s hdr =
      if not (hdr.magic == magic_number)
      then (stop (bad_magic hdr.magic), s)
      else if ltb max_payload hdr.size
      then (stop (too_large hdr.size), s)
      else if ltb 0 hdr.size
      then read_payload s hdr
      else (message hdr none, s)

  -- One round of the loop, up to the dispatcher.
  pub receive_one : S → Round × S
  receive_one s =
      let (r, s') = recv_exact s header_size in
      elim r [
        | full bs ↦ check_header s' (unpack bs)
        | broken code ↦ (stop (header_error code), s')
        | out_of_fuel ↦ (stop starved, s')
      ]

  -- The loop of a receiver thread, until kthread_should_stop() or an error: `rounds` is how many
  -- times the test lets it in. After it the thread sleeps until it is stopped.
  pub receiver_loop : {M : Type 0} → (Header → Option (List ℕ) → M → M) → ℕ → S → M → Stop × S × M
  receiver_loop handle zero s m = (should_stop, s, m)
  receiver_loop handle (suc rounds) s m =
      let (r, s') = receive_one s in
      elim r [
        | message hdr payload ↦ receiver_loop handle rounds s' (handle hdr payload m)
        | stop why ↦ (why, s', m)
      ]
