-- ===== src/Comm/Dispatch.antt =====
-- The dispatch table of mattx_comm.c: mattx_register_handler and mattx_handle_message.
use mattx.Base.{ℕ, ◌≡◌, List, Option, none, some, arith, ltb, ◌==◌, if◌then◌else◌, update}
use mattx.Comm.Header.{Header}

-- A handler takes the link, the header and the payload, and changes the node. `L` is the link.
abbrev pub Handler : Type 0 → Type 0 → Type 0
Handler L M = L → Header → Option (List ℕ) → M → M

-- msg_handlers[256]: no entry from 256 on is ever read or written.
abbrev pub Table : Type 0 → Type 0 → Type 0
Table L M = ℕ → Option (Handler L M)

module _ {L M : Type 0} where
  unfoldable pub register_handler : Table L M → ℕ → Handler L M → Table L M
  register_handler t kind h = if ltb kind 256 then update t kind (some h) else t

  -- An unknown type is logged, and nothing else happens.
  unfoldable pub handle_message : Table L M → L → Header → Option (List ℕ) → M → M
  handle_message t link hdr payload m =
      if ltb hdr.kind 256
      then (elim (t hdr.kind) [ none ↦ m | some h ↦ h link hdr payload m ])
      else m

  -- A message goes to the handler that was registered last for its type, and registering one leaves
  -- the messages of every other type as they were; a type from 256 on changes nothing and reaches no
  -- handler.
  pub handle_message-register_handler :
      (t : Table L M) (kind : ℕ) (h : Handler L M) (link : L) (hdr : Header)
      (payload : Option (List ℕ)) (m : M)
      → handle_message (register_handler t kind h) link hdr payload m ≡ (
          if ltb kind 256
          then (if kind == hdr.kind
              then h link hdr payload m
              else handle_message t link hdr payload m)
          else handle_message t link hdr payload m)
  unfolding handle_message register_handler
  handle_message-register_handler t kind h link hdr payload m = ground arith
