-- ===== src/Comm/Delivery.antt =====
-- Both ends of a connection together: mattx_comm_send and mattx_receiver_loop of mattx_comm.c.
use mattx.Base.{
  true, ℕ, suc, ◌≤◌, ◌≡◌, refl, sym, ap, subst, ◌∙◌, List, [], ◌∷◌, ◌++◌, Option, arith, length,
  append_assoc, append-nil, All,
}
use mattx.Comm.Header.{Header, IsWord, max_payload, pack}
use mattx.Comm.Kernel.{Inbound, Outbound}
use mattx.Comm.Receive.{should_stop, receiver_loop}
use mattx.Comm.Receive.Delivery.{
  Packet, IsPacket, stream, bytes, payload, deliver, receiver_loop-deliver,
}
use mattx.Comm.Send.{sent, header_of, bytes_of, comm_send}
use mattx.Comm.Send.Wire.{Sized, packet, Outcome, comm_send-Outcome}

-- A message as a caller of mattx_comm_send gives it.
pub record Message : Type 0 where
  pub kind : ℕ
  pub body : List ℕ

pub record IsMessage (m : Message) : Type 0 where
  pub kind_fits : IsWord m.kind
  pub small : length m.body ≤ max_payload

abbrev pub packet_of : ℕ → Message → Packet
packet_of node m = record { header = header_of node m.kind (length m.body); body = m.body }

abbrev pub packets : ℕ → List Message → List Packet
packets node [] = []
packets node (m ∷ ms) = packet_of node m ∷ packets node ms

-- Calls of mattx_comm_send one after the other, each of which returns a number of bytes sent.
pub data Sends (k : Outbound) (node : ℕ) : k.S → List Message → k.S → Type 0 where
  done : {s : k.S} → Sends k node s [] s
  send :
      {m : Message} {ms : List Message} {s s' : k.S} (n : ℕ) (s₁ : k.S)
      → comm_send k node s m.kind (payload m.body) (length m.body) ≡ (sent n, s₁)
      → Sends k node s₁ ms s'
      → Sends k node s (m ∷ ms) s'

payload-Sized : (body : List ℕ) → Sized (payload body) (length body)
payload-Sized [] = refl
payload-Sized (b ∷ bs) = refl

bytes_of-payload : (body : List ℕ) → bytes_of (payload body) ≡ body
bytes_of-payload [] = refl
bytes_of-payload (b ∷ bs) = refl

packet_of-IsPacket :
    (node : ℕ) (m : Message) → IsWord node → IsMessage m → IsPacket (packet_of node m)
packet_of-IsPacket node m h v = omega arith

packets-IsPacket :
    (node : ℕ) (ms : List Message) → IsWord node → All IsMessage ms → All IsPacket (packets node ms)
packets-IsPacket node [] h v = tt
packets-IsPacket node (m ∷ ms) h v =
    (packet_of-IsPacket node m h v.0, packets-IsPacket node ms h v.1)

length-packets : (node : ℕ) (ms : List Message) → length (packets node ms) ≡ length ms
length-packets node [] = refl
length-packets node (m ∷ ms) = ap suc (length-packets node ms)

module _ (k : Outbound) (node : ℕ) where
  open k use {S, wire}

  -- The wire holds the packets of the calls that returned, one after the other.
  wire-Sends :
      (ms : List Message) {s s' : S}
      → All IsMessage ms
      → Sends k node s ms s'
      → wire s' ≡ wire s ++ stream (packets node ms)
  wire-Sends [] {s = s} v done = sym (append-nil (wire s))
  wire-Sends (m ∷ ms) {s = s} v (send n s₁ q r) =
      let o = comm_send-Outcome k node s m.kind (payload m.body) (length m.body) in
      let o₁ =
        subst (λ p. Outcome k s (packet node m.kind (payload m.body) (length m.body)) p.0 p.1) q
          (o (payload-Sized m.body) (omega (arith, v.0.small))) in
      let w : wire s₁ ≡ wire s ++ bytes (packet_of node m) =
        o₁.1
        ∙ ap (λ b. wire s ++ (pack (header_of node m.kind (length m.body)) ++ b))
            (bytes_of-payload m.body) in
      wire-Sends ms v.1 r
      ∙ ap (λ u. u ++ stream (packets node ms)) w
      ∙ append_assoc (wire s) (bytes (packet_of node m)) (stream (packets node ms))

-- One node sends messages over a fresh connection, each with a type that fits in 32 bits and a payload
-- of at most MATTX_MAX_PAYLOAD bytes, and each call returns a number of bytes; the peer always gets
-- memory for a payload. Then, whatever pieces the two sockets make of the stream, the receiver thread
-- of the peer calls its handlers on exactly these messages, in order, with the sender's type, length,
-- node id and payload.
pub receiver_loop-comm_send :
    (k : Outbound) (l : Inbound) (node : ℕ) (ms : List Message) {M : Type 0}
    (handle : Header → Option (List ℕ) → M → M) (s s' : k.S) (t : l.S) (m : M)
    → ((t : l.S) (n : ℕ) → l.kvmalloc t n ≡ true)
    → IsWord node
    → All IsMessage ms
    → k.wire s ≡ []
    → Sends k node s ms s'
    → l.pending t ≡ k.wire s'
    → let (why, t', m') = receiver_loop l handle (length ms) t m in
      (why ≡ should_stop) × (l.pending t' ≡ []) × (m' ≡ deliver handle (packets node ms) m)
receiver_loop-comm_send k l node ms handle s s' t m memory h v fresh sends p =
    subst
      (λ n.
        let (why, t', m') = receiver_loop l handle n t m in
        (why ≡ should_stop) × (l.pending t' ≡ []) × (m' ≡ deliver handle (packets node ms) m))
      (length-packets node ms)
      (receiver_loop-deliver l memory handle (packets node ms) [] t m (packets-IsPacket node ms h v)
        (p
          ∙ wire-Sends k node ms v sends
          ∙ ap (λ u. u ++ stream (packets node ms)) fresh
          ∙ sym (append-nil (stream (packets node ms)))))
