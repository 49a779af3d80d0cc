-- ===== src/Tests/Comm.antt =====
-- Sockets that move one byte a call, and messages over them.
use mattx.Base.{
  ℕ, zero, suc, ◌+◌, ◌<◌, ◌≤◌, ◌≡◌, refl, List, [], ◌∷◌, ◌++◌, true, Option, none, some, arith,
  length, take, replicate, length-replicate,
}
use mattx.Comm.Header.{Header, IsHeader, pack, magic_number}
use mattx.Comm.Kernel.{Recv, stopped, got, Inbound, Sent, refused, took, Outbound}
use mattx.Comm.Receive.{receiver_loop, should_stop}
use mattx.Comm.Receive.Delivery.{Packet, IsPacket, stream, deliver, receiver_loop-deliver}
use mattx.Comm.Send.{send_loop, fill, comm_send, alloc_size, loop_limit}
use mattx.Comm.Send.Wire.{packet, comm_send_ctrl-comm_send}
use mattx.Comm.Send.Wire
use mattx.Comm.Dispatch.{Table}
use mattx.Comm.Delivery.{Message, IsMessage, packets, Sends, receiver_loop-comm_send}

abbrev recvmsg : List ℕ → ℕ → Recv × List ℕ
recvmsg [] n = (stopped 0, [])
recvmsg (b ∷ bs) zero = (stopped 0, b ∷ bs)
recvmsg (b ∷ bs) (suc n) = (got (b ∷ []), bs)

recvmsg-order : (s : List ℕ) (n : ℕ) (bs s' : List ℕ) → recvmsg s n ≡ (got bs, s') → s ≡ bs ++ s'
recvmsg-order [] n bs s' e = absurd (ground (arith, e))
recvmsg-order (b ∷ s) zero bs s' e = absurd (ground (arith, e))
recvmsg-order (b ∷ s) (suc n) bs s' e = ground (arith, e)

recvmsg-size :
    (s : List ℕ) (n : ℕ) (bs s' : List ℕ)
    → recvmsg s n ≡ (got bs, s')
    → (0 < length bs) × (length bs ≤ n)
recvmsg-size [] n bs s' e = absurd (ground (arith, e))
recvmsg-size (b ∷ s) zero bs s' e = absurd (ground (arith, e))
recvmsg-size (b ∷ s) (suc n) bs s' e = ground (arith, e)

recvmsg-ready :
    (s : List ℕ) (n : ℕ) → 0 < n → n ≤ length s → (bs s' : List ℕ) × (recvmsg s n ≡ (got bs, s'))
recvmsg-ready [] n h l = absurd (omega arith)
recvmsg-ready (b ∷ s) zero h l = absurd (omega arith)
recvmsg-ready (b ∷ s) (suc n) h l = (b ∷ [], s, refl)

abbrev slow_in : Inbound
slow_in = record {
  S = List ℕ;
  recvmsg = recvmsg;
  kvmalloc = λ s n. true;
  pending = λ s. s;
  in_order = recvmsg-order;
  in_size = recvmsg-size;
  ready = recvmsg-ready;
}

abbrev sendmsg : List ℕ → List ℕ → Sent × List ℕ
sendmsg s [] = (refused 0, s)
sendmsg s (b ∷ bs) = (took 1, s ++ (b ∷ []))

sendmsg-sends :
    (s bs : List ℕ) (n : ℕ) (s' : List ℕ) → sendmsg s bs ≡ (took n, s') → s' ≡ s ++ take n bs
sendmsg-sends s [] n s' e = absurd (ground (arith, e))
sendmsg-sends s (b ∷ bs) n s' e = ground (arith, e)

sendmsg-some :
    (s bs : List ℕ) (n : ℕ) (s' : List ℕ) → sendmsg s bs ≡ (took n, s') → (0 < n) × (n ≤ length bs)
sendmsg-some s [] n s' e = absurd (ground (arith, e))
sendmsg-some s (b ∷ bs) n s' e = ground (arith, e)

sendmsg-keeps : (s bs : List ℕ) (n : ℕ) (s' : List ℕ) → sendmsg s bs ≡ (refused n, s') → s' ≡ s
sendmsg-keeps s [] n s' e = ground (arith, e)
sendmsg-keeps s (b ∷ bs) n s' e = absurd (ground (arith, e))

buffer : (n : ℕ) (buf : List ℕ) → some (replicate n 0) ≡ some buf → length buf ≡ n
buffer n buf e = ground (arith, e, length-replicate {A = ℕ} n 0)

abbrev slow_out : Outbound
slow_out = record {
  S = List ℕ;
  sendmsg = sendmsg;
  kvmalloc = λ s n. some (replicate n 0);
  wire = λ s. s;
  sends = sendmsg-sends;
  sends_some = sendmsg-some;
  keeps = sendmsg-keeps;
  buffer_size = λ s n buf e. buffer n buf e;
}

-- A header of message 7 with two bytes from node 3.
abbrev ping : Header
ping = record { magic = magic_number; kind = 7; size = 2; sender_id = 3 }

ping-IsHeader : IsHeader ping
ping-IsHeader = record {
  magic_fits = omega arith;
  kind_fits = omega arith;
  size_fits = omega arith;
  sender_fits = omega arith;
}

abbrev hello : Packet
hello = record { header = ping; body = 8 ∷ 9 ∷ [] }

hello-IsPacket : IsPacket hello
hello-IsPacket = record { words = ping-IsHeader; magic = refl; size = refl; small = omega arith }

-- A handler that counts the messages.
abbrev count_one : Header → Option (List ℕ) → ℕ → ℕ
count_one h p m = suc m

receiver_loop-deliver_example :
    let (why, s', m') = receiver_loop slow_in count_one 1 (stream (hello ∷ []) ++ (5 ∷ [])) 0 in
    (why ≡ should_stop) × (s' ≡ 5 ∷ []) × (m' ≡ deliver count_one (hello ∷ []) 0)
receiver_loop-deliver_example =
    receiver_loop-deliver slow_in (λ s n. refl) count_one (hello ∷ []) (5 ∷ [])
      (stream (hello ∷ []) ++ (5 ∷ [])) 0 (hello-IsPacket, tt) refl

abbrev add_kind : ℕ → Header → Option (List ℕ) → ℕ → ℕ
add_kind link h p m = m + h.kind

abbrev no_handlers : Table ℕ ℕ
no_handlers kind = none

abbrev hi : Message
hi = record { kind = 7; body = 8 ∷ 9 ∷ [] }

hi-Sends : Sends slow_out 3 [] (hi ∷ []) (packet 3 7 (some (8 ∷ 9 ∷ [])) 2)
unfolding comm_send send_loop fill pack alloc_size loop_limit
hi-Sends = Sends.send 18 (packet 3 7 (some (8 ∷ 9 ∷ [])) 2) refl Sends.done

hi-IsMessage : IsMessage hi
hi-IsMessage = record { kind_fits = omega arith; small = omega arith }

receiver_loop-comm_send_example :
    let (why, t', m') = receiver_loop slow_in count_one 1 (packet 3 7 (some (8 ∷ 9 ∷ [])) 2) 0 in
    (why ≡ should_stop) × (t' ≡ []) × (m' ≡ deliver count_one (packets 3 (hi ∷ [])) 0)
receiver_loop-comm_send_example =
    receiver_loop-comm_send slow_out slow_in 3 (hi ∷ []) count_one []
      (packet 3 7 (some (8 ∷ 9 ∷ [])) 2) (packet 3 7 (some (8 ∷ 9 ∷ [])) 2) 0 (λ t n. refl)
      (omega arith) (hi-IsMessage, tt) refl hi-Sends refl
