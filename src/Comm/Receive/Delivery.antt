-- ===== src/Comm/Receive/Delivery.antt =====
-- mattx_receiver_loop of mattx_comm.c on a stream of packets.
use mattx.Base.{
  suc, subst, ℕ, ◌≤◌, ◌≡◌, refl, sym, ap, ◌∙◌, List, [], ◌∷◌, ◌++◌, true, false, Option, none, some,
  arith, ltb, ◌==◌, length, length-append, take, drop, take-append, drop-append, append_assoc, All,
}
use mattx.Comm.Header.{Header, IsHeader, pack, unpack, unpack-pack, magic_number, max_payload}
use mattx.Comm.Kernel.{Inbound}
use mattx.Comm.Receive.{
  full, message, should_stop, recv_exact, read_payload, check_header, receive_one, receiver_loop,
}
use mattx.Comm.Receive.Bytes.{recv_exact-ready}

-- A packet as a peer puts it on the wire.
pub record Packet : Type 0 where
  pub header : Header
  pub body : List ℕ

pub record IsPacket (p : Packet) : Type 0 where
  pub words : IsHeader p.header
  pub magic : p.header.magic ≡ magic_number
  pub size : p.header.size ≡ length p.body
  pub small : length p.body ≤ max_payload

abbrev pub bytes : Packet → List ℕ
bytes p = pack p.header ++ p.body

abbrev pub stream : List Packet → List ℕ
stream [] = []
stream (p ∷ ps) = bytes p ++ stream ps

-- The payload pointer that a handler gets: NULL for a message without payload.
abbrev pub payload : List ℕ → Option (List ℕ)
payload [] = none
payload (b ∷ bs) = some (b ∷ bs)

-- The handlers' work on a list of packets, in order.
abbrev pub deliver : {M : Type 0} → (Header → Option (List ℕ) → M → M) → List Packet → M → M
deliver handle [] m = m
deliver handle (p ∷ ps) m = deliver handle ps (handle p.header (payload p.body) m)

length-pack : (h : Header) → length (pack h) ≡ 16
unfolding pack
length-pack h = refl

module _ (k : Inbound) where
  open k use {S, pending, kvmalloc}

  module _ (s s' : S) (bs : List ℕ) where
    read_payload_step :
        (hdr : Header)
        → kvmalloc s hdr.size ≡ true
        → recv_exact k s hdr.size ≡ (full bs, s')
        → read_payload k s hdr ≡ (message hdr (some bs), s')
    unfolding read_payload
    read_payload_step hdr mem q = rw (mem, q, read_payload) (rw q)

    receive_one_step :
        recv_exact k s 16 ≡ (full bs, s') → receive_one k s ≡ check_header k s' (unpack bs)
    unfolding receive_one
    receive_one_step q = rw (q, receive_one) (rw q)

  receiver_loop_step :
      {M : Type 0} (handle : Header → Option (List ℕ) → M → M) (rounds : ℕ) (s s' : S) (m : M)
      (hdr : Header) (pl : Option (List ℕ))
      → receive_one k s ≡ (message hdr pl, s')
      → receiver_loop k handle (suc rounds) s m ≡ receiver_loop k handle rounds s' (handle hdr pl m)
  unfolding receiver_loop
  receiver_loop_step handle rounds s s' m hdr pl q = rw (q, receiver_loop) (rw q)

  module _ (memory : (s : S) (n : ℕ) → kvmalloc s n ≡ true) where
    read_payload-ready :
        (s : S) (hdr : Header) (bs rest : List ℕ)
        → hdr.size ≡ length bs
        → pending s ≡ bs ++ rest
        → (s' : S) × (read_payload k s hdr ≡ (message hdr (some bs), s')) × (pending s' ≡ rest)
    read_payload-ready s hdr bs rest l e =
        let (s', q, p) =
          recv_exact-ready k s hdr.size (omega (arith, ap length e, length-append bs rest)) in
        let t : take hdr.size (pending s) ≡ bs =
          ap (take hdr.size) e ∙ take-append bs rest (sym l) in
        (
          s',
          read_payload_step s s' bs hdr (memory s hdr.size) (q ∙ ap (λ b. (full b, s')) t),
          p ∙ ap (drop hdr.size) e ∙ drop-append bs rest (sym l),
        )

    check_header-ready :
        (s : S) (hdr : Header) (bs rest : List ℕ)
        → IsPacket (record { header = hdr; body = bs })
        → pending s ≡ bs ++ rest
        → (s' : S) × (check_header k s hdr ≡ (message hdr (payload bs), s')) × (pending s' ≡ rest)
    unfolding check_header
    check_header-ready s hdr [] rest v e =
        let m : (hdr.magic == magic_number) ≡ true = ground arith in
        let z : ltb 0 hdr.size ≡ false = ground arith in
        let b : ltb max_payload hdr.size ≡ false = ground arith in (s, rw (m, z, b), e)
    check_header-ready s hdr (c ∷ cs) rest v e =
        let m : (hdr.magic == magic_number) ≡ true = ground arith in
        let z : ltb 0 hdr.size ≡ true = ground arith in
        let b : ltb max_payload hdr.size ≡ false = ground arith in
        let (s', q, p) = read_payload-ready s hdr (c ∷ cs) rest v.size e in (s', rw (m, z, b) q, p)

    -- One round takes one packet off the stream, header and payload, and no byte of the next.
    receive_one-ready :
        (s : S) (p : Packet) (rest : List ℕ)
        → IsPacket p
        → pending s ≡ bytes p ++ rest
        → (s' : S) × (receive_one k s ≡ (message p.header (payload p.body), s'))
          × (pending s' ≡ rest)
    receive_one-ready s p rest v e =
        let e' : pending s ≡ pack p.header ++ (p.body ++ rest) =
          e ∙ append_assoc (pack p.header) p.body rest in
        let (s₁, q, r) = recv_exact-ready k s 16 (
          omega (
            arith,
            ap length e',
            length-append (pack p.header) (p.body ++ rest),
            length-pack p.header,
          )) in
        let t : take 16 (pending s) ≡ pack p.header =
          ap (take 16) e' ∙ take-append (pack p.header) _ (length-pack p.header) in
        let d : pending s₁ ≡ p.body ++ rest =
          r ∙ ap (drop 16) e' ∙ drop-append (pack p.header) _ (length-pack p.header) in
        let (s', c, f) = check_header-ready s₁ p.header p.body rest v d in
        (
          s',
          receive_one_step s s₁ (pack p.header) (q ∙ ap (λ b. (full b, s₁)) t)
              ∙ ap (check_header k s₁) (unpack-pack p.header v.words)
              ∙ c,
          f,
        )

    -- Packets that lie one after the other on the stream are handed to the handlers one by one, in
    -- order, each with its own header and payload, and nothing after them is touched.
    pub receiver_loop-deliver :
        {M : Type 0} (handle : Header → Option (List ℕ) → M → M) (ps : List Packet) (rest : List ℕ)
        (s : S) (m : M)
        → All IsPacket ps
        → pending s ≡ stream ps ++ rest
        → let (why, s', m') = receiver_loop k handle (length ps) s m in
          (why ≡ should_stop) × (pending s' ≡ rest) × (m' ≡ deliver handle ps m)
    unfolding receiver_loop
    receiver_loop-deliver handle [] rest s m v e = (refl, e, refl)
    receiver_loop-deliver handle (p ∷ ps) rest s m v e =
        let (s', q, f) =
          receive_one-ready s p (stream ps ++ rest) v.0
            (e ∙ append_assoc (bytes p) (stream ps) rest) in
        subst
          (λ r.
            let (why, s', m') = r in
            (why ≡ should_stop) × (pending s' ≡ rest) × (m' ≡ deliver handle (p ∷ ps) m))
          (sym (receiver_loop_step handle (length ps) s s' m p.header (payload p.body) q))
          (receiver_loop-deliver handle ps rest s' (handle p.header (payload p.body) m) v.1 f)
