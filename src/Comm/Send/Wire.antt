-- ===== src/Comm/Send/Wire.antt =====
-- The two senders of mattx_comm.c and the wire.
use mattx.Base.{
  if◌then◌else◌, Option-cases, Bool, ℕ, zero, suc, ◌+◌, ◌-◌, ◌^◌, ◌<◌, ◌≤◌, ◌≡◌, refl, sym, ap,
  subst, ◌∙◌, ◌⊎◌, inl, inr, List, [], ◌∷◌, ◌++◌, true, false, Option, none, some, arith, ltb,
  length, take, drop, length-drop, drop-drop, append_assoc, append-nil, take-append,
  take-append-drop,
}
use mattx.Comm.Header.{pack, header_size}
use mattx.Comm.Kernel.{Sent, refused, took, Outbound}
use mattx.Comm.Send.{
  Result, sent, net_error, enomem, ebusy, out_of_fuel, header_of, bytes_of, fill, send_loop,
  comm_send, comm_send_ctrl, alloc_size, loop_limit,
}

-- A caller gives NULL and 0, or a buffer and its size.
abbrev pub Sized : Option (List ℕ) → ℕ → Type 0
Sized none len = len ≡ 0
Sized (some bs) len = length bs ≡ len

abbrev pub packet : ℕ → ℕ → Option (List ℕ) → ℕ → List ℕ
packet my_node_id kind payload len = pack (header_of my_node_id kind len) ++ bytes_of payload

take_all : (xs : List ℕ) (n : ℕ) → length xs ≡ n → take n xs ≡ xs
take_all xs n e = ap (take n) (sym (append-nil xs)) ∙ take-append xs [] e

drop_all : (xs : List ℕ) (n : ℕ) → length xs ≡ n → drop n xs ≡ []
drop_all [] zero e = refl
drop_all [] (suc n) e = refl
drop_all (x ∷ xs) zero e = absurd (omega arith)
drop_all (x ∷ xs) (suc n) e = drop_all xs n (omega arith)

nil_of_length : (xs : List ℕ) → length xs ≡ 0 → xs ≡ []
nil_of_length [] e = refl
nil_of_length (x ∷ xs) e = absurd (omega arith)

-- The buffer is the packet: its header, and exactly the payload behind it.
fill-packet :
    (node kind : ℕ) (payload : Option (List ℕ)) (len : ℕ) (buf : List ℕ)
    → Sized payload len
    → length buf ≡ header_size + len
    → fill node kind payload len buf ≡ packet node kind payload len
unfolding fill
fill-packet node kind none len buf e l =
    let z : ltb 0 len ≡ false = ground arith in
    rw z (ap (◌++◌ (pack (header_of node kind len))) (drop_all buf 16 (omega arith)))
fill-packet node kind (some []) len buf e l =
    let z : ltb 0 len ≡ false = ground arith in
    rw z (ap (◌++◌ (pack (header_of node kind len))) (drop_all buf 16 (omega arith)))
fill-packet node kind (some (b ∷ bs)) len buf e l =
    let z : ltb 0 len ≡ true = ground arith in
    rw z (ap (◌++◌ (pack (header_of node kind len))) (take_all (b ∷ bs) len e))

length-packet :
    (node kind : ℕ) (payload : Option (List ℕ)) (len : ℕ)
    → Sized payload len
    → length (packet node kind payload len) ≡ header_size + len
unfolding pack
length-packet node kind none len e = omega arith
length-packet node kind (some bs) len e = omega arith

module _ (k : Outbound) where
  open k use {S, sendmsg, wire, sends, sends_some, keeps, kvmalloc, buffer_size}

  -- What the loop leaves, entered with `rest` still to go.
  abbrev After : S → List ℕ → ℕ → Result → S → Type 0
  After s rest total (sent n) s' = (n ≡ total) × (wire s' ≡ wire s ++ rest)
  After s rest total (net_error code) s' =
      (a b : List ℕ) × (rest ≡ a ++ b) × (0 < length b) × (wire s' ≡ wire s ++ a)
  After s rest total enomem s' = ⊥
  After s rest total ebusy s' = ⊥
  After s rest total out_of_fuel s' = ⊥

  After-step :
      (s s₁ s' : S) (part rest : List ℕ) (total : ℕ) (r : Result)
      → wire s₁ ≡ wire s ++ part
      → After s₁ rest total r s'
      → After s (part ++ rest) total r s'
  After-step s s₁ s' part rest total (sent n) w (e, w') =
      (e, w' ∙ ap (λ u. u ++ rest) w ∙ append_assoc (wire s) part rest)
  After-step s s₁ s' part rest total (net_error code) w (a, b, e, l, w') = (
    part ++ a,
    b,
    ap (◌++◌ part) e ∙ sym (append_assoc part a b),
    l,
    w' ∙ ap (λ u. u ++ a) w ∙ append_assoc (wire s) part a,
  )
  After-step s s₁ s' part rest total enomem w h = h
  After-step s s₁ s' part rest total ebusy w h = h
  After-step s s₁ s' part rest total out_of_fuel w h = h

  Sent-cases :
      (s : S) (bs : List ℕ)
      → ((code : ℕ) × (s₁ : S) × (sendmsg s bs ≡ (refused code, s₁)))
        ⊎ ((n : ℕ) × (s₁ : S) × (sendmsg s bs ≡ (took n, s₁)))
  Sent-cases s bs = split (sendmsg s bs).0 (sendmsg s bs).1 refl
    where
      split :
          (r : Sent) (s₁ : S)
          → sendmsg s bs ≡ (r, s₁)
          → ((code : ℕ) × (s₁ : S) × (sendmsg s bs ≡ (refused code, s₁)))
            ⊎ ((n : ℕ) × (s₁ : S) × (sendmsg s bs ≡ (took n, s₁)))
      split (refused code) s₁ e = inl (code, s₁, e)
      split (took n) s₁ e = inr (n, s₁, e)

  module _ (fuel : ℕ) (s s₁ : S) (buf : List ℕ) (done total : ℕ) where
    send_loop_took :
        (n : ℕ)
        → done < total
        → sendmsg s (drop done buf) ≡ (took n, s₁)
        → send_loop k (suc fuel) s buf done total ≡ send_loop k fuel s₁ buf (done + n) total
    unfolding send_loop
    send_loop_took n h q =
        let more : ltb done total ≡ true = ground arith in rw (more, q, send_loop) (rw q)

    send_loop_refused :
        (code : ℕ)
        → done < total
        → sendmsg s (drop done buf) ≡ (refused code, s₁)
        → send_loop k (suc fuel) s buf done total ≡ (net_error code, s₁)
    unfolding send_loop
    send_loop_refused code h q =
        let more : ltb done total ≡ true = ground arith in rw (more, q, send_loop) (rw q)

  send_loop_done :
      (fuel : ℕ) (s : S) (buf : List ℕ) (total : ℕ)
      → send_loop k fuel s buf total total ≡ (sent total, s)
  unfolding send_loop
  send_loop_done zero s buf total =
      let stop : ltb total total ≡ false = ground arith in rw (stop, send_loop)
  send_loop_done (suc fuel) s buf total =
      let stop : ltb total total ≡ false = ground arith in rw (stop, send_loop)

  send_loop-After :
      (fuel : ℕ) (s : S) (buf : List ℕ) (done total left : ℕ)
      → total ≡ done + left
      → left ≤ fuel
      → length buf ≡ total
      → let (r, s') = send_loop k fuel s buf done total in After s (drop done buf) total r s'
  send_loop-After fuel s buf done total zero e f l =
      let d : done ≡ total = omega arith in
      rw (d, send_loop_done fuel s buf total)
        (refl, sym (ap (◌++◌ (wire s)) (drop_all buf total l) ∙ append-nil (wire s)))
  send_loop-After zero s buf done total (suc left) e f l = elim f [ ]
  send_loop-After (suc fuel) s buf done total (suc left) e f l =
      elim (Sent-cases s (drop done buf)) [
        | inl (code, s₁, q) ↦ rw (send_loop_refused fuel s s₁ buf done total code (omega arith) q) (
          [],
          drop done buf,
          refl,
          omega (arith, length-drop done buf),
          keeps s _ code s₁ q ∙ sym (append-nil (wire s)),
        )
        | inr (n, s₁, q) ↦
            let sizes = sends_some s _ n s₁ q in
            rw (send_loop_took fuel s s₁ buf done total n (omega arith) q) (
              subst
                (λ u.
                  After s u total (send_loop k fuel s₁ buf (done + n) total).0
                    (send_loop k fuel s₁ buf (done + n) total).1)
                (ap (λ u. take n (drop done buf) ++ u) (sym (drop-drop done n buf))
                  ∙ take-append-drop n (drop done buf))
                (After-step s s₁ _ (take n (drop done buf)) (drop (done + n) buf) total _
                  (sends s _ n s₁ q)
                  (send_loop-After fuel s₁ buf (done + n) total (suc left - n)
                    (omega (arith, length-drop done buf)) (omega arith) l)))
      ]

  -- Either the whole packet has gone out and the call returns its size, or a part of it has and the
  -- call returns the kernel's error, or there was no memory and nothing went out.
  abbrev pub Outcome : S → List ℕ → Result → S → Type 0
  Outcome s p (sent n) s' = (n ≡ length p) × (wire s' ≡ wire s ++ p)
  Outcome s p (net_error code) s' =
      (a b : List ℕ) × (p ≡ a ++ b) × (0 < length b) × (wire s' ≡ wire s ++ a)
  Outcome s p enomem s' = wire s' ≡ wire s
  Outcome s p ebusy s' = ⊥
  Outcome s p out_of_fuel s' = ⊥

  After-Outcome :
      (s s' : S) (p : List ℕ) (total : ℕ) (r : Result)
      → length p ≡ total
      → After s p total r s'
      → Outcome s p r s'
  After-Outcome s s' p total (sent n) l (e, w) = (omega arith, w)
  After-Outcome s s' p total (net_error code) l h = h
  After-Outcome s s' p total enomem l h = absurd h
  After-Outcome s s' p total ebusy l h = h
  After-Outcome s s' p total out_of_fuel l h = h

  alloc_size-fits : (len : ℕ) → header_size + len < 2 ^ 31 → alloc_size len ≡ header_size + len
  unfolding alloc_size
  alloc_size-fits len h = ground arith

  loop_limit-fits : (len : ℕ) → header_size + len < 2 ^ 31 → loop_limit len ≡ header_size + len
  unfolding loop_limit
  loop_limit-fits len h = ground arith

  module _ (node : ℕ) (s : S) (kind : ℕ) (payload : Option (List ℕ)) (len : ℕ) where
    comm_send-none :
        header_size + len < 2 ^ 31
        → kvmalloc s (header_size + len) ≡ none
        → comm_send k node s kind payload len ≡ (enomem, s)
    unfolding comm_send
    comm_send-none h q = rw (comm_send, alloc_size-fits len h, q) refl

    comm_send-some :
        (buf : List ℕ)
        → header_size + len < 2 ^ 31
        → kvmalloc s (header_size + len) ≡ some buf
        → comm_send k node s kind payload len
          ≡ send_loop k (header_size + len) s (fill node kind payload len buf) 0 (header_size + len)
    unfolding comm_send
    comm_send-some buf h q = rw (comm_send, alloc_size-fits len h, q, loop_limit-fits len h) refl

    pub comm_send-Outcome :
        Sized payload len
        → header_size + len < 2 ^ 31
        → let (r, s') = comm_send k node s kind payload len in
          Outcome s (packet node kind payload len) r s'
    comm_send-Outcome e h = elim (Option-cases (kvmalloc s (header_size + len))) [
      | inl q ↦ rw (comm_send-none h q) refl
      | inr (buf, q) ↦
          let l = length-packet node kind payload len e in
          let f = fill-packet node kind payload len buf e (buffer_size s _ buf q) in
          rw (comm_send-some buf h q, f)
            (After-Outcome s _ (packet node kind payload len) (header_size + len) _ l (
              send_loop-After (header_size + len) s (packet node kind payload len) 0
                (header_size + len) (header_size + len) (omega arith) (omega arith) l))
    ]

    -- mattx_comm_send_ctrl is mattx_comm_send where it gets the mutex; where another sender holds it,
    -- it gives up at once and no byte of the message goes out.
    pub comm_send_ctrl-comm_send :
        (free : Bool)
        → comm_send_ctrl k node s free kind payload len
          ≡ (if free then comm_send k node s kind payload len else (ebusy, s))
    unfolding comm_send_ctrl comm_send
    comm_send_ctrl-comm_send true = refl
    comm_send_ctrl-comm_send false = refl
