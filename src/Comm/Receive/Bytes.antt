-- ===== src/Comm/Receive/Bytes.antt =====
-- mattx_recv_exact of mattx_comm.c on a socket that hands over pieces.
use mattx.Base.{
  ℕ, zero, suc, ◌+◌, ◌-◌, ◌<◌, ◌≤◌, ◌≡◌, refl, sym, ap, ◌∙◌, inl, inr, List, [], ◌++◌, true, false,
  arith, ltb, length, length-append, take, drop, take-append, drop-append, subst, ◌⊎◌, append_assoc,
  append-nil,
}
use mattx.Comm.Kernel.{Recv, stopped, got, Inbound}
use mattx.Comm.Receive.{Exact, full, broken, out_of_fuel, recv_loop, recv_exact}

module _ (k : Inbound) where
  open k use {S, recvmsg, pending, in_order, in_size, ready}

  -- What a call for `len` bytes leaves behind.
  abbrev pub Outcome : S → ℕ → Exact → S → Type 0
  Outcome s len (full bs) s' = (pending s ≡ bs ++ pending s') × (length bs ≡ len)
  Outcome s len (broken code) s' = Unit {0}
  Outcome s len out_of_fuel s' = ⊥

  -- The same for the loop, entered with `buf` in hand and `left` bytes to go.
  abbrev After : S → List ℕ → ℕ → Exact → S → Type 0
  After s buf left (full bs) s' =
      (new : List ℕ) × (bs ≡ buf ++ new) × (pending s ≡ new ++ pending s') × (length new ≡ left)
  After s buf left (broken code) s' = Unit {0}
  After s buf left out_of_fuel s' = ⊥

  After-step :
      (s s₁ s' : S) (bs buf : List ℕ) (left rest : ℕ) (r : Exact)
      → pending s ≡ bs ++ pending s₁
      → left ≡ length bs + rest
      → 0 < length bs
      → After s₁ (buf ++ bs) rest r s'
      → After s buf left r s'
  After-step s s₁ s' bs buf left rest (full all) p e pos (new, q, p', l) = (
    bs ++ new,
    q ∙ append_assoc buf bs new,
    p ∙ ap (◌++◌ bs) p' ∙ sym (append_assoc bs new (pending s')),
    omega (arith, length-append bs new),
  )
  After-step s s₁ s' bs buf left rest (broken code) p e pos h = tt
  After-step s s₁ s' bs buf left rest out_of_fuel p e pos h = h

  -- One call of the kernel, and one round of the loop by what it returned.
  Recv-cases :
      (s : S) (n : ℕ)
      → ((code : ℕ) × (s₁ : S) × (recvmsg s n ≡ (stopped code, s₁)))
        ⊎ ((bs : List ℕ) × (s₁ : S) × (recvmsg s n ≡ (got bs, s₁)))
  Recv-cases s n = split (recvmsg s n).0 (recvmsg s n).1 refl
    where
      split :
          (r : Recv) (s₁ : S)
          → recvmsg s n ≡ (r, s₁)
          → ((code : ℕ) × (s₁ : S) × (recvmsg s n ≡ (stopped code, s₁)))
            ⊎ ((bs : List ℕ) × (s₁ : S) × (recvmsg s n ≡ (got bs, s₁)))
      split (stopped code) s₁ e = inl (code, s₁, e)
      split (got bs) s₁ e = inr (bs, s₁, e)

  module _ (fuel : ℕ) (s s₁ : S) (received : ℕ) (buf : List ℕ) (len : ℕ) where
    recv_loop_got :
        (bs : List ℕ)
        → received < len
        → recvmsg s (len - received) ≡ (got bs, s₁)
        → recv_loop k (suc fuel) s received buf len
          ≡ recv_loop k fuel s₁ (received + length bs) (buf ++ bs) len
    unfolding recv_loop
    recv_loop_got bs h q =
        let more : ltb received len ≡ true = ground arith in rw (more, q, recv_loop) (rw q)

    recv_loop_stopped :
        (code : ℕ)
        → received < len
        → recvmsg s (len - received) ≡ (stopped code, s₁)
        → recv_loop k (suc fuel) s received buf len ≡ (broken code, s₁)
    unfolding recv_loop
    recv_loop_stopped code h q =
        let more : ltb received len ≡ true = ground arith in rw (more, q, recv_loop) (rw q)

  recv_loop_done :
      (fuel : ℕ) (s : S) (received : ℕ) (buf : List ℕ) (len : ℕ)
      → len ≤ received
      → recv_loop k fuel s received buf len ≡ (full buf, s)
  unfolding recv_loop
  recv_loop_done zero s received buf len h =
      let stop : ltb received len ≡ false = ground arith in rw (stop, recv_loop)
  recv_loop_done (suc fuel) s received buf len h =
      let stop : ltb received len ≡ false = ground arith in rw (stop, recv_loop)

  recv_loop-After :
      (fuel : ℕ) (s : S) (received : ℕ) (buf : List ℕ) (len left : ℕ)
      → len ≡ received + left
      → left ≤ fuel
      → let (r, s') = recv_loop k fuel s received buf len in After s buf left r s'
  recv_loop-After fuel s received buf len zero e f =
      rw (recv_loop_done fuel s received buf len (omega arith))
        ([], sym (append-nil buf), refl, refl)
  recv_loop-After zero s received buf len (suc left) e f = elim f [ ]
  recv_loop-After (suc fuel) s received buf len (suc left) e f =
      elim (Recv-cases s (len - received)) [
        | inl (code, s₁, q) ↦
            rw (recv_loop_stopped fuel s s₁ received buf len code (omega arith) q) tt
        | inr (bs, s₁, q) ↦
            let sizes = in_size s (len - received) bs s₁ q in
            rw (recv_loop_got fuel s s₁ received buf len bs (omega arith) q) (
              After-step s s₁ _ bs buf (suc left) (suc left - length bs) _ (in_order s _ bs s₁ q)
                (omega arith) sizes.0
                (recv_loop-After fuel s₁ (received + length bs) (buf ++ bs) len
                  (suc left - length bs) (omega arith) (omega arith)))
      ]

  recv_loop-ready :
      (fuel : ℕ) (s : S) (received : ℕ) (buf : List ℕ) (len left : ℕ)
      → len ≡ received + left
      → left ≤ fuel
      → left ≤ length (pending s)
      → (bs : List ℕ) × ((recv_loop k fuel s received buf len).0 ≡ full bs)
  recv_loop-ready fuel s received buf len zero e f l =
      (buf, rw (recv_loop_done fuel s received buf len (omega arith)))
  recv_loop-ready zero s received buf len (suc left) e f l = elim f [ ]
  recv_loop-ready (suc fuel) s received buf len (suc left) e f l =
      let (bs, s₁, q) = ready s (len - received) (omega arith) (omega arith) in
      let sizes = in_size s (len - received) bs s₁ q in
      let (all, p) =
        recv_loop-ready fuel s₁ (received + length bs) (buf ++ bs) len (suc left - length bs)
          (omega arith) (omega arith)
          (omega (arith, length-append bs (pending s₁), ap length (in_order s _ bs s₁ q))) in
      (all, rw (recv_loop_got fuel s s₁ received buf len bs (omega arith) q) p)

  After-Outcome : (s s' : S) (len : ℕ) (r : Exact) → After s [] len r s' → Outcome s len r s'
  After-Outcome s s' len (full bs) (new, p, q, l) = (rw p q, rw p l)
  After-Outcome s s' len (broken code) h = tt
  After-Outcome s s' len out_of_fuel h = h

  -- Whatever pieces the socket delivers: a full read is the next `len` bytes of the stream, and the
  -- fuel never runs out.
  pub recv_exact-Outcome :
      (s : S) (len : ℕ) → let (r, s') = recv_exact k s len in Outcome s len r s'
  unfolding recv_exact
  recv_exact-Outcome s len =
      After-Outcome s _ len _ (recv_loop-After len s 0 [] len len (omega arith) (omega arith))

  Outcome-full :
      (s s' : S) (len : ℕ) (bs : List ℕ) (r : Exact)
      → r ≡ full bs
      → Outcome s len r s'
      → (r ≡ full (take len (pending s))) × (pending s' ≡ drop len (pending s))
  Outcome-full s s' len bs r q o =
      let (p, l) = subst (λ r. Outcome s len r s') q o in
      (
        q ∙ ap full (sym (ap (take len) p ∙ take-append bs (pending s') l)),
        sym (ap (drop len) p ∙ drop-append bs (pending s') l),
      )

  -- While the bytes asked for are there the read succeeds.
  pub recv_exact-ready :
      (s : S) (len : ℕ)
      → len ≤ length (pending s)
      → (s' : S) × (recv_exact k s len ≡ (full (take len (pending s)), s'))
        × (pending s' ≡ drop len (pending s))
  recv_exact-ready s len h =
      let (bs, q) = recv_loop-ready len s 0 [] len len (omega arith) (omega arith) h in
      let (a, b) =
        Outcome-full s (recv_exact k s len).1 len bs (recv_exact k s len).0 (unfold recv_exact in q)
          (recv_exact-Outcome s len) in
      ((recv_exact k s len).1, ap (λ r. (r, (recv_exact k s len).1)) a, b)
