-- ===== src/Import/Pages/Copied.antt =====
-- The pages that the pump of one node sends, injected on the other.
use mattx.Base.{
  ℕ, zero, suc, ◌+◌, ◌-◌, ◌%◌, ◌^◌, ◌≤◌, ◌<◌, ◌≡◌, refl, sym, ◌∙◌, ap, List, [], ◌∷◌, ◌++◌, Bool,
  true, false, not, ◌&&◌, ◌||◌, none, some, ltb, leb, if◌then◌else◌, length, arith, Bool-cases, inl,
  inr, subst, lt→ltb, All,
}
use mattx.Registry.Slots.{get_elem?-some}
use mattx.Migr.Blueprint.{VmaInfo}
use mattx.Migr.Effects.{Effect, send, page_transfer}
use mattx.Migr.AddressSpace.{AddressSpace}
use mattx.Migr.Pump.{
  nothing_pumped, send_page, as_size, page_header_size, Pumped, Luck, pages_between, chunk_size,
  pump_page, pump_pages, pump_vmas, skipped,
}
use mattx.Migr.Pump.Ends.{IsUser, pump_pages_ends, pump_vmas_ends, chunk_size-Advances}
use mattx.Import.Pages.Flags.{byte_at-inject, byte_at-unprotect}
use mattx.Import.Pages.Arrive.{
  arrive, receive, receive-append, expects, expects-receive, arrive_page,
}
use mattx.Import.Pages.{Arriving, unprotect, inject}

-- Two ranges that meet.
joined :
    (x z end y new mid from old : ℕ)
    → x ≤ z
    → z ≤ end
    → new ≡ (if leb z y && ltb y end then from else mid)
    → mid ≡ (if leb x y && ltb y z then from else old)
    → new ≡ (if leb x y && ltb y end then from else old)
joined x z end y new mid from old h l e q = ground arith

-- Whether an address is in an area whose pages are sent.
pub covered : Bool → ℕ → List VmaInfo → Bool
covered r y [] = false
covered r y (v ∷ vs) = not (skipped r v) && (leb v.vm_start y && ltb y v.vm_end) || covered r y vs

module _ (a : AddressSpace) (src : a.Space) where
  -- A whole page that was read from the process, and written whole, holds the bytes of the process;
  -- the memory around it is as before.
  inject-copies :
      (m : a.Space) (x n y : ℕ)
      → length (a.read src x n) ≡ n
      → ((m : a.Space) (bs : List ℕ) → length bs ≡ n → (a.write m x bs).1 ≡ n)
      → a.byte_at (inject a m x (a.read src x n)).0 y
        ≡ (if leb x y && ltb y (x + n) then a.byte_at src y else a.byte_at m y)
  inject-copies m x n y full whole =
      let bs = a.read src x n in
      let m' = (unprotect a m x).0 in
      let count = whole m' bs full in
      byte_at-inject a m x y bs ∙ elim (Bool-cases (leb x y && ltb y (x + n))) [
        | inl h ↦
            let at_y : x + (y - x) ≡ y = ground arith in
            let in_page : y - x < n = ground arith in
            let (b, e) = get_elem?-some bs (y - x) (omega arith) in
            let from = a.read_byte src x n (y - x) e in
            let to = sym (a.write_inside m' x bs (y - x) (omega arith)) ∙ e in
            let same : a.byte_at (a.write m' x bs).0 (x + (y - x)) ≡ a.byte_at src (x + (y - x)) =
              ground (arith, from, to) in
            rw h (subst (λ z. a.byte_at (a.write m' x bs).0 z ≡ a.byte_at src z) at_y same)
        | inr h ↦ rw h (a.write_outside m' x bs y (ground arith) ∙ byte_at-unprotect a m x y)
      ]

  -- The process is there to be read, and the memory that it goes to is there to be written.
  pub record Serves (v : VmaInfo) : Type 0 where
    pub user : IsUser v.vm_start v.vm_end
    pub readable : (x n : ℕ) → v.vm_start ≤ x → x + n ≤ v.vm_end → length (a.read src x n) ≡ n
    pub writable :
        (m : a.Space) (x n : ℕ) (bs : List ℕ)
        → v.vm_start ≤ x
        → x + n ≤ v.vm_end
        → length bs ≡ n
        → (a.write m x bs).1 ≡ n

  Serves-IsUser : (vs : List VmaInfo) → All Serves vs → All (λ v. IsUser v.vm_start v.vm_end) vs
  Serves-IsUser [] h = tt
  Serves-IsUser (v ∷ vs) h = (h.0.user, Serves-IsUser vs h.1)

  module _ (luck : Luck) (link : ℕ) (s : Arriving × a.Space)
      (page_buf : (i x : ℕ) → luck.page_buf i x ≡ true)
      (payload_buf : (i x : ℕ) → luck.payload_buf i x ≡ true) (expected : expects s.0 ≡ true) where
    abbrev message : ℕ → ℕ → Effect
    message x n = send link (page_transfer x (a.read src x n))

    out-send_page :
        (i x : ℕ) (bs : List ℕ) (p : Pumped)
        → (send_page a src luck link i x bs p).out ≡ p.out ++ (send link (page_transfer x bs) ∷ [])
    unfolding send_page
    out-send_page i x bs p =
        elim (Bool-cases (ltb (as_size (luck.send_res i x)) (page_header_size + length bs))) [
          | inl e ↦ rw (payload_buf i x, send_page, e) refl
          | inr e ↦ rw (payload_buf i x, send_page, e) refl
        ]

    out-pump_page :
        (i x n : ℕ) (p : Pumped)
        → 0 < length (a.read src x n)
        → (pump_page a src luck link i x n p).out ≡ p.out ++ (message x n ∷ [])
    unfolding pump_page
    out-pump_page i x n p r =
        rw (page_buf i x, pump_page, lt→ltb 0 (length (a.read src x n)) r)
          (out-send_page i x (a.read src x n) (record p { total = p.total + 1 }))

    -- The memory once everything that was sent has arrived.
    abbrev filled : List Effect → ℕ → ℕ
    filled out y = a.byte_at (receive a out s).1 y

    filled-pump_page :
        (i x n y : ℕ) (p : Pumped) (v : VmaInfo)
        → Serves v
        → 0 < n
        → v.vm_start ≤ x
        → x + n ≤ v.vm_end
        → filled (pump_page a src luck link i x n p).out y
          ≡ (if leb x y && ltb y (x + n) then a.byte_at src y else filled p.out y)
    unfolding receive arrive
    filled-pump_page i x n y p v h pos l u =
        let full = h.readable x n l u in
        let sent = out-pump_page i x n p (omega arith) in
        ap (λ o. filled o y) sent
        ∙ ap (λ z. a.byte_at z.1 y) (receive-append a p.out (message x n ∷ []) s)
        ∙ arrive_page a (receive a p.out s) link x y (a.read src x n)
            (expects-receive a p.out s ∙ expected)
        ∙ inject-copies (receive a p.out s).1 x n y full (λ m bs. h.writable m x n bs l u)

    pump_pages_done :
        (fuel i x end : ℕ) (p : Pumped)
        → ltb x end ≡ false
        → pump_pages a src luck link fuel i x end p ≡ some p
    unfolding pump_pages
    pump_pages_done zero i x end p e = rw (e, pump_pages) refl
    pump_pages_done (suc fuel) i x end p e = rw (e, pump_pages) refl

    pump_pages_stuck :
        (i x end : ℕ) (p : Pumped)
        → ltb x end ≡ true
        → pump_pages a src luck link 0 i x end p ≡ none
    unfolding pump_pages
    pump_pages_stuck i x end p e = rw (e, pump_pages) refl

    pump_pages_more :
        (fuel i x end : ℕ) (p : Pumped)
        → ltb x end ≡ true
        → pump_pages a src luck link (suc fuel) i x end p
          ≡ pump_pages a src luck link fuel i
              ((x + chunk_size x end) % 2 ^ 64)
              end
              (pump_page a src luck link i x (chunk_size x end) p)
    unfolding pump_pages
    pump_pages_more fuel i x end p e = rw (e, pump_pages) refl

    some-filled : (p q : Pumped) (y : ℕ) → some p ≡ some q → filled q.out y ≡ filled p.out y
    some-filled p q y e = let same : p ≡ q = cc in ap (λ r. filled r.out y) (sym same)

    filled_done :
        (fuel i x end y : ℕ) (p q : Pumped)
        → ltb x end ≡ false
        → pump_pages a src luck link fuel i x end p ≡ some q
        → filled q.out y ≡ (if leb x y && ltb y end then a.byte_at src y else filled p.out y)
    filled_done fuel i x end y p q d e =
        let outside : (leb x y && ltb y end) ≡ false = ground arith in
        rw outside (some-filled p q y (sym (pump_pages_done fuel i x end p d) ∙ e))

    filled-pump_pages :
        (fuel i x y : ℕ) (p q : Pumped) (v : VmaInfo)
        → Serves v
        → v.vm_start ≤ x
        → pump_pages a src luck link fuel i x v.vm_end p ≡ some q
        → filled q.out y ≡ (if leb x y && ltb y v.vm_end then a.byte_at src y else filled p.out y)
    filled-pump_pages zero i x y p q v h l e = elim (Bool-cases (ltb x v.vm_end)) [
      | inl more ↦ let stuck = sym (pump_pages_stuck i x v.vm_end p more) ∙ e in absurd (cc)
      | inr done ↦ filled_done 0 i x v.vm_end y p q done e
    ]
    filled-pump_pages (suc fuel) i x y p q v h l e = elim (Bool-cases (ltb x v.vm_end)) [
      | inl more ↦
          let lt : x < v.vm_end = ground arith in
          let n = chunk_size x v.vm_end in
          let w = chunk_size-Advances x v.vm_end lt h.user.1 in
          let p' = pump_page a src luck link i x n p in
          let go = pump_pages_more fuel i x v.vm_end p more in
          let e' = rw w.unwrapped at (sym go ∙ e) in
          let rest = filled-pump_pages fuel i (x + n) y p' q v h (omega arith) e' in
          let page = filled-pump_page i x n y p v h w.forward l w.inside in
          joined x (x + n) v.vm_end y (filled q.out y) (filled p'.out y) (a.byte_at src y)
            (filled p.out y) (omega arith) w.inside rest page
      | inr done ↦ filled_done (suc fuel) i x v.vm_end y p q done e
    ]

    filled-pump_vmas :
        (r : Bool) (i y : ℕ) (vs : List VmaInfo) (p q : Pumped)
        → All Serves vs
        → pump_vmas a src luck link r i vs p ≡ some q
        → filled q.out y ≡ (if covered r y vs then a.byte_at src y else filled p.out y)
    unfolding pump_vmas covered
    filled-pump_vmas r i y [] p q h e = some-filled p q y e
    filled-pump_vmas r i y (v ∷ vs) p q h e = elim (Bool-cases (skipped r v)) [
      | inl out ↦
          let e' : pump_vmas a src luck link r (i + 1) vs p ≡ some q = rw (out, pump_vmas) at e in
          rw (out, covered) (filled-pump_vmas r (i + 1) y vs p q h.1 e')
      | inr sent ↦
          let n = pages_between v.vm_start v.vm_end in
          let (p', f, t) =
            pump_pages_ends a src luck link n i v.vm_start v.vm_end p h.0.user.0 h.0.user.1 refl in
          let e' : pump_vmas a src luck link r (i + 1) vs p' ≡ some q =
            rw (sent, pump_vmas, f) at e in
          let here = filled-pump_pages n i v.vm_start y p p' v h.0 (omega arith) f in
          let rest = filled-pump_vmas r (i + 1) y vs p' q h.1 e' in
          rw (sent, covered) (ground (arith, here, rest))
    ]

    -- Where every page can be read and written, and memory is had, the areas that the pump does not
    -- leave out arrive whole: once its messages have been handled in order by a node that expects
    -- them, every byte of these areas is that of the process, and every other byte is as before.
    pub pump_vmas-receive :
        (r : Bool) (vs : List VmaInfo)
        → All Serves vs
        → (q : Pumped) × (pump_vmas a src luck link r 0 vs nothing_pumped ≡ some q)
          × ((y : ℕ)
              → a.byte_at (receive a q.out s).1 y
                ≡ (if covered r y vs then a.byte_at src y else a.byte_at s.1 y))
    unfolding receive
    pump_vmas-receive r vs h =
        let (q, e, t) = pump_vmas_ends a src luck link r 0 vs nothing_pumped (Serves-IsUser vs h) in
        (q, e, λ y. filled-pump_vmas r 0 y vs nothing_pumped q h e)
