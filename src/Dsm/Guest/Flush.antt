-- ===== src/Dsm/Guest/Flush.antt =====
-- mattx_dsm_flush_kworker of mattx_fileio.c: what a flush gives and leaves.
use mattx.Base.{
  ℕ, ◌≡◌, refl, List, ◌++◌, Bool, true, none, some, arith, ◌==◌, set, ◌/◌, take, inl, inr,
  Option-cases, pos, ◌⊎◌,
}
use mattx.Registry.Slots.{take-set, view, first, first-set, first-cases}
use mattx.Registry.Guests.{Guests, GuestInfo, DsmMapping, invalid, exclusive, page_size}
use mattx.Dsm.Guest.{
  Host, PageReq, set_state, find_copy, flushable, flush_reply, zap, write_copy, enoent, zero_page,
  dsm_flush_kworker,
}

-- A mapping that is flushed was EXCLUSIVE and had the bytes.
flushable_lem :
    (m : DsmMapping) (page : ℕ) (bytes : List ℕ)
    → flushable m page ≡ some bytes
    → (m.page_states page ≡ exclusive) × (m.pages page ≡ some bytes)
flushable_lem m page bytes e = ground (arith, e)

-- A flush either finds no EXCLUSIVE page of the process, changes nothing and answers -ENOENT with an
-- empty page; or it answers with the bytes of the process's EXCLUSIVE page, leaves that page INVALID,
-- and changes nothing else.
pub dsm_flush_kworker_lem :
    (host : Host) (t : Guests) (req : PageReq) (node : ℕ)
    → (dsm_flush_kworker host t req node ≡ (t, flush_reply host node req.req_id enoent zero_page))
      ⊎ ((i d : ℕ) × (g : GuestInfo) × (m : DsmMapping) × (bytes : List ℕ) × (find_copy t req
            ≡ some ((i, g), d, m))
          × (m.page_states (req.offset / page_size) ≡ exclusive)
          × (m.pages (req.offset / page_size) ≡ some bytes)
          × (dsm_flush_kworker host t req node ≡ (
            write_copy t i g d (set_state m (req.offset / page_size) invalid),
            zap host g.local_pid m.base_addr req.offset
                ++ flush_reply host node req.req_id (pos 0) bytes,
          )))
unfolding dsm_flush_kworker
dsm_flush_kworker_lem host t req node = elim (Option-cases (find_copy t req)) [
  | inl e ↦ inl (rw (e, dsm_flush_kworker) refl)
  | inr (((i, g), d, m), e) ↦ elim (Option-cases (flushable m (req.offset / page_size))) [
    | inl f ↦ inl (rw (e, f, dsm_flush_kworker) refl)
    | inr (bytes, f) ↦
        let (x, b) = flushable_lem m (req.offset / page_size) bytes f in
        inr (i, d, g, m, bytes, e, x, b, rw (e, f, dsm_flush_kworker) refl)
  ]
]

abbrev is_guest : PageReq → GuestInfo → Bool
is_guest req g = g.orig_pid == req.orig_pid

abbrev is_map : PageReq → DsmMapping → Bool
is_map req m = m.shmid == req.shmid

find_copy-some :
    (t : Guests) (req : PageReq) (i d : ℕ) (g : GuestInfo) (m : DsmMapping)
    → first (is_guest req) (view t) ≡ some (i, g)
    → first (is_map req) (take g.dsm_count g.dsm_map) ≡ some (d, m)
    → find_copy t req ≡ some ((i, g), d, m)
unfolding find_copy
find_copy-some t req i d g m e f = rw (e, f, find_copy) refl

find_copy-none :
    (t : Guests) (req : PageReq) → first (is_guest req) (view t) ≡ none → find_copy t req ≡ none
unfolding find_copy
find_copy-none t req e = rw (e, find_copy) refl

find_copy_unmapped :
    (t : Guests) (req : PageReq) (i : ℕ) (g : GuestInfo)
    → first (is_guest req) (view t) ≡ some (i, g)
    → first (is_map req) (take g.dsm_count g.dsm_map) ≡ none
    → find_copy t req ≡ none
unfolding find_copy
find_copy_unmapped t req i g e f = rw (e, f, find_copy) refl

-- A copy that was found is found again once its page is INVALID.
find_copy_again :
    (t : Guests) (req : PageReq) (i d page : ℕ) (g : GuestInfo) (m : DsmMapping)
    → first (is_guest req) (view t) ≡ some (i, g)
    → is_guest req g ≡ true
    → first (is_map req) (take g.dsm_count g.dsm_map) ≡ some (d, m)
    → is_map req m ≡ true
    → find_copy (write_copy t i g d (set_state m page invalid)) req
      ≡ some (
        (i, record g { dsm_map = set g.dsm_map d (set_state m page invalid) }),
        d,
        set_state m page invalid,
      )
find_copy_again t req i d page g m e hit f found =
    let m' = set_state m page invalid in
    let g' = record g { dsm_map = set g.dsm_map d m' } in
    find_copy-some (write_copy t i g d m') req i d g' m'
      (rw (take-set t.count t.entries i g') (first-set (is_guest req) (view t) i g g' e hit))
      (rw (take-set g.dsm_count g.dsm_map d m')
        (first-set (is_map req) (take g.dsm_count g.dsm_map) d m m' f found))

-- What a flush does once it has the copy.
flush_at :
    (host : Host) (t : Guests) (req : PageReq) (node i d : ℕ) (g : GuestInfo) (m : DsmMapping)
    → find_copy t req ≡ some ((i, g), d, m)
    → flushable m (req.offset / page_size) ≡ none
    → dsm_flush_kworker host t req node ≡ (t, flush_reply host node req.req_id enoent zero_page)
unfolding dsm_flush_kworker
flush_at host t req node i d g m e f = rw (e, f, dsm_flush_kworker) refl

flush_missing :
    (host : Host) (t : Guests) (req : PageReq) (node : ℕ)
    → find_copy t req ≡ none
    → dsm_flush_kworker host t req node ≡ (t, flush_reply host node req.req_id enoent zero_page)
unfolding dsm_flush_kworker
flush_missing host t req node e = rw (e, dsm_flush_kworker) refl

flush_write :
    (host : Host) (t : Guests) (req : PageReq) (node i d : ℕ) (g : GuestInfo) (m : DsmMapping)
    (bytes : List ℕ)
    → find_copy t req ≡ some ((i, g), d, m)
    → flushable m (req.offset / page_size) ≡ some bytes
    → (dsm_flush_kworker host t req node).0
      ≡ write_copy t i g d (set_state m (req.offset / page_size) invalid)
unfolding dsm_flush_kworker
flush_write host t req node i d g m bytes e f = rw (e, f, dsm_flush_kworker) refl

invalid-flushable : (m : DsmMapping) (page : ℕ) → flushable (set_state m page invalid) page ≡ none
invalid-flushable m page = ground arith

-- A page's bytes are given once: whatever the first flush found, a second one for the same page
-- changes nothing and answers -ENOENT with an empty page.
dsm_flush_kworker_twice :
    (host : Host) (t : Guests) (req : PageReq) (node again : ℕ)
    → dsm_flush_kworker host (dsm_flush_kworker host t req node).0 req again
      ≡ ((dsm_flush_kworker host t req node).0, flush_reply host again req.req_id enoent zero_page)
dsm_flush_kworker_twice host t req node again = elim (first-cases (is_guest req) (view t)) [
  | inl (e, _) ↦ missing (find_copy-none t req e)
  | inr (i, g, e, _, hit) ↦ elim (first-cases (is_map req) (take g.dsm_count g.dsm_map)) [
    | inl (f, _) ↦ missing (find_copy_unmapped t req i g e f)
    | inr (d, m, f, _, found) ↦
        let page = req.offset / page_size in
        let copy = find_copy-some t req i d g m e f in
        elim (Option-cases (flushable m page)) [
          | inl q ↦
              rw (flush_at host t req node i d g m copy q)
                (flush_at host t req again i d g m copy q)
          | inr (bytes, q) ↦
              let m' = set_state m page invalid in
              rw (flush_write host t req node i d g m bytes copy q) (
                flush_at host (write_copy t i g d m') req again i d
                  (record g { dsm_map = set g.dsm_map d m' }) m'
                  (find_copy_again t req i d page g m e hit f found) (invalid-flushable m page))
        ]
  ]
]
  where
    missing :
        find_copy t req ≡ none
        → dsm_flush_kworker host (dsm_flush_kworker host t req node).0 req again ≡ (
          (dsm_flush_kworker host t req node).0,
          flush_reply host again req.req_id enoent zero_page,
        )
    missing e = rw (flush_missing host t req node e) (flush_missing host t req again e)
