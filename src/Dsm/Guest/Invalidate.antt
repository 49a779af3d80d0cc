-- ===== src/Dsm/Guest/Invalidate.antt =====
-- mattx_dsm_invalidate_kworker of mattx_fileio.c: what an INVALIDATE leaves on a node.
use mattx.Base.{
  subst, ap, sym, ◌∙◌, Bool-cases, inl, inr, ℕ, zero, suc, ◌≡◌, ◌≢◌, refl, List, [], ◌∷◌, true,
  false, some, arith, ◌==◌, get_elem?, ◌/◌, take,
}
use mattx.Registry.Slots.{view}
use mattx.Registry.Guests.{Guests, GuestInfo, DsmMapping, invalid, page_size}
use mattx.Dsm.Guest.{
  Host, PageReq, map_first, invalidate_mapping, invalidate_guest, dsm_invalidate_kworker,
}

module _ {ℓ} {A : Type ℓ} where
  -- Every entry in use of the changed array comes from one of the old array.
  get_elem?-map_first :
      (f : A → A) (n : ℕ) (xs : List A) (i : ℕ) {y : A}
      → get_elem? (take n (map_first f n xs)) i ≡ some y
      → (x : A) × (get_elem? (take n xs) i ≡ some x) × (y ≡ f x)
  get_elem?-map_first f zero xs i e = absurd (ground (arith, e))
  get_elem?-map_first f (suc n) [] i e = absurd (ground (arith, e))
  get_elem?-map_first f (suc n) (x ∷ xs) zero e = (x, refl, ground (arith, e))
  get_elem?-map_first f (suc n) (x ∷ xs) (suc i) e = get_elem?-map_first f n xs i e

-- The node has, for a guest in use and a mapping in use of it, the page at a state.
pub record Invalidated (t : Guests) (req : PageReq) (i d : ℕ) (g' : GuestInfo) (m' : DsmMapping)
    : Type 0 where
  pub g : GuestInfo
  pub m : DsmMapping
  pub guest : get_elem? (view t) i ≡ some g
  pub mapping : get_elem? (take g.dsm_count g.dsm_map) d ≡ some m
  pub same_pid : g'.orig_pid ≡ g.orig_pid
  pub same_shmid : m'.shmid ≡ m.shmid
  -- Every copy of the page is gone, but the requester's.
  pub gone :
      g'.orig_pid ≢ req.orig_pid
      → m'.shmid ≡ req.shmid
      → m'.page_states (req.offset / page_size) ≡ invalid
  pub kept_other : (p : ℕ) → p ≢ req.offset / page_size → m'.page_states p ≡ m.page_states p
  pub kept_segment : m'.shmid ≢ req.shmid → m' ≡ m
  pub kept_own : g'.orig_pid ≡ req.orig_pid → m' ≡ m

invalidate_mapping_lem :
    (req : PageReq) (m : DsmMapping)
    → ((invalidate_mapping req m).shmid ≡ m.shmid)
      × (m.shmid ≡ req.shmid
          → (invalidate_mapping req m).page_states (req.offset / page_size) ≡ invalid)
      × ((p : ℕ)
          → p ≢ req.offset / page_size
          → (invalidate_mapping req m).page_states p ≡ m.page_states p)
      × (m.shmid ≢ req.shmid → invalidate_mapping req m ≡ m)
unfolding invalidate_mapping
invalidate_mapping_lem req m = elim (Bool-cases (m.shmid == req.shmid)) [
  | inl same ↦
      rw (same, invalidate_mapping)
        (refl, λ _. ground arith, λ p n. ground arith, λ n. absurd (ground (arith, n, same)))
  | inr other ↦
      rw (other, invalidate_mapping)
        (refl, λ q. absurd (ground (arith, q, other)), λ p n. refl, λ n. refl)
]

-- After an INVALIDATE, every mapping in use of a guest in use comes from the same one before: its
-- page is INVALID if the mapping is of the request's segment and the guest is not the requester's
-- process, and its other pages, the other segments and the requester's copies are as before.
pub dsm_invalidate_kworker-Invalidated :
    (host : Host) (t : Guests) (req : PageReq) (i d : ℕ) (g' : GuestInfo) (m' : DsmMapping)
    → get_elem? (view (dsm_invalidate_kworker host t req).0) i ≡ some g'
    → get_elem? (take g'.dsm_count g'.dsm_map) d ≡ some m'
    → Invalidated t req i d g' m'
unfolding dsm_invalidate_kworker invalidate_guest
dsm_invalidate_kworker-Invalidated host t req i d g' m' e f =
    let (g, at_i, made) = get_elem?-map_first (invalidate_guest req) t.count t.entries i e in
    elim (Bool-cases (g.orig_pid == req.orig_pid)) [
      | inl own ↦ kept g at_i (made ∙ owned g own) own
      | inr other ↦ changed g at_i (made ∙ foreign g other) other
    ]
  where
    owned : (g : GuestInfo) → (g.orig_pid == req.orig_pid) ≡ true → invalidate_guest req g ≡ g
    owned g own = rw (own, invalidate_guest) refl

    foreign :
        (g : GuestInfo)
        → (g.orig_pid == req.orig_pid) ≡ false
        → invalidate_guest req g
          ≡ record g { dsm_map = map_first (invalidate_mapping req) g.dsm_count g.dsm_map }
    foreign g other = rw (other, invalidate_guest) refl

    kept :
        (g : GuestInfo)
        → get_elem? (view t) i ≡ some g
        → g' ≡ g
        → (g.orig_pid == req.orig_pid) ≡ true
        → Invalidated t req i d g' m'
    kept g at_i same own = record {
      g = g;
      m = m';
      guest = at_i;
      mapping = subst (λ x. get_elem? (take x.dsm_count x.dsm_map) d ≡ some m') same f;
      same_pid = ap (λ x. x.orig_pid) same;
      same_shmid = refl;
      gone = λ n. absurd (n (ap (λ x. x.orig_pid) same ∙ ground (arith, own)));
      kept_other = λ p n. refl;
      kept_segment = λ n. refl;
      kept_own = λ q. refl;
    }

    changed :
        (g : GuestInfo)
        → get_elem? (view t) i ≡ some g
        → g' ≡ record g { dsm_map = map_first (invalidate_mapping req) g.dsm_count g.dsm_map }
        → (g.orig_pid == req.orig_pid) ≡ false
        → Invalidated t req i d g' m'
    changed g at_i made other =
        let (m, at_d, is) =
          get_elem?-map_first (invalidate_mapping req) g.dsm_count g.dsm_map d
            (subst (λ x. get_elem? (take x.dsm_count x.dsm_map) d ≡ some m') made f) in
        let (shm, gone, rest, segment) = invalidate_mapping_lem req m in
        record {
          g = g;
          m = m;
          guest = at_i;
          mapping = at_d;
          same_pid = ap (λ x. x.orig_pid) made;
          same_shmid = ap (λ x. x.shmid) is ∙ shm;
          gone = λ n q.
              ap (λ x. x.page_states (req.offset / page_size)) is
              ∙ gone (sym shm ∙ sym (ap (λ x. x.shmid) is) ∙ q);
          kept_other = λ p n. ap (λ x. x.page_states p) is ∙ rest p n;
          kept_segment = λ n. is ∙ segment (λ q. n (ap (λ x. x.shmid) is ∙ shm ∙ q));
          kept_own = λ q. absurd (ground (arith, other, ap (λ x. x.orig_pid) made, q));
        }
