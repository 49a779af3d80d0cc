-- ===== src/Import/Stub/Segments.antt =====
-- The DSM segments of a new guest.
use mattx.Base.{
  ℕ, zero, suc, ◌+◌, ◌-◌, ◌<◌, ◌≡◌, refl, sym, ap, ◌∙◌, List, [], ◌∷◌, ◌++◌, true, false, ◌&&◌, ltb,
  if◌then◌else◌, length, take, min, arith, append_assoc, append-nil, Bool-cases, inl, inr,
  length-set,
}
use mattx.Registry.Slots.{get_elem?-some, take-set_end}
use mattx.Registry.Guests.{DsmMapping, max_dsm_segments}
use mattx.Migr.Blueprint.{VmaInfo}
use mattx.Import.Stub.{map_segment, map_at, map_segments}

pub record Segment : Type 0 where
  pub base : ℕ
  pub size : ℕ
  pub shmid : ℕ

abbrev pub segment_of : VmaInfo → Segment
segment_of v = record { base = v.vm_start; size = v.vm_end - v.vm_start; shmid = v.shmid }

abbrev pub entry_of : DsmMapping → Segment
entry_of m = record { base = m.base_addr; size = m.size; shmid = m.shmid }

-- The segments that some entries stand for, and those of the areas of a blueprint.
pub mapped_segments : List DsmMapping → List Segment
mapped_segments [] = []
mapped_segments (m ∷ ms) = entry_of m ∷ mapped_segments ms

pub shared_segments : List VmaInfo → List Segment
shared_segments [] = []
shared_segments (v ∷ vs) =
    let rest = shared_segments vs in if v.is_shm then segment_of v ∷ rest else rest

mapped_segments-append :
    (xs ys : List DsmMapping)
    → mapped_segments (xs ++ ys) ≡ mapped_segments xs ++ mapped_segments ys
unfolding mapped_segments
mapped_segments-append [] ys = refl
mapped_segments-append (x ∷ xs) ys = ap (◌∷◌ (entry_of x)) (mapped_segments-append xs ys)

take-mapped :
    (v : VmaInfo) (n : ℕ) (ms : List DsmMapping)
    → n < length ms
    → (mapped_segments (take (n + 1) (map_at v n ms))
        ≡ mapped_segments (take n ms) ++ (segment_of v ∷ []))
      × (length (map_at v n ms) ≡ length ms)
unfolding mapped_segments
take-mapped v n ms h =
    let (m, e) = get_elem?-some ms n h in
    rw (e, map_at)
      (
        ap mapped_segments (take-set_end ms n (map_segment v m) h)
            ∙ mapped_segments-append (take n ms) (map_segment v m ∷ []),
        length-set ms n (map_segment v m),
      )

shared_take :
    (v : VmaInfo) (vs : List VmaInfo)
    → v.is_shm ≡ true
    → shared_segments (v ∷ vs) ≡ segment_of v ∷ shared_segments vs
unfolding shared_segments
shared_take v vs e = ap (λ b. if b then segment_of v ∷ shared_segments vs else shared_segments vs) e

shared_skip :
    (v : VmaInfo) (vs : List VmaInfo)
    → v.is_shm ≡ false
    → shared_segments (v ∷ vs) ≡ shared_segments vs
unfolding shared_segments
shared_skip v vs e = ap (λ b. if b then segment_of v ∷ shared_segments vs else shared_segments vs) e

map_segments_skip :
    (v : VmaInfo) (vs : List VmaInfo) (n : ℕ) (ms : List DsmMapping)
    → (v.is_shm && ltb n max_dsm_segments) ≡ false
    → map_segments (v ∷ vs) n ms ≡ map_segments vs n ms
unfolding map_segments
map_segments_skip v vs n ms e = rw (e, map_segments) refl

map_segments_take :
    (v : VmaInfo) (vs : List VmaInfo) (n : ℕ) (ms : List DsmMapping)
    → (v.is_shm && ltb n max_dsm_segments) ≡ true
    → map_segments (v ∷ vs) n ms ≡ map_segments vs (n + 1) (map_at v n ms)
unfolding map_segments
map_segments_take v vs n ms e = rw (e, map_segments) refl

-- Once all sixteen are in use the rest is skipped.
map_segments_full :
    (vs : List VmaInfo) (n : ℕ) (ms : List DsmMapping)
    → n ≡ max_dsm_segments
    → map_segments vs n ms ≡ (n, ms)
unfolding map_segments
map_segments_full [] n ms e = refl
map_segments_full (v ∷ vs) n ms e =
    map_segments_skip v vs n ms (ground arith) ∙ map_segments_full vs n ms e

map_segments-Maps :
    (vs : List VmaInfo) (n d : ℕ) (ms : List DsmMapping)
    → n + d ≡ max_dsm_segments
    → length ms ≡ max_dsm_segments
    → ((map_segments vs n ms).0 ≡ min max_dsm_segments (n + length (shared_segments vs)))
      × (mapped_segments (take (map_segments vs n ms).0 (map_segments vs n ms).1)
          ≡ mapped_segments (take n ms) ++ take d (shared_segments vs))
unfolding map_segments shared_segments
map_segments-Maps [] n zero ms h l = (omega arith, sym (append-nil _))
map_segments-Maps [] n (suc d) ms h l = (omega arith, sym (append-nil _))
map_segments-Maps (v ∷ vs) n zero ms h l =
    rw (map_segments_full (v ∷ vs) n ms (omega arith)) (omega arith, sym (append-nil _))
map_segments-Maps (v ∷ vs) n (suc d) ms h l = elim (Bool-cases v.is_shm) [
  | inr off ↦
      rw (map_segments_skip v vs n ms (ground arith), shared_skip v vs off)
        (map_segments-Maps vs n (suc d) ms h l)
  | inl on ↦
      let (e, len) = take-mapped v n ms (omega arith) in
      let (a, b) = map_segments-Maps vs (n + 1) d (map_at v n ms) (omega arith) (len ∙ l) in
      rw (map_segments_take v vs n ms (ground arith), shared_take v vs on)
        (
          omega (arith, a),
          b
              ∙ ap (λ xs. xs ++ take d (shared_segments vs)) e
              ∙ append_assoc (mapped_segments (take n ms)) (segment_of v ∷ [])
                  (take d (shared_segments vs)),
        )
]

-- Without memory there is no segment.
pub mapped_segments_none :
    (ms : List DsmMapping)
    → mapped_segments (take 0 ms) ≡ take max_dsm_segments (shared_segments [])
unfolding mapped_segments shared_segments
mapped_segments_none ms = refl

-- The DSM map of a new guest has one entry for each shared area of the blueprint, with its base, size
-- and id, in order, up to the sixteen there is room for.
pub map_segments_lem :
    (vs : List VmaInfo) (ms : List DsmMapping)
    → length ms ≡ max_dsm_segments
    → let (n, ms') = map_segments vs 0 ms in
      (n ≡ min max_dsm_segments (length (shared_segments vs)))
      × (mapped_segments (take n ms') ≡ take max_dsm_segments (shared_segments vs))
unfolding mapped_segments
map_segments_lem vs ms l =
    let (a, b) = map_segments-Maps vs 0 max_dsm_segments ms refl l in (omega (arith, a), b)
