-- ===== src/Migr/Capture/Blueprints.antt =====
-- What the blueprints of mattx_migr.c hold.
use mattx.Base.{
  ℕ, zero, suc, ◌+◌, ◌≤◌, ◌≡◌, refl, sym, ap, List, [], ◌∷◌, Bool, true, false, ltb, if◌then◌else◌,
  map, length, take, arith, Option, none, some, length-take, lt→ltb,
}
use mattx.Migr.Blueprint.{
  max_fds, max_vmas, Vma, Thread, MigrationReq, collect_fds, collect_vmas, capture_vma,
}
use mattx.Migr.Gang.{max_gang_threads}
use mattx.Migr.Gang.Settled.{gang_of-IsGang}
use mattx.Migr.Capture.{Config, Found, infos, fds_of, vmas_of, forward_req, return_req, Mm}
use mattx.Migr.Capture.Signals.{gang_in}

-- All the open file descriptors.
pub open_numbers : List Bool → ℕ → List ℕ
open_numbers [] i = []
open_numbers (b ∷ bs) i = if b then i ∷ open_numbers bs (i + 1) else open_numbers bs (i + 1)

collect_fds_from :
    (bs : List Bool) (i n d : ℕ) → n + d ≡ max_fds → collect_fds bs i n ≡ take d (open_numbers bs i)
unfolding collect_fds open_numbers
collect_fds_from [] i n zero e = refl
collect_fds_from [] i n (suc d) e = refl
collect_fds_from (b ∷ bs) i n zero e =
    let full : ltb n max_fds ≡ false = ground arith in rw (full, collect_fds) refl
collect_fds_from (true ∷ bs) i n (suc d) e =
    rw (lt→ltb n max_fds (omega arith), collect_fds)
      (ap (◌∷◌ i) (collect_fds_from bs (i + 1) (n + 1) d (omega arith)))
collect_fds_from (false ∷ bs) i n (suc d) e =
    rw (lt→ltb n max_fds (omega arith), collect_fds) (collect_fds_from bs (i + 1) n (suc d) e)

-- The captured file descriptors are the first MAX_FDS open ones, in ascending order.
pub collect_fds_lem : (bs : List Bool) → collect_fds bs 0 0 ≡ take max_fds (open_numbers bs 0)
collect_fds_lem bs = collect_fds_from bs 0 0 max_fds refl

collect_vmas_from :
    (vs : List Vma) (n d : ℕ) → n + d ≡ max_vmas → collect_vmas vs n ≡ map capture_vma (take d vs)
unfolding collect_vmas
collect_vmas_from [] n zero e = refl
collect_vmas_from [] n (suc d) e = refl
collect_vmas_from (v ∷ vs) n zero e =
    let full : ltb n max_vmas ≡ false = ground arith in rw (full, collect_vmas) refl
collect_vmas_from (v ∷ vs) n (suc d) e =
    rw (lt→ltb n max_vmas (omega arith), collect_vmas)
      (ap (◌∷◌ (capture_vma v)) (collect_vmas_from vs (n + 1) d (omega arith)))

pub collect_vmas_lem : (vs : List Vma) → collect_vmas vs 0 ≡ map capture_vma (take max_vmas vs)
collect_vmas_lem vs = collect_vmas_from vs 0 max_vmas refl

-- The counts of a blueprint are those of its arrays, and no array is overrun.
pub record IsBlueprint (r : MigrationReq) : Type 0 where
  pub threads_counted : r.thread_count ≡ length r.threads
  pub threads_fit : r.thread_count ≤ max_gang_threads
  pub fds_counted : r.fd_count ≡ length r.open_fds
  pub fds_fit : r.fd_count ≤ max_fds
  pub vmas_counted : r.vma_count ≡ length r.vmas
  pub vmas_fit : r.vma_count ≤ max_vmas

length-infos : (th : ℕ → Thread) (ts : List ℕ) → length (infos th ts) ≡ length ts
length-infos th [] = refl
length-infos th (t ∷ ts) = ap suc (length-infos th ts)

length-map {ℓ κ} :
    {A : Type ℓ} {B : Type κ} (f : A → B) (xs : List A) → length (map f xs) ≡ length xs
length-map f [] = refl
length-map f (x ∷ xs) = ap suc (length-map f xs)

fds_of_bounded : (o : Option (List Bool)) → length (fds_of o) ≤ max_fds
fds_of_bounded none = omega arith
fds_of_bounded (some bs) =
    rw (collect_fds_lem bs) (omega (arith, length-take max_fds (open_numbers bs 0)))

vmas_of_bounded : (o : Option Mm) → length (vmas_of o) ≤ max_vmas
vmas_of_bounded none = omega arith
vmas_of_bounded (some m) =
    rw (collect_vmas_lem m.areas, length-map capture_vma (take max_vmas m.areas))
      (omega (arith, length-take max_vmas m.areas))

-- Both blueprints, of any process, fit the fixed arrays of the struct and count them right.
pub req-IsBlueprint :
    (c : Config) (f : Found) (orig_pid : ℕ)
    → let ts = (gang_in f).threads in
      IsBlueprint (forward_req c f ts) × IsBlueprint (return_req c f orig_pid ts)
unfolding forward_req return_req
req-IsBlueprint c f orig_pid =
    let ts = (gang_in f).threads in
    let n = length-infos f.thread ts in
    let few = (gang_of-IsGang f.freezing f.mother f.seen).bounded in
    (
      record {
        threads_counted = sym n;
        threads_fit = few;
        fds_counted = refl;
        fds_fit = fds_of_bounded f.files;
        vmas_counted = refl;
        vmas_fit = vmas_of_bounded f.mm;
      },
      record {
        threads_counted = sym n;
        threads_fit = few;
        fds_counted = refl;
        fds_fit = omega arith;
        vmas_counted = refl;
        vmas_fit = vmas_of_bounded f.mm;
      },
    )
