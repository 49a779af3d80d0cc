-- ===== src/Import/Arrival/Guest.antt =====
-- The guest that handle_migrate_done registers.
use mattx.Base.{
  ℕ, ◌<◌, ◌≡◌, refl, ap, ◌∙◌, List, [], ◌∷◌, ◌++◌, Bool, true, false, none, some, ◌==◌,
  if◌then◌else◌, length, take, set, replicate, arith, inl, inr, length-replicate, Bool-cases,
}
use mattx.Registry.Slots.{
  view, IsValid, max_guests, first, first-cases, take-set, write, find_index,
}
use mattx.Registry.Guests.{
  GuestInfo, Guests, fresh_guest, add_guest_process, is_guest_process, max_dsm_segments,
  zero_mapping,
}
use mattx.Registry.Guests.Table.{add_guest_process-Added}
use mattx.Registry.Clock.{ClockFixups}
use mattx.Migr.Blueprint.{MigrationReq}
use mattx.Import.Pages.{Arriving}
use mattx.Import.Stub.{Stub, fill_guest, change_guest}
use mattx.Import.Arrival.{transplant, node_number}
use mattx.Import.Stub.Segments.{
  mapped_segments, shared_segments, map_segments_lem, mapped_segments_none,
}

-- A search that finds nothing in a list finds the entry that is put after it.
first-append_hit {ℓ} :
    {A : Type ℓ} (p : A → Bool) (xs : List A) (x : A)
    → first p xs ≡ none
    → p x ≡ true
    → first p (xs ++ (x ∷ [])) ≡ some (length xs, x)
first-append_hit p [] x e h = rw h refl
first-append_hit p (y ∷ ys) x e h = elim (Bool-cases (p y)) [
  | inl q ↦ absurd (ground (arith, e, q))
  | inr q ↦ elim (first-cases p ys) [
    | inl (f, a) ↦ rw (q, first-append_hit p ys x f h) refl
    | inr (i, z, f, g, r) ↦ absurd (ground (arith, e, q, f))
  ]
]

set-append_end {ℓ} :
    {A : Type ℓ} (xs : List A) (x y : A) → set (xs ++ (x ∷ [])) (length xs) y ≡ xs ++ (y ∷ [])
set-append_end [] x y = refl
set-append_end (z ∷ xs) x y = ap (◌∷◌ z) (set-append_end xs x y)

change_guest_hit :
    (t : Guests) (pid i : ℕ) (g : GuestInfo) (f : GuestInfo → GuestInfo)
    → find_index (λ g. g.local_pid == pid) t ≡ some (i, g)
    → change_guest t pid f ≡ write t i (f g)
unfolding change_guest
change_guest_hit t pid i g f e = rw (e, change_guest) refl

-- Only the new entry is changed where the pid was no guest before.
view-change_guest :
    (t t' : Guests) (pid : ℕ) (g : GuestInfo) (f : GuestInfo → GuestInfo)
    → first (λ g. g.local_pid == pid) (view t) ≡ none
    → g.local_pid ≡ pid
    → view t' ≡ view t ++ (g ∷ [])
    → view (change_guest t' pid f) ≡ view t ++ (f g ∷ [])
view-change_guest t t' pid g f e h v =
    let hit : (g.local_pid == pid) ≡ true = ground arith in
    let found : find_index (λ g. g.local_pid == pid) t' ≡ some (length (view t), g) =
      ap (first (λ g. g.local_pid == pid)) v
      ∙ first-append_hit (λ g. g.local_pid == pid) (view t) g e hit in
    let i = length (view t) in
    ap view (change_guest_hit t' pid i g f found)
    ∙ take-set t'.count t'.entries i (f g)
    ∙ ap (λ xs. set xs i (f g)) v
    ∙ set-append_end (view t) g (f g)

not_guest :
    (t : Guests) (pid : ℕ)
    → is_guest_process t pid ≡ false
    → first (λ g. g.local_pid == pid) (view t) ≡ none
unfolding is_guest_process
not_guest t pid h = elim (first-cases (λ g. g.local_pid == pid) (view t)) [
  | inl (e, a) ↦ e
  | inr (i, g, e, r, q) ↦ absurd (ground (arith, h, e))
]

-- The entry of the new guest: whose process it is, and its shared segments.
pub record IsGuest (g : GuestInfo) (req : MigrationReq) (stub : Stub) (node : ℕ) : Type 0 where
  pub pid : g.local_pid ≡ stub.pid
  pub process : g.orig_pid ≡ req.orig_pid
  pub home : g.home_node ≡ node
  pub runs : g.is_migrating ≡ false
  pub gang : g.thread_count ≡ req.thread_count
  pub segments :
      mapped_segments (take g.dsm_count g.dsm_map)
      ≡ take max_dsm_segments
          (shared_segments (if stub.has_mm then take req.vma_count req.vmas else []))

fill_guest-IsGuest :
    (req : MigrationReq) (stub : Stub) (node : ℕ) (old : GuestInfo)
    → IsGuest (fill_guest req stub (fresh_guest stub.pid req.orig_pid node old)) req stub node
unfolding fill_guest
fill_guest-IsGuest req stub node old = record {
  pid = ground arith;
  process = ground arith;
  home = ground arith;
  runs = ground arith;
  gang = ground arith;
  segments = elim (Bool-cases stub.has_mm) [
    | inl h ↦
        let e =
          map_segments_lem (take req.vma_count req.vmas) (replicate max_dsm_segments zero_mapping)
            (length-replicate max_dsm_segments zero_mapping) in
        rw (h, fill_guest) e.1
    | inr h ↦ rw (h, fill_guest) (mapped_segments_none (replicate max_dsm_segments zero_mapping))
  ];
}

-- A process that arrives while there is room, in a stub that is no guest yet, is one more guest at
-- the end of the registry: it has the stub's pid and the process's pid and home, is not migrating,
-- and, where the stub has memory, maps the first MAX_DSM_SEGMENTS shared areas of the blueprint, in
-- order, and else none. The other guests are as before.
pub transplant-IsGuest :
    (s : Arriving) (gs : Guests) (fx : ClockFixups) (req : MigrationReq) (stub : Stub)
    → IsValid gs
    → gs.count < max_guests
    → is_guest_process gs stub.pid ≡ false
    → (g : GuestInfo) × (view (transplant s gs fx req stub).guests ≡ view gs ++ (g ∷ []))
      × IsGuest g req stub (node_number s.pending_source_node)
unfolding transplant
transplant-IsGuest s gs fx req stub v room new =
    let node = node_number s.pending_source_node in
    let (old, e, _) = (add_guest_process-Added gs stub.pid req.orig_pid node v).added room in
    let g = fresh_guest stub.pid req.orig_pid node old in
    (
      fill_guest req stub g,
      view-change_guest gs (add_guest_process gs stub.pid req.orig_pid node) stub.pid g
          (fill_guest req stub) (not_guest gs stub.pid new) refl e,
      fill_guest-IsGuest req stub node old,
    )
