-- ===== src/Registry/Watch/Burials.antt =====
-- The guest watcher of mattx_sched.c: what it leaves, and what it does on the way.
use mathlib.Core.List.Perm
use mattx.Base.{
  ℕ, zero, suc, ◌≤◌, ◌≡◌, refl, ap, inl, inr, List, [], ◌∷◌, ◌++◌, true, false, Perm, none, some,
  arith, pos, All,
}
use mattx.Effects.{Effect}
use mattx.Registry.Slots.{view, IsValid, first, first-cases, view_lt}
use mattx.Registry.Guests.{GuestInfo, Guests, free_pages, pages_of, remove_guest_process}
use mattx.Registry.Guests.Table.{remove_guest_process-perm, count-remove_guest_process}
use mattx.Registry.Watch.{World, funeral, watch_guests}

-- The work for some dead guests, one after the other: its pages are freed, its dirty pages flushed,
-- its buffers freed, its home told.
abbrev pub burials : World → List GuestInfo → List Effect
burials w [] = []
burials w (g ∷ gs) = free_pages (pages_of g) ++ (funeral w g ++ burials w gs)

-- The outcome of the watcher: `gone` are the guests it buried.
pub record Watched (w : World) (t t' : Guests) (es : List Effect) : Type 0 where
  pub gone : List GuestInfo
  pub split : Perm (view t) (gone ++ view t')
  pub were_dead : All (λ g. w.dead g.local_pid ≡ true) gone
  pub are_alive : All (λ g. w.dead g.local_pid ≡ false) (view t')
  pub work : es ≡ burials w gone
  pub valid : IsValid t'

module _ (w : World) where
  open w use {dead}

  watch_guests-none :
      (fuel : ℕ) (t : Guests)
      → first (λ g. dead g.local_pid) (view t) ≡ none
      → watch_guests w fuel t ≡ (t, [])
  unfolding watch_guests
  watch_guests-none zero t e = refl
  watch_guests-none (suc fuel) t e = rw (e, watch_guests)

  watch_guests-some :
      (fuel : ℕ) (t : Guests) (i : ℕ) (g : GuestInfo)
      → first (λ g. dead g.local_pid) (view t) ≡ some (i, g)
      → watch_guests w (suc fuel) t ≡ (
        (watch_guests w fuel (remove_guest_process t (pos i)).0).0,
        (remove_guest_process t (pos i)).1
            ++ (funeral w g ++ (watch_guests w fuel (remove_guest_process t (pos i)).0).1),
      )
  unfolding watch_guests
  watch_guests-some fuel t i g e = rw (e, watch_guests)

  Watched-none :
      (t : Guests) → IsValid t → All (λ g. dead g.local_pid ≡ false) (view t) → Watched w t t []
  Watched-none t v alive = record {
    gone = [];
    split = Perm.rfl;
    were_dead = tt;
    are_alive = alive;
    work = refl;
    valid = v;
  }

  Watched-step :
      (t t₁ t' : Guests) (es : List Effect) (g : GuestInfo)
      → Perm (view t) (g ∷ view t₁)
      → dead g.local_pid ≡ true
      → Watched w t₁ t' es
      → Watched w t t' (free_pages (pages_of g) ++ (funeral w g ++ es))
  Watched-step t t₁ t' es g p hit r = record {
    gone = g ∷ r.gone;
    split = Perm.trans p (Perm.cons g r.split);
    were_dead = (hit, r.were_dead);
    are_alive = r.are_alive;
    work = ap (λ u. free_pages (pages_of g) ++ (funeral w g ++ u)) r.work;
    valid = r.valid;
  }

  -- With fuel for the guests that there are, the watcher ends with no dead guest in the registry: each
  -- dead guest is taken out and buried exactly once, and every other guest stays.
  pub watch_guests-Watched :
      (fuel : ℕ) (t : Guests)
      → IsValid t
      → t.count ≤ fuel
      → let (t', es) = watch_guests w fuel t in Watched w t t' es
  watch_guests-Watched zero t v f = elim (first-cases (λ g. dead g.local_pid) (view t)) [
    | inl (e, alive) ↦ rw (watch_guests-none zero t e) (Watched-none t v alive)
    | inr (i, g, e, q, hit) ↦ absurd (omega (arith, view_lt t i q))
  ]
  watch_guests-Watched (suc fuel) t v f = elim (first-cases (λ g. dead g.local_pid) (view t)) [
    | inl (e, alive) ↦ rw (watch_guests-none (suc fuel) t e) (Watched-none t v alive)
    | inr (i, g, e, q, hit) ↦
        let (p, v₁, freed) = remove_guest_process-perm t i g v q in
        let c = count-remove_guest_process t i g v q in
        rw (watch_guests-some fuel t i g e, freed)
          (Watched-step t (remove_guest_process t (pos i)).0 _ _ g p hit
            (watch_guests-Watched fuel (remove_guest_process t (pos i)).0 v₁ (omega arith)))
  ]
