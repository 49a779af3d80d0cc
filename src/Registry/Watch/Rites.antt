-- ===== src/Registry/Watch/Rites.antt =====
-- The home watcher of mattx_sched.c: what it leaves, and what it does on the way.
use mathlib.Core.List.Perm
use mattx.Base.{
  ℕ, zero, suc, ◌≤◌, ◌≡◌, refl, ap, inl, inr, List, [], ◌∷◌, ◌++◌, true, false, Perm, none, some,
  arith, pos, All,
}
use mattx.Effects.{Effect}
use mattx.Registry.Slots.{view, IsValid, first, first-cases, view_lt}
use mattx.Registry.Exports.{ExportInfo, Exports, remove_export_process}
use mattx.Registry.Exports.Table.{remove_export_process-perm, count-remove_export_process}
use mattx.Registry.Watch.{World, last_rites, watch_exports}

-- The work for some dead deputies, one after the other.
abbrev pub rites : World → List ExportInfo → List Effect
rites w [] = []
rites w (e ∷ es) = last_rites w e ++ rites w es

-- The outcome of the watcher: `gone` are the deputies that it took out.
pub record Watched (w : World) (t t' : Exports) (work : List Effect) : Type 0 where
  pub gone : List ExportInfo
  pub split : Perm (view t) (gone ++ view t')
  pub were_dead : All (λ e. w.dead e.orig_pid ≡ true) gone
  pub are_alive : All (λ e. w.dead e.orig_pid ≡ false) (view t')
  pub done : work ≡ rites w gone
  pub valid : IsValid t'

module _ (w : World) where
  open w use {dead}

  watch_exports-none :
      (fuel : ℕ) (t : Exports)
      → first (λ e. dead e.orig_pid) (view t) ≡ none
      → watch_exports w fuel t ≡ (t, [])
  unfolding watch_exports
  watch_exports-none zero t e = refl
  watch_exports-none (suc fuel) t e = rw (e, watch_exports)

  watch_exports-some :
      (fuel : ℕ) (t : Exports) (i : ℕ) (x : ExportInfo)
      → first (λ e. dead e.orig_pid) (view t) ≡ some (i, x)
      → watch_exports w (suc fuel) t ≡ (
        (watch_exports w fuel (remove_export_process t (pos i))).0,
        last_rites w x ++ (watch_exports w fuel (remove_export_process t (pos i))).1,
      )
  unfolding watch_exports
  watch_exports-some fuel t i x e = rw (e, watch_exports)

  Watched-none :
      (t : Exports) → IsValid t → All (λ e. dead e.orig_pid ≡ false) (view t) → Watched w t t []
  Watched-none t v alive = record {
    gone = [];
    split = Perm.rfl;
    were_dead = tt;
    are_alive = alive;
    done = refl;
    valid = v;
  }

  Watched-step :
      (t t₁ t' : Exports) (work : List Effect) (x : ExportInfo)
      → Perm (view t) (x ∷ view t₁)
      → dead x.orig_pid ≡ true
      → Watched w t₁ t' work
      → Watched w t t' (last_rites w x ++ work)
  Watched-step t t₁ t' work x p hit r = record {
    gone = x ∷ r.gone;
    split = Perm.trans p (Perm.cons x r.split);
    were_dead = (hit, r.were_dead);
    are_alive = r.are_alive;
    done = ap (◌++◌ (last_rites w x)) r.done;
    valid = r.valid;
  }

  -- With fuel for the exports that there are, the watcher ends with no dead deputy in the registry:
  -- each one is taken out once, its files are closed and its surrogate's node is told, and every other
  -- export stays.
  pub watch_exports-Watched :
      (fuel : ℕ) (t : Exports)
      → IsValid t
      → t.count ≤ fuel
      → let (t', work) = watch_exports w fuel t in Watched w t t' work
  watch_exports-Watched zero t v f = elim (first-cases (λ e. dead e.orig_pid) (view t)) [
    | inl (e, alive) ↦ rw (watch_exports-none zero t e) (Watched-none t v alive)
    | inr (i, x, e, q, hit) ↦ absurd (omega (arith, view_lt t i q))
  ]
  watch_exports-Watched (suc fuel) t v f = elim (first-cases (λ e. dead e.orig_pid) (view t)) [
    | inl (e, alive) ↦ rw (watch_exports-none (suc fuel) t e) (Watched-none t v alive)
    | inr (i, x, e, q, hit) ↦
        let (p, v₁) = remove_export_process-perm t i x v q in
        let c = count-remove_export_process t i x v q in
        rw (watch_exports-some fuel t i x e) (
          Watched-step t (remove_export_process t (pos i)) _ _ x p hit
            (watch_exports-Watched fuel (remove_export_process t (pos i)) v₁ (omega arith)))
  ]
