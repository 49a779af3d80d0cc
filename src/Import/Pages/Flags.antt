-- ===== src/Import/Pages/Flags.antt =====
-- The flags of the areas while pages are injected.
use mattx.Base.{
  ℕ, ◌+◌, ◌-◌, ◌≡◌, refl, ◌∙◌, ap, List, true, false, some, ◌==◌, if◌then◌else◌, arith, Bool-cases,
  Option-cases, inl, inr, ==_refl, ◌⊎◌,
}
use mattx.Migr.AddressSpace.{AddressSpace}
use mattx.Migr.Pump.{can_write}
use mattx.Import.Pages.{area_at, unprotect, protect, inject}

module _ (a : AddressSpace) where
  unprotect-cases :
      (m : a.Space) (x : ℕ)
      → (unprotect a m x ≡ (m, false))
        ⊎ ((v : ℕ) × (area_at a m x ≡ some v)
            × (can_write (a.vm_flags m v) ≡ false)
            × (unprotect a m x ≡ (a.set_flags m v (a.vm_flags m v + 2), true)))
  unfolding unprotect
  unprotect-cases m x = elim (Option-cases (area_at a m x)) [
    | inl e ↦ inl (rw (e, unprotect) refl)
    | inr (v, e) ↦ elim (Bool-cases (can_write (a.vm_flags m v))) [
      | inl c ↦ inl (rw (e, unprotect, c) refl)
      | inr c ↦ inr (v, e, c, rw (e, unprotect, c) refl)
    ]
  ]

  pub byte_at-unprotect : (m : a.Space) (x y : ℕ) → a.byte_at (unprotect a m x).0 y ≡ a.byte_at m y
  byte_at-unprotect m x y = elim (unprotect-cases m x) [
    | inl e ↦ rw e refl
    | inr (v, e, c, q) ↦ rw q (a.flags_byte m v (a.vm_flags m v + 2) y)
  ]

  byte_at-protect : (m : a.Space) (x y : ℕ) → a.byte_at (protect a m x) y ≡ a.byte_at m y
  unfolding protect
  byte_at-protect m x y = elim (Option-cases (area_at a m x)) [
    | inl e ↦ rw (e, protect) refl
    | inr (v, e) ↦ rw (e, protect) (a.flags_byte m v _ y)
  ]

  -- The memory after an injection, but for the flags, is that of the write.
  pub byte_at-inject :
      (m : a.Space) (x y : ℕ) (bs : List ℕ)
      → a.byte_at (inject a m x bs).0 y ≡ a.byte_at (a.write (unprotect a m x).0 x bs).0 y
  unfolding inject
  byte_at-inject m x y bs = elim (Bool-cases (unprotect a m x).1) [
    | inl e ↦ rw (e, inject) (byte_at-protect (a.write (unprotect a m x).0 x bs).0 x y)
    | inr e ↦ rw (e, inject) refl
  ]

  area_at-same :
      (m m' : a.Space) (x : ℕ)
      → a.find_vma m' x ≡ a.find_vma m x
      → ((u : ℕ) → a.vm_start m' u ≡ a.vm_start m u)
      → area_at a m' x ≡ area_at a m x
  area_at-same m m' x e s = elim (Option-cases (a.find_vma m x)) [
    | inl q ↦ let q' = e ∙ q in rw (area_at, q, q') refl
    | inr (u, q) ↦ let q' = e ∙ q in rw (area_at, q, q', s u) refl
  ]

  -- The area is found again once its flag is set and the page is written.
  area_at_again :
      (m : a.Space) (x v f : ℕ) (bs : List ℕ)
      → area_at a m x ≡ some v
      → area_at a (a.write (a.set_flags m v f) x bs).0 x ≡ some v
  area_at_again m x v f bs e =
      let m' = a.set_flags m v f in
      area_at-same m (a.write m' x bs).0 x (a.write_find m' x bs x ∙ a.flags_find m v f x)
        (λ u. a.write_start m' x bs u ∙ a.flags_start m v f u)
      ∙ e

  protect_hit :
      (m : a.Space) (x v : ℕ)
      → area_at a m x ≡ some v
      → protect a m x
        ≡ a.set_flags m v
            (if can_write (a.vm_flags m v) then a.vm_flags m v - 2 else a.vm_flags m v)
  unfolding protect
  protect_hit m x v e = rw (e, protect) refl

  bit_set : (f : ℕ) → can_write f ≡ false → can_write (f + 2) ≡ true
  bit_set f h = ground arith

  -- Whatever the page, and whether it could be written or not, every area has the flags after an
  -- injection that it had before.
  pub vm_flags-inject :
      (m : a.Space) (x v : ℕ) (bs : List ℕ) → a.vm_flags (inject a m x bs).0 v ≡ a.vm_flags m v
  unfolding inject protect
  vm_flags-inject m x w bs = elim (unprotect-cases m x) [
    | inl e ↦ rw (e, inject) (a.write_flags m x bs w)
    | inr (v, e, c, q) ↦
        let f = a.vm_flags m v in
        let m' = (a.write (a.set_flags m v (f + 2)) x bs).0 in
        let flags : (u : ℕ) → a.vm_flags m' u ≡ (if v == u then f + 2 else a.vm_flags m u) =
          λ u. a.write_flags (a.set_flags m v (f + 2)) x bs u ∙ a.flags_set m v (f + 2) u in
        rw
          (
            q,
            inject,
            protect_hit m' x v (area_at_again m x v (f + 2) bs e),
            a.flags_set m' v _ w,
            flags w,
            flags v,
            ==_refl v,
            bit_set f c,
          )
          (elim (Bool-cases (v == w)) [
            | inl h ↦
                let same : v ≡ w = ground arith in rw h (omega (arith, ap (a.vm_flags m) same))
            | inr h ↦ rw h refl
          ])
  ]
