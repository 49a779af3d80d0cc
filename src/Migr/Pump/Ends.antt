-- ===== src/Migr/Pump/Ends.antt =====
-- The loop over the pages of mattx_send_vma_data.
use mattx.Base.{
  true, false, none, ◌++◌, ◌∷◌, [], List, if◌then◌else◌, ◌⊎◌, ℕ, zero, suc, ◌+◌, ◌-◌, ◌%◌, ◌^◌, ◌≤◌,
  ◌<◌, ◌≡◌, refl, Bool, some, ltb, arith, Bool-cases, inl, inr, lt→ltb, All,
}
use mattx.Registry.Guests.{page_size}
use mattx.Migr.Blueprint.{VmaInfo}
use mattx.Migr.Capture.{Leaving}
use mattx.Registry.Exports.{Exports, add_export_process}
use mattx.Migr.AddressSpace.{AddressSpace}
use mattx.Migr.Effects.{Effect, send, return_done, migrate_done, sigkill, put_task}
use mattx.Migr.Pump.{
  Pumped, Luck, pages_between, chunk_size, pump_page, pump_pages, pump_vmas, skipped,
}

-- The addresses of an area of user memory: a whole page past the end still has an address.
abbrev pub IsUser : ℕ → ℕ → Type 0
IsUser start end = (start ≤ end) × (end + page_size ≤ 2 ^ 64)

no_wrap : (x : ℕ) → x < 2 ^ 64 → x % 2 ^ 64 ≡ x
no_wrap x h = omega arith

chunk_size-cases :
    (curr end : ℕ)
    → curr < end
    → end + page_size ≤ 2 ^ 64
    → ((end < curr + page_size) × (chunk_size curr end ≡ end - curr))
      ⊎ ((curr + page_size ≤ end) × (chunk_size curr end ≡ page_size))
chunk_size-cases curr end h l =
    let e = no_wrap (curr + page_size) (omega arith) in
    elim (Bool-cases (ltb end (curr + page_size))) [
      | inl q ↦ inl (ground arith, rw (e, q) refl)
      | inr q ↦ inr (ground arith, rw (e, q) refl)
    ]

-- Where the next page of the area starts, and how much is left then.
pub record Advances (curr end : ℕ) : Type 0 where
  pub unwrapped : (curr + chunk_size curr end) % 2 ^ 64 ≡ curr + chunk_size curr end
  pub inside : curr + chunk_size curr end ≤ end
  pub forward : 0 < chunk_size curr end
  pub one_page : pages_between curr end ≡ suc (pages_between (curr + chunk_size curr end) end)

pub chunk_size-Advances : (curr end : ℕ) → curr < end → end + page_size ≤ 2 ^ 64 → Advances curr end
chunk_size-Advances curr end h l = elim (chunk_size-cases curr end h l) [
  | inl (q, e) ↦ record {
    unwrapped = rw e (no_wrap (curr + (end - curr)) (omega arith));
    inside = rw e (omega arith);
    forward = rw e (omega arith);
    one_page = rw e (omega arith);
  }
  | inr (q, e) ↦ record {
    unwrapped = rw e (no_wrap (curr + page_size) (omega arith));
    inside = rw e (omega arith);
    forward = rw e (omega arith);
    one_page = rw e (omega arith);
  }
]

-- The pages of the areas that are not left out.
pub pages_to_send : Bool → List VmaInfo → ℕ
pages_to_send r [] = 0
pages_to_send r (v ∷ vs) =
    if skipped r v
    then pages_to_send r vs
    else pages_between v.vm_start v.vm_end + pages_to_send r vs

module _ (a : AddressSpace) (mem : a.Space) (luck : Luck) (link : ℕ) where
  total-pump_page :
      (i curr chunk : ℕ) (p : Pumped)
      → (pump_page a mem luck link i curr chunk p).total ≡ p.total + 1
  unfolding pump_page
  total-pump_page i curr chunk p = ground arith

  -- The loop over the pages of one area ends, whatever is read and sent, after as many rounds as the
  -- area has pages.
  pub pump_pages_ends :
      (fuel i curr end : ℕ) (p : Pumped)
      → curr ≤ end
      → end + page_size ≤ 2 ^ 64
      → pages_between curr end ≡ fuel
      → (q : Pumped) × (pump_pages a mem luck link fuel i curr end p ≡ some q)
        × (q.total ≡ p.total + fuel)
  unfolding pump_pages
  pump_pages_ends zero i curr end p h l e =
      let done : ltb curr end ≡ false = ground arith in (p, rw done refl, omega arith)
  pump_pages_ends (suc fuel) i curr end p h l e =
      let more : curr < end = omega arith in
      let v = chunk_size-Advances curr end more l in
      let p' = pump_page a mem luck link i curr (chunk_size curr end) p in
      let (q, r, t) =
        pump_pages_ends fuel i (curr + chunk_size curr end) end p' v.inside l
          (omega (arith, v.one_page)) in
      (
        q,
        rw (lt→ltb curr end more, pump_pages, v.unwrapped) r,
        omega (arith, t, total-pump_page i curr (chunk_size curr end) p),
      )

  pub pump_vmas_ends :
      (r : Bool) (i : ℕ) (vs : List VmaInfo) (p : Pumped)
      → All (λ v. IsUser v.vm_start v.vm_end) vs
      → (q : Pumped) × (pump_vmas a mem luck link r i vs p ≡ some q)
        × (q.total ≡ p.total + pages_to_send r vs)
  unfolding pump_vmas pages_to_send
  pump_vmas_ends r i [] p h = (p, refl, omega arith)
  pump_vmas_ends r i (v ∷ vs) p h = elim (Bool-cases (skipped r v)) [
    | inl e ↦
        let (q, f, t) = pump_vmas_ends r (i + 1) vs p h.1 in
        (q, rw (e, pump_vmas) f, rw (e, pages_to_send) t)
    | inr e ↦
        let n = pages_between v.vm_start v.vm_end in
        let (q, f, t) = pump_pages_ends n i v.vm_start v.vm_end p h.0.0 h.0.1 refl in
        let (q', f', t') = pump_vmas_ends r (i + 1) vs q h.1 in
        (q', rw (e, pump_vmas, f) f', rw (e, pages_to_send) (omega (arith, t, t')))
  ]

-- What the pump leaves, by whether the process goes home: the variables of the migration are cleared;
-- after all that the loop sent, the closing message is sent once, and the task is killed on the way
-- home only; its reference is put last; and a process that leaves its home is exported to the node.
abbrev pub closing : (link task : ℕ) → (is_returning : Bool) → List Effect
closing link task true = send link return_done ∷ sigkill task ∷ put_task task ∷ []
closing link task false = send link migrate_done ∷ put_task task ∷ []

pub record IsEnded (pid : ℕ → ℕ) (l : Leaving) (t : Exports) (task node link : ℕ) (p : Pumped)
    (r : Leaving × Exports × List Effect) : Type 0 where
  pub cleared : r.0 ≡ record l { migrating_task = none; local_migration_req = none }
  pub exported : r.1 ≡ (if l.is_returning then t else add_export_process t (pid task) node)
  pub sent : r.2 ≡ p.out ++ closing link task l.is_returning
