-- ===== src/Import/Return/Home.antt =====
-- The node after handle_return_done: its exports, its clock fixups, and the pages that come too late.
use mattx.Base.{
  ℕ, ◌≡◌, refl, ap, ◌∙◌, ◌⊎◌, inl, inr, List, [], ◌∷◌, Option, none, some, ◌==◌, length, take, Perm,
  arith, length-take, pos,
}
use mattx.Registry.Slots.{view, IsValid, first, first-cases, find_index}
use mattx.Registry.Exports.{ExportInfo, Exports, remove_export_process}
use mattx.Registry.Exports.Table.{remove_export_process-perm}
use mattx.Registry.Clock.{ClockFixups, clock_fixup_register, max_gang_threads, clamp}
use mattx.Registry.Clock.Budget.{budget, occurs, IsTable, clock_fixup_register-budget}
use mattx.Migr.Blueprint.{MigrationReq}
use mattx.Migr.AddressSpace.{AddressSpace}
use mattx.Import.Pages.{Arriving, handle_page_transfer}
use mattx.Import.Threads.{injected_tids}
use mattx.Import.Stub.{bodies, infos_of, clock_offset}
use mattx.Import.Arrival.{settled}
use mattx.Import.Return.{Deputy, drop_export, Returned, restore_deputy}

drop_export_hit :
    (t : Exports) (pid i : ℕ) (e : ExportInfo)
    → find_index (λ e. e.orig_pid == pid) t ≡ some (i, e)
    → drop_export t pid ≡ remove_export_process t (pos i)
unfolding drop_export
drop_export_hit t pid i e q = rw (q, drop_export) refl

drop_export_miss :
    (t : Exports) (pid : ℕ) → find_index (λ e. e.orig_pid == pid) t ≡ none → drop_export t pid ≡ t
unfolding drop_export
drop_export_miss t pid q = rw (q, drop_export) refl

-- The process of this pid is exported no more, if it was; every other export stays.
abbrev pub Drops : Exports → Exports → ℕ → Type 0
Drops t t' pid =
    ((first (λ e. e.orig_pid == pid) (view t) ≡ none) × (t' ≡ t))
    ⊎ ((e : ExportInfo) × (e.orig_pid ≡ pid) × Perm (view t) (e ∷ view t') × IsValid t')

drop_export-Drops : (t : Exports) (pid : ℕ) → IsValid t → Drops t (drop_export t pid) pid
drop_export-Drops t pid v = elim (first-cases (λ e. e.orig_pid == pid) (view t)) [
  | inl (q, a) ↦ inl (q, drop_export_miss t pid q)
  | inr (i, e, q, g, h) ↦
      let (p, w) = remove_export_process-perm t i e v g in
      rw (drop_export_hit t pid i e q) (inr (e, ground arith, p, w))
]

-- What the node holds of a process that is home.
pub record IsHome (a : AddressSpace) (ex : Exports) (req : MigrationReq) (d : Deputy) (r : Returned)
    : Type 0 where
  pub dropped : Drops ex r.exports d.pid
  pub clocks :
      (tid : ℕ)
      → budget r.fixups d.pid tid
        ≡ occurs tid (take max_gang_threads (injected_tids (infos_of req) (bodies d.threads)))
  pub late :
      (m : a.Space) (page : Option (ℕ × List ℕ))
      → handle_page_transfer a r.arriving m page ≡ (r.arriving, m)

take-length : (xs : List ℕ) → take (length xs) xs ≡ xs
take-length [] = refl
take-length (x ∷ xs) = ap (◌∷◌ x) (take-length xs)

take_all : (xs : List ℕ) (n : ℕ) → n ≡ length xs → take n xs ≡ xs
take_all xs n e = rw e (take-length xs)

budget-clock_fixup_register :
    (fx : ClockFixups) (pid offset tid : ℕ) (ids : List ℕ)
    → IsTable fx
    → let tids = take max_gang_threads ids in
      budget (clock_fixup_register fx pid offset (pos (length tids)) tids) pid tid ≡ occurs tid tids
budget-clock_fixup_register fx pid offset tid ids t =
    let tids = take max_gang_threads ids in
    let fits = length-take max_gang_threads ids in
    clock_fixup_register-budget fx pid offset (pos (length tids)) tids tid t (omega (arith, fits))
    ∙ ap (occurs tid) (take_all tids (clamp (pos (length tids))) (omega (arith, fits)))

late_page :
    (a : AddressSpace) (s : Arriving) (m : a.Space) (page : Option (ℕ × List ℕ))
    → handle_page_transfer a (settled s) m page ≡ (settled s, m)
unfolding handle_page_transfer
late_page a s m none = refl
late_page a s m (some p) = refl

-- Once a process is restored at home its export is gone and no other, each of its threads has a clock
-- correction for each time it is among the first sixteen injected, and pages that come later change
-- nothing.
pub restore_deputy-IsHome :
    (a : AddressSpace) (s : Arriving) (ex : Exports) (fx : ClockFixups) (req : MigrationReq)
    (d : Deputy)
    → IsValid ex
    → IsTable fx
    → IsHome a ex req d (restore_deputy s ex fx req d)
unfolding restore_deputy
restore_deputy-IsHome a s ex fx req d v t =
    let offset = clock_offset d.now req.monotonic_at_freeze in
    record {
      dropped = drop_export-Drops ex d.pid v;
      clocks = λ tid.
          budget-clock_fixup_register fx d.pid offset tid
            (injected_tids (infos_of req) (bodies d.threads)) t;
      late = late_page a s;
    }
