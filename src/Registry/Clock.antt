-- ===== src/Registry/Clock.antt =====
-- The clock fixups of mattx_guest.c: for a process that has just arrived, the offset by which each of
-- its threads corrects one stale deadline.
pub mod Budget
use mattx.Base.{
  ℕ, zero, suc, ◌+◌, ◌<◌, List, [], ◌∷◌, Bool, true, false, ◌&&◌, not, ◌||◌, Option, none, some,
  ltb, ◌==◌, if◌then◌else◌, min, ℤ, pos, negsuc, take, replicate, set,
}
use mattx.Registry.Slots.{first}

-- MAX_GANG_THREADS, MAX_CLOCK_FIXUPS
abbrev pub max_gang_threads : ℕ
max_gang_threads = 16

abbrev pub max_clock_fixups : ℕ
max_clock_fixups = 64

-- struct mattx_clock_fixup. `offset_ns` is an s64, only stored and handed out. `threads` are the
-- arrays `tids` and `pending`, entry by entry.
pub record ClockFixup : Type 0 where
  pub in_use : Bool
  pub local_pid : ℕ
  pub offset_ns : ℕ
  pub thread_count : ℕ
  pub threads : List (ℕ × Bool)

abbrev pub ClockFixups : Type 0
ClockFixups = List ClockFixup

-- `if (thread_count > MAX_GANG_THREADS) ...; if (thread_count < 0) thread_count = 0`
abbrev pub clamp : ℤ → ℕ
clamp (pos n) = min n max_gang_threads
clamp (negsuc n) = 0

-- `tids[i] = tids_in[i]; pending[i] = true` for `i < n`.
abbrev pub arm : ℕ → List ℕ → List (ℕ × Bool) → List (ℕ × Bool)
arm zero ids old = old
arm (suc n) [] old = old
arm (suc n) (t ∷ ids) [] = []
arm (suc n) (t ∷ ids) (o ∷ old) = (t, true) ∷ arm n ids old

abbrev pub armed : ℕ → ℕ → ℤ → List ℕ → ClockFixup → ClockFixup
armed pid offset n ids f = record f {
  in_use = true;
  local_pid = pid;
  offset_ns = offset;
  thread_count = clamp n;
  threads = arm (clamp n) ids f.threads;
}

abbrev pub owned_by : ℕ → ClockFixup → Bool
owned_by pid f = f.in_use && f.local_pid == pid

-- The entry of this process, else a free one, else entry 0.
abbrev pub slot_for : ℕ → ClockFixups → ℕ
slot_for pid t = elim (first (owned_by pid) t) [
  | some (i, f) ↦ i
  | none ↦ elim (first (λ f. not f.in_use) t) [ some (i, f) ↦ i | none ↦ 0 ]
]

abbrev pub change : (ClockFixup → ClockFixup) → ℕ → ClockFixups → ClockFixups
change g i [] = []
change g zero (f ∷ t) = g f ∷ t
change g (suc i) (f ∷ t) = f ∷ change g i t

unfoldable pub clock_fixup_register : ClockFixups → ℕ → ℕ → ℤ → List ℕ → ClockFixups
clock_fixup_register t pid offset n ids = change (armed pid offset n ids) (slot_for pid t) t

-- The first thread with this id that is pending, among the first `n`.
abbrev pub take_pending : ℕ → ℕ → List (ℕ × Bool) → Option (List (ℕ × Bool))
take_pending zero tid ts = none
take_pending (suc n) tid [] = none
take_pending (suc n) tid ((t, p) ∷ ts) =
    if t == tid && p
    then some ((t, false) ∷ ts)
    else (elim (take_pending n tid ts) [ none ↦ none | some ts' ↦ some ((t, p) ∷ ts') ])

-- The offset that goes through `out_offset_ns`, or `none` for `false`.
unfoldable pub clock_fixup_consume : ClockFixups → ℕ → ℕ → ClockFixups × Option ℕ
clock_fixup_consume t pid tid = elim (first (owned_by pid) t) [
  | none ↦ (t, none)
  | some (i, f) ↦ elim (take_pending f.thread_count tid f.threads) [
    | none ↦ (t, none)
    | some ts ↦ (set t i (record f { threads = ts }), some f.offset_ns)
  ]
]
