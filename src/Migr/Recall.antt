-- ===== src/Migr/Recall.antt =====
-- What starts a return in mattx_migr.c: the recall, asked for by the home node, and the expulsion of a
-- guest by its own node; and the signal that starts the data pump.
pub mod Served
use mattx.Base.{
  ℕ, zero, suc, ◌+◌, List, [], ◌∷◌, ◌++◌, Bool, true, false, ◌&&◌, Option, none, some, ◌==◌,
  if◌then◌else◌,
}
use mattx.Registry.Slots.{find_index}
use mattx.Registry.Guests.{Guests}
use mattx.Registry.Exports.{Exports, get_export_target}
use mattx.Migr.Effects.{Effect, recall_req, get_task, put_task, send}
use mattx.Migr.AddressSpace.{AddressSpace}
use mattx.Migr.Capture.{Leaving, Config, Found, capture_and_return_state}
use mattx.Migr.Pump.{Luck, send_vma_data}

unfoldable pub trigger_recall : Exports → (ℕ → Option ℕ) → ℕ → List Effect
trigger_recall t cluster_map orig_pid = elim (get_export_target t orig_pid) [
  | none ↦ []
  | some node ↦ elim (cluster_map node) [
    | none ↦ []
    | some link ↦ send link (recall_req orig_pid) ∷ []
  ]
]

-- handle_ready_for_data: the pump, whoever sent the signal.
unfoldable pub handle_ready_for_data :
    (a : AddressSpace)
    → (ℕ → a.Space)
    → Luck
    → (ℕ → Option ℕ)
    → (ℕ → ℕ)
    → Leaving
    → Exports
    → Option (Leaving × Exports × List Effect)
handle_ready_for_data a mem luck cluster_map pid l t = send_vma_data a mem luck cluster_map pid l t

-- The reference that the caller holds on the task around the capture.
unfoldable pub capture_held :
    Config → Leaving → Guests → Found → ℕ → ℕ → Leaving × Guests × List Effect
capture_held c l t f orig_pid node =
    let (l', t', es) = capture_and_return_state c l t f orig_pid node in
    (l', t', get_task f.mother ∷ (es ++ (put_task f.mother ∷ [])))

-- `task` is what find_vpid and pid_task give for a pid.
unfoldable pub handle_recall_req :
    Config → Leaving → Guests → (ℕ → Option Found) → ℕ → Option ℕ → Leaving × Guests × List Effect
unfolding capture_held
handle_recall_req c l t task sender none = (l, t, [])
handle_recall_req c l t task sender (some orig_pid) =
    elim (find_index (λ g. g.orig_pid == orig_pid && g.home_node == sender) t) [
      | none ↦ (l, t, [])
      | some (i, g) ↦ elim (task g.local_pid) [
        | none ↦ (l, t, [])
        | some f ↦ capture_held c l t f orig_pid sender
      ]
    ]

-- 0, -ENOENT, -ENOTCONN, -ESRCH and -ETIMEDOUT
pub data Errno : Type 0 where
  ok enoent enotconn esrch etimedout : Errno

-- The wait for the guest to leave: `present k` is whether poll `k` still finds it in the registry, and
-- `expired k` whether the time is over then. On fuel: `none` where that ends before the wait.
unfoldable pub expel_wait : ℕ → (ℕ → Bool) → (ℕ → Bool) → ℕ → Option Errno
expel_wait zero present expired k = none
expel_wait (suc fuel) present expired k = elim (present k) [
  | false ↦ some ok
  | true ↦ elim (expired k) [
    | true ↦ some etimedout
    | false ↦ expel_wait fuel present expired (k + 1)
  ]
]

-- The polls are 100 ms apart, and the time is over after MATTX_EXPEL_DRAIN_TIMEOUT_MS.
abbrev pub expel_polls : ℕ
expel_polls = 302

unfoldable pub expel_guest :
    Config
    → Leaving
    → Guests
    → (ℕ → Option Found)
    → (ℕ → Option ℕ)
    → (ℕ → Bool)
    → (ℕ → Bool)
    → ℕ
    → Leaving × Guests × List Effect × Option Errno
unfolding capture_held expel_wait
expel_guest c l t task cluster_map present expired local_pid =
    elim (find_index (λ g. g.local_pid == local_pid) t) [
      | none ↦ (l, t, [], some enoent)
      | some (i, g) ↦ elim (cluster_map g.home_node) [
        | none ↦ (l, t, [], some enotconn)
        | some link ↦ elim (task local_pid) [
          | none ↦ (l, t, [], some esrch)
          | some f ↦
              let (l', t', es) = capture_held c l t f g.orig_pid g.home_node in
              (l', t', es, expel_wait expel_polls present expired 0)
        ]
      ]
    ]
