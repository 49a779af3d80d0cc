-- ===== src/Migr/Pump.antt =====
-- mattx_send_vma_data of mattx_migr.c: the pages of the blueprint's areas, then the closing message.
pub mod Ends
use mattx.Base.{
  ℕ, zero, suc, ◌+◌, ◌-◌, ◌/◌, ◌%◌, ◌^◌, List, [], ◌∷◌, ◌++◌, Bool, true, false, ◌&&◌, ◌||◌, not,
  Option, none, some, ltb, leb, ◌==◌, if◌then◌else◌, length, ℤ, pos, negsuc,
}
use mattx.Registry.Guests.{page_size}
use mattx.Registry.Exports.{Exports, add_export_process}
use mattx.Migr.Blueprint.{VmaInfo, MigrationReq}
use mattx.Migr.Effects.{Effect, page_transfer, migrate_done, return_done, put_task, sigkill, send}
use mattx.Migr.AddressSpace.{AddressSpace}
use mattx.Migr.Capture.{Leaving}

-- sizeof(struct mattx_page_header)
abbrev pub page_header_size : ℕ
page_header_size = 16

-- VM_WRITE, VM_EXEC
abbrev pub can_write : ℕ → Bool
can_write flags = (flags / 2) % 2 == 1

abbrev pub can_exec : ℕ → Bool
can_exec flags = (flags / 4) % 2 == 1

-- An `int` where it is compared with a size_t.
abbrev pub as_size : ℤ → ℕ
as_size (pos n) = n
as_size (negsuc n) = 2 ^ 64 - (n + 1)

-- `vma_pages`: how many pages the area has.
abbrev pub pages_between : ℕ → ℕ → ℕ
pages_between start end = (end - start + (page_size - 1)) / page_size

-- `if (curr + chunk_size > end) chunk_size = end - curr`
abbrev pub chunk_size : ℕ → ℕ → ℕ
chunk_size curr end = if ltb end ((curr + page_size) % 2 ^ 64) then end - curr else page_size

abbrev pub skipped : Bool → VmaInfo → Bool
skipped is_returning v =
    is_returning && not (can_write v.vm_flags || can_exec v.vm_flags)
    || not is_returning && v.is_shm

-- The counters, and what was handed to mattx_comm_send.
pub record Pumped : Type 0 where
  pub total : ℕ
  pub sent : ℕ
  pub skips : ℕ
  pub errors : ℕ
  pub out : List Effect

abbrev pub nothing_pumped : Pumped
nothing_pumped = record { total = 0; sent = 0; skips = 0; errors = 0; out = [] }

-- Whether the two buffers of a page are had, and what mattx_comm_send returns, by the number of the
-- area and the address of the page.
pub record Luck : Type 0 where
  pub page_buf : ℕ → ℕ → Bool
  pub payload_buf : ℕ → ℕ → Bool
  pub send_res : ℕ → ℕ → ℤ

module _ (a : AddressSpace) (mem : a.Space) (luck : Luck) (link : ℕ) where
  -- One page that was read.
  unfoldable pub send_page : ℕ → ℕ → List ℕ → Pumped → Pumped
  send_page i curr bytes p =
      if luck.payload_buf i curr
      then (let q = record p { out = p.out ++ (send link (page_transfer curr bytes) ∷ []) } in
          if ltb (as_size (luck.send_res i curr)) (page_header_size + length bytes)
          then record q { errors = q.errors + 1 }
          else record q { sent = q.sent + 1 })
      else p

  -- The body of the loop over the pages.
  unfoldable pub pump_page : ℕ → ℕ → ℕ → Pumped → Pumped
  unfolding send_page
  pump_page i curr chunk p₀ =
      let p = record p₀ { total = p₀.total + 1 } in
      let bytes = a.read mem curr chunk in
      if luck.page_buf i curr
      then (if ltb 0 (length bytes)
          then send_page i curr bytes p
          else record p { skips = p.skips + 1 })
      else p

  -- `while (curr < end)`, on fuel: `none` where the fuel ends before the loop.
  unfoldable pub pump_pages : ℕ → ℕ → ℕ → ℕ → Pumped → Option Pumped
  pump_pages zero i curr end p = if ltb curr end then none else some p
  pump_pages (suc fuel) i curr end p = elim (ltb curr end) [
    | false ↦ some p
    | true ↦
        let chunk = chunk_size curr end in
        pump_pages fuel i ((curr + chunk) % 2 ^ 64) end (pump_page i curr chunk p)
  ]

  unfoldable pub pump_vmas : Bool → ℕ → List VmaInfo → Pumped → Option Pumped
  pump_vmas is_returning i [] p = some p
  pump_vmas is_returning i (v ∷ vs) p = elim (skipped is_returning v) [
    | true ↦ pump_vmas is_returning (i + 1) vs p
    | false ↦ elim (pump_pages (pages_between v.vm_start v.vm_end) i v.vm_start v.vm_end p) [
      | none ↦ none
      | some q ↦ pump_vmas is_returning (i + 1) vs q
    ]
  ]

-- The closing message. `pid` is the pid of a task.
abbrev pub finish :
    ℕ → (ℕ → ℕ) → Leaving → Exports → ℕ → ℕ → Pumped → Leaving × Exports × List Effect
finish link pid l t task node p =
    let l' = record l { migrating_task = none; local_migration_req = none } in
    if l.is_returning
    then (l', t, p.out ++ (send link return_done ∷ sigkill task ∷ put_task task ∷ []))
    else (
      l',
      add_export_process t (pid task) node,
      p.out ++ (send link migrate_done ∷ put_task task ∷ []),
    )

-- Everything there is to send, to a node that has a link.
abbrev pub in_flight : (ℕ → Option ℕ) → Leaving → Option (MigrationReq × ℕ × ℕ × ℕ)
in_flight cluster_map l = elim l.local_migration_req [
  | none ↦ none
  | some req ↦ elim l.migrating_task [
    | none ↦ none
    | some task ↦ elim l.migrating_target_node [
      | none ↦ none
      | some node ↦ elim (cluster_map node) [
        | none ↦ none
        | some link ↦ some (req, task, node, link)
      ]
    ]
  ]
]

-- `none` where the loop over the pages would not end.
unfoldable pub send_vma_data :
    (a : AddressSpace)
    → (ℕ → a.Space)
    → Luck
    → (ℕ → Option ℕ)
    → (ℕ → ℕ)
    → Leaving
    → Exports
    → Option (Leaving × Exports × List Effect)
send_vma_data a mem luck cluster_map pid l t = elim (in_flight cluster_map l) [
  | none ↦ some (l, t, [])
  | some (req, task, node, link) ↦
      elim (pump_vmas a (mem task) luck link l.is_returning 0 req.vmas nothing_pumped) [
        | none ↦ none
        | some p ↦ some (finish link pid l t task node p)
      ]
]
