-- ===== src/Import/Pages.antt =====
-- handle_page_transfer of mattx_import.c: the bytes of one page, also where the area is not writable.
pub mod Flags
pub mod Arrive
pub mod Copied
use mattx.Base.{
  ℕ, ◌+◌, ◌-◌, List, Bool, true, false, Option, none, some, leb, ◌==◌, if◌then◌else◌, length,
  is_some, ◌&&◌,
}
use mattx.Migr.Blueprint.{MigrationReq}
use mattx.Migr.AddressSpace.{AddressSpace}
use mattx.Migr.Pump.{can_write}

-- The variables of mattx_main.c and mattx_import.c for the migration that arrives: `none` is NULL, or
-- the -1 of no node. A task is known by its address.
pub record Arriving : Type 0 where
  pub pending_migration : Option MigrationReq
  pub pending_source_node : Option ℕ
  pub hijacked_stub_task : Option ℕ
  pub injected_pages_count : ℕ

module _ (a : AddressSpace) where
  -- The area of an address, by find_vma and the test of its start.
  abbrev pub area_at : a.Space → ℕ → Option ℕ
  area_at m x = elim (a.find_vma m x) [
    | none ↦ none
    | some v ↦ if leb (a.vm_start m v) x then some v else none
  ]

  -- `vm_flags_set(vma, vma->vm_flags | VM_WRITE)` where the flag is not set, and whether it was not.
  unfoldable pub unprotect : a.Space → ℕ → a.Space × Bool
  unprotect m x = elim (area_at m x) [
    | none ↦ (m, false)
    | some v ↦
        if can_write (a.vm_flags m v)
        then (m, false)
        else (a.set_flags m v (a.vm_flags m v + 2), true)
  ]

  -- `vm_flags_clear(vma, VM_WRITE)`
  unfoldable pub protect : a.Space → ℕ → a.Space
  protect m x = elim (area_at m x) [
    | none ↦ m
    | some v ↦
        let flags = a.vm_flags m v in a.set_flags m v (if can_write flags then flags - 2 else flags)
  ]

  unfoldable pub inject : a.Space → ℕ → List ℕ → a.Space × ℕ
  inject m x bytes =
      let (m₁, was_protected) = unprotect m x in
      let (m₂, res) = a.write m₁ x bytes in (if was_protected then protect m₂ x else m₂, res)

  -- The payload is the address and the bytes of the page; `m` is the memory of the hijacked task.
  unfoldable pub handle_page_transfer :
      Arriving → a.Space → Option (ℕ × List ℕ) → Arriving × a.Space
  handle_page_transfer s m none = (s, m)
  handle_page_transfer s m (some (x, bytes)) =
      if is_some s.pending_migration && is_some s.hijacked_stub_task
      then (let (m', res) = inject m x bytes in
          (
            if res == length bytes
                then record s { injected_pages_count = s.injected_pages_count + 1 }
                else s,
            m',
          ))
      else (s, m)
