-- ===== src/Import/Carver.antt =====
-- The brain carver of handle_return_blueprint of mattx_import.c: the areas that the process got while
-- it was away are mapped before its pages come back.
pub mod Covers
use mattx.Base.{
  ℕ, ◌+◌, ◌-◌, ◌*◌, ◌/◌, ◌%◌, ◌<◌, ◌≤◌, ◌≡◌, List, [], ◌∷◌, Bool, true, false, ◌&&◌, ◌||◌, Option,
  none, some, ltb, leb, ◌==◌, if◌then◌else◌,
}
use mattx.Migr.Blueprint.{VmaInfo}

-- The memory map of the deputy, and what the code relies on: `find_vma` is the first area that ends
-- after an address, `vm_mmap` maps a range at a fixed place, or fails.
pub record MemoryMap : Type 1 where
  pub Map : Type 0
  pub mapped : Map → ℕ → Bool
  pub find_vma : Map → ℕ → Option (ℕ × ℕ)
  pub vm_mmap : Map → (start size prot flags : ℕ) → Map × Bool
  pub find_mapped :
      (m : Map) (x s e y : ℕ) → find_vma m x ≡ some (s, e) → s ≤ y → y < e → mapped m y ≡ true
  pub mmap_mapped :
      (m : Map) (s n p f y : ℕ)
      → mapped (vm_mmap m s n p f).0 y
        ≡ (mapped m y || (vm_mmap m s n p f).1 && (leb s y && ltb y (s + n)))

-- `prot |= PROT_x` for the flags VM_READ, VM_WRITE and VM_EXEC.
unfoldable pub prot_of : ℕ → ℕ
prot_of flags =
    (if flags % 2 == 1 then 1 else 0)
    + (if (flags / 2) % 2 == 1 then 2 else 0)
    + (if (flags / 4) % 2 == 1 then 4 else 0)

-- MAP_PRIVATE | MAP_ANONYMOUS | MAP_FIXED, and MAP_GROWSDOWN for an area with VM_GROWSDOWN
unfoldable pub map_flags_of : ℕ → ℕ
map_flags_of flags = 50 + (if (flags / 256) % 2 == 1 then 256 else 0)

-- The range to map, or `none` where `needs_mapping` stays false; `found` is the area that find_vma
-- returns for `start`.
unfoldable pub hole : Bool → Option (ℕ × ℕ) → ℕ → ℕ → Option (ℕ × ℕ)
hole true none start size = some (start, size)
hole true (some (s, e)) start size =
    if leb s start && leb (start + size) e then none else some (start, size)
hole false none start size = some (start, size)
hole false (some (s, e)) start size =
    if leb (start + size) s
    then some (start, size)
    else (if ltb start s
        then some (start, s - start)
        else (if ltb e (start + size) then some (e, start + size - e) else none))

module _ (k : MemoryMap) where
  -- `size` is `vm_end - start`.
  unfoldable pub carve : Bool → VmaInfo → k.Map → k.Map
  unfolding hole prot_of map_flags_of
  carve mpi_support v m =
      elim (hole mpi_support (k.find_vma m v.vm_start) v.vm_start (v.vm_end - v.vm_start)) [
        | none ↦ m
        | some (start, size) ↦
            (k.vm_mmap m start size (prot_of v.vm_flags) (map_flags_of v.vm_flags)).0
      ]

  unfoldable pub carve_all : Bool → List VmaInfo → k.Map → k.Map
  unfolding carve
  carve_all mpi_support [] m = m
  carve_all mpi_support (v ∷ vs) m = carve_all mpi_support vs (carve mpi_support v m)
