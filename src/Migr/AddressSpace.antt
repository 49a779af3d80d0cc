-- ===== src/Migr/AddressSpace.antt =====
-- The memory of a process, as the kernel offers it: access_process_vm, find_vma and the flags of an
-- area. The code calls these, and this is what it relies on.
use mattx.Base.{ℕ, ◌+◌, ◌<◌, ◌≤◌, ◌≡◌, ◌⊎◌, List, Option, some, ◌==◌, if◌then◌else◌, get_elem?}

-- `read` returns the bytes that could be copied out, and `write` how many bytes it stored. An area is
-- known by its address.
pub record AddressSpace : Type 1 where
  pub Space : Type 0
  pub byte_at : Space → ℕ → ℕ
  pub read : Space → ℕ → ℕ → List ℕ
  pub write : Space → ℕ → List ℕ → Space × ℕ
  pub find_vma : Space → ℕ → Option ℕ
  pub vm_start : Space → ℕ → ℕ
  pub vm_flags : Space → ℕ → ℕ
  pub set_flags : Space → ℕ → ℕ → Space
  pub read_byte :
      (m : Space) (a n i : ℕ) {b : ℕ} → get_elem? (read m a n) i ≡ some b → b ≡ byte_at m (a + i)
  pub write_inside :
      (m : Space) (a : ℕ) (bs : List ℕ) (i : ℕ)
      → i < (write m a bs).1
      → get_elem? bs i ≡ some (byte_at (write m a bs).0 (a + i))
  pub write_outside :
      (m : Space) (a : ℕ) (bs : List ℕ) (x : ℕ)
      → (x < a) ⊎ (a + (write m a bs).1 ≤ x)
      → byte_at (write m a bs).0 x ≡ byte_at m x
  pub write_find :
      (m : Space) (a : ℕ) (bs : List ℕ) (x : ℕ) → find_vma (write m a bs).0 x ≡ find_vma m x
  pub write_start :
      (m : Space) (a : ℕ) (bs : List ℕ) (v : ℕ) → vm_start (write m a bs).0 v ≡ vm_start m v
  pub write_flags :
      (m : Space) (a : ℕ) (bs : List ℕ) (v : ℕ) → vm_flags (write m a bs).0 v ≡ vm_flags m v
  pub flags_set :
      (m : Space) (u f v : ℕ) → vm_flags (set_flags m u f) v ≡ (if u == v then f else vm_flags m v)
  pub flags_find : (m : Space) (u f x : ℕ) → find_vma (set_flags m u f) x ≡ find_vma m x
  pub flags_start : (m : Space) (u f v : ℕ) → vm_start (set_flags m u f) v ≡ vm_start m v
  pub flags_byte : (m : Space) (u f x : ℕ) → byte_at (set_flags m u f) x ≡ byte_at m x
