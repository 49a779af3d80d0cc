-- ===== src/Vfs/Home/Counted.antt =====
-- The references that mattx_fileio.c holds on the files of mfs_open_files.
use mattx.Base.{
  ℕ, zero, suc, ◌+◌, ◌≡◌, ◌⊎◌, refl, List, [], ◌∷◌, true, Option, none, some, arith, ◌==◌,
  if◌then◌else◌, get_elem?, set, update, inl, inr, Option-cases,
}
use mattx.Registry.Slots.{first-cases}
use mattx.Vfs.Disk.{FileSystem, Cred, Start, Opened, failed, opened}
use mattx.Vfs.Home.{
  Home, file_at, is_empty, get_file, fput, on_disk, keep_open, open_as, handle_close,
}

abbrev pub holds : ℕ → Option ℕ → ℕ
holds f none = 0
holds f (some g) = if g == f then 1 else 0

-- How many slots hold a file.
unfoldable pub slots_of : ℕ → List (Option ℕ) → ℕ
slots_of f [] = 0
slots_of f (x ∷ xs) = holds f x + slots_of f xs

-- A write to a slot changes the count by what the slot held and holds.
pub slots_of-set :
    (f : ℕ) (xs : List (Option ℕ)) (i : ℕ) (x y : Option ℕ)
    → get_elem? xs i ≡ some x
    → slots_of f (set xs i y) + holds f x ≡ slots_of f xs + holds f y
unfolding slots_of
slots_of-set f [] i x y e = absurd (ground arith)
slots_of-set f (z ∷ xs) zero x y e = ground (arith, e)
slots_of-set f (z ∷ xs) (suc i) x y e = omega (arith, slots_of-set f xs i x y e)

pub file_at-some :
    (xs : List (Option ℕ)) (fd f : ℕ) → file_at xs fd ≡ some f → get_elem? xs fd ≡ some (some f)
file_at-some xs fd f e = ground (arith, e)

pub Opened-cases : (x : Opened) → ((e : ℕ) × (x ≡ failed e)) ⊎ ((f : ℕ) × (x ≡ opened f))
Opened-cases (failed e) = inl (e, refl)
Opened-cases (opened f) = inr (f, refl)

module _ (fs : FileSystem) where
  -- Every reference on a file is that of a slot of mfs_open_files, and every slot has one.
  pub record IsCounted (h : Home fs) : Type 0 where
    pub counted : (f : ℕ) → h.refs f ≡ slots_of f h.open_files

  -- A file that is used and put back.
  pub used-IsCounted :
      (h : Home fs) (d : fs.Disk) (f : ℕ)
      → IsCounted h
      → IsCounted (fput fs (on_disk fs (get_file fs h f) d) f)
  used-IsCounted h d f v = record { counted = λ x. ground (arith, v.counted x, v.counted f) }

  pub on_disk-IsCounted : (h : Home fs) (d : fs.Disk) → IsCounted h → IsCounted (on_disk fs h d)
  on_disk-IsCounted h d v = record { counted = λ x. v.counted x }

  pub open_as-IsCounted :
      (h : Home fs) (who : Cred) (start : Start) (path : List ℕ) (flags mode : ℕ)
      → IsCounted h
      → IsCounted (open_as fs h who start path flags mode).0
  unfolding open_as keep_open
  open_as-IsCounted h who start path flags mode v =
      elim (Opened-cases (fs.filp_open h.disk who start path flags mode).1) [
        | inl (e, q) ↦ rw (q, open_as) (on_disk-IsCounted h _ v)
        | inr (f, q) ↦ elim (first-cases is_empty h.open_files) [
          | inl (none_free, a) ↦ rw (q, open_as, none_free, keep_open) (used-IsCounted h _ f v)
          | inr (i, old, free, at_i, empty) ↦
              rw (q, open_as, free, keep_open)
                (record { counted = λ x. kept h i f x old at_i empty v })
        ]
      ]
    where
      kept :
          (h : Home fs) (i f x : ℕ) (old : Option ℕ)
          → get_elem? h.open_files i ≡ some old
          → is_empty old ≡ true
          → IsCounted h
          → update h.refs f (suc (h.refs f)) x ≡ slots_of x (set h.open_files i (some f))
      kept h i f x none at empty v =
          ground (arith, v.counted x, v.counted f, slots_of-set x h.open_files i none (some f) at)
      kept h i f x (some g) at empty v = absurd (ground (arith, empty))

  pub handle_close-IsCounted :
      (h : Home fs) (fd : ℕ) → IsCounted h → IsCounted (handle_close fs h fd)
  unfolding handle_close
  handle_close-IsCounted h fd v = elim (Option-cases (file_at h.open_files fd)) [
    | inl e ↦ rw (e, handle_close) v
    | inr (f, e) ↦
        rw (e, handle_close)
          (record {
            counted = λ x. ground (
              arith,
              v.counted x,
              v.counted f,
              slots_of-set x h.open_files fd (some f) none (file_at-some h.open_files fd f e),
            );
          })
  ]
