-- ===== src/Import/Carver/Covers.antt =====
-- Which addresses are mapped after the brain carver of mattx_import.c.
use mattx.Base.{
  ℕ, ◌+◌, ◌-◌, ◌%◌, ◌<◌, ◌≤◌, ◌≡◌, refl, List, [], ◌∷◌, Bool, true, false, ◌&&◌, ◌||◌, Option, none,
  some, ltb, leb, arith, Bool-cases, Option-cases, inl, inr,
}
use mattx.Migr.Blueprint.{VmaInfo}
use mattx.Import.Carver.{MemoryMap, prot_of, map_flags_of, hole, carve, carve_all}

-- The protection of a carved area is the three permission bits of the area it stands for.
prot_of_lem : (flags : ℕ) → prot_of flags ≡ flags % 8
unfolding prot_of
prot_of_lem flags = ground arith

-- With MPI support a hole is the whole area.
hole_whole :
    (found : Option (ℕ × ℕ)) (start size s n : ℕ)
    → hole true found start size ≡ some (s, n)
    → (s ≡ start) × (n ≡ size)
unfolding hole
hole_whole none start size s n e = ground arith
hole_whole (some (a, b)) start size s n e = ground arith

-- Whether an address is in one of the areas.
pub in_areas : ℕ → List VmaInfo → Bool
in_areas y [] = false
in_areas y (v ∷ vs) = leb v.vm_start y && ltb y v.vm_end || in_areas y vs

module _ (k : MemoryMap) where
  abbrev hole_of : Bool → VmaInfo → k.Map → Option (ℕ × ℕ)
  hole_of mpi v m = hole mpi (k.find_vma m v.vm_start) v.vm_start (v.vm_end - v.vm_start)

  carve_miss : (mpi : Bool) (v : VmaInfo) (m : k.Map) → hole_of mpi v m ≡ none → carve k mpi v m ≡ m
  unfolding carve
  carve_miss mpi v m e = rw (e, carve) refl

  -- What is mapped then: what was before, and the hole where mapping it succeeds.
  carve_hit :
      (mpi : Bool) (v : VmaInfo) (m : k.Map) (s n y : ℕ)
      → ((s n p f : ℕ) → (k.vm_mmap m s n p f).1 ≡ true)
      → hole_of mpi v m ≡ some (s, n)
      → k.mapped (carve k mpi v m) y ≡ (k.mapped m y || (leb s y && ltb y (s + n)))
  unfolding carve
  carve_hit mpi v m s n y ok e =
      let p = prot_of v.vm_flags in
      let f = map_flags_of v.vm_flags in rw (e, carve, k.mmap_mapped m s n p f y, ok s n p f) refl

  -- An address that is mapped stays mapped.
  mapped-carve :
      (mpi : Bool) (v : VmaInfo) (m : k.Map) (y : ℕ)
      → ((s n p f : ℕ) → (k.vm_mmap m s n p f).1 ≡ true)
      → k.mapped m y ≡ true
      → k.mapped (carve k mpi v m) y ≡ true
  mapped-carve mpi v m y ok h = elim (Option-cases (hole_of mpi v m)) [
    | inl e ↦ rw (carve_miss mpi v m e) h
    | inr ((s, n), e) ↦ rw (carve_hit mpi v m s n y ok e, h) refl
  ]

  mapped_in_hole :
      (mpi : Bool) (v : VmaInfo) (m : k.Map) (s n y : ℕ)
      → ((s n p f : ℕ) → (k.vm_mmap m s n p f).1 ≡ true)
      → hole_of mpi v m ≡ some (s, n)
      → s ≤ y
      → y < s + n
      → k.mapped (carve k mpi v m) y ≡ true
  mapped_in_hole mpi v m s n y ok e l h = rw (carve_hit mpi v m s n y ok e) (ground arith)

  -- With MPI support the whole area is mapped, whatever was mapped of it.
  carve-covers_mpi :
      (v : VmaInfo) (m : k.Map) (y : ℕ)
      → ((s n p f : ℕ) → (k.vm_mmap m s n p f).1 ≡ true)
      → v.vm_start ≤ y
      → y < v.vm_end
      → k.mapped (carve k true v m) y ≡ true
  unfolding hole
  carve-covers_mpi v m y ok l h = elim (Option-cases (k.find_vma m v.vm_start)) [
    | inl q ↦
        mapped_in_hole true v m v.vm_start (v.vm_end - v.vm_start) y ok (rw (q, hole) refl) l
          (omega arith)
    | inr ((s, e), q) ↦
        let size = v.vm_end - v.vm_start in
        elim (Bool-cases (leb s v.vm_start && leb (v.vm_start + size) e)) [
          | inl c ↦
              rw (carve_miss true v m (rw (q, hole, c) refl))
                (k.find_mapped m v.vm_start s e y q (ground arith) (ground arith))
          | inr c ↦
              mapped_in_hole true v m v.vm_start size y ok (rw (q, hole, c) refl) l (omega arith)
        ]
  ]

  -- Without MPI support, and where no mapping fails, an area of the blueprint is mapped as a whole once
  -- it was carved, provided that the first area that is there does not both start and end inside it.
  pub mapped-hole :
      (v : VmaInfo) (m : k.Map) (y : ℕ)
      → ((s n p f : ℕ) → (k.vm_mmap m s n p f).1 ≡ true)
      → ((s e : ℕ)
          → k.find_vma m v.vm_start ≡ some (s, e)
          → v.vm_start < s
          → s < v.vm_end
          → v.vm_end ≤ e)
      → v.vm_start ≤ y
      → y < v.vm_end
      → k.mapped (carve k false v m) y ≡ true
  unfolding hole
  mapped-hole v m y ok inner l h = elim (Option-cases (k.find_vma m v.vm_start)) [
    | inl q ↦
        mapped_in_hole false v m v.vm_start (v.vm_end - v.vm_start) y ok (rw (q, hole) refl) l
          (omega arith)
    | inr ((s, e), q) ↦
        let size = v.vm_end - v.vm_start in
        elim (Bool-cases (leb (v.vm_start + size) s)) [
          | inl a ↦
              mapped_in_hole false v m v.vm_start size y ok (rw (q, hole, a) refl) l (omega arith)
          | inr a ↦ elim (Bool-cases (ltb v.vm_start s)) [
            | inl b ↦ elim (Bool-cases (ltb y s)) [
              | inl c ↦
                  mapped_in_hole false v m v.vm_start (s - v.vm_start) y ok
                    (rw (q, hole, a, b) refl) l (ground arith)
              | inr c ↦
                  let far : v.vm_end ≤ e = inner s e q (ground arith) (ground arith) in
                  there s e (ground arith) (omega arith) q
            ]
            | inr b ↦ elim (Bool-cases (ltb y e)) [
              | inl c ↦ there s e (ground arith) (ground arith) q
              | inr c ↦
                  let more : ltb e (v.vm_start + size) ≡ true = ground arith in
                  mapped_in_hole false v m e (v.vm_start + size - e) y ok
                    (rw (q, hole, a, b, more) refl) (ground arith) (ground arith)
            ]
          ]
        ]
  ]
    where
      there :
          (s e : ℕ)
          → s ≤ y
          → y < e
          → k.find_vma m v.vm_start ≡ some (s, e)
          → k.mapped (carve k false v m) y ≡ true
      there s e l h q = mapped-carve false v m y ok (k.find_mapped m v.vm_start s e y q l h)

  -- With MPI support, one more area is mapped, and nothing else.
  mapped-carve_mpi :
      (v : VmaInfo) (m : k.Map) (y : ℕ)
      → ((s n p f : ℕ) → (k.vm_mmap m s n p f).1 ≡ true)
      → k.mapped (carve k true v m) y ≡ (k.mapped m y || (leb v.vm_start y && ltb y v.vm_end))
  mapped-carve_mpi v m y ok = elim (Bool-cases (leb v.vm_start y && ltb y v.vm_end)) [
    | inl inside ↦
        rw (inside, carve-covers_mpi v m y ok (ground arith) (ground arith)) (ground arith)
    | inr outside ↦ elim (Option-cases (hole_of true v m)) [
      | inl e ↦ rw (outside, carve_miss true v m e) (ground arith)
      | inr ((s, n), e) ↦
          rw (outside, carve_hit true v m s n y ok e)
            (ground (
              arith,
              hole_whole (k.find_vma m v.vm_start) v.vm_start (v.vm_end - v.vm_start) s n e,
            ))
    ]
  ]

  -- With MPI support, and where no mapping fails, what is mapped once the areas of the blueprint were
  -- carved is what was mapped before, and all these areas.
  pub carve_all-mapped :
      (vs : List VmaInfo) (m : k.Map) (y : ℕ)
      → ((m : k.Map) (s n p f : ℕ) → (k.vm_mmap m s n p f).1 ≡ true)
      → k.mapped (carve_all k true vs m) y ≡ (k.mapped m y || in_areas y vs)
  unfolding carve_all in_areas
  carve_all-mapped [] m y ok = ground arith
  carve_all-mapped (v ∷ vs) m y ok =
      let rest = carve_all-mapped vs (carve k true v m) y ok in
      let here = mapped-carve_mpi v m y (ok m) in ground (arith, rest, here)
