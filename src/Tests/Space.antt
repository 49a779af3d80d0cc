-- ===== src/Tests/Space.antt =====
-- A process with one area, for the theorems on the memory of a process, and a memory map with one area
-- and whatever is mapped later.
use mattx.Base.{
  ℕ, zero, suc, ◌+◌, ◌-◌, ◌<◌, ◌≤◌, ◌≡◌, ◌⊎◌, refl, inl, inr, List, [], ◌∷◌, Bool, true, false,
  ◌&&◌, ◌||◌, Option, none, some, ltb, leb, if◌then◌else◌, length, get_elem?, update, arith,
  Option-cases, ap, ◌∙◌, sym, get_elem?_lt,
}
use mattx.Registry.Slots.{get_elem?-some}
use mattx.Migr.AddressSpace.{AddressSpace}
use mattx.Import.Carver.{MemoryMap}

pub record Flat : Type 0 where
  pub bytes : ℕ → ℕ
  pub flags : ℕ → ℕ

abbrev pub cells : (ℕ → ℕ) → ℕ → ℕ → List ℕ
cells f x zero = []
cells f x (suc n) = f x ∷ cells f (x + 1) n

abbrev pub or_else : Option ℕ → ℕ → ℕ
or_else none old = old
or_else (some b) old = b

abbrev pub stored : (ℕ → ℕ) → ℕ → List ℕ → ℕ → ℕ
stored f x bs y = if leb x y then or_else (get_elem? bs (y - x)) (f y) else f y

pub length-cells : (f : ℕ → ℕ) (x n : ℕ) → length (cells f x n) ≡ n
length-cells f x zero = refl
length-cells f x (suc n) = ap suc (length-cells f (x + 1) n)

pub cells_byte :
    (f : ℕ → ℕ) (x n i : ℕ) {b : ℕ} → get_elem? (cells f x n) i ≡ some b → b ≡ f (x + i)
cells_byte f x zero i e = absurd (ground arith)
cells_byte f x (suc n) zero {b = b} e =
    let here : x ≡ x + 0 = omega arith in let same : f x ≡ b = cc in sym same ∙ ap f here
cells_byte f x (suc n) (suc i) e =
    let there : x + 1 + i ≡ x + suc i = omega arith in cells_byte f (x + 1) n i e ∙ ap f there

pub stored_inside :
    (f : ℕ → ℕ) (x : ℕ) (bs : List ℕ) (i : ℕ)
    → i < length bs
    → get_elem? bs i ≡ some (stored f x bs (x + i))
stored_inside f x bs i h =
    let (b, e) = get_elem?-some bs i h in
    let above : leb x (x + i) ≡ true = ground arith in
    let back : x + i - x ≡ i = omega arith in rw (above, back, e) refl

pub stored_outside :
    (f : ℕ → ℕ) (x : ℕ) (bs : List ℕ) (y : ℕ)
    → (y < x) ⊎ (x + length bs ≤ y)
    → stored f x bs y ≡ f y
stored_outside f x bs y (inl h) = let below : leb x y ≡ false = ground arith in rw below refl
stored_outside f x bs y (inr h) =
    let above : leb x y ≡ true = ground arith in
    elim (Option-cases (get_elem? bs (y - x))) [
      | inl e ↦ rw (above, e) refl
      | inr (b, e) ↦ absurd (omega (arith, get_elem?_lt bs (y - x) e))
    ]

-- All its memory can be read and written; the area 1 starts at 4096.
abbrev pub flat : AddressSpace
flat = record {
  Space = Flat;
  byte_at = λ m x. m.bytes x;
  read = λ m x n. cells m.bytes x n;
  write = λ m x bs. (record m { bytes = stored m.bytes x bs }, length bs);
  find_vma = λ m x. if ltb x 65536 then some 1 else none;
  vm_start = λ m v. 4096;
  vm_flags = λ m v. m.flags v;
  set_flags = λ m v f. record m { flags = update m.flags v f };
  read_byte = λ m x n i e. cells_byte m.bytes x n i e;
  write_inside = λ m x bs i h. stored_inside m.bytes x bs i h;
  write_outside = λ m x bs y h. stored_outside m.bytes x bs y h;
  write_find = λ m x bs y. refl;
  write_start = λ m x bs v. refl;
  write_flags = λ m x bs v. refl;
  flags_set = λ m u f v. refl;
  flags_find = λ m u f x. refl;
  flags_start = λ m u f v. refl;
  flags_byte = λ m u f x. refl;
}

-- A read-only process whose every byte is its address, and one of zeros.
abbrev pub source : Flat
source = record { bytes = λ x. x; flags = λ v. 5 }

abbrev pub target : Flat
target = record { bytes = λ x. 0; flags = λ v. 5 }

-- One area, and what was mapped besides.
pub record Line : Type 0 where
  pub start : ℕ
  pub stop : ℕ
  pub more : ℕ → Bool

abbrev pub find_line : Line → ℕ → Option (ℕ × ℕ)
find_line m x = if ltb x m.stop then some (m.start, m.stop) else none

pub line_mapped :
    (m : Line) (x s e y : ℕ)
    → find_line m x ≡ some (s, e)
    → s ≤ y
    → y < e
    → (leb m.start y && ltb y m.stop || m.more y) ≡ true
line_mapped m x s e y q l h = ground arith

pub or_assoc : (a b c : Bool) → (a || (b || c)) ≡ ((a || b) || (true && c))
or_assoc a b c = ground arith

abbrev pub linear : MemoryMap
linear = record {
  Map = Line;
  mapped = λ m y. leb m.start y && ltb y m.stop || m.more y;
  find_vma = find_line;
  vm_mmap = λ m s n p f. (record m { more = λ y. m.more y || leb s y && ltb y (s + n) }, true);
  find_mapped = λ m x s e y. line_mapped m x s e y;
  mmap_mapped =
      λ m s n p f y. or_assoc (leb m.start y && ltb y m.stop) (m.more y) (leb s y && ltb y (s + n));
}

-- The heap from 4096 to 8192.
abbrev pub heap : Line
heap = record { start = 4096; stop = 8192; more = λ y. false }
