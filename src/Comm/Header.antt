-- ===== src/Comm/Header.antt =====
-- struct mattx_header of mattx.h, as the sixteen bytes that it takes on a little-endian machine.
use mattx.Base.{ℕ, ◌+◌, ◌*◌, ◌/◌, ◌%◌, ◌^◌, ◌<◌, ◌≡◌, List, [], ◌∷◌, ◌++◌, arith, drop}

-- MATTX_MAGIC
abbrev pub magic_number : ℕ
magic_number = 0x4D415454

-- MATTX_MAX_PAYLOAD
abbrev pub max_payload : ℕ
max_payload = 10 * 1024 * 1024

-- sizeof(struct mattx_header)
abbrev pub header_size : ℕ
header_size = 16

pub record Header : Type 0 where
  pub magic : ℕ
  pub kind : ℕ  -- the field `type`
  pub size : ℕ  -- the field `length`
  pub sender_id : ℕ

-- The bytes of a u32 in memory, and the u32 at the start of some bytes.
abbrev pub u32_bytes : ℕ → List ℕ
u32_bytes n = n % 256 ∷ n / 256 % 256 ∷ n / 2 ^ 16 % 256 ∷ n / 2 ^ 24 % 256 ∷ []

abbrev pub u32_at : List ℕ → ℕ
u32_at (a ∷ b ∷ c ∷ d ∷ r) = a + 256 * b + 2 ^ 16 * c + 2 ^ 24 * d
u32_at _ = 0

unfoldable pub pack : Header → List ℕ
pack h = u32_bytes h.magic ++ (u32_bytes h.kind ++ (u32_bytes h.size ++ u32_bytes h.sender_id))

unfoldable pub unpack : List ℕ → Header
unpack bs = record {
  magic = u32_at bs;
  kind = u32_at (drop 4 bs);
  size = u32_at (drop 8 bs);
  sender_id = u32_at (drop 12 bs);
}

abbrev pub IsWord : ℕ → Type 0
IsWord n = n < 2 ^ 32

pub record IsHeader (h : Header) : Type 0 where
  pub magic_fits : IsWord h.magic
  pub kind_fits : IsWord h.kind
  pub size_fits : IsWord h.size
  pub sender_fits : IsWord h.sender_id

u32_at-bytes : (n : ℕ) (r : List ℕ) → IsWord n → u32_at (u32_bytes n ++ r) ≡ n
u32_at-bytes n r h = omega arith

-- What one node packs, another unpacks.
pub unpack-pack : (h : Header) → IsHeader h → unpack (pack h) ≡ h
unfolding unpack pack
unpack-pack h v = ground (
  arith,
  u32_at-bytes h.magic (u32_bytes h.kind ++ (u32_bytes h.size ++ u32_bytes h.sender_id)),
  u32_at-bytes h.kind (u32_bytes h.size ++ u32_bytes h.sender_id),
  u32_at-bytes h.size (u32_bytes h.sender_id),
  u32_at-bytes h.sender_id [],
)
