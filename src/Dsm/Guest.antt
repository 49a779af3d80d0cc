-- ===== src/Dsm/Guest.antt =====
-- A guest's copies of the pages: mattx_dsm_invalidate_kworker and mattx_dsm_flush_kworker of
-- mattx_fileio.c, on the guest registry.
pub mod Invalidate
pub mod Flush
use mattx.Base.{
  ℕ, zero, suc, ◌+◌, ◌/◌, List, [], ◌∷◌, ◌++◌, Bool, true, false, ◌&&◌, Option, none, some, ◌==◌,
  if◌then◌else◌, update, set, take, replicate, ℤ, pos, negsuc,
}
use mattx.Registry.Slots.{first, find_index}
use mattx.Registry.Guests.{
  Guests, GuestInfo, DsmMapping, PageState, invalid, shared, exclusive, page_size,
}

pub data Effect : Type 0 where
  zap_vma_ptes : (pid addr : ℕ) → Effect
  send_flush_reply : (node req_id : ℕ) → (error : ℤ) → (data' : List ℕ) → Effect

-- struct mattx_dsm_invalidate_req and struct mattx_dsm_flush_req, which have the same fields.
pub record PageReq : Type 0 where
  pub req_id : ℕ
  pub orig_pid : ℕ
  pub shmid : ℕ
  pub offset : ℕ

-- What the rest of the node has: the surrogates that are alive with an area at or below an address,
-- where the zap routine was found, and the entries of cluster_map that are not NULL.
pub record Host : Type 0 where
  pub can_zap : ℕ → ℕ → Bool
  pub connected : ℕ → Bool

module _ {ℓ} {A : Type ℓ} where
  -- A loop that changes the first `n` entries of an array.
  abbrev pub map_first : (A → A) → ℕ → List A → List A
  map_first f zero xs = xs
  map_first f (suc n) [] = []
  map_first f (suc n) (x ∷ xs) = f x ∷ map_first f n xs

abbrev pub set_state : DsmMapping → ℕ → PageState → DsmMapping
set_state m page state = record m { page_states = update m.page_states page state }

unfoldable pub invalidate_mapping : PageReq → DsmMapping → DsmMapping
invalidate_mapping req m =
    if m.shmid == req.shmid then set_state m (req.offset / page_size) invalid else m

-- The requester's own copy is left alone.
unfoldable pub invalidate_guest : PageReq → GuestInfo → GuestInfo
invalidate_guest req g =
    if g.orig_pid == req.orig_pid
    then g
    else record g { dsm_map = map_first (invalidate_mapping req) g.dsm_count g.dsm_map }

zaps_of_maps : Host → PageReq → GuestInfo → List DsmMapping → List Effect
zaps_of_maps host req g [] = []
zaps_of_maps host req g (m ∷ ms) =
    let rest = zaps_of_maps host req g ms in
    if (m.shmid == req.shmid) && host.can_zap g.local_pid m.base_addr
    then zap_vma_ptes g.local_pid (m.base_addr + req.offset) ∷ rest
    else rest

zaps : Host → PageReq → List GuestInfo → List Effect
zaps host req [] = []
zaps host req (g ∷ gs) =
    let rest = zaps host req gs in
    if g.orig_pid == req.orig_pid
    then rest
    else zaps_of_maps host req g (take g.dsm_count g.dsm_map) ++ rest

unfoldable pub dsm_invalidate_kworker : Host → Guests → PageReq → Guests × List Effect
unfolding zaps zaps_of_maps
dsm_invalidate_kworker host t req = (
  record t { entries = map_first (invalidate_guest req) t.count t.entries },
  zaps host req (take t.count t.entries),
)

-- -ENOENT
abbrev pub enoent : ℤ
enoent = negsuc 1

abbrev pub zero_page : List ℕ
zero_page = replicate page_size 0

-- The bytes of a page that may be flushed: one that is there and EXCLUSIVE here.
abbrev pub flushable : DsmMapping → ℕ → Option (List ℕ)
flushable m page = elim (m.pages page) [
  | none ↦ none
  | some bytes ↦ elim (m.page_states page) [ exclusive ↦ some bytes | _ ↦ none ]
]

abbrev pub flush_reply : Host → ℕ → ℕ → ℤ → List ℕ → List Effect
flush_reply host node req_id error bytes =
    if host.connected node then send_flush_reply node req_id error bytes ∷ [] else []

abbrev pub zap : Host → ℕ → ℕ → ℕ → List Effect
zap host pid base offset =
    if host.can_zap pid base then zap_vma_ptes pid (base + offset) ∷ [] else []

-- The first guest of the process and its first mapping of the segment.
unfoldable pub find_copy : Guests → PageReq → Option ((ℕ × GuestInfo) × ℕ × DsmMapping)
find_copy t req = elim (find_index (λ g. g.orig_pid == req.orig_pid) t) [
  | none ↦ none
  | some (i, g) ↦ elim (first (λ m. m.shmid == req.shmid) (take g.dsm_count g.dsm_map)) [
    | none ↦ none
    | some (d, m) ↦ some ((i, g), d, m)
  ]
]

-- One mapping of one guest written.
abbrev pub write_copy : Guests → ℕ → GuestInfo → ℕ → DsmMapping → Guests
write_copy t i g d m = record t {
  entries = set t.entries i (record g { dsm_map = set g.dsm_map d m });
}

unfoldable pub dsm_flush_kworker : Host → Guests → PageReq → ℕ → Guests × List Effect
dsm_flush_kworker host t req node = elim (find_copy t req) [
  | none ↦ (t, flush_reply host node req.req_id enoent zero_page)
  | some ((i, g), d, m) ↦ elim (flushable m (req.offset / page_size)) [
    | none ↦ (t, flush_reply host node req.req_id enoent zero_page)
    | some bytes ↦ (
      write_copy t i g d (set_state m (req.offset / page_size) invalid),
      zap host g.local_pid m.base_addr req.offset ++ flush_reply host node req.req_id (pos 0) bytes,
    )
  ]
]
