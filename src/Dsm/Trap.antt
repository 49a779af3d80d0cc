-- ===== src/Dsm/Trap.antt =====
-- The faults of a guest on a shared segment: mattx_dsm_fault and mattx_dsm_pfn_mkwrite of
-- mattx_fileio.c. Each sleeps for the home node's answer, so each is two steps.
pub mod Granted
use mattx.Base.{
  ℕ, zero, suc, ◌+◌, ◌-◌, ◌*◌, ◌/◌, ◌%◌, List, [], ◌∷◌, Bool, true, false, ◌&&◌, Option, none, some,
  ltb, leb, ◌==◌, if◌then◌else◌, set, get_elem?, take, update, is_some, ℤ, pos, negsuc,
}
use mattx.Registry.Slots.{first, find_index}
use mattx.Registry.Guests.{Guests, GuestInfo, DsmMapping, PageState, shared, exclusive, page_size}
use mattx.Dsm.Guest.{write_copy, set_state}
use mattx.Dsm.Rpc.{Rpc, RpcCtx, alloc, release, is_free, u64}

-- What a fault is about: the segment, the offset of the page, and whom to ask.
pub record Access : Type 0 where
  pub shmid : ℕ
  pub offset : ℕ
  pub home_node : ℕ
  pub orig_pid : ℕ

-- VM_FAULT_x, and 0
pub data VmFault : Type 0 where
  sigsegv sigbus oom nopage retry success : VmFault

-- How a first step ends: at once, or asleep on a slot with a request on its way.
pub data Begun : Type 0 where
  fails : VmFault → Begun
  waits : (slot req_id : ℕ) → Access → Begun
  passes : Begun

-- `address & PAGE_MASK`
abbrev pub page_start : ℕ → ℕ
page_start address = address / page_size * page_size

abbrev covers : ℕ → DsmMapping → Bool
covers addr m = leb m.base_addr addr && ltb addr (m.base_addr + m.size)

abbrev of_process : ℕ → GuestInfo → Bool
of_process tgid g = g.local_pid == tgid

-- The segment of an address, in the first guest with this pid.
unfoldable pub translate : Guests → ℕ → ℕ → Option Access
translate t tgid addr = elim (find_index (of_process tgid) t) [
  | none ↦ none
  | some (i, g) ↦ elim (first (covers addr) (take g.dsm_count g.dsm_map)) [
    | none ↦ none
    | some (d, m) ↦ some (record {
      shmid = m.shmid;
      offset = addr - m.base_addr;
      home_node = g.home_node;
      orig_pid = g.orig_pid;
    })
  ]
]

-- A request that takes a slot and leaves its buffer as it was.
unfoldable pub alloc_bare : Rpc → Rpc × Option (ℕ × ℕ)
alloc_bare r = elim (first is_free r.registry) [
  | none ↦ (r, none)
  | some (i, old) ↦ (
    record {
      registry =
          set r.registry i (record old { in_use = true; req_id = r.next_req_id; done = false });
      next_req_id = suc r.next_req_id % u64;
    },
    some (i, r.next_req_id),
  )
]

abbrev asleep : VmFault → Access → Rpc × Option (ℕ × ℕ) → Rpc × Begun
asleep full a (r, none) = (r, fails full)
asleep full a (r, some (slot, req_id)) = (r, waits slot req_id a)

-- `buf` is the buffer that kmalloc gives.
unfoldable pub dsm_fault_begin : Guests → Rpc → (ℕ → Bool) → ℕ → ℕ → Option (List ℕ) → Rpc × Begun
unfolding translate
dsm_fault_begin t r connected tgid address buf = elim (translate t tgid (page_start address)) [
  | none ↦ (r, fails sigsegv)
  | some a ↦
      if connected a.home_node
      then (elim buf [
        | none ↦ (r, fails oom)
        | some bytes ↦ asleep sigsegv a (alloc r (some bytes))
      ])
      else (r, fails sigsegv)
]

-- The first guest of the process, and its first segment that starts at this address.
unfoldable pub find_segment : Guests → ℕ → ℕ → Option ((ℕ × GuestInfo) × ℕ × DsmMapping)
find_segment t tgid base = elim (find_index (of_process tgid) t) [
  | none ↦ none
  | some (i, g) ↦ elim (first (λ m. m.base_addr == base) (take g.dsm_count g.dsm_map)) [
    | none ↦ none
    | some (d, m) ↦ some ((i, g), d, m)
  ]
]

-- `memcpy(kaddr, page_buf, 4096)`, into the page that is there or one that is had now; `none` where
-- there is no page.
abbrev pub store_page : DsmMapping → ℕ → Bool → List ℕ → Option DsmMapping
store_page m page has_free bytes =
    if is_some (m.pages page)
    then some (record m { pages = update m.pages page (some bytes) })
    else (if has_free then some (record m { pages = update m.pages page (some bytes) }) else none)

-- What the kernel has for the page at the end of the sleep: whether there is a free page, and what
-- making the page-table entry returns.
pub record Woken : Type 0 where
  pub has_free : Bool
  pub inserted : VmFault

abbrev pub is_nopage : VmFault → Bool
is_nopage nopage = true
is_nopage _ = false

-- Mode 2: the page is mapped read-only, and is SHARED if that went well.
unfoldable pub install : Guests → Woken → ℕ → ℕ → Access → List ℕ → Guests × VmFault
install t w tgid addr a bytes = elim (find_segment t tgid (addr - a.offset)) [
  | none ↦ (t, oom)
  | some ((i, g), d, m) ↦ elim (store_page m (a.offset / page_size) w.has_free bytes) [
    | none ↦ (t, oom)
    | some m' ↦
        let m'' = if is_nopage w.inserted then set_state m' (a.offset / page_size) shared else m' in
        (write_copy t i g d m'', w.inserted)
  ]
]

abbrev pub no_error : ℤ → Bool
no_error (pos zero) = true
no_error _ = false

abbrev bytes_in : Rpc → ℕ → Option (List ℕ)
bytes_in r slot = elim (get_elem? r.registry slot) [ none ↦ none | some c ↦ c.data_buf ]

abbrev succeeded : Option ℤ → Bool
succeeded none = false
succeeded (some e) = no_error e

-- Mode 2 of mattx_dsm_fault after the sleep: the error and the buffer are those of the slot.
unfoldable pub dsm_fault_end : Guests → Rpc → Woken → ℕ → ℕ → ℕ → Access → Guests × Rpc × VmFault
dsm_fault_end t r w tgid address slot a =
    let r' = (release r slot).0 in
    if succeeded (release r slot).1
    then (elim (bytes_in r slot) [
      | none ↦ (t, r', sigsegv)
      | some bytes ↦ let (t', f) = install t w tgid (page_start address) a bytes in (t', r', f)
    ])
    else (t, r', sigsegv)

unfoldable pub mkwrite_begin : Guests → Rpc → (ℕ → Bool) → ℕ → ℕ → ℕ → Rpc × Begun
unfolding translate alloc_bare
mkwrite_begin t r connected dsm_mode tgid address = elim (translate t tgid (page_start address)) [
  | none ↦ (r, fails sigbus)
  | some a ↦
      if connected a.home_node
      then (if dsm_mode == 2 then asleep sigbus a (alloc_bare r) else (r, passes))
      else (r, fails sigbus)
]

-- The upgrade of the page in the table.
unfoldable pub upgrade : Guests → ℕ → ℕ → Access → Guests
upgrade t tgid addr a = elim (find_segment t tgid (addr - a.offset)) [
  | none ↦ t
  | some ((i, g), d, m) ↦ write_copy t i g d (set_state m (a.offset / page_size) exclusive)
]

unfoldable pub mkwrite_end :
    Guests → Rpc → (interrupted : Bool) → ℕ → ℕ → ℕ → Access → Guests × Rpc × VmFault
mkwrite_end t r interrupted tgid address slot a =
    let r' = (release r slot).0 in
    if interrupted
    then (t, r', retry)
    else (if succeeded (release r slot).1
        then (upgrade t tgid (page_start address) a, r', success)
        else (t, r', sigbus))
