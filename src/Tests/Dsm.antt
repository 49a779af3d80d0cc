-- ===== src/Tests/Dsm.antt =====
-- A segment of which two nodes have a page, a guest with an EXCLUSIVE page, and a call that waits.
use mattx.Base.{
  ℕ, zero, suc, ◌≡◌, ◌/◌, refl, List, [], ◌∷◌, Bool, true, false, none, some, arith, ◌==◌,
  if◌then◌else◌, get_elem?, take, pos,
}
use mattx.Registry.Guests.{page_size, zero_mapping, GuestInfo, DsmMapping, shared, exclusive}
use mattx.Registry.Slots.{view}
use mattx.Dsm.Directory.{
  MasterDir, Host, AcquireReq, dsm_write_acquire_kworker, share, no_bits, set_bit,
}
use mattx.Dsm.Directory.Unique.{IsUnique, key_at}
use mattx.Dsm.Directory.History.{Event, run, run-IsUnique, write_acquire, downgraded, pumped}
use mattx.Dsm.Directory.Acquire.{invalidates, dsm_write_acquire_kworker_again}
use mattx.Dsm.Guest.{
  write_copy, invalidate_guest, invalidate_mapping, PageReq, dsm_invalidate_kworker,
  dsm_flush_kworker, flush_reply, enoent, zero_page,
}
use mattx.Dsm.Guest
use mattx.Dsm.Directory.Sharers.{dsm_write_acquire_kworker-share}
use mattx.Dsm.Guest.Invalidate.{Invalidated, dsm_invalidate_kworker-Invalidated}
use mattx.Dsm.Trap.{Access, Woken, translate, page_start, find_segment, nopage}
use mattx.Dsm.Directory.Fault.{FaultReq}
use mattx.Dsm.Rpc.{Rpc, RpcCtx}
use mattx.Dsm.Rpc.Slots
use mattx.Dsm.Rpc.Slots.{IsValid}
use mattx.Vfs.Home.{no_stat}
use mattx.Tests.Registry.{guest, two_guests}

abbrev segment : MasterDir
segment = record {
  in_use = true;
  shmid = 5;
  home_pid = 20;
  page_state = λ p. shared;
  page_owner_pid = λ p. 0;
  page_shared_mask = λ p. set_bit (set_bit no_bits 3) 70;
}

abbrev dirs : List MasterDir
dirs = segment ∷ []

dirs_once : (i j s : ℕ) → key_at dirs i ≡ some s → key_at dirs j ≡ some s → i ≡ j
unfolding key_at
dirs_once zero zero s p q = refl
dirs_once zero (suc j) s p q = absurd (ground (arith, q))
dirs_once (suc i) j s p q = absurd (ground (arith, p))

dirs-IsUnique : IsUnique dirs
dirs-IsUnique = record { once = dirs_once }

abbrev host : Host
host = record {
  connected = λ n. true;
  maps = λ p s. true;
  alive = λ p. true;
  covers = λ p s o. true;
}

abbrev acquire : ℕ → AcquireReq
acquire pid = record { req_id = 9; orig_pid = pid; shmid = 5; offset = 8192 }

abbrev fault_req : FaultReq
fault_req = record { req_id = 4; orig_pid = 20; shmid = 5; offset = 8192 }

abbrev acquire_and_fault : List Event
acquire_and_fault =
    write_acquire (acquire 20) 3
    ∷ downgraded fault_req
    ∷ write_acquire (acquire 21) 70
    ∷ pumped 2 fault_req 3 true true []
    ∷ pumped 2 (record fault_req { shmid = 6 }) 3 true true []
    ∷ []

dsm_write_acquire_kworker-share_example :
    invalidates 5
      (dsm_write_acquire_kworker host (share dirs 5 20 (8192 / page_size) 5) (acquire 21) 70).1
    ≡ 1
dsm_write_acquire_kworker-share_example =
    dsm_write_acquire_kworker-share host dirs (acquire 21) 20 5 70 0 segment refl (omega arith) refl

run-IsUnique_example : IsUnique (run host dirs (acquire_and_fault))
run-IsUnique_example = run-IsUnique host dirs (acquire_and_fault) dirs-IsUnique

dsm_write_acquire_kworker_again_example :
    invalidates 3
      (dsm_write_acquire_kworker host
        (dsm_write_acquire_kworker host dirs (acquire 20) 3).0
        (acquire 21)
        70).1
    ≡ 0
dsm_write_acquire_kworker_again_example =
    dsm_write_acquire_kworker_again host dirs (acquire 20) (acquire 21) 3 70 3 refl refl

abbrev guest_host : Guest.Host
guest_host = record { can_zap = λ p b. true; connected = λ n. true }

abbrev page_req : PageReq
page_req = record { req_id = 9; orig_pid = 20; shmid = 5; offset = 0 }

abbrev other : GuestInfo
other = guest 11 21 3

abbrev other' : GuestInfo
other' = invalidate_guest page_req other

abbrev mapping : DsmMapping
mapping = record zero_mapping {
  shmid = 5;
  size = 4096;
  pages = λ p. if p == 0 then some (1 ∷ []) else none;
  page_states = λ p. exclusive;
}

other_there :
    get_elem? (view (dsm_invalidate_kworker guest_host two_guests page_req).0) 1 ≡ some other'
unfolding dsm_invalidate_kworker
other_there = refl

mapping_there :
    get_elem? (take other'.dsm_count other'.dsm_map) 0 ≡ some (invalidate_mapping page_req mapping)
unfolding invalidate_guest
mapping_there = refl

dsm_invalidate_kworker-Invalidated_example :
    Invalidated two_guests page_req 1 0 other' (invalidate_mapping page_req mapping)
dsm_invalidate_kworker-Invalidated_example =
    dsm_invalidate_kworker-Invalidated guest_host two_guests page_req 1 0 other'
      (invalidate_mapping page_req mapping) other_there mapping_there

-- A free slot whose last call went well, and one that waits for id 1.
abbrev pub slot : Bool → ℕ → RpcCtx
slot b id = record {
  in_use = b;
  req_id = id;
  done = false;
  error = pos 0;
  stat = no_stat;
  dirents = none;
  dirent_count = 0;
  new_offset = 0;
  remote_fd = 0;
  bytes_rw = pos 0;
  data_buf = some (0 ∷ []);
  ret_offset = pos 0;
}

abbrev pub rpc : Rpc
rpc = record { registry = slot true 1 ∷ slot false 0 ∷ []; next_req_id = 2 }

-- Only slot 0 waits, for id 1.
rpc_key : (i id : ℕ) → Slots.key_at rpc.registry i ≡ some id → (i ≡ 0) × (id ≡ 1)
unfolding Slots.key_at
rpc_key zero id e = ground (arith, e)
rpc_key (suc zero) id e = absurd (ground (arith, e))
rpc_key (suc (suc i)) id e = absurd (ground (arith, e))

pub rpc-IsValid : IsValid rpc
rpc-IsValid = record {
  once = λ i j id p q. ground (arith, rpc_key i id p, rpc_key j id q);
  used = λ i id p. ground (arith, rpc_key i id p);
}

abbrev woken : Woken
woken = record { has_free = true; inserted = nopage }

abbrev other_access : Access
other_access = record { shmid = 5; offset = 0; home_node = 3; orig_pid = 21 }

translate_other : translate two_guests 11 (page_start 100) ≡ some other_access
unfolding translate
translate_other = refl

found_other : find_segment two_guests 11 0 ≡ some ((1, other), 0, mapping)
unfolding find_segment
found_other = refl
