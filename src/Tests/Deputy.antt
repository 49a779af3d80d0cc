-- ===== src/Tests/Deputy.antt =====
-- A deputy with two open files and an export with one.
use mattx.Base.{
  ℕ, ◌+◌, ◌≡◌, ◌≤◌, refl, List, [], ◌∷◌, true, false, none, some, arith, ◌==◌, if◌then◌else◌, pos,
  negsuc,
}
use mattx.Registry.Exports.{ExportInfo, Exports}
use mattx.Vfs.Disk.{own, opened}
use mattx.Vfs.Home.Counted.{slots_of}
use mattx.Deputy.{
  Positions, Task, Host, Grants, Request, inject_file, dup_to, sys_open, sys_read, sys_dup,
  sys_close, deputy_of, remote_file, open_file, dup_file, handle_sys_close_req, handle_sys_read_req,
}
use mattx.Deputy.Counted.{IsCounted, total}
use mattx.Deputy.History
use mattx.Deputy.History.{run_syscalls-IsCounted}
use mattx.Deputy.Shared.{IsDup, dup_file-IsDup}
use mattx.Deputy.Opens.{IsUndone, open_file-IsUndone}
use mattx.Tests.Disk.{one_file}

-- The disk of one_file is a number, which serves as the one position of all files.
abbrev positions : Positions one_file
positions = record { f_pos = λ d f. d; set_f_pos = λ d f at. at }

abbrev deputy : Task
deputy = record {
  pid = 5;
  files = some (some 1 ∷ none ∷ none ∷ some 2 ∷ none ∷ none ∷ []);
  cred = record { uid = 1000; gid = 1000; of_kernel = false };
}

abbrev exported : ExportInfo
exported = record {
  orig_pid = 5;
  target_node = 2;
  remote_files = some 3 ∷ none ∷ [];
  abort_rpc = false;
  is_growing_gang = false;
}

abbrev exports : Exports
exports = record { entries = exported ∷ []; count = 1 }

abbrev host : Host one_file
host = record {
  disk = 0;
  tasks = deputy ∷ [];
  exports = exports;
  refs = λ f. (if 1 == f then 1 else 0) + ((if 2 == f then 1 else 0) + (if 3 == f then 1 else 0));
}

abbrev grants : Grants
grants = record { has_ctx = true; has_read_buf = true; has_reply = true; connected = true }

host-IsCounted : IsCounted one_file positions host
unfolding slots_of total
host-IsCounted = record { counted = λ f. ground arith }

abbrev session : List (Grants × Request)
session =
    (grants, sys_open 5 0 0 (47 ∷ []))
    ∷ (grants, sys_dup 5 4 (pos 3))
    ∷ (grants, sys_read 5 3 2)
    ∷ (grants, sys_close 5 1000)
    ∷ (grants, sys_close 5 3)
    ∷ []

run_syscalls-IsCounted_example :
    IsCounted one_file positions (History.run one_file positions host session)
run_syscalls-IsCounted_example =
    run_syscalls-IsCounted one_file positions host session host-IsCounted

dup_file-IsDup_example :
    let h' = (dup_file one_file positions host 5 3 (negsuc 0)).0 in
    IsDup one_file positions host h' 5 3 4
    × ((g : Grants) (count : ℕ)
        → handle_sys_read_req one_file positions h' g 5 4 count
          ≡ handle_sys_read_req one_file positions h' g 5 3 count)
unfolding dup_file remote_file dup_to
dup_file-IsDup_example = dup_file-IsDup one_file positions host 5 3 (negsuc 0) refl (omega arith)

open_file-IsUndone_example :
    let h' = (open_file one_file positions host 5 0 0 (47 ∷ [])).0 in
    (3 ≤ 4)
    × ((open_file one_file positions host 5 0 0 (47 ∷ [])).2 ≡ pos 0)
    × ((i : ℕ) × (t : Task) × (f : ℕ) × (deputy_of host.tasks 5 ≡ some (i, t))
        × ((one_file.filp_open host.disk t.cred own (47 ∷ []) 0 0).1 ≡ opened f)
        × (remote_file one_file positions h' 5 4 ≡ some f))
    × IsUndone one_file positions host (handle_sys_close_req one_file positions h' 5 4)
unfolding open_file inject_file
open_file-IsUndone_example =
    open_file-IsUndone one_file positions host 5 0 0 (47 ∷ []) refl (omega arith)
