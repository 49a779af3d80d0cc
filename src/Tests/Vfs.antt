-- ===== src/Tests/Vfs.antt =====
-- Two nodes and a file of one of them.
use mattx.Base.{
  ℕ, ◌≡◌, refl, List, [], ◌∷◌, true, false, none, some, arith, ◌==◌, if◌then◌else◌, is_some, ◌&&◌,
}
use mattx.Vfs.Disk.{Cred}
use mattx.Vfs.Wire.{readdir_req, read_req, close_req, open_req}
use mattx.Vfs.Home.{Home, Grants}
use mattx.Vfs.Home.Counted.{IsCounted, slots_of}
use mattx.Vfs.Client.{Site, asleep}
use mattx.Vfs.Ops.{serve, rpc_vfs_readdir}
use mattx.Vfs.Ops.Call.{Call, read, request, rpc_vfs, on_node, woken, moved_to}
use mattx.Vfs.Ops.Remote.{woken-on_node}
use mattx.Vfs.Ops.Listed.{listed_at, woken_listing, woken_listing-listed_at}
use mattx.Vfs.Ops.Answers.{is_possible, serve-is_possible}
use mattx.Vfs.Ops.History
use mattx.Vfs.Ops.History.{run-IsCounted}
use mattx.Tests.Disk.{one_file}
use mattx.Tests.Dsm.{slot, rpc, rpc-IsValid}

abbrev user : Cred
user = record { uid = 1000; gid = 1000; of_kernel = false }

abbrev pub site : Site
site = record {
  my_node_id = 1;
  connected = λ n. true;
  hpc_local_libs = true;
  has_balancer = true;
  cred = user;
  has_mem = true;
}

abbrev pub grants : Grants
grants = record {
  has_cred = true;
  has_read_buf = true;
  has_reply = true;
  deputy = λ p. none;
  connected = true;
}

-- Descriptor 0 is open on file 7.
abbrev pub home : Home one_file
home = record { disk = 0; open_files = some 7 ∷ none ∷ []; refs = λ f. if 7 == f then 1 else 0 }

abbrev read_two : Call
read_two = read 0 (9 ∷ 9 ∷ 9 ∷ []) 2 1

woken-on_node_example :
    let (here', r', begun) = rpc_vfs one_file site home rpc 2 read_two in
    let (h', reply) = serve one_file home grants (request site read_two 2) in
    let (h'', out) = on_node one_file home (moved_to site 2) read_two in
    (here' ≡ home)
    × (begun ≡ asleep 1 (request site read_two 2))
    × (h' ≡ h'')
    × (woken one_file r' reply 1 read_two ≡ some out)
woken-on_node_example =
    woken-on_node one_file site home home rpc 2 1 (slot false 0) grants read_two rpc-IsValid
      (omega arith) (omega arith) refl refl refl refl ((7, refl), refl, refl)

abbrev pub dir : List ℕ
dir = 47 ∷ []

woken_listing-listed_at_example :
    let (here', r', begun) = rpc_vfs_readdir one_file site home rpc 2 dir 0 [] in
    let (h', reply) = serve one_file home grants (readdir_req 2 0 dir) in
    (begun ≡ asleep 1 (readdir_req 2 0 dir))
    × (woken_listing one_file r' reply 1 0 ≡ some (listed_at one_file 1 7 [] 0))
woken_listing-listed_at_example =
    woken_listing-listed_at one_file site home home rpc 2 1 (slot false 0) grants dir 0 7 []
      rpc-IsValid (omega arith) refl refl refl refl refl (omega arith) refl

home-IsCounted : IsCounted one_file home
unfolding slots_of
home-IsCounted = record { counted = λ f. ground arith }

abbrev session : List History.Event
session =
    History.request grants (open_req 5 0 0 1000 1000 dir)
    ∷ History.request grants (read_req 6 1 4 0)
    ∷ History.close 0
    ∷ History.request grants (close_req 9)
    ∷ []

run-IsCounted_example : IsCounted one_file (History.run one_file home session)
run-IsCounted_example = run-IsCounted one_file home session home-IsCounted

-- Descriptor 1 is not open.
serve-is_possible_example :
    is_some (serve one_file home grants (request site (read 1 [] 4 0) 2)).1
    ≡ (true && is_possible home grants (read 1 [] 4 0))
serve-is_possible_example = serve-is_possible one_file site home grants (read 1 [] 4 0) 2
