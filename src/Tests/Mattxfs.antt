-- ===== src/Tests/Mattxfs.antt =====
-- A file and a directory of another node, through mattxfs.
use mattx.Base.{
  ℕ, zero, suc, ◌≡◌, ◌⊎◌, refl, List, [], ◌∷◌, ◌++◌, ◌≤◌, Bool, true, false, none, some, arith, ltb,
  if◌then◌else◌, map, length, All,
}
use mattx.Dsm.Rpc.{Dirent}
use mattx.Vfs.Wire.{getattr_req}
use mattx.Vfs.Readdir.{dirent}
use mattx.Vfs.Readdir.Block.{entries_from}
use mattx.Vfs.Client.{asleep, Outcome, is_hpc_local_lib}
use mattx.Vfs.Ops.{rpc_vfs_getattr, serve}
use mattx.Vfs.Ops.Call.{open_file, rpc_vfs, request, woken}
use mattx.Vfs.Ops.Listed.{block_at}
use mattx.Mattxfs.Paths.{Dentry, node, entry, get_remote_path, path_of, get_remote_path-path_of}
use mattx.Mattxfs.Listing.Paged.{read_on, read_on-entries_from}
use mattx.Mattxfs.Files.{File, remote_file_open, remote_file_release}
use mattx.Mattxfs.Files.Released.{SameFiles, closed, descriptor_of, remote_file_release-SameFiles}
use mattx.Mattxfs.Lookup.{Inode, inode}
use mattx.Mattxfs.Lookup.Attributes.{looked, woken_attrs, IsInode, remote_lookup-serve}
use mattx.Tests.Disk.{one_file, stat}
use mattx.Tests.Dsm.{slot, rpc, rpc-IsValid}
use mattx.Tests.Vfs.{site, grants, home, dir}

-- 2/a/b
abbrev file_b : Dentry
file_b = entry (entry (node (50 ∷ [])) (97 ∷ [])) (98 ∷ [])

get_remote_path-path_of_example :
    get_remote_path file_b 256
    ≡ (if ltb (length (path_of file_b)) 256 then some (path_of file_b ++ (0 ∷ [])) else none)
get_remote_path-path_of_example = get_remote_path-path_of file_b 256 (omega arith)

-- A buffer with room for so many entries.
abbrev room : {A : Type 0} → A → ℕ → Bool × ℕ
room x zero = (false, zero)
room x (suc n) = (true, n)

abbrev nodes : List ℕ
nodes = 3 ∷ 5 ∷ 1 ∷ []

read_on-entries_from_example :
    (n : ℕ) × (read_on room (λ q. block_at one_file 1 7 [] q) (1 ∷ 2 ∷ []) 0
      ≡ (map dirent (entries_from one_file 1 7 n 0).0, (entries_from one_file 1 7 n 0).1))
    × (All (λ s. (x : Dirent) → (room x s).0 ≡ true) (1 ∷ 2 ∷ [])
        → (2 ≤ n) ⊎ (one_file.readdir 1 7 (entries_from one_file 1 7 n 0).1 ≡ none))
read_on-entries_from_example =
    read_on-entries_from room one_file 1 7 (λ q. block_at one_file 1 7 [] q) [] (1 ∷ 2 ∷ []) 0
      (λ q. refl)

abbrev new_file : File
new_file = record { private_data = none; f_pos = 0 }

remote_file_release-SameFiles_example :
    let c = open_file dir 0 0 in
    let (here', r', begun) = rpc_vfs one_file site home rpc 2 c in
    let (h', reply) = serve one_file home grants (request site c 2) in
    (out : Outcome) × (woken one_file r' reply 1 c ≡ some out)
    × (let (ret, f', stray) = remote_file_open true 2 out new_file in
        let (here'', req) = remote_file_release one_file site here' f' in
        (here'' ≡ home)
        × SameFiles one_file home
            (closed one_file (closed one_file h' stray) (descriptor_of one_file req)))
unfolding is_hpc_local_lib
remote_file_release-SameFiles_example =
    remote_file_release-SameFiles one_file site home home rpc 2 1 (slot false 0) grants dir 0 0 true
      new_file rpc-IsValid (omega arith) (omega arith) refl refl refl refl (refl, omega arith, refl)
      (omega arith) refl

remote_lookup-serve_example :
    let (r', begun) = rpc_vfs_getattr one_file site home rpc 2 dir in
    let (h', reply) = serve one_file home grants (getattr_req 2 dir) in
    (begun ≡ asleep 1 (getattr_req 2 dir))
    × (h' ≡ home)
    × (i : Inode) × (looked (woken_attrs one_file r' reply 1) ≡ some (inode i))
    × IsInode i stat 0
unfolding is_hpc_local_lib
remote_lookup-serve_example =
    remote_lookup-serve one_file site home home rpc 2 1 (slot false 0) grants dir stat rpc-IsValid
      (omega arith) refl refl refl refl refl (omega arith) refl
