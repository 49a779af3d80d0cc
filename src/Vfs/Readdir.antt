-- ===== src/Vfs/Readdir.antt =====
-- Listing a directory in blocks: mattx_filldir, and what both ends of mattx_rpc_vfs_readdir do with it.
pub mod Block
use mattx.Base.{
  ℕ, zero, suc, List, [], ◌∷◌, ◌++◌, Bool, true, false, Option, none, some, leb, if◌then◌else◌,
  length, take, ℤ, pos, negsuc,
}
use mattx.Dsm.Rpc.{Dirent}
use mattx.Vfs.Disk.{FileSystem, Cred, root, own, failed, opened, DirEntry}
use mattx.Vfs.Wire.{Reply, readdir_reply}
use mattx.Vfs.Home.{Home, Grants, answer, get_file, fput, on_disk}

-- The entries of a reply, and the longest name in one.
abbrev pub block_size : ℕ
block_size = 20

abbrev pub max_name : ℕ
max_name = 63

-- O_RDONLY | O_DIRECTORY
abbrev pub o_directory : ℕ
o_directory = 65536

abbrev pub dirent : DirEntry → Dirent
dirent e = record { ino = e.ino; offset = e.offset; type = e.d_type; name = take max_name e.name }

unfoldable pub filldir : DirEntry → List Dirent → Bool × List Dirent
filldir e block =
    if leb block_size (length block) then (false, block) else (true, block ++ (dirent e ∷ []))

module _ (fs : FileSystem) where
  -- The listing itself: the node afterwards, an error or the block and the next position.
  unfoldable pub list_dir :
      Home fs → Cred → (path : List ℕ) → (offset : ℕ) → Home fs × ℤ × List Dirent × ℕ
  list_dir h who path offset =
      let d = (fs.filp_open h.disk who own path o_directory 0).0 in
      elim (fs.filp_open h.disk who own path o_directory 0).1 [
        | failed e ↦ (on_disk fs h d, negsuc e, [], 0)
        | opened f ↦
            let h' = get_file fs (on_disk fs h d) f in
            let (block, next) = fs.iterate_dir d f filldir offset [] in
            (fput fs h' f, pos 0, block, next)
      ]

  -- Without memory for the reply the request is dropped.
  unfoldable pub handle_readdir :
      Home fs → Grants → ℕ → (offset : ℕ) → List ℕ → Home fs × Option Reply
  handle_readdir h g id offset path =
      if g.has_reply
      then (let (h', err, block, next) = list_dir h root path offset in
          (h', answer g (readdir_reply id err next block)))
      else (h, none)
