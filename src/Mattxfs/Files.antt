-- ===== src/Mattxfs/Files.antt =====
-- The open files of mattxfs/mattxfs.c: mattxfs_remote_file_x. Each hands its call to mattx_rpc_vfs_x of
-- Vfs, and `_end` is what it does with the outcome.
pub mod Released
use mattx.Base.{
  ℕ, zero, suc, List, [], ◌∷◌, Bool, true, false, Option, none, some, if◌then◌else◌, take, ℤ, pos,
  negsuc,
}
use mattx.Vfs.Disk.{FileSystem}
use mattx.Vfs.Wire.{Request}
use mattx.Vfs.Home.{Home, is_zero}
use mattx.Vfs.Client.{Site, Outcome, enomem}
use mattx.Vfs.Ops.{rpc_vfs_close}
use mattx.Vfs.Ops.Call.{Call, read, write, llseek, fsync}

-- struct mattxfs_file_info
pub record FileInfo : Type 0 where
  pub node_id : ℕ
  pub remote_fd : ℕ

-- struct file, as far as mattxfs writes it.
pub record File : Type 0 where
  pub private_data : Option FileInfo
  pub f_pos : ℕ

abbrev pub eio : ℤ
eio = negsuc 4

abbrev pub efault : ℤ
efault = negsuc 13

-- The descriptor that an open stored; -1 is never used, since it is read only after a success.
abbrev pub fd_of : Outcome → ℕ
fd_of o = elim o.fd [ none ↦ 0 | some fd ↦ fd ]

-- mattxfs_remote_file_open, once mattx_rpc_vfs_open has the outcome: what it returns, the file, and the
-- descriptor that it closes again where it has no memory for its own record. The record names the node of
-- the dentry even where the file was read locally, and the descriptor with it is this node's.
unfoldable pub remote_file_open :
    (has_mem : Bool) → (node : ℕ) → Outcome → File → ℤ × File × Option ℕ
remote_file_open has_mem node o f =
    if is_zero o.ret
    then (if has_mem
        then (
          o.ret,
          record f { private_data = some (record { node_id = node; remote_fd = fd_of o }) },
          none,
        )
        else (enomem, f, some (fd_of o)))
    else (o.ret, f, none)

-- What a file operation starts: an error at once, or a call for a node.
pub data Started : Type 0 where
  refused : ℤ → Started
  calls : (node : ℕ) → Call → Started

-- `buf` is the kernel's buffer of `count` bytes, where it could be had.
unfoldable pub remote_file_read : File → Option (List ℕ) → (count at : ℕ) → Started
remote_file_read f buf count at = elim f.private_data [
  | none ↦ refused eio
  | some i ↦ elim buf [
    | none ↦ refused enomem
    | some b ↦ calls i.node_id (read i.remote_fd b count at)
  ]
]

-- The bytes go to the process where they can be copied there.
abbrev pub deliver : (can_copy : Bool) → ℤ → List ℕ → ℤ × List ℕ
deliver can_copy (pos zero) bs = (pos zero, [])
deliver can_copy (pos (suc n)) bs =
    if can_copy then (pos (suc n), take (suc n) bs) else (efault, [])
deliver can_copy (negsuc n) bs = (negsuc n, [])

unfoldable pub remote_file_read_end : (can_copy : Bool) → Outcome → ℤ × List ℕ × ℕ
remote_file_read_end can_copy o =
    let bs : List ℕ = elim o.buf [ none ↦ [] | some b ↦ b ] in
    ((deliver can_copy o.ret bs).0, (deliver can_copy o.ret bs).1, o.at)

-- `content` is what could be copied from the process.
unfoldable pub remote_file_write : File → (has_buf : Bool) → Option (List ℕ) → (at : ℕ) → Started
remote_file_write f has_buf content at = elim f.private_data [
  | none ↦ refused eio
  | some i ↦
      if has_buf
      then (elim content [
        | none ↦ refused efault
        | some bs ↦ calls i.node_id (write i.remote_fd bs at)
      ])
      else refused enomem
]

unfoldable pub remote_file_llseek : File → ℤ → (whence : ℕ) → Started
remote_file_llseek f offset whence = elim f.private_data [
  | none ↦ refused eio
  | some i ↦ calls i.node_id (llseek i.remote_fd offset whence)
]

abbrev pub moved : File → ℤ → File
moved f (pos n) = record f { f_pos = n }
moved f (negsuc n) = f

unfoldable pub remote_file_llseek_end : Outcome → File → ℤ × File
remote_file_llseek_end o f = (o.ret, moved f o.ret)

unfoldable pub remote_file_fsync : File → (start end datasync : ℕ) → Started
remote_file_fsync f start end datasync = elim f.private_data [
  | none ↦ refused eio
  | some i ↦ calls i.node_id (fsync i.remote_fd start end datasync)
]

-- mattxfs_remote_file_release: the close, if the file was opened.
unfoldable pub remote_file_release :
    (fs : FileSystem) → Site → Home fs → File → Home fs × Option Request
remote_file_release fs s h f = elim f.private_data [
  | none ↦ (h, none)
  | some i ↦ rpc_vfs_close fs s h i.node_id i.remote_fd
]
