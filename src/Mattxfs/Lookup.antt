-- ===== src/Mattxfs/Lookup.antt =====
-- Names in mattxfs/mattxfs.c: mattxfs_root_lookup, mattxfs_remote_lookup and mattxfs_remote_create.
pub mod Attributes
use Prim.Native.Nat.{bit_or}
use mattx.Base.{
  ℕ, zero, suc, ◌+◌, ◌*◌, ◌/◌, ◌%◌, List, Bool, true, false, Option, none, some, ◌==◌, is_some,
  if◌then◌else◌, ℤ, pos, negsuc,
}
use mattx.Registry.Slots.{first}
use mattx.Dsm.Rpc.{Stat}
use mattx.Vfs.Disk.{Cred}
use mattx.Vfs.Home.{is_zero}
use mattx.Vfs.Ops.{Attrs}

-- Which operations an inode is given: those of a node's files, as a directory or a regular file.
pub data Kind : Type 0 where
  remote_dir remote_file : Kind

pub record Inode : Type 0 where
  pub i_ino : ℕ
  pub i_mode : ℕ
  pub i_size : ℕ
  pub i_blocks : ℕ
  pub i_uid : ℕ
  pub i_gid : ℕ
  pub nlink : ℕ
  pub kind : Kind

-- What a look-up leaves: the dentry as it was, a negative dentry, -ENOMEM, or an inode.
pub data Entry : Type 0 where
  untouched : Entry
  negative : Entry
  no_memory : Entry
  inode : Inode → Entry

-- S_ISDIR
abbrev pub is_dir : ℕ → Bool
is_dir mode = mode / 4096 % 16 == 4

-- S_IFDIR | 0755
abbrev pub node_mode : ℕ
node_mode = 16877

abbrev pub node_inode : ℕ → Inode
node_inode n = record {
  i_ino = n + 1000;
  i_mode = node_mode;
  i_size = 0;
  i_blocks = 0;
  i_uid = 0;
  i_gid = 0;
  nlink = 2;
  kind = remote_dir;
}

abbrev pub found_node : Bool → ℕ → Option (ℕ × ℕ) → Entry
found_node has_inode n none = negative
found_node has_inode n (some _) = if has_inode then inode (node_inode n) else no_memory

-- A new inode has size, blocks and owner 0. A name that spells a negative number is no node.
unfoldable pub root_lookup :
    (kstrtoint : List ℕ → Option ℤ) → (has_inode : Bool) → (nodes name : List ℕ) → Entry
root_lookup kstrtoint has_inode nodes name = elim (kstrtoint name) [
  | none ↦ untouched
  | some id ↦ elim id [
    | pos n ↦ found_node has_inode n (first (λ x. x == n) nodes)
    | negsuc n ↦ negative
  ]
]

abbrev pub inode_of : Stat → Inode
inode_of s = record {
  i_ino = s.ino;
  i_mode = s.mode;
  i_size = s.size;
  i_blocks = s.blocks;
  i_uid = s.uid;
  i_gid = s.gid;
  nlink = if is_dir s.mode then 2 else 1;
  kind = if is_dir s.mode then remote_dir else remote_file;
}

unfoldable pub remote_lookup : (has_inode : Bool) → Attrs → Entry
remote_lookup has_inode a =
    if is_zero a.err
    then (elim a.stat [
      | none ↦ negative
      | some s ↦ if has_inode then inode (inode_of s) else no_memory
    ])
    else negative

-- S_IFREG | mode, owned by the caller; `ino` is what get_next_ino gives.
unfoldable pub remote_create : (has_inode : Bool) → (ino mode : ℕ) → Cred → Entry
remote_create has_inode ino mode who =
    if has_inode
    then inode (record {
      i_ino = ino;
      i_mode = bit_or 32768 mode;
      i_size = 0;
      i_blocks = 0;
      i_uid = who.uid;
      i_gid = who.gid;
      nlink = 1;
      kind = remote_file;
    })
    else no_memory
