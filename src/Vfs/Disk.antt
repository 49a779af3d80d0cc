-- ===== src/Vfs/Disk.antt =====
-- The kernel's own file system, as mattx_fileio.c calls it.
use mattx.Base.{ℕ, ◌+◌, ◌≤◌, ◌≡◌, List, Bool, true, Option, none, some, ℤ, length, if◌then◌else◌}
use mattx.Dsm.Rpc.{Stat}

-- A pointer that may be an error: `failed n` is ERR_PTR(-(n + 1)).
pub data Opened : Type 0 where
  failed : ℕ → Opened
  opened : (file : ℕ) → Opened

-- What kernel_read does: an error -(n + 1), or the bytes that it copied.
pub data Got : Type 0 where
  error : ℕ → Got
  bytes : List ℕ → Got

-- vfs_getattr, after kern_path
pub data Looked : Type 0 where
  missing : ℕ → Looked
  found : Stat → Looked

-- What iterate_dir hands to its actor.
pub record DirEntry : Type 0 where
  pub name : List ℕ
  pub offset : ℕ
  pub ino : ℕ
  pub d_type : ℕ

-- The identity that a call runs under. A kernel thread is root, and has the groups and all the
-- capabilities of one, which it keeps when its ids alone are overridden.
pub record Cred : Type 0 where
  pub uid : ℕ
  pub gid : ℕ
  pub of_kernel : Bool

abbrev pub root : Cred
root = record { uid = 0; gid = 0; of_kernel = true }

-- Where a path starts: at the root of the calling process, or at that of the host.
pub data Start : Type 0 where
  own host : Start

-- A file is known by its address, a victim of unlink by that of its directory entry. `Disk` is what
-- the calls change: the disk and the open files on it. kernel_read and kernel_write also give the
-- position that they leave in `*pos`; a read moves it by the bytes that it copied, which are at most
-- those asked for, and not at all if it fails. iterate_dir calls its actor on the entries from a
-- position, as long as it returns true, and gives the position where it stopped; `readdir` is the
-- entry there and the position after it.
pub record FileSystem : Type 1 where
  pub Disk : Type 0
  pub filp_open : Disk → Cred → Start → (path : List ℕ) → (flags mode : ℕ) → Disk × Opened
  pub kernel_read : Disk → (file count at : ℕ) → Disk × Got × ℕ
  pub kernel_write : Disk → (file : ℕ) → List ℕ → (at : ℕ) → Disk × ℤ × ℕ
  pub vfs_llseek : Disk → (file : ℕ) → (offset : ℤ) → (whence : ℕ) → Disk × ℤ
  pub vfs_fsync_range : Disk → (file start end datasync : ℕ) → Disk × ℤ
  pub getattr : Disk → Start → (path : List ℕ) → Looked
  pub kern_path : Disk → Cred → (path : List ℕ) → Opened
  pub mnt_want_write : Disk → (victim : ℕ) → ℤ
  pub in_place : Disk → (victim : ℕ) → Bool
  pub vfs_unlink : Disk → Cred → (victim : ℕ) → Disk × ℤ
  pub iterate_dir :
      {S : Type 0} → Disk → (file : ℕ) → (actor : DirEntry → S → Bool × S) → (start : ℕ) → S → S × ℕ
  pub readdir : Disk → (file at : ℕ) → Option (DirEntry × ℕ)
  pub iterate_end :
      {S : Type 0} (d : Disk) (f : ℕ) (actor : DirEntry → S → Bool × S) (p : ℕ) (s : S)
      → readdir d f p ≡ none
      → iterate_dir d f actor p s ≡ (s, p)
  pub iterate_next :
      {S : Type 0} (d : Disk) (f : ℕ) (actor : DirEntry → S → Bool × S) (p : ℕ) (s : S)
      {e : DirEntry} {q : ℕ}
      → readdir d f p ≡ some (e, q)
      → iterate_dir d f actor p s
        ≡ (if (actor e s).0 then iterate_dir d f actor q (actor e s).1 else ((actor e s).1, p))
  pub entry_at :
      (d : Disk) (f p : ℕ) {e : DirEntry} {q : ℕ} → readdir d f p ≡ some (e, q) → e.offset ≡ p
  pub read_moves :
      (d : Disk) (f n p : ℕ) {bs : List ℕ}
      → (kernel_read d f n p).1 ≡ bytes bs
      → (kernel_read d f n p).2 ≡ p + length bs
  pub read_stays :
      (d : Disk) (f n p : ℕ) {e : ℕ}
      → (kernel_read d f n p).1 ≡ error e
      → (kernel_read d f n p).2 ≡ p
  pub read_within :
      (d : Disk) (f n p : ℕ) {bs : List ℕ} → (kernel_read d f n p).1 ≡ bytes bs → length bs ≤ n
