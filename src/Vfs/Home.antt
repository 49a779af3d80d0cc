-- ===== src/Vfs/Home.antt =====
-- The node that has the files: mfs_open_files, and handle_vfs_x_req of mattx_fileio.c.
pub mod Counted
use mattx.Base.{
  ℕ, zero, suc, ◌+◌, ◌-◌, List, [], ◌∷◌, Bool, true, false, ◌&&◌, Option, none, some, ltb, ◌==◌,
  if◌then◌else◌, get_elem?, set, update, is_some, length, min, take, ◌++◌, ℤ, pos, negsuc, not,
}
use mattx.Registry.Slots.{first}
use mattx.Dsm.Rpc.{Stat, Dirent}
use mattx.Vfs.Disk.{
  FileSystem, Cred, root, Start, own, Opened, failed, opened, Got, error, bytes, Looked, missing,
  found, DirEntry,
}
use mattx.Vfs.Wire.{
  Request, Reply, getattr_req, readdir_req, open_req, read_req, write_req, lseek_req, fsync_req,
  unlink_req, close_req, getattr_reply, readdir_reply, open_reply, read_reply, write_reply,
  lseek_reply, fsync_reply, unlink_reply,
}

-- MAX_FDS
abbrev pub max_fds : ℕ
max_fds = 256

abbrev pub enoent : ℤ
enoent = negsuc 1

abbrev pub ebadf : ℤ
ebadf = negsuc 8

-- `refs` counts the references to each open file that the module holds: filp_open and get_file take
-- one, fput gives one up.
pub record Home (fs : FileSystem) : Type 0 where
  pub disk : fs.Disk
  pub open_files : List (Option ℕ)
  pub refs : ℕ → ℕ

-- What the home node's kernel grants during a request: new credentials, the two buffers of a read and
-- the block of a directory listing; the identity of the deputy with a pid; and whether the sender is
-- connected when the answer is sent.
pub record Grants : Type 0 where
  pub has_cred : Bool
  pub has_read_buf : Bool
  pub has_reply : Bool
  pub deputy : ℕ → Option Cred
  pub connected : Bool

-- mattx_override_creds: the ids are the caller's, the rest stays the thread's own; without memory for
-- the credentials nothing is overridden.
abbrev pub masked : ℕ → ℕ → Cred
masked uid gid = record { uid = uid; gid = gid; of_kernel = true }

abbrev pub mask : Grants → ℕ → ℕ → Cred
mask g uid gid = if g.has_cred then masked uid gid else root

abbrev pub is_empty : Option ℕ → Bool
is_empty slot = not (is_some slot)

-- `remote_fd < MAX_FDS && mfs_open_files[remote_fd]`
abbrev pub file_at : List (Option ℕ) → ℕ → Option ℕ
file_at files fd =
    if ltb fd max_fds then elim (get_elem? files fd) [ none ↦ none | some f ↦ f ] else none

abbrev pub no_stat : Stat
no_stat = record {
  ino = 0;
  mode = 0;
  size = 0;
  blocks = 0;
  blksize = 0;
  uid = 0;
  gid = 0;
  nlink = 0;
}

abbrev pub error_of : ℤ → ℤ
error_of (pos n) = pos 0
error_of (negsuc n) = negsuc n

-- `reply.error = res` below zero; else `reply.offset = res`.
abbrev pub seek_reply : ℕ → ℤ → Reply
seek_reply id (pos n) = lseek_reply id (pos 0) (pos n)
seek_reply id (negsuc n) = lseek_reply id (negsuc n) (pos 0)

abbrev pub is_zero : ℤ → Bool
is_zero (pos zero) = true
is_zero _ = false

abbrev pub answer : Grants → Reply → Option Reply
answer g r = if g.connected then some r else none

module _ (fs : FileSystem) where
  abbrev pub get_file : Home fs → ℕ → Home fs
  get_file h f = record h { refs = update h.refs f (suc (h.refs f)) }

  abbrev pub fput : Home fs → ℕ → Home fs
  fput h f = record h { refs = update h.refs f (h.refs f - 1) }

  abbrev pub on_disk : Home fs → fs.Disk → Home fs
  on_disk h d = record h { disk = d }

  -- A slot of mfs_open_files for a new file: its index, or ENFILE and the file is put back.
  unfoldable pub keep_open : Home fs → ℕ → Home fs × Opened
  keep_open h f = elim (first is_empty h.open_files) [
    | none ↦ (fput h f, failed 22)
    | some (i, e) ↦ (record h { open_files = set h.open_files i (some f) }, opened i)
  ]

  unfoldable pub handle_getattr : Home fs → Grants → ℕ → List ℕ → Home fs × Option Reply
  handle_getattr h g id path = elim (fs.getattr h.disk own path) [
    | missing e ↦ (h, answer g (getattr_reply id (negsuc e) no_stat))
    | found s ↦ (h, answer g (getattr_reply id (pos 0) (record s { ino = 0 })))
  ]

  -- filp_open and a slot for the file: its index, or an error.
  unfoldable pub open_as : Home fs → Cred → Start → List ℕ → (flags mode : ℕ) → Home fs × Opened
  open_as h who start path flags mode =
      let d = (fs.filp_open h.disk who start path flags mode).0 in
      elim (fs.filp_open h.disk who start path flags mode).1 [
        | failed e ↦ (on_disk h d, failed e)
        | opened f ↦ keep_open (get_file (on_disk h d) f) f
      ]

  abbrev pub open_answer : ℕ → Opened → Reply
  open_answer id (failed e) = open_reply id (negsuc e) 0
  open_answer id (opened i) = open_reply id (pos 0) i

  unfoldable pub handle_open :
      Home fs → Grants → ℕ → (flags mode uid gid : ℕ) → List ℕ → Home fs × Option Reply
  handle_open h g id flags mode uid gid path =
      let (h', x) = open_as h (mask g uid gid) own path flags mode in
      (h', answer g (open_answer id x))

  abbrev pub read_answer : ℕ → Got → Reply
  read_answer id (error e) = read_reply id (negsuc e) []
  read_answer id (bytes bs) = read_reply id (pos (length bs)) bs

  -- Nothing is sent for a descriptor that is not open, or where a buffer is refused.
  unfoldable pub handle_read : Home fs → Grants → ℕ → (fd count at : ℕ) → Home fs × Option Reply
  handle_read h g id fd count at = elim (file_at h.open_files fd) [
    | none ↦ (h, none)
    | some f ↦
        let h' = get_file h f in
        let d = (fs.kernel_read h'.disk f count at).0 in
        let res = (fs.kernel_read h'.disk f count at).1 in
        if g.has_read_buf
        then (fput (on_disk h' d) f, (if g.has_reply then answer g (read_answer id res) else none))
        else (fput h' f, none)
  ]

  unfoldable pub handle_write : Home fs → Grants → ℕ → (fd at : ℕ) → List ℕ → Home fs × Option Reply
  handle_write h g id fd at content = elim (file_at h.open_files fd) [
    | none ↦ (h, answer g (write_reply id (pos 0) ebadf))
    | some f ↦
        let h' = get_file h f in
        let d = (fs.kernel_write h'.disk f content at).0 in
        let ret = (fs.kernel_write h'.disk f content at).1 in
        (fput (on_disk h' d) f, answer g (write_reply id (error_of ret) ret))
  ]

  unfoldable pub handle_lseek :
      Home fs → Grants → ℕ → (fd : ℕ) → ℤ → (whence : ℕ) → Home fs × Option Reply
  handle_lseek h g id fd offset whence = elim (file_at h.open_files fd) [
    | none ↦ (h, answer g (lseek_reply id ebadf (pos 0)))
    | some f ↦
        let h' = get_file h f in
        let d = (fs.vfs_llseek h'.disk f offset whence).0 in
        let res = (fs.vfs_llseek h'.disk f offset whence).1 in
        (fput (on_disk h' d) f, answer g (seek_reply id res))
  ]

  unfoldable pub handle_fsync :
      Home fs → Grants → ℕ → (fd start end datasync : ℕ) → Home fs × Option Reply
  handle_fsync h g id fd start end datasync = elim (file_at h.open_files fd) [
    | none ↦ (h, answer g (fsync_reply id ebadf))
    | some f ↦
        let h' = get_file h f in
        let d = (fs.vfs_fsync_range h'.disk f start end datasync).0 in
        let res = (fs.vfs_fsync_range h'.disk f start end datasync).1 in
        (fput (on_disk h' d) f, answer g (fsync_reply id res))
  ]

  -- The look-up of the victim, the write access to its mount, the check that it is still there, and the
  -- removal, under one identity.
  unfoldable pub unlink : Home fs → Cred → List ℕ → Home fs × ℤ
  unlink h who path = elim (fs.kern_path h.disk who path) [
    | failed e ↦ (h, negsuc e)
    | opened victim ↦
        if is_zero (fs.mnt_want_write h.disk victim)
        then (if fs.in_place h.disk victim
            then (
              on_disk h (fs.vfs_unlink h.disk who victim).0,
              (fs.vfs_unlink h.disk who victim).1,
            )
            else (h, enoent))
        else (h, fs.mnt_want_write h.disk victim)
  ]

  -- A request of a guest runs as its deputy; where the deputy is gone, nothing is overridden.
  abbrev pub unlink_as : Grants → (orig_pid uid gid : ℕ) → Cred
  unlink_as g orig_pid uid gid =
      if orig_pid == 0
      then mask g uid gid
      else elim (g.deputy orig_pid) [ none ↦ root | some who ↦ who ]

  unfoldable pub handle_unlink :
      Home fs → Grants → ℕ → (orig_pid uid gid : ℕ) → List ℕ → Home fs × Option Reply
  handle_unlink h g id orig_pid uid gid path =
      let (h', res) = unlink h (unlink_as g orig_pid uid gid) path in
      (h', answer g (unlink_reply id orig_pid res))

  unfoldable pub handle_close : Home fs → ℕ → Home fs
  handle_close h fd = elim (file_at h.open_files fd) [
    | none ↦ h
    | some f ↦ fput (record h { open_files = set h.open_files fd none }) f
  ]
