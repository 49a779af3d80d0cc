-- ===== src/Vfs/Wire.antt =====
-- struct mattx_vfs_x_req and struct mattx_vfs_x_reply of mattx.h, and the unlink's.
use mattx.Base.{ℕ, List, ℤ}
use mattx.Dsm.Rpc.{Stat, Dirent}

-- A file descriptor is an index that a reply gave, so it is not negative; whence and the like are
-- numbers.
pub data Request : Type 0 where
  getattr_req : (req_id : ℕ) → (path : List ℕ) → Request
  readdir_req : (req_id offset : ℕ) → (path : List ℕ) → Request
  open_req : (req_id flags mode uid gid : ℕ) → (path : List ℕ) → Request
  read_req : (req_id remote_fd count at : ℕ) → Request
  write_req : (req_id remote_fd at : ℕ) → List ℕ → Request
  lseek_req : (req_id remote_fd : ℕ) → (offset : ℤ) → (whence : ℕ) → Request
  fsync_req : (req_id remote_fd start end datasync : ℕ) → Request
  unlink_req : (req_id orig_pid uid gid : ℕ) → (path : List ℕ) → Request
  close_req : (remote_fd : ℕ) → Request

-- The contents of a getattr reply; it has no ino.
pub data Reply : Type 0 where
  getattr_reply : (req_id : ℕ) → (error : ℤ) → Stat → Reply
  readdir_reply : (req_id : ℕ) → (error : ℤ) → (new_offset : ℕ) → List Dirent → Reply
  open_reply : (req_id : ℕ) → (error : ℤ) → (remote_fd : ℕ) → Reply
  read_reply : (req_id : ℕ) → (bytes_read : ℤ) → List ℕ → Reply
  write_reply : (req_id : ℕ) → (error bytes_written : ℤ) → Reply
  lseek_reply : (req_id : ℕ) → (error offset : ℤ) → Reply
  fsync_reply : (req_id : ℕ) → (error : ℤ) → Reply
  unlink_reply : (req_id orig_pid : ℕ) → (error : ℤ) → Reply
