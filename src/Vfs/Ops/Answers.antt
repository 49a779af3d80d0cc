-- ===== src/Vfs/Ops/Answers.antt =====
-- Which requests handle_vfs_x_req of mattx_fileio.c answers.
use mattx.Base.{ℕ, ◌≡◌, Bool, true, ◌&&◌, is_some, Option-cases, inl, inr, arith}
use mattx.Vfs.Disk.{FileSystem}
use mattx.Vfs.Wire.{Reply}
use mattx.Vfs.Home.{
  Home, Grants, file_at, answer, handle_read, handle_write, handle_lseek, handle_fsync, handle_open,
  handle_unlink,
}
use mattx.Vfs.Client.{Site}
use mattx.Vfs.Ops.{serve}
use mattx.Vfs.Ops.Call.{Call, read, write, llseek, fsync, open_file, remove, request}

-- What a read needs besides: an open descriptor and two buffers.
abbrev pub is_possible : {fs : FileSystem} → Home fs → Grants → Call → Bool
is_possible h g (read fd buf count at) =
    is_some (file_at h.open_files fd) && (g.has_read_buf && g.has_reply)
is_possible h g _ = true

answer_lem : (g : Grants) (r : Reply) → is_some (answer g r) ≡ (g.connected && true)
answer_lem g r = ground arith

-- The request of a read, write, llseek, fsync, open or unlink is answered exactly where the sender is
-- connected and, for a read, the descriptor is open and memory is had for both buffers. So of these
-- calls a read alone can go without an answer to a sender that is connected: of a descriptor that is
-- not open, or for want of memory.
pub serve-is_possible :
    (fs : FileSystem) (s : Site) (h : Home fs) (g : Grants) (c : Call) (id : ℕ)
    → is_some (serve fs h g (request s c id)).1 ≡ (g.connected && is_possible h g c)
unfolding serve handle_read handle_write handle_lseek handle_fsync handle_open handle_unlink
serve-is_possible fs s h g (read fd buf count at) id =
    elim (Option-cases (file_at h.open_files fd)) [
      | inl e ↦ rw (e, handle_read) (ground arith)
      | inr (f, e) ↦ rw (e, handle_read) (ground arith)
    ]
serve-is_possible fs s h g (write fd content at) id =
    elim (Option-cases (file_at h.open_files fd)) [
      | inl e ↦ rw (e, handle_write) (answer_lem g _)
      | inr (f, e) ↦ rw (e, handle_write) (answer_lem g _)
    ]
serve-is_possible fs s h g (llseek fd offset whence) id =
    elim (Option-cases (file_at h.open_files fd)) [
      | inl e ↦ rw (e, handle_lseek) (answer_lem g _)
      | inr (f, e) ↦ rw (e, handle_lseek) (answer_lem g _)
    ]
serve-is_possible fs s h g (fsync fd start end datasync) id =
    elim (Option-cases (file_at h.open_files fd)) [
      | inl e ↦ rw (e, handle_fsync) (answer_lem g _)
      | inr (f, e) ↦ rw (e, handle_fsync) (answer_lem g _)
    ]
serve-is_possible fs s h g (open_file path flags mode) id = answer_lem g _
serve-is_possible fs s h g (remove path) id = answer_lem g _
