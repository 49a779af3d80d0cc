-- ===== src/Deputy.antt =====
-- The home node of a guest serves its system calls on files (mattx_fileio.c): handle_syscall_fwd,
-- handle_sys_read_req, handle_sys_close_req, and handle_sys_open_req, handle_sys_lseek_req,
-- handle_sys_fsync_req, handle_sys_dup_req with their kworkers. A descriptor from 1000 on is a slot of
-- the export's remote_files, one below is a descriptor of the deputy, the process that stayed at home.
-- A request and its kworker are one step; the references on tasks are left out.
pub mod Tables
pub mod Counted
pub mod History
pub mod Descriptors
pub mod Shared
pub mod Opens
use mattx.Base.{
  ℕ, ◌+◌, ◌-◌, ◌≡◌, List, [], Bool, Option, none, some, ltb, leb, ◌==◌, if◌then◌else◌, get_elem?,
  set, update, length, drop, ℤ, pos, negsuc, suc,
}
use mattx.Registry.Slots.{first, find_index, write}
use mattx.Registry.Exports.{Exports, ExportInfo}
use mattx.Vfs.Disk.{FileSystem, Cred, own, failed, opened, Got, error, bytes}
use mattx.Vfs.Home.{file_at, is_empty, ebadf, error_of}

-- The position that a file keeps: file->f_pos, which kernel_read and kernel_write do not move.
pub record Positions (fs : FileSystem) : Type 0 where
  pub f_pos : fs.Disk → (file : ℕ) → ℕ
  pub set_f_pos : fs.Disk → (file at : ℕ) → fs.Disk

-- A task that stayed at home. `files` is its table of descriptors, as long as fdt->max_fds; a task that
-- exits has none.
pub record Task : Type 0 where
  pub pid : ℕ
  pub files : Option (List (Option ℕ))
  pub cred : Cred

pub record Host (fs : FileSystem) : Type 0 where
  pub disk : fs.Disk
  pub tasks : List Task
  pub exports : Exports
  pub refs : ℕ → ℕ

-- Whether the memory of a request is granted (its context, the two buffers of a read), and whether the
-- sender is connected when the answer is sent.
pub record Grants : Type 0 where
  pub has_ctx : Bool
  pub has_read_buf : Bool
  pub has_reply : Bool
  pub connected : Bool

pub data Request : Type 0 where
  sys_open : (orig_pid flags mode : ℕ) → (filename : List ℕ) → Request
  syscall_fwd : (orig_pid fd : ℕ) → (content : List ℕ) → Request
  sys_read : (orig_pid fd count : ℕ) → Request
  sys_close : (orig_pid remote_fd : ℕ) → Request
  sys_lseek : (orig_pid fd : ℕ) → (offset : ℤ) → (whence : ℕ) → Request
  sys_fsync : (orig_pid fd start end datasync : ℕ) → Request
  sys_dup : (orig_pid old_remote_fd : ℕ) → (new_local_fd : ℤ) → Request

pub data Reply : Type 0 where
  open_reply : (orig_pid : ℕ) → (remote_fd error : ℤ) → Reply
  read_reply : (orig_pid : ℕ) → (bytes_read error : ℤ) → List ℕ → Reply
  lseek_reply : (orig_pid : ℕ) → (result_offset error : ℤ) → Reply
  fsync_reply : (orig_pid : ℕ) → (error : ℤ) → Reply
  dup_reply : (orig_pid : ℕ) → (new_remote_fd error : ℤ) → Reply

abbrev pub esrch : ℤ
esrch = negsuc 2

abbrev pub enfile : ℤ
enfile = negsuc 22

abbrev pub answer : Grants → Reply → Option Reply
answer g r = if g.connected then some r else none

abbrev pub table_at : Option (List (Option ℕ)) → ℕ → Option ℕ
table_at none fd = none
table_at (some fdt) fd = elim (get_elem? fdt fd) [ none ↦ none | some x ↦ x ]

abbrev pub set_table : Option (List (Option ℕ)) → ℕ → Option ℕ → Option (List (Option ℕ))
set_table none fd x = none
set_table (some fdt) fd x = some (set fdt fd x)

-- `for (j = 3; j < fdt->max_fds; j++) if (!fdt->fd[j])`
abbrev pub free_fd : Option (List (Option ℕ)) → Option ℕ
free_fd none = none
free_fd (some fdt) = elim (first is_empty (drop 3 fdt)) [ none ↦ none | some (j, x) ↦ some (3 + j) ]

-- pid_task(find_vpid(orig_pid))
abbrev pub deputy_of : List Task → ℕ → Option (ℕ × Task)
deputy_of tasks orig_pid = first (λ t. t.pid == orig_pid) tasks

abbrev pub export_of : Exports → ℕ → Option (ℕ × ExportInfo)
export_of exports orig_pid = find_index (λ e. e.orig_pid == orig_pid) exports

-- The slot of a dup that names one, if the table has it.
abbrev pub within : Option (List (Option ℕ)) → ℕ → Option ℕ
within none fd = none
within (some fdt) fd = if ltb fd (length fdt) then some fd else none

abbrev pub dup_target : Option (List (Option ℕ)) → ℤ → Option ℕ
dup_target files (negsuc n) = free_fd files
dup_target files (pos fd) = within files fd

abbrev pub read_answer : ℕ → Got → Reply
read_answer orig_pid (error e) = read_reply orig_pid (negsuc e) (negsuc e) []
read_answer orig_pid (bytes bs) = read_reply orig_pid (pos (length bs)) (pos 0) bs

module _ (fs : FileSystem) (ps : Positions fs) where
  abbrev pub get_file : Host fs → ℕ → Host fs
  get_file h f = record h { refs = update h.refs f (suc (h.refs f)) }

  abbrev pub fput : Host fs → ℕ → Host fs
  fput h f = record h { refs = update h.refs f (h.refs f - 1) }

  abbrev pub fput_any : Host fs → Option ℕ → Host fs
  fput_any h none = h
  fput_any h (some f) = fput h f

  abbrev pub on_disk : Host fs → fs.Disk → Host fs
  on_disk h d = record h { disk = d }

  abbrev pub set_fd : Host fs → (i : ℕ) → Task → (fd : ℕ) → Option ℕ → Host fs
  set_fd h i t fd x = record h {
    tasks = set h.tasks i (record t { files = set_table t.files fd x });
  }

  -- mattx_get_remote_file, less the reference that it takes.
  unfoldable pub remote_file : Host fs → (orig_pid fd : ℕ) → Option ℕ
  remote_file h orig_pid fd =
      if leb 1000 fd
      then (elim (export_of h.exports orig_pid) [
        | none ↦ none
        | some (i, e) ↦ file_at e.remote_files (fd - 1000)
      ])
      else (elim (deputy_of h.tasks orig_pid) [ none ↦ none | some (i, t) ↦ table_at t.files fd ])

  -- `if (ret >= 0) file->f_pos = pos`
  abbrev pub after_read : fs.Disk × Got × ℕ → ℕ → fs.Disk
  after_read (d, error e, next) f = d
  after_read (d, bytes bs, next) f = ps.set_f_pos d f next

  abbrev pub after_write : fs.Disk × ℤ × ℕ → ℕ → fs.Disk
  after_write (d, pos n, next) f = ps.set_f_pos d f next
  after_write (d, negsuc e, next) f = d

  -- The answer to a read is sent without a test that the sender is connected.
  unfoldable pub handle_sys_read_req :
      Host fs → Grants → (orig_pid fd count : ℕ) → Host fs × Option Reply
  handle_sys_read_req h g orig_pid fd count = elim (remote_file h orig_pid fd) [
    | none ↦ (h, some (read_reply orig_pid ebadf ebadf []))
    | some f ↦
        let h' = get_file h f in
        let x = fs.kernel_read h'.disk f count (ps.f_pos h'.disk f) in
        if g.has_read_buf
        then (
          fput (on_disk h' (after_read x f)) f,
          (if g.has_reply then some (read_answer orig_pid x.1) else none),
        )
        else (fput h' f, none)
  ]

  unfoldable pub handle_syscall_fwd : Host fs → (orig_pid fd : ℕ) → List ℕ → Host fs
  handle_syscall_fwd h orig_pid fd content = elim (remote_file h orig_pid fd) [
    | none ↦ h
    | some f ↦
        let h' = get_file h f in
        let x = fs.kernel_write h'.disk f content (ps.f_pos h'.disk f) in
        fput (on_disk h' (after_write x f)) f
  ]

  unfoldable pub lseek_kworker :
      Host fs → Grants → (orig_pid fd : ℕ) → ℤ → (whence : ℕ) → Host fs × Option Reply
  lseek_kworker h g orig_pid fd offset whence = elim (remote_file h orig_pid fd) [
    | none ↦ (h, answer g (lseek_reply orig_pid ebadf ebadf))
    | some f ↦
        let h' = get_file h f in
        let x = fs.vfs_llseek h'.disk f offset whence in
        (fput (on_disk h' x.0) f, answer g (lseek_reply orig_pid x.1 (error_of x.1)))
  ]

  unfoldable pub fsync_kworker :
      Host fs → Grants → (orig_pid fd start end datasync : ℕ) → Host fs × Option Reply
  fsync_kworker h g orig_pid fd start end datasync = elim (remote_file h orig_pid fd) [
    | none ↦ (h, answer g (fsync_reply orig_pid ebadf))
    | some f ↦
        let h' = get_file h f in
        let x = fs.vfs_fsync_range h'.disk f start end datasync in
        (fput (on_disk h' x.0) f, answer g (fsync_reply orig_pid x.1))
  ]

  -- The new file goes to the first free descriptor from 3 on, or is put back.
  unfoldable pub inject_file : Host fs → (i : ℕ) → Task → ℕ → Host fs × ℤ × ℤ
  inject_file h i t f = elim (free_fd t.files) [
    | none ↦ (fput h f, negsuc 0, enfile)
    | some fd ↦ (set_fd h i t fd (some f), pos fd, pos 0)
  ]

  unfoldable pub open_file : Host fs → (orig_pid flags mode : ℕ) → List ℕ → Host fs × ℤ × ℤ
  open_file h orig_pid flags mode filename = elim (deputy_of h.tasks orig_pid) [
    | none ↦ (h, negsuc 0, esrch)
    | some (i, t) ↦
        let d = (fs.filp_open h.disk t.cred own filename flags mode).0 in
        elim (fs.filp_open h.disk t.cred own filename flags mode).1 [
          | failed e ↦ (on_disk h d, negsuc 0, negsuc e)
          | opened f ↦ inject_file (get_file (on_disk h d) f) i t f
        ]
  ]

  unfoldable pub open_kworker :
      Host fs → Grants → (orig_pid flags mode : ℕ) → List ℕ → Host fs × Option Reply
  open_kworker h g orig_pid flags mode filename =
      let (h', fd, err) = open_file h orig_pid flags mode filename in
      (h', answer g (open_reply orig_pid fd err))

  unfoldable pub handle_sys_close_req : Host fs → (orig_pid remote_fd : ℕ) → Host fs
  handle_sys_close_req h orig_pid fd = elim (remote_file h orig_pid fd) [
    | none ↦ h
    | some f ↦
        if leb 1000 fd
        then (elim (export_of h.exports orig_pid) [
          | none ↦ h
          | some (i, e) ↦
              let e' = record e { remote_files = set e.remote_files (fd - 1000) none } in
              fput (record h { exports = write h.exports i e' }) f
        ])
        else (elim (deputy_of h.tasks orig_pid) [
          | none ↦ h
          | some (i, t) ↦ fput (set_fd h i t fd none) f
        ])
  ]

  -- The duplicate replaces what the slot held, which is put back; the last line gives up the reference
  -- that the look-up took.
  unfoldable pub dup_to : Host fs → (i : ℕ) → Task → (f : ℕ) → ℤ → Host fs × ℤ
  dup_to h i t f new_fd = elim (dup_target t.files new_fd) [
    | none ↦ (h, ebadf)
    | some fd ↦ (fput_any (get_file (set_fd h i t fd (some f)) f) (table_at t.files fd), pos fd)
  ]

  unfoldable pub dup_file : Host fs → (orig_pid old_fd : ℕ) → ℤ → Host fs × ℤ
  dup_file h orig_pid old_fd new_fd = elim (remote_file h orig_pid old_fd) [
    | none ↦ (h, ebadf)
    | some f ↦ elim (deputy_of h.tasks orig_pid) [
      | none ↦ (fput (get_file h f) f, ebadf)
      | some (i, t) ↦ let (h', fd) = dup_to (get_file h f) i t f new_fd in (fput h' f, fd)
    ]
  ]

  unfoldable pub dup_kworker : Host fs → Grants → (orig_pid old_fd : ℕ) → ℤ → Host fs × Option Reply
  dup_kworker h g orig_pid old_fd new_fd =
      let (h', fd) = dup_file h orig_pid old_fd new_fd in
      (h', answer g (dup_reply orig_pid fd (error_of fd)))

  -- A request that a kworker serves is dropped without memory for its context.
  abbrev pub scheduled : Host fs → Grants → Host fs × Option Reply → Host fs × Option Reply
  scheduled h g done = if g.has_ctx then done else (h, none)

  unfoldable pub serve_syscall : Host fs → Grants → Request → Host fs × Option Reply
  serve_syscall h g (sys_open p flags mode path) =
      scheduled h g (open_kworker h g p flags mode path)
  serve_syscall h g (syscall_fwd p fd content) = (handle_syscall_fwd h p fd content, none)
  serve_syscall h g (sys_read p fd count) = handle_sys_read_req h g p fd count
  serve_syscall h g (sys_close p fd) = (handle_sys_close_req h p fd, none)
  serve_syscall h g (sys_lseek p fd offset whence) =
      scheduled h g (lseek_kworker h g p fd offset whence)
  serve_syscall h g (sys_fsync p fd start end datasync) =
      scheduled h g (fsync_kworker h g p fd start end datasync)
  serve_syscall h g (sys_dup p old_fd new_fd) = scheduled h g (dup_kworker h g p old_fd new_fd)
