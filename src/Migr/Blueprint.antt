-- ===== src/Migr/Blueprint.antt =====
-- The blueprint of a process: the structs of mattx.h, and the parts of the two captures of
-- mattx_migr.c that fill them in from the kernel's tables.
use mattx.Base.{
  ℕ, ◌+◌, ◌%◌, List, [], ◌∷◌, Bool, true, false, ◌&&◌, not, ◌^◌, Option, none, some, ltb, ◌==◌,
  if◌then◌else◌, length, take, min,
}

-- MAX_FDS, MAX_VMAS, MATTX_FPU_STATE_MAX
abbrev pub max_fds : ℕ
max_fds = 256

abbrev pub max_vmas : ℕ
max_vmas = 1024

-- struct mattx_cpu_regs
pub record CpuRegs : Type 0 where
  pub r15 : ℕ
  pub r14 : ℕ
  pub r13 : ℕ
  pub r12 : ℕ
  pub rbp : ℕ
  pub rbx : ℕ
  pub r11 : ℕ
  pub r10 : ℕ
  pub r9 : ℕ
  pub r8 : ℕ
  pub rax : ℕ
  pub rcx : ℕ
  pub rdx : ℕ
  pub rsi : ℕ
  pub rdi : ℕ
  pub orig_rax : ℕ
  pub rip : ℕ
  pub cs : ℕ
  pub eflags : ℕ
  pub rsp : ℕ
  pub ss : ℕ

abbrev pub fpu_state_max : ℕ
fpu_state_max = 1024

abbrev pub no_regs : CpuRegs
no_regs = record {
  r15 = 0;
  r14 = 0;
  r13 = 0;
  r12 = 0;
  rbp = 0;
  rbx = 0;
  r11 = 0;
  r10 = 0;
  r9 = 0;
  r8 = 0;
  rax = 0;
  rcx = 0;
  rdx = 0;
  rsi = 0;
  rdi = 0;
  orig_rax = 0;
  rip = 0;
  cs = 0;
  eflags = 0;
  rsp = 0;
  ss = 0;
}

-- struct mattx_thread_info. `fpu_state` holds its valid bytes; the array is zero after them.
pub record ThreadInfo : Type 0 where
  pub tid : ℕ
  pub regs : CpuRegs
  pub fsbase : ℕ
  pub gsbase : ℕ
  pub clear_child_tid : ℕ
  pub set_child_tid : ℕ
  pub fpu_size : ℕ
  pub fpu_state : List ℕ

-- struct mattx_vma_info
pub record VmaInfo : Type 0 where
  pub vm_start : ℕ
  pub vm_end : ℕ
  pub vm_flags : ℕ
  pub shmid : ℕ
  pub is_shm : Bool

-- struct mattx_migration_req. An array with a count is a list of the entries in use.
pub record MigrationReq : Type 0 where
  pub orig_pid : ℕ
  pub uid : ℕ
  pub gid : ℕ
  pub home_node : ℕ
  pub thread_count : ℕ
  pub threads : List ThreadInfo
  pub arg_start : ℕ
  pub arg_end : ℕ
  pub start_brk : ℕ
  pub brk : ℕ
  pub vdso_addr : ℕ
  pub monotonic_at_freeze : ℕ
  pub comm : List ℕ
  pub dfsa_dir : List ℕ
  pub fd_count : ℕ
  pub open_fds : List ℕ
  pub vma_count : ℕ
  pub mattxfs_enabled : Bool
  pub vmas : List VmaInfo

-- What the kernel holds of one thread. `fpstate` is its FPU image; its length is `fpstate->size`.
pub record Thread : Type 0 where
  pub pid : ℕ
  pub exiting : Bool
  pub exit_state : ℕ
  pub has_stack : Bool
  pub pt_regs : CpuRegs
  pub fsbase : ℕ
  pub gsbase : ℕ
  pub clear_child_tid : ℕ
  pub set_child_tid : ℕ
  pub fpstate : Option (List ℕ)
  pub comm : List ℕ

-- One area of the process: `name` is that of the file mapped there, and `ino` its inode.
pub record Vma : Type 0 where
  pub vm_start : ℕ
  pub vm_end : ℕ
  pub vm_flags : ℕ
  pub name : Option (List ℕ)
  pub ino : ℕ

unfoldable pub task_capturable : Thread → Bool
task_capturable t = not t.exiting && t.exit_state == 0 && t.has_stack

-- `fpu_size = 0; if (fpu && fpu->fpstate) ...`: the image, cut to the room there is.
abbrev pub saved_fpu : Option (List ℕ) → List ℕ
saved_fpu none = []
saved_fpu (some image) = take (min (length image) fpu_state_max) image

unfoldable pub capture_thread : Thread → ThreadInfo
capture_thread t = record {
  tid = t.pid;
  regs = t.pt_regs;
  fsbase = t.fsbase;
  gsbase = t.gsbase;
  clear_child_tid = t.clear_child_tid;
  set_child_tid = t.set_child_tid;
  fpu_size = length (saved_fpu t.fpstate);
  fpu_state = saved_fpu t.fpstate;
}

-- The numbers of the open entries of the fd table from entry `i` on, `n` being known already.
unfoldable pub collect_fds : List Bool → ℕ → ℕ → List ℕ
collect_fds [] i n = []
collect_fds (b ∷ bs) i n = elim (ltb n max_fds) [
  | false ↦ []
  | true ↦ elim b [ true ↦ i ∷ collect_fds bs (i + 1) (n + 1) | false ↦ collect_fds bs (i + 1) n ]
]

-- `strncmp(name, "SYSV", 4) == 0`
abbrev pub is_sysv : Option (List ℕ) → Bool
is_sysv (some (a ∷ b ∷ c ∷ d ∷ rest)) = a == 83 && b == 89 && c == 83 && d == 86
is_sysv _ = false

abbrev pub capture_vma : Vma → VmaInfo
capture_vma v = record {
  vm_start = v.vm_start;
  vm_end = v.vm_end;
  vm_flags = v.vm_flags;
  shmid = if is_sysv v.name then v.ino % 2 ^ 32 else 0;
  is_shm = is_sysv v.name;
}

-- The walk over the areas, `n` being captured already.
unfoldable pub collect_vmas : List Vma → ℕ → List VmaInfo
collect_vmas [] n = []
collect_vmas (v ∷ vs) n = elim (ltb n max_vmas) [
  | false ↦ []
  | true ↦ capture_vma v ∷ collect_vmas vs (n + 1)
]
