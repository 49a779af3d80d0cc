-- ===== src/Import/Effects.antt =====
-- What the receiving side of a migration asks of the kernel and of the other node, in order.
use mattx.Base.{ℕ}

-- A task, an area and a link are known by their addresses.
pub data Effect : Type 0 where
  spawn_surrogate : Effect
  freeze put_task : (task : ℕ) → Effect
  send_ready : (link : ℕ) → Effect
  set_args : (task arg_start arg_end : ℕ) → Effect
  set_brk : (task start_brk brk : ℕ) → Effect
  set_cred : (task uid gid : ℕ) → Effect
  install_fd : (task fd home_node orig_pid : ℕ) → Effect
  sigcont sigstop : (task : ℕ) → Effect
  arm_tripwire : (vma : ℕ) → Effect
  grow_gang : (task missing : ℕ) → Effect
  exorcise : (task : ℕ) → Effect
