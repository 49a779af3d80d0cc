-- ===== src/Effects.antt =====
-- What the code asks the rest of the kernel and the other nodes to do, in order.
use mattx.Base.{ℕ, List}

pub data Effect : Type 0 where
  -- Messages: the node, then the fields of the payload.
  send_process_exit : (node orig_pid : ℕ) → Effect
  send_kill_surrogate : (node orig_pid : ℕ) → Effect
  send_page_update : (node orig_pid shmid offset : ℕ) (page : List ℕ) → Effect
  -- Calls of the kernel.
  sigkill : (pid : ℕ) → Effect
  fput : (file : ℕ) → Effect
  kfree : (buf : ℕ) → Effect
  free_page : (page : List ℕ) → Effect
