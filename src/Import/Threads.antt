-- ===== src/Import/Threads.antt =====
-- The gang injection of handle_migrate_done and handle_return_done of mattx_import.c: the threads of
-- the blueprint are written over those that wait here, in the order of for_each_thread.
pub mod Revived
use mattx.Base.{
  ℕ, ◌+◌, List, [], ◌∷◌, ◌++◌, Bool, true, false, ◌&&◌, Option, none, some, ltb, ◌==◌,
  if◌then◌else◌, length, take, drop, min, not,
}
use mattx.Migr.Blueprint.{Thread, ThreadInfo, fpu_state_max}
use mattx.Migr.Gang.{max_gang_threads}

-- `if (fpu && fpu->fpstate && fpu_size > 0) memcpy(...)`, with the size cut to both buffers.
unfoldable pub restore_fpu : ThreadInfo → Option (List ℕ) → Option (List ℕ)
restore_fpu i none = none
restore_fpu i (some image) =
    if ltb 0 i.fpu_size
    then (let fsize = min (min i.fpu_size (length image)) fpu_state_max in
        some (take fsize i.fpu_state ++ drop fsize image))
    else some image

-- TASK_COMM_LEN, less the end of the string
abbrev pub comm_length : ℕ
comm_length = 15

unfoldable pub inject_thread : List ℕ → ThreadInfo → Thread → Thread
unfolding restore_fpu
inject_thread comm i t = record t {
  pt_regs = i.regs;
  fsbase = i.fsbase;
  gsbase = i.gsbase;
  clear_child_tid = i.clear_child_tid;
  set_child_tid = i.set_child_tid;
  fpstate = restore_fpu i t.fpstate;
  comm = take comm_length comm;
}

-- Threads past those of the blueprint stay as they are.
unfoldable pub inject_gang : List ℕ → List ThreadInfo → List Thread → List Thread
unfolding inject_thread
inject_gang comm [] ts = ts
inject_gang comm (i ∷ is) [] = []
inject_gang comm (i ∷ is) (t ∷ ts) = inject_thread comm i t ∷ inject_gang comm is ts

-- `fixup_tids`: the local ids of the threads that were injected.
unfoldable pub injected_tids : List ThreadInfo → List Thread → List ℕ
injected_tids [] ts = []
injected_tids (i ∷ is) [] = []
injected_tids (i ∷ is) (t ∷ ts) = t.pid ∷ injected_tids is ts

-- Where a thread keeps its id in user memory, the id it had, and the id it has here.
pub record TidWord : Type 0 where
  pub addr : ℕ
  pub remote : ℕ
  pub local : ℕ

-- `if (clear_child_tid && tidword_count < MAX_GANG_THREADS)`, `n` being noted already.
unfoldable pub tid_words : ℕ → List ThreadInfo → List Thread → List TidWord
tid_words n [] ts = []
tid_words n (i ∷ is) [] = []
tid_words n (i ∷ is) (t ∷ ts) =
    if not (i.clear_child_tid == 0) && ltb n max_gang_threads
    then record { addr = i.clear_child_tid; remote = i.tid; local = t.pid }
      ∷ tid_words (n + 1) is ts
    else tid_words n is ts
