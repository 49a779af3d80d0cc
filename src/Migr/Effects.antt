-- ===== src/Migr/Effects.antt =====
-- What mattx_migr.c asks of the kernel and of the other nodes, in order.
use mattx.Base.{ℕ, List, [], ◌∷◌, ◌++◌, Bool, true, false, ◌==◌, if◌then◌else◌, ◌≡◌, refl}
use mattx.Migr.Blueprint.{MigrationReq}

-- The messages, with their payload.
pub data Message : Type 0 where
  migrate_req return_blueprint : MigrationReq → Message
  page_transfer : (absolute_addr : ℕ) (bytes : List ℕ) → Message
  migrate_done return_done : Message
  recall_req : (orig_pid : ℕ) → Message

-- A task is known by its address, as is a link.
pub data Effect : Type 0 where
  get_task put_task : (task : ℕ) → Effect
  add_task_work : (task : ℕ) → Effect
  sigstop sigcont sigkill : (task : ℕ) → Effect
  send : (link : ℕ) → Message → Effect

-- Whether the process is stopped once the signals have arrived, `b` telling whether it was before:
-- either signal acts on the whole process, whichever of its threads it is sent to.
unfoldable pub halted : List Effect → Bool → Bool
halted [] b = b
halted (sigstop u ∷ es) b = halted es true
halted (sigcont u ∷ es) b = halted es false
halted (_ ∷ es) b = halted es b

pub halted-append : (es fs : List Effect) (b : Bool) → halted (es ++ fs) b ≡ halted fs (halted es b)
unfolding halted
halted-append [] fs b = refl
halted-append (get_task u ∷ es) fs b = halted-append es fs b
halted-append (put_task u ∷ es) fs b = halted-append es fs b
halted-append (add_task_work u ∷ es) fs b = halted-append es fs b
halted-append (sigstop u ∷ es) fs b = halted-append es fs true
halted-append (sigcont u ∷ es) fs b = halted-append es fs false
halted-append (sigkill u ∷ es) fs b = halted-append es fs b
halted-append (send l m ∷ es) fs b = halted-append es fs b

-- Whether the last of these signals that is sent to a thread itself is SIGSTOP, and `b` where it is
-- sent none.
unfoldable pub told_to_stop : ℕ → List Effect → Bool → Bool
told_to_stop t [] b = b
told_to_stop t (sigstop u ∷ es) b = told_to_stop t es (if u == t then true else b)
told_to_stop t (sigcont u ∷ es) b = told_to_stop t es (if u == t then false else b)
told_to_stop t (_ ∷ es) b = told_to_stop t es b

pub told_to_stop-append :
    (t : ℕ) (es fs : List Effect) (b : Bool)
    → told_to_stop t (es ++ fs) b ≡ told_to_stop t fs (told_to_stop t es b)
unfolding told_to_stop
told_to_stop-append t [] fs b = refl
told_to_stop-append t (get_task u ∷ es) fs b = told_to_stop-append t es fs b
told_to_stop-append t (put_task u ∷ es) fs b = told_to_stop-append t es fs b
told_to_stop-append t (add_task_work u ∷ es) fs b = told_to_stop-append t es fs b
told_to_stop-append t (sigstop u ∷ es) fs b =
    told_to_stop-append t es fs (if u == t then true else b)
told_to_stop-append t (sigcont u ∷ es) fs b =
    told_to_stop-append t es fs (if u == t then false else b)
told_to_stop-append t (sigkill u ∷ es) fs b = told_to_stop-append t es fs b
told_to_stop-append t (send l m ∷ es) fs b = told_to_stop-append t es fs b
