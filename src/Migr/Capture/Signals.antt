-- ===== src/Migr/Capture/Signals.antt =====
-- Which threads are told to stop, and whether the process is stopped, when a capture of mattx_migr.c
-- returns, on each of its branches.
use mattx.Base.{
  ℕ, ◌≡◌, refl, ap, List, [], ◌∷◌, ◌++◌, Bool, true, false, ◌||◌, not, none, some, ◌==◌,
  if◌then◌else◌, arith, Bool-cases, inl, inr,
}
use mattx.Registry.Slots.{find_index, write, view, first-cases, first-set, take-set, set-set}
use mattx.Registry.Guests.{GuestInfo, Guests}
use mattx.Migr.Blueprint.{MigrationReq}
use mattx.Migr.Effects.{
  Effect, Message, migrate_req, return_blueprint, told_to_stop, told_to_stop-append, halted,
  halted-append,
}
use mattx.Migr.Gang.{Gang, gang_of, already_have}
use mattx.Migr.Gang.Settled.{
  gang_of-IsGang, told_to_stop-freeze_task_safely, halted-freeze_task_safely,
}
use mattx.Migr.Capture.{
  can_start, has_memory, Leaving, Config, Found, puts, sigconts, is_gone, remember, is_sent, launch,
  freeze_all, dispatch, capture_and_send_state, capture_and_return_state, set_migrating,
  forward_req, return_req,
}

told_to_stop-puts : (t : ℕ) (us : List ℕ) (b : Bool) → told_to_stop t (puts us) b ≡ b
unfolding told_to_stop
told_to_stop-puts t [] b = refl
told_to_stop-puts t (u ∷ us) b = told_to_stop-puts t us b

told_to_stop-sigconts :
    (t : ℕ) (us : List ℕ) (b : Bool)
    → told_to_stop t (sigconts us) b ≡ (if already_have t us then false else b)
unfolding told_to_stop
told_to_stop-sigconts t [] b = refl
told_to_stop-sigconts t (u ∷ us) b =
    rw (told_to_stop-sigconts t us (if u == t then false else b)) (ground arith)

abbrev pub gang_in : Found → Gang
gang_in f = gang_of f.freezing f.mother f.seen

told_to_stop-freeze_all :
    (f : Found) (t : ℕ) (b : Bool)
    → told_to_stop t (freeze_all f (gang_in f)) b
      ≡ (if already_have t (gang_in f).threads || t == f.mother then true else b)
unfolding freeze_all
told_to_stop-freeze_all f t b =
    let g = gang_in f in
    rw
      (
        told_to_stop-append t _ (g.effects ++ puts g.threads) b,
        told_to_stop-append t g.effects (puts g.threads) _,
        told_to_stop-puts t g.threads _,
        (gang_of-IsGang f.freezing f.mother f.seen).frozen t _,
        told_to_stop-freeze_task_safely f.freezing f.mother t b,
      )
      (ground arith)

told_to_stop-remember :
    (t : ℕ) (l : Leaving) (f : Found) (req : MigrationReq) (node : ℕ) (b : Bool)
    → told_to_stop t (remember l f req node).1 b ≡ b
unfolding remember told_to_stop
told_to_stop-remember t l f req node b = ground arith

told_to_stop-launch :
    (t : ℕ) (f : Found) (m : Message) (ts : List ℕ) (b : Bool)
    → told_to_stop t (launch f m ts) b
      ≡ (if is_sent f then b else (if already_have t ts then false else b))
unfolding launch told_to_stop
told_to_stop-launch t f m ts b = ground (arith, told_to_stop-sigconts t ts b)

-- A thread of the gang is told to stop if the blueprint is away, and to go on otherwise. A thread
-- outside the gang is told nothing, but for the mother, who is told to stop first.
abbrev pub Follows : Found → ℕ → List Effect → Bool → Type 0
Follows f t es b = told_to_stop t es b ≡ (
    if already_have t (gang_in f).threads then is_sent f else (if t == f.mother then true else b))

dispatch-Follows :
    (l : Leaving) (f : Found) (req : MigrationReq) (m : Message) (node t : ℕ) (b : Bool)
    → Follows f t (dispatch l f (gang_in f) req m node).1 b
dispatch-Follows l f req m node t b =
    let g = gang_in f in
    let kept = (remember l f req node).1 in
    let es = freeze_all f g in
    let fs = launch f m g.threads in
    rw
      (
        told_to_stop-append t es (kept ++ fs) b,
        told_to_stop-freeze_all f t b,
        told_to_stop-append t kept fs _,
        told_to_stop-remember t l f req node _,
        told_to_stop-launch t f m g.threads _,
      )
      (ground arith)

halted-puts : (us : List ℕ) (b : Bool) → halted (puts us) b ≡ b
unfolding halted
halted-puts [] b = refl
halted-puts (u ∷ us) b = halted-puts us b

abbrev pub is_nil : List ℕ → Bool
is_nil [] = true
is_nil (t ∷ ts) = false

halted-sigconts :
    (us : List ℕ) (b : Bool) → halted (sigconts us) b ≡ (if is_nil us then b else false)
unfolding halted
halted-sigconts [] b = refl
halted-sigconts (u ∷ us) b = rw (halted-sigconts us false) (ground arith)

halted-freeze_all : (f : Found) (b : Bool) → halted (freeze_all f (gang_in f)) b ≡ true
unfolding freeze_all
halted-freeze_all f b =
    let g = gang_in f in
    rw
      (
        halted-append _ (g.effects ++ puts g.threads) b,
        halted-append g.effects (puts g.threads) _,
        halted-puts g.threads _,
        (gang_of-IsGang f.freezing f.mother f.seen).halts _,
        halted-freeze_task_safely f.freezing f.mother b,
      )
      (ground arith)

halted-remember :
    (l : Leaving) (f : Found) (req : MigrationReq) (node : ℕ) (b : Bool)
    → halted (remember l f req node).1 b ≡ b
unfolding remember halted
halted-remember l f req node b = ground arith

halted-launch :
    (f : Found) (m : Message) (ts : List ℕ) (b : Bool)
    → halted (launch f m ts) b ≡ (if is_sent f then b else (if is_nil ts then b else false))
unfolding launch halted
halted-launch f m ts b = ground (arith, halted-sigconts ts b)

halted-dispatch :
    (l : Leaving) (f : Found) (req : MigrationReq) (m : Message) (node : ℕ) (b : Bool)
    → halted (dispatch l f (gang_in f) req m node).1 b ≡ (is_sent f || is_nil (gang_in f).threads)
halted-dispatch l f req m node b =
    let g = gang_in f in
    let kept = (remember l f req node).1 in
    let es = freeze_all f g in
    let fs = launch f m g.threads in
    rw
      (
        halted-append es (kept ++ fs) b,
        halted-freeze_all f b,
        halted-append kept fs _,
        halted-remember l f req node _,
        halted-launch f m g.threads _,
      )
      (ground arith)

-- A capture that finds memory and whose threads are all still there: the last of the SIGSTOPs and
-- SIGCONTs that it sends to a thread of the gang is a SIGSTOP if the blueprint is away, and a SIGCONT if
-- there is no link or the sending fails; outside the gang no thread but the mother is sent one. As each
-- signal acts on the whole process, the capture leaves the process stopped if the blueprint is away,
-- and running if it is not and the gang has a thread.
pub capture_and_send_state-halted :
    (c : Config) (l : Leaving) (f : Found) (node t : ℕ) (b : Bool)
    → can_start f ≡ true
    → is_gone f.thread (gang_in f).threads false ≡ false
    → Follows f t (capture_and_send_state c l f node).1 b
      × (halted (capture_and_send_state c l f node).1 b ≡ (is_sent f || is_nil (gang_in f).threads))
unfolding capture_and_send_state
capture_and_send_state-halted c l f node t b h n =
    let req = forward_req c f (gang_in f).threads in
    rw (h, n, capture_and_send_state)
      (
        dispatch-Follows (record l { is_returning = false }) f req (migrate_req req) node t b,
        halted-dispatch (record l { is_returning = false }) f req (migrate_req req) node b,
      )

pub capture_and_return_state-halted :
    (c : Config) (l : Leaving) (gs : Guests) (f : Found) (orig_pid node t : ℕ) (b : Bool)
    → has_memory f ≡ true
    → Follows f t (capture_and_return_state c l gs f orig_pid node).2 b
unfolding capture_and_return_state
capture_and_return_state-halted c l gs f orig_pid node t b a =
    let req = return_req c f orig_pid (gang_in f).threads in
    rw (a, capture_and_return_state)
      (dispatch-Follows (record l { is_returning = true }) f req (return_blueprint req) node t b)

set_migrating_hit :
    (t : Guests) (pid i : ℕ) (g : GuestInfo) (flag : Bool)
    → find_index (λ g. g.local_pid == pid) t ≡ some (i, g)
    → set_migrating t pid flag ≡ write t i (record g { is_migrating = flag })
unfolding set_migrating
set_migrating_hit t pid i g flag e = rw (e, set_migrating) refl

set_migrating_miss :
    (t : Guests) (pid : ℕ) (flag : Bool)
    → find_index (λ g. g.local_pid == pid) t ≡ none
    → set_migrating t pid flag ≡ t
unfolding set_migrating
set_migrating_miss t pid flag e = rw (e, set_migrating) refl

set_migrating-set_migrating :
    (t : Guests) (pid : ℕ) (a b : Bool)
    → set_migrating (set_migrating t pid a) pid b ≡ set_migrating t pid b
set_migrating-set_migrating t pid a b = elim (first-cases (λ g. g.local_pid == pid) (view t)) [
  | inl (e, h) ↦ rw (set_migrating_miss t pid a e) refl
  | inr (i, g, e, at_i, hit) ↦
      let g' = record g { is_migrating = a } in
      let again : find_index (λ g. g.local_pid == pid) (write t i g') ≡ some (i, g') =
        rw (take-set t.count t.entries i g')
          (first-set (λ g. g.local_pid == pid) (view t) i g g' e hit) in
      rw
        (
          set_migrating_hit t pid i g a e,
          set_migrating_hit (write t i g') pid i g' b again,
          set_migrating_hit t pid i g b e,
          set-set t.entries i g' (record g { is_migrating = b }),
        )
        refl
]

-- When the capture for the way home returns, the registry is as it was but for the mark of the guest:
-- it is migrating where its blueprint is away, or where there was no memory for one, and is not
-- otherwise.
pub capture_and_return_state-set_migrating :
    (c : Config) (l : Leaving) (gs : Guests) (f : Found) (orig_pid node : ℕ)
    → (capture_and_return_state c l gs f orig_pid node).1
      ≡ set_migrating gs f.pid (is_sent f || not (has_memory f))
unfolding capture_and_return_state
capture_and_return_state-set_migrating c l gs f orig_pid node = elim (Bool-cases (has_memory f)) [
  | inr a ↦ rw (a, capture_and_return_state) (ap (set_migrating gs f.pid) (ground arith))
  | inl a ↦ elim (Bool-cases (is_sent f)) [
    | inl e ↦ rw (a, capture_and_return_state, e) refl
    | inr e ↦ rw (a, capture_and_return_state, e) (set_migrating-set_migrating gs f.pid true false)
  ]
]
