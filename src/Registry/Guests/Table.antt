-- ===== src/Registry/Guests/Table.antt =====
-- The guest registry of mattx_guest.c as a bag of guests.
use mattx.Base.{
  Bool-cases, inl, inr, ℕ, ◌+◌, ◌-◌, ◌<◌, ◌≤◌, ◌≡◌, refl, ◌∙◌, [], ◌∷◌, ◌++◌, false, ◌||◌, Perm,
  some, arith, ltb, leb, ◌==◌, if◌then◌else◌, get_elem?, pos, length-set, set,
}
use mattx.Registry.Slots.{
  view, IsValid, max_guests, first-append, take-set_end, move_last, move_last_overwritten-perm,
  view_lt, get_elem?-some, get_elem?-take,
}
use mattx.Registry.Guests.{
  GuestInfo, Guests, fresh_guest, is_guest_process, add_guest_process, remove_at,
  remove_guest_process, free_pages, pages_of, cleared,
}

-- What add_guest_process does: nothing on a full registry, else one more guest at the end, with the
-- pids and the home it was given, not waiting, not migrating, and with no page of an earlier guest.
pub record Added (t t' : Guests) (local_pid orig_pid home_node : ℕ) : Type 0 where
  pub full : max_guests ≤ t.count → t' ≡ t
  pub added :
      t.count < max_guests
      → (old : GuestInfo) × (view t'
          ≡ view t ++ (fresh_guest local_pid orig_pid home_node old ∷ []))
        × (pages_of (fresh_guest local_pid orig_pid home_node old) ≡ [])
  pub valid : IsValid t'

-- An add to a full registry changes nothing; else it appends one guest with the given pids and home,
-- whose fields are reset and which has no page of an earlier guest. The registry stays valid.
pub add_guest_process-Added :
    (t : Guests) (local_pid orig_pid home_node : ℕ)
    → IsValid t
    → Added t (add_guest_process t local_pid orig_pid home_node) local_pid orig_pid home_node
unfolding add_guest_process
add_guest_process-Added t l o h v = elim (Bool-cases (ltb t.count max_guests)) [
  | inr full ↦ rw full (record { full = λ _. refl; added = λ lt. absurd (ground arith); valid = v })
  | inl room ↦
      let (old, q) = get_elem?-some t.entries t.count (ground arith) in
      rw (room, q)
        (record {
          full = λ le. absurd (ground arith);
          added = λ lt. (old, take-set_end t.entries t.count _ (omega arith), refl);
          valid = record { size = length-set t.entries t.count _ ∙ v.size; within = ground arith };
        })
]

-- After an add a pid is a guest if it was one, or is the new guest's and there was room.
pub is_guest_process-add_guest_process :
    (t : Guests) (local_pid orig_pid home_node pid : ℕ)
    → IsValid t
    → is_guest_process (add_guest_process t local_pid orig_pid home_node) pid
      ≡ ((if ltb t.count max_guests then local_pid == pid else false) || is_guest_process t pid)
unfolding is_guest_process
is_guest_process-add_guest_process t l o h pid v =
    let a = add_guest_process-Added t l o h v in
    elim (Bool-cases (ltb t.count max_guests)) [
      | inr full ↦ rw (full, a.full (ground arith))
      | inl room ↦
          let (old, e, _) = a.added (ground arith) in
          rw (room, e) (first-append (λ g. g.local_pid == pid) (view t) (fresh_guest l o h old))
    ]

-- Removing an entry takes out that guest and no other, and frees exactly its pages.
pub remove_guest_process-perm :
    (t : Guests) (i : ℕ) (g : GuestInfo)
    → IsValid t
    → get_elem? (view t) i ≡ some g
    → let (t', effects) = remove_guest_process t (pos i) in
      Perm (view t) (g ∷ view t') × IsValid t' × (effects ≡ free_pages (pages_of g))
unfolding remove_guest_process
remove_guest_process-perm t i g v e =
    let lt = view_lt t i e in
    let out : leb t.count i ≡ false = ground arith in
    let q = get_elem?-take t.entries t.count i e in
    let (p, v') = move_last_overwritten-perm t i g (cleared g) v e in
    rw (out, q, remove_at) (p, v', refl)

pub count-remove_guest_process :
    (t : Guests) (i : ℕ) (g : GuestInfo)
    → IsValid t
    → get_elem? (view t) i ≡ some g
    → (remove_guest_process t (pos i)).0.count + 1 ≡ t.count
unfolding remove_guest_process
count-remove_guest_process t i g v e =
    let lt = view_lt t i e in
    let out : leb t.count i ≡ false = ground arith in
    let q = get_elem?-take t.entries t.count i e in
    let (l, r) =
      get_elem?-some (set t.entries i (cleared g)) (t.count - 1)
        (omega (arith, length-set t.entries i (cleared g))) in
    rw (out, q, remove_at) (rw (r, move_last) (omega arith))
