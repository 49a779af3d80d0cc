-- ===== src/Registry/Exports/Table.antt =====
-- The export registry of mattx_guest.c as a bag of exports.
use mattx.Base.{
  ℕ, ◌+◌, ◌-◌, ◌<◌, ◌≡◌, ap, ◌∙◌, inl, inr, List, [], ◌∷◌, ◌++◌, true, false, Perm, Option, none,
  some, arith, ltb, leb, ◌==◌, if◌then◌else◌, get_elem?, pos, length-set, Bool-cases,
}
use mattx.Registry.Slots.{
  view, IsValid, max_guests, first, take-set_end, move_last, move_last-perm, view_lt,
  get_elem?-some,
}
use mattx.Registry.Exports.{
  ExportInfo, Exports, fresh_export, add_export_process, remove_export_process, get_export_target,
}

pub add_export_process-IsValid :
    (t : Exports) (orig_pid node : ℕ) → IsValid t → IsValid (add_export_process t orig_pid node)
unfolding add_export_process
add_export_process-IsValid t o n v = elim (Bool-cases (ltb t.count max_guests)) [
  | inr full ↦ rw full v
  | inl room ↦
      let (old, q) = get_elem?-some t.entries t.count (ground arith) in
      rw (room, q)
        (record { size = length-set t.entries t.count _ ∙ v.size; within = ground arith })
]

-- One more export at the end, if there is room.
view-add_export_process :
    (t : Exports) (orig_pid node : ℕ)
    → IsValid t
    → t.count < max_guests
    → (old : ExportInfo) × (view (add_export_process t orig_pid node)
        ≡ view t ++ (fresh_export orig_pid node old ∷ []))
unfolding add_export_process
view-add_export_process t o n v h =
    let room : ltb t.count max_guests ≡ true = ground arith in
    let (old, q) = get_elem?-some t.entries t.count (omega arith) in
    (old, rw (room, q) (take-set_end t.entries t.count _ (omega arith)))

add_export_process_full :
    (t : Exports) (orig_pid node : ℕ)
    → ltb t.count max_guests ≡ false
    → add_export_process t orig_pid node ≡ t
unfolding add_export_process
add_export_process_full t o n full = rw full

abbrev target_of : Option (ℕ × ExportInfo) → Option ℕ
target_of none = none
target_of (some (i, e)) = some e.target_node

abbrev or_else : Option ℕ → Option ℕ → Option ℕ
or_else none b = b
or_else (some a) b = some a

target_of-append :
    (pid : ℕ) (xs : List ExportInfo) (e : ExportInfo)
    → target_of (first (λ e. e.orig_pid == pid) (xs ++ (e ∷ [])))
      ≡ or_else
          (target_of (first (λ e. e.orig_pid == pid) xs))
          (if e.orig_pid == pid then some e.target_node else none)
target_of-append pid [] e = ground arith
target_of-append pid (x ∷ xs) e = ground (arith, target_of-append pid xs e)

get_export_target_lem :
    (t : Exports) (pid : ℕ)
    → get_export_target t pid ≡ target_of (first (λ e. e.orig_pid == pid) (view t))
unfolding get_export_target
get_export_target_lem t pid = ground arith

-- A process that is added to a registry with room goes to its node, unless an older entry for the pid
-- is still there, which wins; every other pid, and a full registry, keep their targets.
pub get_export_target-add_export_process :
    (t : Exports) (orig_pid node pid : ℕ)
    → IsValid t
    → get_export_target (add_export_process t orig_pid node) pid ≡ (elim (get_export_target t pid) [
      | some n ↦ some n
      | none ↦
          if ltb t.count max_guests then (if orig_pid == pid then some node else none) else none
    ])
get_export_target-add_export_process t o n pid v = elim (Bool-cases (ltb t.count max_guests)) [
  | inr full ↦ rw (add_export_process_full t o n full) (ground arith)
  | inl room ↦
      let (old, q) = view-add_export_process t o n v (ground arith) in
      ground (
        arith,
        get_export_target_lem (add_export_process t o n) pid,
        get_export_target_lem t pid,
        ap (λ xs. target_of (first (λ e. e.orig_pid == pid) xs)) q,
        target_of-append pid (view t) (fresh_export o n old),
      )
]

-- Removing an entry takes out that export and no other.
pub remove_export_process-perm :
    (t : Exports) (i : ℕ) (e : ExportInfo)
    → IsValid t
    → get_elem? (view t) i ≡ some e
    → Perm (view t) (e ∷ view (remove_export_process t (pos i)))
      × IsValid (remove_export_process t (pos i))
unfolding remove_export_process
remove_export_process-perm t i e v g =
    let lt = view_lt t i g in
    let out : leb t.count i ≡ false = ground arith in rw out (move_last-perm t i e v g)

pub count-remove_export_process :
    (t : Exports) (i : ℕ) (e : ExportInfo)
    → IsValid t
    → get_elem? (view t) i ≡ some e
    → (remove_export_process t (pos i)).count + 1 ≡ t.count
unfolding remove_export_process
count-remove_export_process t i e v g =
    let lt = view_lt t i g in
    let out : leb t.count i ≡ false = ground arith in
    let (l, r) = get_elem?-some t.entries (t.count - 1) (omega arith) in
    rw out (rw (r, move_last) (omega arith))
