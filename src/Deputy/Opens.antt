-- ===== src/Deputy/Opens.antt =====
-- A file that a guest opens at home, and closes again.
use mattx.Base.{
  ℕ, ◌<◌, ◌≤◌, ◌≡◌, refl, ◌∙◌, ap, List, Option, none, some, true, false, arith, pos, negsuc, inl,
  inr, Option-cases, ◌==◌, get_elem?, set, leb,
}
use mattx.Registry.Slots.{first-cases, first-set, set-set}
use mattx.Vfs.Disk.{FileSystem, own, opened}
use mattx.Vfs.Home.Counted.{Opened-cases}
use mattx.Deputy.{
  Positions, Task, Host, set_table, free_fd, deputy_of, set_fd, remote_file, inject_file, open_file,
  handle_sys_close_req, get_file, on_disk,
}
use mattx.Deputy.Tables.{IsSlot, free_fd-IsSlot}
use mattx.Deputy.Descriptors.{remote_file-set_fd, set_self}

table_restored :
    (files : Option (List (Option ℕ))) (fd : ℕ) (x y : Option ℕ)
    → IsSlot files fd x
    → set_table (set_table files fd y) fd x ≡ files
table_restored files fd x y s =
    rw (s.has, set_table, set-set s.fdt fd y x, set_self s.fdt fd x s.at) refl

module _ (fs : FileSystem) (ps : Positions fs) where
  -- The tables, the exports and the references are what they were.
  pub record IsUndone (h h' : Host fs) : Type 0 where
    pub tasks : h'.tasks ≡ h.tasks
    pub exports : h'.exports ≡ h.exports
    pub refs : (f : ℕ) → h'.refs f ≡ h.refs f

  injected :
      (h : Host fs) (p i fd : ℕ) (t : Task) (f : ℕ)
      → deputy_of h.tasks p ≡ some (i, t)
      → get_elem? h.tasks i ≡ some t
      → (t.pid == p) ≡ true
      → IsSlot t.files fd none
      → fd < 1000
      → let h' = set_fd fs ps (get_file fs ps h f) i t fd (some f) in
        (remote_file fs ps h' p fd ≡ some f) × IsUndone h (handle_sys_close_req fs ps h' p fd)
  unfolding handle_sys_close_req
  injected h p i fd t f q at hit slot lt =
      let h₁ = get_file fs ps h f in
      let held = remote_file-set_fd fs ps h₁ p i fd t none (some f) q at hit slot lt in
      let small : leb 1000 fd ≡ false = ground arith in
      let t' = record t { files = set_table t.files fd (some f) } in
      let t'' = record t { files = set_table t'.files fd none } in
      let again = first-set (λ t. t.pid == p) h.tasks i t t' q hit in
      let same : t'' ≡ t =
        ap (λ fdt. record t { files = fdt }) (table_restored t.files fd none (some f) slot) in
      (
        held,
        rw (handle_sys_close_req, held, small, again)
            (record {
              tasks =
                  set-set h.tasks i t' t'' ∙ (ap (set h.tasks i) same ∙ set_self h.tasks i t at);
              exports = refl;
              refs = λ x. ground arith;
            }),
      )

  -- An open at home that answers with a descriptor below 1000: it reports no error, the descriptor is
  -- at least 3 and holds the new file, with which filp_open answered under the identity of the deputy;
  -- and a close of it gives back every table, every export and every count of references as they were
  -- before the open.
  pub open_file-IsUndone :
      (h : Host fs) (p flags mode : ℕ) (path : List ℕ) {fd : ℕ}
      → (open_file fs ps h p flags mode path).1 ≡ pos fd
      → fd < 1000
      → let h' = (open_file fs ps h p flags mode path).0 in
        (3 ≤ fd)
        × ((open_file fs ps h p flags mode path).2 ≡ pos 0)
        × ((i : ℕ) × (t : Task) × (f : ℕ) × (deputy_of h.tasks p ≡ some (i, t))
            × ((fs.filp_open h.disk t.cred own path flags mode).1 ≡ opened f)
            × (remote_file fs ps h' p fd ≡ some f))
        × IsUndone h (handle_sys_close_req fs ps h' p fd)
  unfolding open_file inject_file
  open_file-IsUndone h p flags mode path {fd} d lt = elim (first-cases (λ t. t.pid == p) h.tasks) [
    | inl (q, a) ↦
        let d' : (open_file fs ps h p flags mode path).1 ≡ negsuc 0 = rw (open_file, q) refl in
        absurd (ground (arith, d, d'))
    | inr (i, t, q, at, hit) ↦
        let opening = fs.filp_open h.disk t.cred own path flags mode in
        elim (Opened-cases opening.1) [
          | inl (e, w) ↦
              let d' : (open_file fs ps h p flags mode path).1 ≡ negsuc 0 =
                rw (open_file, q, w) refl in
              absurd (ground (arith, d, d'))
          | inr (f, w) ↦ elim (Option-cases (free_fd t.files)) [
            | inl z ↦
                let d' : (open_file fs ps h p flags mode path).1 ≡ negsuc 0 =
                  rw (open_file, q, w, inject_file, z) refl in
                absurd (ground (arith, d, d'))
            | inr (k, z) ↦
                let d' : (open_file fs ps h p flags mode path).1 ≡ pos k =
                  rw (open_file, q, w, inject_file, z) refl in
                let same : fd ≡ k = ground (arith, d, d') in
                let (le, slot) = free_fd-IsSlot t.files z in
                let (held, undone) =
                  injected (on_disk fs ps h opening.0) p i k t f q at hit slot
                    (omega (arith, same)) in
                rw (same, open_file, q, w, inject_file, z)
                  (
                    le,
                    refl,
                    (i, t, f, refl, w, held),
                    record { tasks = undone.tasks; exports = undone.exports; refs = undone.refs },
                  )
          ]
        ]
  ]
