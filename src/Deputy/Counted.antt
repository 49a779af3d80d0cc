-- ===== src/Deputy/Counted.antt =====
-- The references that the home node holds on the files of its guests.
use mattx.Base.{
  ℕ, zero, suc, ◌+◌, ◌-◌, ◌≡◌, List, [], ◌∷◌, Option, none, some, arith, ◌==◌, leb, get_elem?, set,
  inl, inr, Option-cases, Bool-cases, ℤ, subst,
}
use mattx.Registry.Slots.{first-cases, view, write, take-set}
use mattx.Registry.Exports.{ExportInfo}
use mattx.Vfs.Disk.{FileSystem, own}
use mattx.Vfs.Home.{file_at}
use mattx.Vfs.Home.Counted.{slots_of, holds, slots_of-set, file_at-some, Opened-cases}
use mattx.Deputy.{
  Positions, Task, Host, table_at, set_table, free_fd, dup_target, get_file, fput, on_disk, set_fd,
  remote_file, inject_file, open_file, handle_sys_close_req, dup_to, dup_file,
}
use mattx.Deputy.Tables.{IsSlot, table_at-IsSlot, free_fd-IsSlot, dup_target-IsSlot}

-- The sum of a measure over a list.
unfoldable pub total : {A : Type 0} → (A → ℕ) → List A → ℕ
total m [] = 0
total m (x ∷ xs) = m x + total m xs

total-set :
    {A : Type 0} (m : A → ℕ) (xs : List A) (i : ℕ) (x y : A)
    → get_elem? xs i ≡ some x
    → total m (set xs i y) + m x ≡ total m xs + m y
unfolding total
total-set m [] i x y e = absurd (ground arith)
total-set m (z ∷ xs) zero x y e = ground (arith, e)
total-set m (z ∷ xs) (suc i) x y e = omega (arith, total-set m xs i x y e)

abbrev pub in_table : ℕ → Option (List (Option ℕ)) → ℕ
in_table f none = 0
in_table f (some fdt) = slots_of f fdt

abbrev pub in_task : ℕ → Task → ℕ
in_task f t = in_table f t.files

abbrev pub in_export : ℕ → ExportInfo → ℕ
in_export f e = slots_of f e.remote_files

in_table-set :
    (f : ℕ) (files : Option (List (Option ℕ))) (fd : ℕ) (x y : Option ℕ)
    → IsSlot files fd x
    → in_table f (set_table files fd y) + holds f x ≡ in_table f files + holds f y
in_table-set f files fd x y s = rw s.has (slots_of-set f s.fdt fd x y s.at)

module _ (fs : FileSystem) (ps : Positions fs) where
  -- Every reference on a file is that of a descriptor of a deputy or of a slot of an export, and every
  -- one of those has its own.
  pub record IsCounted (h : Host fs) : Type 0 where
    pub counted :
        (f : ℕ) → h.refs f ≡ total (in_task f) h.tasks + total (in_export f) (view h.exports)

  -- A file that is used and put back.
  pub used-IsCounted :
      (h : Host fs) (d : fs.Disk) (f : ℕ)
      → IsCounted h
      → IsCounted (fput fs ps (on_disk fs ps (get_file fs ps h f) d) f)
  used-IsCounted h d f v = record { counted = λ x. ground (arith, v.counted x, v.counted f) }

  pub on_disk-IsCounted : (h : Host fs) (d : fs.Disk) → IsCounted h → IsCounted (on_disk fs ps h d)
  on_disk-IsCounted h d v = record { counted = λ x. v.counted x }

  tasks-set_fd :
      (h : Host fs) (i : ℕ) (t : Task) (fd : ℕ) (x y : Option ℕ) (f : ℕ)
      → get_elem? h.tasks i ≡ some t
      → IsSlot t.files fd x
      → total (in_task f) (set_fd fs ps h i t fd y).tasks + holds f x
        ≡ total (in_task f) h.tasks + holds f y
  tasks-set_fd h i t fd x y f at s = omega (
    arith,
    total-set (in_task f) h.tasks i t (record t { files = set_table t.files fd y }) at,
    in_table-set f t.files fd x y s,
  )

  inject_file-IsCounted :
      (h : Host fs) (i : ℕ) (t : Task) (f : ℕ)
      → get_elem? h.tasks i ≡ some t
      → IsCounted h
      → IsCounted (inject_file fs ps (get_file fs ps h f) i t f).0
  unfolding inject_file
  inject_file-IsCounted h i t f at v = elim (Option-cases (free_fd t.files)) [
    | inl e ↦ rw (inject_file, e) (used-IsCounted h h.disk f v)
    | inr (fd, e) ↦
        let (le, s) = free_fd-IsSlot t.files e in
        rw (inject_file, e)
          (record {
            counted = λ x.
                ground
                  (arith, v.counted x, v.counted f, tasks-set_fd h i t fd none (some f) x at s);
          })
  ]

  pub open_file-IsCounted :
      (h : Host fs) (p flags mode : ℕ) (path : List ℕ)
      → IsCounted h
      → IsCounted (open_file fs ps h p flags mode path).0
  unfolding open_file
  open_file-IsCounted h p flags mode path v = elim (first-cases (λ t. t.pid == p) h.tasks) [
    | inl (q, a) ↦ rw (open_file, q) v
    | inr (i, t, q, at, hit) ↦
        elim (Opened-cases (fs.filp_open h.disk t.cred own path flags mode).1) [
          | inl (e, w) ↦ rw (open_file, q, w) (on_disk-IsCounted h _ v)
          | inr (f, w) ↦
              rw (open_file, q, w)
                (inject_file-IsCounted (on_disk fs ps h _) i t f at (on_disk-IsCounted h _ v))
        ]
  ]

  closed_export :
      (h : Host fs) (i : ℕ) (e : ExportInfo) (slot f : ℕ)
      → IsCounted h
      → get_elem? (view h.exports) i ≡ some e
      → get_elem? e.remote_files slot ≡ some (some f)
      → let e' = record e { remote_files = set e.remote_files slot none } in
        IsCounted (fput fs ps (record h { exports = write h.exports i e' }) f)
  closed_export h i e slot f v at held = record {
    counted = λ x.
        let e' = record e { remote_files = set e.remote_files slot none } in
        rw (take-set h.exports.count h.exports.entries i e') (
          ground (
            arith,
            v.counted x,
            v.counted f,
            total-set (in_export x) (view h.exports) i e e' at,
            slots_of-set x e.remote_files slot (some f) none held,
          ));
  }

  dup_to-IsCounted :
      (h : Host fs) (i : ℕ) (t : Task) (f : ℕ) (new_fd : ℤ)
      → get_elem? h.tasks i ≡ some t
      → IsCounted h
      → IsCounted (fput fs ps (dup_to fs ps (get_file fs ps h f) i t f new_fd).0 f)
  unfolding dup_to
  dup_to-IsCounted h i t f new_fd at v = elim (Option-cases (dup_target t.files new_fd)) [
    | inl e ↦ rw (dup_to, e) (used-IsCounted h h.disk f v)
    | inr (fd, e) ↦
        let s = dup_target-IsSlot t.files new_fd e in
        elim (Option-cases (table_at t.files fd)) [
          | inl z ↦
              rw (dup_to, e, z)
                (record {
                  counted = λ x. ground (
                    arith,
                    v.counted x,
                    v.counted f,
                    tasks-set_fd h i t fd none (some f) x at (subst (IsSlot t.files fd) z s),
                  );
                })
          | inr (g, z) ↦
              rw (dup_to, e, z)
                (record {
                  counted = λ x. ground (
                    arith,
                    v.counted x,
                    v.counted f,
                    v.counted g,
                    tasks-set_fd h i t fd (some g) (some f) x at (subst (IsSlot t.files fd) z s),
                  );
                })
        ]
  ]

  pub dup_file-IsCounted :
      (h : Host fs) (p old_fd : ℕ) (new_fd : ℤ)
      → IsCounted h
      → IsCounted (dup_file fs ps h p old_fd new_fd).0
  unfolding dup_file
  dup_file-IsCounted h p old_fd new_fd v = elim (Option-cases (remote_file fs ps h p old_fd)) [
    | inl e ↦ rw (dup_file, e) v
    | inr (f, e) ↦ elim (first-cases (λ t. t.pid == p) h.tasks) [
      | inl (q, a) ↦ rw (dup_file, e, q) (used-IsCounted h h.disk f v)
      | inr (i, t, q, at, hit) ↦ rw (dup_file, e, q) (dup_to-IsCounted h i t f new_fd at v)
    ]
  ]

  pub handle_sys_close_req-IsCounted :
      (h : Host fs) (p fd : ℕ) → IsCounted h → IsCounted (handle_sys_close_req fs ps h p fd)
  unfolding handle_sys_close_req remote_file
  handle_sys_close_req-IsCounted h p fd v = elim (Bool-cases (leb 1000 fd)) [
    | inl big ↦ elim (first-cases (λ e. e.orig_pid == p) (view h.exports)) [
      | inl (q, a) ↦ rw (handle_sys_close_req, remote_file, big, q) v
      | inr (i, e, q, at, hit) ↦ elim (Option-cases (file_at e.remote_files (fd - 1000))) [
        | inl z ↦ rw (handle_sys_close_req, remote_file, big, q, z) v
        | inr (f, z) ↦
            rw (handle_sys_close_req, remote_file, big, q, z)
              (rw (big, q)
                (closed_export h i e (fd - 1000) f v at
                  (file_at-some e.remote_files (fd - 1000) f z)))
      ]
    ]
    | inr small ↦ elim (first-cases (λ t. t.pid == p) h.tasks) [
      | inl (q, a) ↦ rw (handle_sys_close_req, remote_file, small, q) v
      | inr (i, t, q, at, hit) ↦ elim (Option-cases (table_at t.files fd)) [
        | inl z ↦ rw (handle_sys_close_req, remote_file, small, q, z) v
        | inr (f, z) ↦
            rw (handle_sys_close_req, remote_file, small, q, z)
              (record {
                counted = λ x. ground (
                  arith,
                  v.counted x,
                  v.counted f,
                  tasks-set_fd h i t fd (some f) none x at (table_at-IsSlot t.files fd z),
                );
              })
      ]
    ]
  ]
