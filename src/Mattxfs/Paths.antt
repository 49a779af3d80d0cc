-- ===== src/Mattxfs/Paths.antt =====
-- get_node_id_from_dentry and get_remote_path_from_dentry of mattxfs/mattxfs.c: which node an entry of
-- the tree belongs to, and the path of its file there.
use mattx.Base.{
  ℕ, zero, suc, ◌-◌, ◌<◌, ◌≡◌, refl, ap, List, [], ◌∷◌, ◌++◌, append_assoc, true, false, Option,
  none, some, arith, ltb, leb, ◌==◌, if◌then◌else◌, length, length-append, ℤ, negsuc, Bool-cases,
  inl, inr,
}

-- A dentry below the root of the mount: the directory of a node, or an entry of a directory.
pub data Dentry : Type 0 where
  node : (name : List ℕ) → Dentry
  entry : (parent : Dentry) → (name : List ℕ) → Dentry

abbrev pub slash : ℕ
slash = 47

-- The walk up to the child of the root.
unfoldable pub node_name : Dentry → List ℕ
node_name (node name) = name
node_name (entry parent name) = node_name parent

-- `kstrtoint` gives the number that a name spells.
unfoldable pub get_node_id : (List ℕ → Option ℤ) → Dentry → ℤ
get_node_id kstrtoint d = elim (kstrtoint (node_name d)) [ none ↦ negsuc 0 | some id ↦ id ]

-- The loop that fills the buffer from its end: `room` bytes below `p`, and the bytes from `p` on;
-- `none` where it writes below the buffer, which the code does not test.
unfoldable pub walk : ℕ → List ℕ → Dentry → Option (ℕ × List ℕ)
walk room out (node name) = some (room, out)
walk room out (entry parent name) =
    let rest = walk (room - suc (length name)) (slash ∷ (name ++ out)) parent in
    if ltb room (suc (length name)) then none else rest

-- `if (*p == '\0') { *(--p) = '/'; }`
abbrev pub finish : ℕ × List ℕ → Option (List ℕ)
finish (room, []) = none
finish (zero, c ∷ cs) = if c == 0 then none else some (c ∷ cs)
finish (suc room, c ∷ cs) = some (if c == 0 then slash ∷ (c ∷ cs) else c ∷ cs)

-- What the buffer starts with afterwards.
unfoldable pub get_remote_path : Dentry → (buflen : ℕ) → Option (List ℕ)
get_remote_path d buflen = elim (walk (buflen - 1) (0 ∷ []) d) [ none ↦ none | some w ↦ finish w ]

-- The names from below the node's directory, each after a slash.
unfoldable pub names : Dentry → List ℕ
names (node name) = []
names (entry parent name) = names parent ++ (slash ∷ name)

abbrev pub path_of : Dentry → List ℕ
path_of (node name) = slash ∷ []
path_of (entry parent name) = names (entry parent name)

walk_lem :
    (room : ℕ) (out : List ℕ) (d : Dentry)
    → walk room out d ≡ (
        if leb (length (names d)) room
        then some (room - length (names d), names d ++ out)
        else none)
unfolding walk names
walk_lem room out (node name) = ground arith
walk_lem room out (entry parent name) =
    let n = suc (length name) in
    let ih = walk_lem (room - n) (slash ∷ (name ++ out)) parent in
    let len = length-append (names parent) (slash ∷ name) in
    let assoc = append_assoc (names parent) (slash ∷ name) out in
    elim (Bool-cases (ltb room n)) [
      | inl short ↦
          let no : leb (length (names parent ++ (slash ∷ name))) room ≡ false =
            ground (arith, len, short) in
          rw (short, no) refl
      | inr fits ↦ elim (Bool-cases (leb (length (names parent)) (room - n))) [
        | inl e ↦
            let yes_fits : leb (length (names parent ++ (slash ∷ name))) room ≡ true =
              ground (arith, len, fits, e) in
            let left : room - n - length (names parent)
                ≡ room - length (names parent ++ (slash ∷ name)) =
              omega (arith, len) in
            rw (fits, ih, e, yes_fits, left, assoc) refl
        | inr e ↦
            let no : leb (length (names parent ++ (slash ∷ name))) room ≡ false =
              ground (arith, len, fits, e) in
            rw (fits, ih, e, no) refl
      ]
    ]

head_slash :
    (parent : Dentry) (name : List ℕ) → (rest : List ℕ) × (names (entry parent name) ≡ slash ∷ rest)
unfolding names
head_slash (node x) name = (name, refl)
head_slash (entry p x) name =
    let (rest, e) = head_slash p x in (rest ++ (slash ∷ name), ap (λ t. t ++ (slash ∷ name)) e)

finish_lem : (room : ℕ) (out rest : List ℕ) → out ≡ slash ∷ rest → finish (room, out) ≡ some out
finish_lem zero out rest e = rw e refl
finish_lem (suc room) out rest e = rw e refl

back : (b : ℕ) → suc (suc b) - 1 ≡ suc b
back b = omega arith

path_of_node :
    (name : List ℕ) (b : ℕ)
    → get_remote_path (node name) (suc (suc b))
      ≡ (if ltb 1 (suc (suc b)) then some (slash ∷ (0 ∷ [])) else none)
unfolding get_remote_path walk
path_of_node name b =
    let long : ltb 1 (suc (suc b)) ≡ true = ground arith in rw (get_remote_path, back b, long) refl

-- A buffer of two bytes or more holds afterwards the path of the entry on its node, "/" for the node's
-- own directory, and its NUL, exactly where these fit; for a longer path the code writes below the
-- buffer.
pub get_remote_path-path_of :
    (d : Dentry) (buflen : ℕ)
    → 1 < buflen
    → get_remote_path d buflen
      ≡ (if ltb (length (path_of d)) buflen then some (path_of d ++ (0 ∷ [])) else none)
unfolding get_remote_path
get_remote_path-path_of (node name) (suc (suc b)) h = path_of_node name b
get_remote_path-path_of (entry parent name) (suc (suc b)) h =
    let (rest, e) = head_slash parent name in
    let out = names (entry parent name) in
    elim (Bool-cases (leb (length out) (suc b))) [
      | inl fits ↦
          let yes_fits : ltb (length out) (suc (suc b)) ≡ true = ground (arith, fits) in
          rw
            (get_remote_path, back b, walk_lem (suc b) (0 ∷ []) (entry parent name), fits, yes_fits)
            (finish_lem (suc b - length out) (out ++ (0 ∷ [])) (rest ++ (0 ∷ []))
              (ap (λ t. t ++ (0 ∷ [])) e))
      | inr long ↦
          let no : ltb (length out) (suc (suc b)) ≡ false = ground (arith, long) in
          rw (get_remote_path, back b, walk_lem (suc b) (0 ∷ []) (entry parent name), long, no) refl
    ]
get_remote_path-path_of d (suc zero) h = absurd (omega arith)
get_remote_path-path_of d zero h = absurd (omega arith)
