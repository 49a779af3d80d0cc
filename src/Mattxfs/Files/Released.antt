-- ===== src/Mattxfs/Files/Released.antt =====
-- What an open and a release of mattxfs/mattxfs.c leave on the node of the file.
use mattx.Base.{
  ℕ, zero, suc, ◌≤◌, ◌<◌, ◌≡◌, ◌⊎◌, refl, ap, ◌∙◌, List, [], ◌∷◌, Bool, true, false, Option, none,
  some, arith, ◌==◌, get_elem?, set, length, get_elem?_lt, get_elem?-set_self, Bool-cases, ltb, inl,
  inr,
}
use mattx.Registry.Slots.{first, first-cases, set-set}
use mattx.Vfs.Disk.{FileSystem, Cred, own, failed, opened}
use mattx.Vfs.Wire.{Request, close_req}
use mattx.Vfs.Home.{
  Grants, masked, Home, is_empty, open_as, keep_open, get_file, on_disk, handle_close, max_fds,
}
use mattx.Vfs.Home.Counted.{Opened-cases}
use mattx.Vfs.Client.{Site, Outcome, opened_as}
use mattx.Vfs.Ops.{rpc_vfs_close, local_open, serve}
use mattx.Vfs.Ops.Call.{open_file, CanServe, rpc_vfs, request, woken, on_node, moved_to}
use mattx.Vfs.Ops.Remote.{woken-on_node}
use mattx.Dsm.Rpc.{Rpc, RpcCtx, is_free, u64}
use mattx.Dsm.Rpc.Slots.{IsValid}
use mattx.Mattxfs.Files.{File, remote_file_open, remote_file_release}

set_same {ℓ} :
    {A : Type ℓ} (xs : List A) (i : ℕ) (x : A) → get_elem? xs i ≡ some x → set xs i x ≡ xs
set_same [] i x e = refl
set_same (y ∷ xs) zero x e = ground (arith, e)
set_same (y ∷ xs) (suc i) x e = ap (◌∷◌ y) (set_same xs i x e)

module _ (fs : FileSystem) where
  -- The descriptors of a node and the references on its files.
  pub record SameFiles (h h' : Home fs) : Type 0 where
    pub files : h'.open_files ≡ h.open_files
    pub refs : (f : ℕ) → h'.refs f ≡ h.refs f

  -- What becomes of an open descriptor: nothing to close, or a close on the node.
  abbrev pub closed : Home fs → Option ℕ → Home fs
  closed h none = h
  closed h (some fd) = handle_close fs h fd

  empty-none : (x : Option ℕ) → is_empty x ≡ true → x ≡ none
  empty-none none e = refl
  empty-none (some f) e = absurd (ground (arith, e))

  -- Closing the slot that a new file took.
  close-keep :
      (h : Home fs) (d : fs.Disk) (f i : ℕ)
      → length h.open_files ≤ max_fds
      → get_elem? h.open_files i ≡ some none
      → SameFiles h (
          handle_close fs
            (record (get_file fs (on_disk fs h d) f) { open_files = set h.open_files i (some f) })
            i)
  unfolding handle_close
  close-keep h d f i len e =
      let lt = get_elem?_lt h.open_files i e in
      let low : ltb i max_fds ≡ true = ground (arith, lt, len) in
      rw (low, get_elem?-set_self h.open_files i (some f) lt, handle_close)
        (record {
          files = set-set h.open_files i (some f) none ∙ set_same h.open_files i none e;
          refs = λ x. ground arith;
        })

  -- Whatever the node's open gives, closing what it opened leaves the descriptors and references as
  -- they were; after an error nothing is left to close.
  open_as-SameFiles :
      (h : Home fs) (who : Cred) (path : List ℕ) (flags mode : ℕ)
      → length h.open_files ≤ max_fds
      → let (h', x) = open_as fs h who own path flags mode in
        ((e : ℕ) × (x ≡ failed e) × SameFiles h h')
        ⊎ ((i : ℕ) × (x ≡ opened i) × SameFiles h (handle_close fs h' i))
  unfolding open_as keep_open
  open_as-SameFiles h who path flags mode len =
      elim (Opened-cases (fs.filp_open h.disk who own path flags mode).1) [
        | inl (e, q) ↦ rw (open_as, q) (inl (e, refl, record { files = refl; refs = λ x. refl }))
        | inr (f, q) ↦ elim (first-cases is_empty h.open_files) [
          | inl (full, a) ↦
              rw (open_as, q, keep_open, full)
                (inl (22, refl, record { files = refl; refs = λ x. ground arith }))
          | inr (i, old, free, at_i, empty) ↦
              rw (open_as, q, keep_open, free)
                (inr (
                  i,
                  refl,
                  close-keep h (fs.filp_open h.disk who own path flags mode).0 f i len
                      (at_i ∙ ap some (empty-none old empty)),
                ))
        ]
      ]

  abbrev pub descriptor_of : Option Request → Option ℕ
  descriptor_of (some (close_req fd)) = some fd
  descriptor_of _ = none

  -- Whatever the node's open gives: an open, with what the caller makes of it, and a release.
  opened-SameFiles :
      (s : Site) (here h : Home fs) (who : Cred) (path : List ℕ) (flags mode node : ℕ)
      (has_mem : Bool) (f : File)
      → length h.open_files ≤ max_fds
      → (node == s.my_node_id) ≡ false
      → s.connected node ≡ true
      → f.private_data ≡ none
      → let (h', x) = open_as fs h who own path flags mode in
        let (ret, f', stray) = remote_file_open has_mem node (opened_as x) f in
        let (here', req) = remote_file_release fs s here f' in
        (here' ≡ here) × SameFiles h (closed (closed h' stray) (descriptor_of req))
  unfolding remote_file_open remote_file_release rpc_vfs_close
  opened-SameFiles s here h who path flags mode node has_mem f len n k p =
      elim (open_as-SameFiles h who path flags mode len) [
        | inl (e, q, same) ↦ rw (q, remote_file_release, p) (refl, same)
        | inr (i, q, same) ↦ elim (Bool-cases has_mem) [
          | inl m ↦ rw (q, m, n, k) (refl, same)
          | inr m ↦ rw (q, m, remote_file_release, p) (refl, same)
        ]
      ]

  -- A new struct file for a file of another node that is not read locally, opened over the network
  -- and released. Each waiting call has its own id, ids have not run out and start at 1, a slot is
  -- free, the two nodes are connected both ways, the path is shorter than 255 bytes, and the other
  -- node has memory for the credentials and at most MAX_FDS descriptors. Whether its open fails, its
  -- table is full, the caller has no memory for its record, or all goes well: the open is answered,
  -- and after the close requests that follow the node has the same descriptors and the same
  -- references on its files as before.
  pub remote_file_release-SameFiles :
      (s : Site) (here h : Home fs) (r : Rpc) (node slot : ℕ) (old : RpcCtx) (g : Grants)
      (path : List ℕ) (flags mode : ℕ) (has_mem : Bool) (f : File)
      → IsValid r
      → 0 < r.next_req_id
      → suc r.next_req_id < u64
      → first is_free r.registry ≡ some (slot, old)
      → (node == s.my_node_id) ≡ false
      → s.connected node ≡ true
      → g.connected ≡ true
      → CanServe fs s h g (open_file path flags mode)
      → length h.open_files ≤ max_fds
      → f.private_data ≡ none
      → let c = open_file path flags mode in
        let (here', r', begun) = rpc_vfs fs s here r node c in
        let (h', reply) = serve fs h g (request s c r.next_req_id) in
        (out : Outcome) × (woken fs r' reply slot c ≡ some out)
        × (let (ret, f', stray) = remote_file_open has_mem node out f in
            let (here'', req) = remote_file_release fs s here' f' in
            (here'' ≡ here) × SameFiles h (closed (closed h' stray) (descriptor_of req)))
  unfolding on_node local_open
  remote_file_release-SameFiles s here h r node slot old g path flags mode has_mem f v p u free n k
        l can len e =
      let who = masked s.cred.uid s.cred.gid in
      let x = open_as fs h who own path flags mode in
      let c = open_file path flags mode in
      let (same, begun, after, woke) =
        woken-on_node fs s here h r node slot old g c v p u free n k l can in
      let served : on_node fs h (moved_to s node) c ≡ (x.0, opened_as x.1) =
        rw (can.0, on_node, local_open) refl in
      (
        opened_as x.1,
        woke ∙ ap (λ y. some y.1) served,
        rw (same, after ∙ ap (λ y. y.0) served)
            (opened-SameFiles s here h who path flags mode node has_mem f len n k e),
      )
