-- ===== src/Mattxfs/Listing/Paged.antt =====
-- A directory of another node, read in blocks and through buffers of any size.
use mattx.Base.{
  ℕ, zero, suc, ◌+◌, ◌≤◌, ◌≡◌, ◌⊎◌, refl, ap, ◌∙◌, List, [], ◌∷◌, ◌++◌, map, Bool, true, none,
  arith, if◌then◌else◌, length, take, All, Bool-cases, Option-cases, inl, inr, take-append,
}
use mathlib.Core.List.{map-append}
use mattx.Dsm.Rpc.{Dirent}
use mattx.Vfs.Disk.{FileSystem}
use mattx.Vfs.Readdir.{filldir, dirent, block_size}
use mattx.Vfs.Readdir.Block.{entries_from, iterate-entries_from, entries_from-add, at_end}
use mattx.Vfs.Ops.{Listing}
use mattx.Vfs.Ops.Listed.{block_at}
use mattx.Mattxfs.Listing.{emit_block, remote_iterate, counted, offer}

module _ {S : Type 0} (emit : Dirent → S → Bool × S) where
  -- Reads of a directory, one for each buffer: the entries that the buffers took, and the position.
  unfoldable pub read_on : (remote : ℕ → Listing) → List S → ℕ → List Dirent × ℕ
  read_on remote [] p = ([], p)
  read_on remote (s ∷ ss) p =
      let l = remote p in
      let rest = read_on remote ss (remote_iterate emit l p s).1 in
      (take (offer emit (counted l) s).0 (counted l) ++ rest.0, rest.1)

  module _ (fs : FileSystem) (d : fs.Disk) (f : ℕ) where
    -- The loop over a block stops where the buffer refuses an entry, at that entry's position, or
    -- comes to its end.
    emit_block-entries_from :
        (n p at : ℕ) (s : S)
        → let xs = (entries_from fs d f n p).0 in
          let k = (offer emit (map dirent xs) s).0 in
          let (whole, at', s') = emit_block emit (map dirent xs) at s in
          (k ≤ n)
          × (take k (map dirent xs) ≡ map dirent (entries_from fs d f k p).0)
          × ((if whole then (entries_from fs d f n p).1 else at') ≡ (entries_from fs d f k p).1)
    unfolding emit_block entries_from offer
    emit_block-entries_from zero p at s = (omega arith, refl, refl)
    emit_block-entries_from (suc n) p at s = elim (Option-cases (fs.readdir d f p)) [
      | inl e ↦ rw (entries_from, e) (omega arith, refl, refl)
      | inr ((x, q), e) ↦
          let ih = emit_block-entries_from n q x.offset (emit (dirent x) s).1 in
          elim (Bool-cases (emit (dirent x) s).0) [
            | inl took ↦
                rw (entries_from, e, took)
                  (rw e (omega (arith, ih.0), ap (◌∷◌ (dirent x)) ih.1, ih.2))
            | inr full ↦ rw (entries_from, e, full) (omega arith, refl, fs.entry_at d f p e)
          ]
    ]

    block_lem :
        (p : ℕ)
        → fs.iterate_dir d f filldir p []
          ≡ (map dirent (entries_from fs d f block_size p).0, (entries_from fs d f block_size p).1)
    block_lem p = iterate-entries_from fs d f block_size p [] refl

    counted_block :
        (buf : List Dirent) (p : ℕ)
        → counted (block_at fs d f buf p) ≡ map dirent (entries_from fs d f block_size p).0
    counted_block buf p =
        take-append (fs.iterate_dir d f filldir p []).0 _ refl ∙ ap (λ x. x.0) (block_lem p)

    -- One read: how many entries the buffer took, which they were, and where the next read starts.
    read_lem :
        (buf : List Dirent) (p : ℕ) (s : S)
        → let l = block_at fs d f buf p in
          let k = (offer emit (counted l) s).0 in
          (take k (counted l) ≡ map dirent (entries_from fs d f k p).0)
          × ((remote_iterate emit l p s).1 ≡ (entries_from fs d f k p).1)
    unfolding remote_iterate
    read_lem buf p s =
        let one = emit_block-entries_from block_size p p s in
        rw (counted_block buf p, ap (λ x. x.1) (block_lem p)) (one.1, one.2)

    -- A buffer that takes a first entry takes one, unless the directory is at its end.
    takes_one :
        (p n : ℕ) (s : S)
        → ((x : Dirent) → (emit x s).0 ≡ true)
        → (1 ≤ (offer emit (map dirent (entries_from fs d f (suc n) p).0) s).0)
          ⊎ (fs.readdir d f p ≡ none)
    unfolding entries_from offer
    takes_one p n s h = elim (Option-cases (fs.readdir d f p)) [
      | inl e ↦ inr e
      | inr ((x, q), e) ↦ inl (rw (entries_from, e, h (dirent x)) (omega arith))
    ]

    progress :
        (p k n m : ℕ)
        → (1 ≤ k) ⊎ (fs.readdir d f p ≡ none)
        → (m ≤ n) ⊎ (fs.readdir d f (entries_from fs d f n (entries_from fs d f k p).1).1 ≡ none)
        → (suc m ≤ k + n) ⊎ (fs.readdir d f (entries_from fs d f (k + n) p).1 ≡ none)
    progress p k n m (inl a) (inl b) = inl (omega arith)
    progress p k n m (inr e) (inl b) = inr (rw (at_end fs d f p (k + n) e) e)
    progress p k n m a (inr e) = inr (rw (entries_from-add fs d f k n p) e)

    none_yet :
        (remote : ℕ → Listing) (p : ℕ)
        → read_on remote [] p
          ≡ (map dirent (entries_from fs d f 0 p).0, (entries_from fs d f 0 p).1)
    unfolding entries_from read_on
    none_yet remote p = refl

    -- A directory of another node is read through any number of buffers, each of any size, where every
    -- call of the node gives the block from the position that is asked for and the directory stays as
    -- it is. Together the reads give exactly the next entries of the directory, each once and in
    -- order, their names cut to 63 bytes, and end at the position after them. If every buffer takes
    -- one entry at least, each read makes progress until the directory is at its end.
    pub read_on-entries_from :
        (remote : ℕ → Listing) (buf : List Dirent) (ss : List S) (p : ℕ)
        → ((q : ℕ) → remote q ≡ block_at fs d f buf q)
        → (n : ℕ) × (read_on remote ss p
            ≡ (map dirent (entries_from fs d f n p).0, (entries_from fs d f n p).1))
          × (All (λ s. (x : Dirent) → (emit x s).0 ≡ true) ss
              → (length ss ≤ n) ⊎ (fs.readdir d f (entries_from fs d f n p).1 ≡ none))
    unfolding read_on
    read_on-entries_from remote buf [] p h = (0, none_yet remote p, λ a. inl (omega arith))
    read_on-entries_from remote buf (s ∷ ss) p h =
        let k = (offer emit (counted (block_at fs d f buf p)) s).0 in
        let one = read_lem buf p s in
        let (n, eq, more) = read_on-entries_from remote buf ss (entries_from fs d f k p).1 h in
        (
          k + n,
          rw (h p, one.0, one.1, eq, entries_from-add fs d f k n p)
              (rw
                (map-append dirent (entries_from fs d f k p).0
                  (entries_from fs d f n (entries_from fs d f k p).1).0)
                refl),
          λ a.
              progress p k n (length ss) (rw (counted_block buf p) (takes_one p 19 s a.0))
                (more a.1),
        )
