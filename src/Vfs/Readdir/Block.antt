-- ===== src/Vfs/Readdir/Block.antt =====
-- One block of a directory, as iterate_dir and mattx_filldir of mattx_fileio.c make it.
use mattx.Base.{
  ℕ, zero, suc, ◌+◌, ◌≡◌, refl, ap, ◌∙◌, List, [], ◌∷◌, ◌++◌, append_assoc, append-nil, map, true,
  false, none, some, arith, leb, length, length-append, Option-cases, inl, inr,
}
use mattx.Dsm.Rpc.{Dirent}
use mattx.Vfs.Disk.{FileSystem, DirEntry}
use mattx.Vfs.Readdir.{filldir, dirent, block_size}

module _ (fs : FileSystem) (d : fs.Disk) (f : ℕ) where
  -- The next entries of an open directory from a position, `n` at most, and the position after them.
  unfoldable pub entries_from : ℕ → ℕ → List DirEntry × ℕ
  entries_from zero p = ([], p)
  entries_from (suc n) p = elim (fs.readdir d f p) [
    | none ↦ ([], p)
    | some (e, q) ↦ (e ∷ (entries_from n q).0, (entries_from n q).1)
  ]

  pub iterate-entries_from :
      (n p : ℕ) (block : List Dirent)
      → length block + n ≡ block_size
      → fs.iterate_dir d f filldir p block
        ≡ (block ++ map dirent (entries_from n p).0, (entries_from n p).1)
  unfolding entries_from filldir
  iterate-entries_from zero p block h = elim (Option-cases (fs.readdir d f p)) [
    | inl e ↦ fs.iterate_end d f filldir p block e ∙ rw (append-nil block) refl
    | inr ((x, q), e) ↦
        let full : leb block_size (length block) ≡ true = ground arith in
        fs.iterate_next d f filldir p block e ∙ rw (full, append-nil block) refl
  ]
  iterate-entries_from (suc n) p block h = elim (Option-cases (fs.readdir d f p)) [
    | inl e ↦ fs.iterate_end d f filldir p block e ∙ rw (entries_from, e, append-nil block) refl
    | inr ((x, q), e) ↦
        let room : leb block_size (length block) ≡ false = ground arith in
        let more =
          iterate-entries_from n q (block ++ (dirent x ∷ []))
            (omega (arith, length-append block (dirent x ∷ []))) in
        fs.iterate_next d f filldir p block e
        ∙ rw (room, more, entries_from, e, append_assoc block (dirent x ∷ [])) refl
  ]

  pub at_end : (p b : ℕ) → fs.readdir d f p ≡ none → entries_from b p ≡ ([], p)
  unfolding entries_from
  at_end p zero e = refl
  at_end p (suc b) e = rw (entries_from, e) refl

  -- Reading on from where a reading stopped.
  pub entries_from-add :
      (a b p : ℕ)
      → entries_from (a + b) p ≡ (
        (entries_from a p).0 ++ (entries_from b (entries_from a p).1).0,
        (entries_from b (entries_from a p).1).1,
      )
  unfolding entries_from
  entries_from-add zero b p = ap (λ k. entries_from k p) (omega arith)
  entries_from-add (suc a) b p =
      let e : suc a + b ≡ suc (a + b) = omega arith in
      elim (Option-cases (fs.readdir d f p)) [
        | inl q ↦ rw (e, entries_from, q, at_end p b q) refl
        | inr ((x, r), q) ↦ rw (e, entries_from, q, entries_from-add a b r) refl
      ]
