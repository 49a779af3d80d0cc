-- ===== src/Import/Return/Words.antt =====
-- The words of user memory that handle_return_done rewrites.
use mattx.Base.{
  ℕ, ◌+◌, ◌<◌, ◌≤◌, ◌≡◌, ◌≢◌, ◌⊎◌, refl, ◌∙◌, List, [], ◌∷◌, Bool, true, false, ◌&&◌, some, ltb,
  ◌==◌, length, get_elem?, get_elem?_lt, arith, Bool-cases, inl, inr, All,
}
use mattx.Comm.Header.{u32_bytes, u32_at}
use mattx.Migr.AddressSpace.{AddressSpace}
use mattx.Import.Threads.{TidWord}
use mattx.Import.Return.{fix_word, fix_words}

module _ (a : AddressSpace) where
  -- No more is stored than there is.
  write_bounded : (m : a.Space) (x : ℕ) (bs : List ℕ) → (a.write m x bs).1 ≤ length bs
  write_bounded m x bs = elim (Bool-cases (ltb (length bs) (a.write m x bs).1)) [
    | inl over ↦
        let e = a.write_inside m x bs (length bs) (ground arith) in
        absurd (omega (arith, get_elem?_lt bs (length bs) e))
    | inr fits ↦ ground arith
  ]

  abbrev stale : a.Space → TidWord → Bool
  stale m w = length (a.read m w.addr 4) == 4 && u32_at (a.read m w.addr 4) == w.remote

  fix_word_same : (m : a.Space) (w : TidWord) → (w.remote == w.local) ≡ true → fix_word a m w ≡ m
  unfolding fix_word
  fix_word_same m w e = rw (e, fix_word) refl

  fix_word_kept :
      (m : a.Space) (w : TidWord)
      → (w.remote == w.local) ≡ false
      → stale m w ≡ false
      → fix_word a m w ≡ m
  unfolding fix_word
  fix_word_kept m w e q = rw (e, fix_word, q) refl

  fix_word_changed :
      (m : a.Space) (w : TidWord)
      → (w.remote == w.local) ≡ false
      → stale m w ≡ true
      → fix_word a m w ≡ (a.write m w.addr (u32_bytes w.local)).0
  unfolding fix_word
  fix_word_changed m w e q = rw (e, fix_word, q) refl

  abbrev pub Outside : ℕ → TidWord → Type 0
  Outside y w = (y < w.addr) ⊎ (w.addr + 4 ≤ y)

  fix_word-Outside :
      (m : a.Space) (w : TidWord) (y : ℕ)
      → Outside y w
      → a.byte_at (fix_word a m w) y ≡ a.byte_at m y
  fix_word-Outside m w y h = elim (Bool-cases (w.remote == w.local)) [
    | inl e ↦ rw (fix_word_same m w e) refl
    | inr e ↦ elim (Bool-cases (stale m w)) [
      | inr q ↦ rw (fix_word_kept m w e q) refl
      | inl q ↦
          let few = write_bounded m w.addr (u32_bytes w.local) in
          rw (fix_word_changed m w e q)
            (a.write_outside m w.addr (u32_bytes w.local) y (ground arith))
    ]
  ]

  -- Rewriting the thread ids changes no byte outside the four bytes of each word.
  pub fix_words-Outside :
      (ws : List TidWord) (m : a.Space) (y : ℕ)
      → All (Outside y) ws
      → a.byte_at (fix_words a m ws) y ≡ a.byte_at m y
  unfolding fix_words
  fix_words-Outside [] m y h = refl
  fix_words-Outside (w ∷ ws) m y h =
      fix_words-Outside ws (fix_word a m w) y h.1 ∙ fix_word-Outside m w y h.0

  -- A word that can be read and written holds the local id afterwards where it held the remote one,
  -- and keeps what it held otherwise.
  pub fix_word_lem :
      (m : a.Space) (w : TidWord) (i : ℕ)
      → w.remote ≢ w.local
      → length (a.read m w.addr 4) ≡ 4
      → (a.write m w.addr (u32_bytes w.local)).1 ≡ 4
      → i < 4
      → (u32_at (a.read m w.addr 4) ≡ w.remote
          → get_elem? (u32_bytes w.local) i ≡ some (a.byte_at (fix_word a m w) (w.addr + i)))
        × (u32_at (a.read m w.addr 4) ≢ w.remote → fix_word a m w ≡ m)
  fix_word_lem m w i ne full whole lt =
      let differ : (w.remote == w.local) ≡ false = ground arith in
      (
        λ e.
            rw (fix_word_changed m w differ (ground arith))
              (a.write_inside m w.addr (u32_bytes w.local) i (omega arith)),
        λ e. fix_word_kept m w differ (ground arith),
      )
