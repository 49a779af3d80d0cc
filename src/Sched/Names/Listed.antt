-- ===== src/Sched/Names/Listed.antt =====
-- is_task_excluded and is_task_included of mattx_sched.c on a list of names written out with commas.
use mattx.Base.{
  ℕ, suc, ◌≤◌, ◌≡◌, ◌≢◌, refl, ap, ◌∙◌, ◌↔◌, List, [], ◌∷◌, ◌++◌, Bool, true, false, ◌||◌, arith,
  ◌==◌, length, take, All,
}
use mattx.Sched.Names.{comma, space, same_text, trim, tokens, any_token, is_listed}

-- Names joined by commas, as an administrator writes them.
abbrev pub join : List (List ℕ) → List ℕ
join [] = []
join (t ∷ []) = t
join (t ∷ u ∷ ts) = t ++ (comma ∷ join (u ∷ ts))

abbrev pub NoComma : List ℕ → Type 0
NoComma = All (λ c. c ≢ comma)

abbrev pub Unspaced : List ℕ → Type 0
Unspaced [] = Unit {0}
Unspaced (c ∷ cs) = c ≢ space

-- The name is one of them.
abbrev pub member : List ℕ → List (List ℕ) → Bool
member comm [] = false
member comm (t ∷ ts) = same_text comm t || member comm ts

tokens-append : (t cs : List ℕ) → NoComma t → tokens (t ++ (comma ∷ cs)) ≡ t ∷ tokens cs
unfolding tokens
tokens-append [] cs h = refl
tokens-append (c ∷ t) cs h =
    let n : (c == comma) ≡ false = ground arith in rw (n, tokens-append t cs h.1)

tokens_one : (t : List ℕ) → NoComma t → tokens t ≡ t ∷ []
unfolding tokens
tokens_one [] h = refl
tokens_one (c ∷ t) h = let n : (c == comma) ≡ false = ground arith in rw (n, tokens_one t h.1)

tokens-join :
    (t : List ℕ) (ts : List (List ℕ)) → All NoComma (t ∷ ts) → tokens (join (t ∷ ts)) ≡ t ∷ ts
tokens-join t [] h = tokens_one t h.0
tokens-join t (u ∷ ts) h = tokens-append t (join (u ∷ ts)) h.0 ∙ ap (◌∷◌ t) (tokens-join u ts h.1)

trim-Unspaced : (t : List ℕ) → Unspaced t → trim t ≡ t
unfolding trim
trim-Unspaced [] h = refl
trim-Unspaced (c ∷ t) h = let n : (c == space) ≡ false = ground arith in rw n

any_token-member :
    (comm : List ℕ) (ts : List (List ℕ)) → All Unspaced ts → any_token comm ts ≡ member comm ts
unfolding any_token
any_token-member comm [] h = refl
any_token-member comm (t ∷ ts) h = rw (trim-Unspaced t h.0, any_token-member comm ts h.1)

take_short : (xs : List ℕ) (n : ℕ) → length xs ≤ n → take n xs ≡ xs
take_short [] ℕ.zero h = refl
take_short [] (suc n) h = refl
take_short (x ∷ xs) ℕ.zero h = absurd (omega arith)
take_short (x ∷ xs) (suc n) h = ap (◌∷◌ x) (take_short xs n (omega arith))

-- With a list of names without commas and without leading spaces, joined by commas into at most 511
-- bytes, a task is on the list exactly if its name is one of them.
pub is_listed-join :
    (t : List ℕ) (ts : List (List ℕ)) (comm : List ℕ)
    → All NoComma (t ∷ ts)
    → All Unspaced (t ∷ ts)
    → length (join (t ∷ ts)) ≤ 511
    → is_listed (join (t ∷ ts)) comm ≡ member comm (t ∷ ts)
unfolding is_listed
is_listed-join t ts comm h u l =
    ap (λ n. any_token comm (tokens n)) (take_short (join (t ∷ ts)) 511 l)
    ∙ ap (any_token comm) (tokens-join t ts h)
    ∙ any_token-member comm (t ∷ ts) u

-- same_text decides equality.
pub same_text_iff : (a b : List ℕ) → (same_text a b ≡ true) ↔ (a ≡ b)
unfolding same_text
same_text_iff [] [] = (λ _. refl, λ _. refl)
same_text_iff [] (b ∷ bs) = (λ h. absurd (ground arith), λ h. absurd (ground arith))
same_text_iff (a ∷ r) [] = (λ h. absurd (ground arith), λ h. absurd (ground arith))
same_text_iff (a ∷ r) (b ∷ bs) =
    let ih = same_text_iff r bs in (λ h. ground arith, λ h. ground arith)
