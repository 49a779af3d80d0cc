-- ===== src/Sched/Names.antt =====
-- is_task_excluded and is_task_included of mattx_sched.c. Both test a name against a text of names
-- that commas separate; a text is the list of its bytes, without the final NUL.
pub mod Listed
use mattx.Base.{ℕ, suc, List, [], ◌∷◌, Bool, true, false, ◌&&◌, ◌||◌, ◌==◌, if◌then◌else◌, take}

abbrev pub comma : ℕ
comma = b','

abbrev pub space : ℕ
space = b' '

-- strcmp(a, b) == 0
unfoldable pub same_text : List ℕ → List ℕ → Bool
same_text [] [] = true
same_text [] (b ∷ bs) = false
same_text (a ∷ r) [] = false
same_text (a ∷ r) (b ∷ bs) = a == b && same_text r bs

-- `while (*token == ' ') token++`
unfoldable pub trim : List ℕ → List ℕ
trim [] = []
trim (c ∷ cs) = if c == space then trim cs else c ∷ cs

abbrev onto : ℕ → List (List ℕ) → List (List ℕ)
onto c [] = (c ∷ []) ∷ []
onto c (t ∷ ts) = (c ∷ t) ∷ ts

-- The tokens of `strsep(&rest, ",")`, empty ones too; a text has one token at least.
unfoldable pub tokens : List ℕ → List (List ℕ)
tokens [] = [] ∷ []
tokens (c ∷ cs) = if c == comma then [] ∷ tokens cs else onto c (tokens cs)

unfoldable pub any_token : List ℕ → List (List ℕ) → Bool
any_token comm [] = false
any_token comm (t ∷ ts) = same_text comm (trim t) || any_token comm ts

-- The loop over the copy that strscpy makes in 512 bytes.
unfoldable pub is_listed : List ℕ → List ℕ → Bool
unfolding any_token
is_listed names comm = any_token comm (tokens (take 511 names))
