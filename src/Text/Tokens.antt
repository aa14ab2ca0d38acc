-- ===== src/Text/Tokens.antt =====
-- What strtok takes off a string, and how many separators that costs.
use ribabari.Prelude.{◌≡◌, ◌≢◌, refl, some, [], ◌∷◌, ◌++◌, arith, All}
use ribabari.Process.{CString}
use ribabari.Text.{space, next_token, split_token}

abbrev pub NoSpace : CString → Type 0
NoSpace s = All (λ c. c ≢ space) s

split_token-space : (w rest : CString) → NoSpace w → split_token (w ++ space ∷ rest) ≡ (w, rest)
unfolding split_token
split_token-space [] rest h = refl
split_token-space (c ∷ w) rest h = ground (arith, h.0, split_token-space w rest h.1)

split_token-last : (w : CString) → NoSpace w → split_token w ≡ (w, [])
unfolding split_token
split_token-last [] h = refl
split_token-last (c ∷ w) h = ground (arith, h.0, split_token-last w h.1)

-- A word in front of a separator is the next token.
pub next_token-space :
    (w rest : CString) → w ≢ [] → NoSpace w → next_token (w ++ space ∷ rest) ≡ some (w, rest)
unfolding next_token
next_token-space [] rest ne h = absurd (ne refl)
next_token-space (c ∷ w) rest ne h = ground (arith, h.0, split_token-space (c ∷ w) rest h)

pub next_token-last : (w : CString) → w ≢ [] → NoSpace w → next_token w ≡ some (w, [])
unfolding next_token
next_token-last [] ne h = absurd (ne refl)
next_token-last (c ∷ w) ne h = ground (arith, h.0, split_token-last (c ∷ w) h)
