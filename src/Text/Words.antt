-- ===== src/Text/Words.antt =====
-- The words of a string, and strtok, which takes them off one by one.
use ribabari.Prelude.{
  ℕ, ◌≡◌, refl, ap, Option, none, some, List, [], ◌∷◌, arith, ◌==◌, if◌then◌else◌, Bool-cases, inl,
  inr,
}
use ribabari.Process.{CString}
use ribabari.Text.{space, next_token, split_token}

abbrev with_head : ℕ → List CString → List CString
with_head c [] = (c ∷ []) ∷ []
with_head c (p ∷ ps) = (c ∷ p) ∷ ps

-- What stands between the separators; there is a piece more than separators.
abbrev pieces : CString → List CString
pieces [] = [] ∷ []
pieces (c ∷ s) = if c == space then [] ∷ pieces s else with_head c (pieces s)

abbrev non_empty : List CString → List CString
non_empty [] = []
non_empty ([] ∷ ps) = non_empty ps
non_empty ((c ∷ w) ∷ ps) = (c ∷ w) ∷ non_empty ps

-- The longest stretches of a string without a separator.
abbrev pub words : CString → List CString
words s = non_empty (pieces s)

split_token-pieces :
    (s : CString)
    → (ps : List CString) × (pieces s ≡ (split_token s).0 ∷ ps)
      × (non_empty ps ≡ words (split_token s).1)
unfolding split_token
split_token-pieces [] = ([], refl, refl)
split_token-pieces (c ∷ s) = elim (Bool-cases (c == space)) [
  | inl e ↦ rw e (pieces s, refl, refl)
  | inr e ↦ let (ps, first, rest) = split_token-pieces s in rw e (ps, ap (with_head c) first, rest)
]

-- At NULL no word is left.
pub next_token-no_words : (s : CString) → next_token s ≡ none → words s ≡ []
unfolding next_token
next_token-no_words [] h = refl
next_token-no_words (c ∷ s) h = elim (Bool-cases (c == space)) [
  | inl e ↦ rw e (next_token-no_words s (rw e at h))
  | inr e ↦ absurd (let gone = rw e at h in cc)
]

abbrev first_and : Option (CString × CString) → List CString
first_and none = []
first_and (some r) = r.0 ∷ words r.1

-- A token is the first word, and the other words are left.
pub next_token-words :
    (s tok rest : CString) → next_token s ≡ some (tok, rest) → words s ≡ tok ∷ words rest
unfolding next_token split_token
next_token-words [] tok rest h = cc
next_token-words (c ∷ s) tok rest h = elim (Bool-cases (c == space)) [
  | inl e ↦ rw e (next_token-words s tok rest (rw e at h))
  | inr e ↦
      let (ps, first, others) = split_token-pieces s in
      let taken : some (c ∷ (split_token s).0, (split_token s).1) ≡ some (tok, rest) =
        (ground arith) in
      rw (e, first, others) (ap first_and taken)
]
