-- ===== src/Terminal/Shown.antt =====
-- What a view has shown of its log list, however the simulation and the view take turns.
use mathlib.Core.List.{append_assoc, append-nil, map-append}
use ribabari.Prelude.{
  ℕ, suc, ◌+◌, ◌<◌, ◌≡◌, refl, sym, ap, ◌∙◌, none, some, List, [], ◌∷◌, ◌++◌, arith, Bool-cases,
  inl, inr, ltb, length, take, ok, map,
}
use ribabari.Process.{CString}
use ribabari.Terminal.Format.{joined}
use ribabari.Terminal.Reader.{
  Phase, starting, scanning, resting, Loop, LogView, Move, append, publish, post, view, head_of,
  tail_of, next_of, move,
}

-- The entries that a view has passed: those before its node.
abbrev pub passed : ℕ → Phase → ℕ
passed size starting = 0
passed size (scanning none) = size
passed size (scanning (some i)) = i
passed size (resting none) = 0
passed size (resting (some i)) = suc i

-- The node of a view is in the list.
abbrev pub InLog : ℕ → Phase → Type 0
InLog size starting = Unit
InLog size (scanning none) = Unit
InLog size (scanning (some i)) = i < size
InLog size (resting none) = ⊥
InLog size (resting (some i)) = i < size

-- How the shown entries follow the log: a relation that shown entries keep, and missed ones where `Late`
-- holds.
pub record Follows {a} {A : Type a} (Late : Type 0) (R : List A → List A → Type a) : Type a where
  pub nothing : R [] []
  pub shown_too : (ys xs : List A) (x : A) → R ys xs → R (ys ++ x ∷ []) (xs ++ x ∷ [])
  pub missed : Late → (ys xs : List A) (x : A) → R ys xs → R ys (xs ++ x ∷ [])

pub joined-append : (xs ys : List CString) → joined (xs ++ ys) ≡ joined xs ++ joined ys
joined-append [] ys = refl
joined-append (x ∷ xs) ys =
    ap (◌++◌ x) (joined-append xs ys) ∙ sym (append_assoc x (joined xs) (joined ys))

-- A view that stands at a phase: its node is in the list, and its text is the lines of entries that follow
-- those that it has passed.
pub record IsShownAt {a e t} {A : Type a} {E : Type e} {T : Type t} (l : Loop A E T)
    (R : List A → List A → Type a) (Fine : E → Type 0) (p : Phase) (v : LogView A E T)
    : Type a where
  pub fine : Fine v.general
  pub logged : 0 < length v.log
  pub inside : InLog (length v.log) p
  pub shown :
      (ys : List A) × R ys (take (passed (length v.log) p) v.log)
      × (v.text ≡ joined (map l.line ys))

-- A move that may happen: an entry is appended between the end of the inner loop and the reading of the
-- tail only if entries can be late, and only values are published that the title has room for.
abbrev pub MayMove {a e t} :
    {A : Type a} {E : Type e} {T : Type t}
    → Type 0
    → (E → Type 0)
    → Move A E
    → LogView A E T
    → Type 0
MayMove Late Fine (append entry) v = v.phase ≡ scanning none → Late
MayMove Late Fine (publish general) v = Fine general
MayMove Late Fine post v = Unit
MayMove Late Fine view v = Unit

abbrev pub Allowed {a e t} :
    {A : Type a} {E : Type e} {T : Type t}
    → Loop A E T
    → Type 0
    → (E → Type 0)
    → List (Move A E)
    → LogView A E T
    → Type (a ⊔ e ⊔ t)
Allowed l Late Fine [] v = Unit
Allowed {A = A} {E = E} {T = T} l Late Fine (m ∷ ms) v =
    MayMove Late Fine m v × ((v' : LogView A E T) → move l m v ≡ ok v' → Allowed l Late Fine ms v')

-- The node behind one of the list: in the list, or NULL at its end.
module _ {a} {A : Type a} where
  pub next_of-InLog :
      (xs : List A) (i : ℕ)
      → i < length xs
      → InLog (length xs) (scanning (next_of xs i))
        × (passed (length xs) (scanning (next_of xs i)) ≡ suc i)
  next_of-InLog xs i h = elim (Bool-cases (ltb (i + 1) (length xs))) [
    | inl e ↦ rw e (ground (arith, e), omega arith)
    | inr e ↦ rw e (tt, ground (arith, e))
  ]

  pub head_of-InLog :
      (xs : List A)
      → InLog (length xs) (scanning (head_of xs)) × (passed (length xs) (scanning (head_of xs)) ≡ 0)
  head_of-InLog [] = (tt, refl)
  head_of-InLog (x ∷ xs) = (omega arith, refl)

  pub tail_of-InLog :
      (xs : List A)
      → 0 < length xs
      → InLog (length xs) (resting (tail_of xs))
        × (passed (length xs) (resting (tail_of xs)) ≡ length xs)
  tail_of-InLog [] h = absurd (omega arith)
  tail_of-InLog (x ∷ xs) h = (omega arith, refl)

  pub line_after :
      (line : A → CString) (text : CString) (ys : List A) (x : A)
      → text ≡ joined (map line ys)
      → text ++ line x ≡ joined (map line (ys ++ x ∷ []))
  line_after line text ys x e =
      rw
        (
          map-append line ys (x ∷ []),
          joined-append (map line ys) (line x ∷ []),
          append-nil (line x),
        )
        (ap (λ z. z ++ line x) e)
