-- ===== src/Terminal/ProcessRest.antt =====
-- The entries behind the first of the process log, and which of them the view has passed.
use mathlib.Core.List.{append_assoc, append-nil}
use ribabari.Prelude.{
  ℕ, zero, suc, ◌+◌, ◌-◌, ◌<◌, ◌≡◌, refl, ap, subst, ◌∙◌, none, some, List, [], ◌∷◌, ◌++◌, arith,
  Bool-cases, inl, inr, ltb, rest_of, length, get_elem?, take, take_all, map,
}
use ribabari.Log.{ProcLogInfo, proc, no_proc}
use ribabari.Terminal.Format.{joined}
use ribabari.Terminal.Lines.{process_line}
use ribabari.Terminal.Reader.{Phase, starting, scanning, resting, head_of, tail_of, next_of}
use ribabari.Terminal.Complete.{Sublist, skip}
use ribabari.Terminal.ProcessView.{ProcessView, after_entry}

sublist_append {a} :
    {A : Type a} {ys : List A} (xs zs : List A) → Sublist ys xs → Sublist ys (xs ++ zs)
sublist_append xs [] h = rw (append-nil xs) h
sublist_append xs (z ∷ zs) h =
    rw (append_assoc xs (z ∷ []) zs) at (sublist_append (xs ++ z ∷ []) zs (skip z h))

take_split {a} : {A : Type a} (n : ℕ) (xs : List A) → (zs : List A) × (take n xs ++ zs ≡ xs)
take_split zero xs = (xs, refl)
take_split (suc n) [] = ([], refl)
take_split (suc n) (x ∷ xs) = let (zs, e) = take_split n xs in (zs, ap (◌∷◌ x) e)

-- A part of the first entries is one of all.
pub sublist_whole {a} :
    {A : Type a} {ys : List A} (n : ℕ) (xs : List A) → Sublist ys (take n xs) → Sublist ys xs
sublist_whole n xs h = let (zs, e) = take_split n xs in rw e at (sublist_append (take n xs) zs h)

-- Of the entries behind the first, those that the view has passed.
abbrev pub behind : ℕ → Phase → ℕ
behind size starting = 0
behind size (scanning none) = size
behind size (scanning (some i)) = i - 1
behind size (resting none) = 0
behind size (resting (some i)) = i

abbrev pub InRest : ℕ → Phase → Type 0
InRest size starting = Unit
InRest size (scanning none) = Unit
InRest size (scanning (some i)) = (0 < i) × (i < size)
InRest size (resting none) = ⊥
InRest size (resting (some i)) = i < size

pub record ShownAt (p : Phase) (v : ProcessView) : Type 0 where
  pub logged : 0 < length v.log
  pub inside : InRest (length v.log) p
  pub shown :
      (ys : List ProcLogInfo) × Sublist ys (take (behind (length v.log) p) (rest_of v.log))
      × (v.text ≡ joined (map process_line ys))

pub get_elem?-rest_of :
    (xs : List ProcLogInfo) (i : ℕ) (x : ProcLogInfo)
    → 0 < i
    → get_elem? xs i ≡ some x
    → get_elem? (rest_of xs) (i - 1) ≡ some x
get_elem?-rest_of [] i x h e = cc
get_elem?-rest_of (y ∷ xs) zero x h e = absurd (omega (arith, h))
get_elem?-rest_of (y ∷ xs) (suc i) x h e = ap (get_elem? xs) (omega arith) ∙ e

pub rest_of-append :
    (xs : List ProcLogInfo) (x : ProcLogInfo)
    → 0 < length xs
    → rest_of (xs ++ x ∷ []) ≡ rest_of xs ++ x ∷ []
rest_of-append [] x h = absurd (omega (arith, h))
rest_of-append (y ∷ xs) x h = refl

pub length-rest_of : (xs : List ProcLogInfo) → length (rest_of xs) ≡ length xs - 1
length-rest_of [] = omega arith
length-rest_of (x ∷ xs) = omega arith

-- The node behind an entry.
pub next_of-InRest :
    (xs : List ProcLogInfo) (i : ℕ) (ys : List ProcLogInfo)
    → i < length xs
    → Sublist ys (take i (rest_of xs))
    → InRest (length xs) (scanning (next_of xs i))
      × Sublist ys (take (behind (length xs) (scanning (next_of xs i))) (rest_of xs))
next_of-InRest xs i ys h part = elim (Bool-cases (ltb (i + 1) (length xs))) [
  | inl e ↦ rw e (
    (omega arith, ground (arith, e)),
    subst (λ n. Sublist ys (take n (rest_of xs))) (omega arith) part,
  )
  | inr e ↦
      rw (e, take_all (length xs) (rest_of xs) (omega (arith, length-rest_of xs)))
        (tt, sublist_whole i (rest_of xs) part)
]

pub head_of-some : (xs : List ProcLogInfo) → 0 < length xs → head_of xs ≡ some 0
head_of-some [] h = absurd (omega (arith, h))
head_of-some (x ∷ xs) h = refl

pub tail_of-some : (xs : List ProcLogInfo) → 0 < length xs → tail_of xs ≡ some (length xs - 1)
tail_of-some [] h = absurd (omega (arith, h))
tail_of-some (x ∷ xs) h = ap some (omega arith)

-- Behind an entry: the next one, or the end of the inner loop at an entry for no process.
pub after_entry-InRest :
    (xs : List ProcLogInfo) (i : ℕ) (ys : List ProcLogInfo) (entry : ProcLogInfo)
    → i < length xs
    → Sublist ys (take i (rest_of xs))
    → InRest (length xs) (after_entry xs i entry)
      × Sublist ys (take (behind (length xs) (after_entry xs i entry)) (rest_of xs))
unfolding after_entry
after_entry-InRest xs i ys (proc name remaining pc sid f_op_count) h part =
    next_of-InRest xs i ys h part
after_entry-InRest xs i ys no_proc h part =
    rw (take_all (length xs) (rest_of xs) (omega (arith, length-rest_of xs)))
      (tt, sublist_whole i (rest_of xs) part)
