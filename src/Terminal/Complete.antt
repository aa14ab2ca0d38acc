-- ===== src/Terminal/Complete.antt =====
-- What a view shows: always entries of its log, in their order; and all of them, from the first on, unless
-- an entry comes between the end of the inner loop and the reading of the tail.
use ribabari.Prelude.{◌≡◌, refl, ap, List, [], ◌∷◌, ◌++◌, arith, length, take, ok, Returns, map}
use ribabari.Terminal.Format.{joined}
use ribabari.Terminal.Reader.{starting, Loop, Move, append, start_view, move, run_moves}
use ribabari.Terminal.Shown.{passed, Follows, IsShownAt, Allowed}
use ribabari.Terminal.Following.{run_moves-Shown}

-- Some of the entries of a list, in their order, each at most once.
pub data Sublist {a} {A : Type a} : List A → List A → Type a where
  nil : Sublist [] []
  keep : {ys xs : List A} (x : A) → Sublist ys xs → Sublist (ys ++ x ∷ []) (xs ++ x ∷ [])
  skip : {ys xs : List A} (x : A) → Sublist ys xs → Sublist ys (xs ++ x ∷ [])

sublist_follows {a} : {A : Type a} → Follows {A = A} Unit Sublist
sublist_follows = record {
  nothing = nil;
  shown_too = λ ys xs x h. keep x h;
  missed = λ late ys xs x h. skip x h;
}

pub equal_follows {a} : {A : Type a} → Follows {A = A} ⊥ (λ ys xs. ys ≡ xs)
equal_follows = record {
  nothing = refl;
  shown_too = λ ys xs x h. ap (λ zs. zs ++ x ∷ []) h;
  missed = λ late ys xs x h. absurd late;
}

module _ {a ε t} {A : Type a} {E : Type ε} {T : Type t} (l : Loop A E T) (Fine : E → Type 0)
    (round_ok : (g : E) (w : T) → Fine g → (w' : T) × (l.on_round g w ≡ ok w'))
    (entry_ok : (g : E) (w : T) → Fine g → (w' : T) × (l.on_entry g w ≡ ok w')) where
  -- A new view, once the first entry is there.
  pub first_entry :
      (Late : Type 0) (R : List A → List A → Type a)
      → Follows Late R
      → (g : E) (w : T) (x : A) → Fine g
      → IsShownAt l R Fine starting (record (start_view g w) { log = x ∷ [] })
  first_entry Late R follows g w x fine = record {
    fine = fine;
    logged = omega arith;
    inside = tt;
    shown = ([], follows.nothing, refl);
  }

  -- Let the title of the view be written without a failure for all values that are published. However
  -- the simulation and the view take turns from the first entry on, the view does not fail, and what
  -- it has written is the lines of some of the entries, in their order, each at most once.
  pub run_moves-Sublist :
      (g : E) (w : T) (x : A) (ms : List (Move A E))
      → Fine g
      → Allowed l Unit Fine ms (record (start_view g w) { log = x ∷ [] })
      → Returns
          (λ v.
            (ys : List A) × Sublist ys (take (passed (length v.log) v.phase) v.log)
            × (v.text ≡ joined (map l.line ys)))
          (run_moves l (append x ∷ ms) (start_view g w))
  unfolding run_moves move
  run_moves-Sublist g w x ms fine allowed =
      let (v, e, s) =
        run_moves-Shown l Unit Sublist Fine sublist_follows round_ok entry_ok ms
          (record (start_view g w) { log = x ∷ [] }) allowed
          (first_entry Unit Sublist sublist_follows g w x fine) in
      (v, e, s.shown)

  -- Let the title of the view be written without a failure for all values that are published, and
  -- let nothing be appended between the end of the inner loop and the reading of the tail. However the
  -- simulation and the view take turns from the first entry on, the view does not fail, and what it
  -- has written is the lines of all entries before its node: it misses none and repeats none.
  pub run_moves-Complete :
      (g : E) (w : T) (x : A) (ms : List (Move A E))
      → Fine g
      → Allowed l ⊥ Fine ms (record (start_view g w) { log = x ∷ [] })
      → Returns
          (λ v. v.text ≡ joined (map l.line (take (passed (length v.log) v.phase) v.log)))
          (run_moves l (append x ∷ ms) (start_view g w))
  unfolding run_moves move
  run_moves-Complete g w x ms fine allowed =
      let (v, e, s) =
        run_moves-Shown l ⊥ (λ ys xs. ys ≡ xs) Fine equal_follows round_ok entry_ok ms
          (record (start_view g w) { log = x ∷ [] }) allowed
          (first_entry ⊥ (λ ys xs. ys ≡ xs) equal_follows g w x fine) in
      let (ys, same, text) = s.shown in (v, e, rw same at text)
