-- ===== src/Terminal/CatchUp.antt =====
-- A view that has a post comes to the end of its log by itself.
use ribabari.Prelude.{
  ℕ, zero, suc, ◌+◌, ◌≤◌, ◌<◌, ◌≡◌, refl, sym, ap, ◌∙◌, Option, none, some, List, [], ◌∷◌, arith,
  Bool-cases, inl, inr, ltb, length, take_all, replicate, ok, Returns, Returns-ok, ◌-◌, map,
}
use ribabari.Terminal.Format.{joined}
use ribabari.Terminal.Reader.{
  Phase, starting, scanning, resting, Loop, LogView, Move, append, view, start_view, next_of,
  head_of, enter, step_at, view_step, move, run_moves,
}
use ribabari.Terminal.Shown.{IsShownAt, Allowed, head_of-InLog, next_of-InLog}
use ribabari.Terminal.Following.{scan-Next, same-Shown, run_moves-Shown}
use ribabari.Terminal.Complete.{equal_follows, first_entry}

module _ {a ε t} {A : Type a} {E : Type ε} {T : Type t} (l : Loop A E T) where
  -- The whole log is shown.
  abbrev pub IsWhole : List A → LogView A E T → Type a
  IsWhole log v = (v.log ≡ log) × (v.text ≡ joined (map l.line log))

  -- So many steps of the view alone show the whole log.
  abbrev pub Catches : ℕ → LogView A E T → Type (a ⊔ ε ⊔ t)
  Catches most v = (n : ℕ) × (n ≤ most) × Returns (IsWhole v.log) (run_moves l (replicate n view) v)

module _ {a ε t} {A : Type a} {E : Type ε} {T : Type t} (l : Loop A E T) (Fine : E → Type 0)
    (round_ok : (g : E) (w : T) → Fine g → (w' : T) × (l.on_round g w ≡ ok w'))
    (entry_ok : (g : E) (w : T) → Fine g → (w' : T) × (l.on_entry g w ≡ ok w')) where
  abbrev Same : List A → List A → Type a
  Same ys xs = ys ≡ xs

  abbrev At : Phase → LogView A E T → Type a
  At = IsShownAt l Same Fine

  at_end : (log : List A) (v : LogView A E T) → v.log ≡ log → At (scanning none) v → IsWhole l log v
  at_end log v same s =
      let (ys, r, text) = s.shown in
      let whole : ys ≡ log = r ∙ take_all (length v.log) v.log (omega arith) ∙ same in
      (same, rw whole at text)

  -- The inner loop, from an entry to the end.
  scan_all :
      (n i : ℕ) (v : LogView A E T)
      → v.phase ≡ scanning (some i)
      → At (scanning (some i)) v
      → n + i ≡ length v.log
      → Returns (IsWhole l v.log) (run_moves l (replicate n view) v)
  unfolding run_moves move view_step
  scan_all zero i v here s far = absurd (omega (arith, s.inside))
  scan_all (suc n) i v here s far =
      let (v1, e, (s1, same, now)) =
        scan-Next l ⊥ Same Fine equal_follows round_ok entry_ok i v s in
      rw (here, e)
        (elim (Bool-cases (ltb (i + 1) (length v.log))) [
          | inl more ↦
              let next : next_of v.log i ≡ some (i + 1) = rw more refl in
              rw same at (
                scan_all n (i + 1) v1 (rw next at now) (rw next at s1)
                  (omega (arith, far, ap length same)))
          | inr last ↦
              let next : next_of v.log i ≡ none = rw last refl in
              at_last n v1 v.log (ground (arith, last, far, s.inside)) same (rw next at now)
                (rw next at s1)
        ])
    where
      at_last :
          (n : ℕ) (v1 : LogView A E T) (log : List A)
          → n ≡ 0
          → v1.log ≡ log
          → v1.phase ≡ scanning none
          → At (scanning none) v1
          → Returns (IsWhole l log) (run_moves l (replicate n view) v1)
      at_last zero v1 log none_left same now s1 = (v1, refl, at_end log v1 same s1)
      at_last (suc n) v1 log none_left same now s1 = absurd (omega (arith, none_left))

  scan_rest :
      (at : Option ℕ) (v : LogView A E T)
      → v.phase ≡ scanning at
      → At (scanning at) v
      → Catches l (length v.log) v
  unfolding run_moves
  scan_rest none v here s = (0, omega arith, (v, refl, at_end v.log v refl s))
  scan_rest (some i) v here s = (
    length v.log - i,
    omega arith,
    scan_all (length v.log - i) i v here s (omega (arith, s.inside)),
  )

  enter-At :
      (i : Option ℕ) (v : LogView A E T)
      → At (scanning i) v
      → Returns
          (λ v'. At (scanning i) v' × (v'.log ≡ v.log) × (v'.phase ≡ scanning i))
          (enter l i v)
  unfolding enter
  enter-At i v s =
      let (w, e) = round_ok v.general v.title s.fine in
      (
        record v { posts = v.posts - 1; phase = scanning i; title = w },
        rw e refl,
        (
          record { fine = s.fine; logged = s.logged; inside = s.inside; shown = s.shown },
          refl,
          refl,
        ),
      )

  -- A view that enters the inner loop with its next step.
  enter_rest :
      (i : Option ℕ) (v : LogView A E T)
      → view_step l v ≡ enter l i v
      → At (scanning i) v
      → Catches l (suc (length v.log)) v
  unfolding run_moves move
  enter_rest i v first s =
      let (v1, e, (s1, same, here)) = enter-At i v s in
      let (n, few, whole) = scan_rest i v1 here s1 in
      (suc n, omega (arith, few, ap length same), rw (first, e) (rw same at whole))

  catch_up :
      (p : Phase) (v : LogView A E T)
      → v.phase ≡ p
      → 0 < v.posts
      → At p v
      → Catches l (suc (length v.log)) v
  unfolding view_step step_at
  catch_up starting v here some_post s =
      let (inside, same) = head_of-InLog v.log in
      enter_rest (head_of v.log) v (rw here (ground (arith, some_post))) (
        same-Shown l ⊥ Same Fine equal_follows round_ok entry_ok starting (scanning (head_of v.log))
          v s inside (sym same))
  catch_up (scanning at) v here some_post s =
      let (n, few, whole) = scan_rest at v here s in (n, omega (arith, few), whole)
  catch_up (resting none) v here some_post s = absurd s.inside
  catch_up (resting (some i)) v here some_post s =
      let (inside, same) = next_of-InLog v.log i s.inside in
      enter_rest (next_of v.log i) v (rw here (ground (arith, some_post))) (
        same-Shown l ⊥ Same Fine equal_follows round_ok entry_ok (resting (some i))
          (scanning (next_of v.log i)) v s inside (sym same))

  -- Let the title of the view be written without a failure for all values that are published, and
  -- let nothing have been appended between the end of the inner loop and the reading of the tail. A
  -- view that then has a post comes, within one step more than the log has entries, to a text of
  -- the lines of the whole log.
  pub run_moves-CatchUp :
      (g : E) (w : T) (x : A) (ms : List (Move A E))
      → Fine g
      → Allowed l ⊥ Fine ms (record (start_view g w) { log = x ∷ [] })
      → (v : LogView A E T) → run_moves l (append x ∷ ms) (start_view g w) ≡ ok v
      → 0 < v.posts
      → Catches l (suc (length v.log)) v
  unfolding run_moves move
  run_moves-CatchUp g w x ms fine allowed v came some_post = catch_up v.phase v refl some_post (
      Returns-ok {P = λ u. At u.phase u} v
        (run_moves-Shown l ⊥ Same Fine equal_follows round_ok entry_ok ms
          (record (start_view g w) { log = x ∷ [] }) allowed
          (first_entry l Fine round_ok entry_ok ⊥ Same equal_follows g w x fine))
        came)
