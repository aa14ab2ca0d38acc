-- ===== src/Terminal/Following.antt =====
-- Every move of the simulation or of the view keeps what Terminal.Shown says of the view.
use ribabari.Prelude.{
  Option, ℕ, ◌-◌, suc, ◌+◌, ◌≤◌, ◌≡◌, refl, sym, subst, none, some, List, [], ◌∷◌, ◌++◌, arith,
  if_intro, ltb, length, length-append, get_elem?-some, take, take-append_le, take_all, take_next,
  ok, Returns, map,
}
use ribabari.LinkedList.{list_add}
use ribabari.Terminal.Format.{joined}
use ribabari.Terminal.Reader.{
  Phase, starting, scanning, resting, Loop, LogView, Move, append, publish, post, view, head_of,
  tail_of, next_of, enter, step_at, view_step, move, run_moves,
}
use ribabari.Terminal.Shown.{
  passed, InLog, Follows, IsShownAt, next_of-InLog, head_of-InLog, tail_of-InLog, line_after,
  MayMove, Allowed,
}

module _ {a ε t} {A : Type a} {E : Type ε} {T : Type t} (l : Loop A E T) (Late : Type 0)
    (R : List A → List A → Type a) (Fine : E → Type 0) (follows : Follows Late R)
    (round_ok : (g : E) (w : T) → Fine g → (w' : T) × (l.on_round g w ≡ ok w'))
    (entry_ok : (g : E) (w : T) → Fine g → (w' : T) × (l.on_entry g w ≡ ok w')) where
  abbrev pub Shown : Phase → LogView A E T → Type a
  Shown = IsShownAt l R Fine

  abbrev pub ShownView : LogView A E T → Type a
  ShownView v = Shown v.phase v

  -- The entries passed are the same at another phase.
  pub same-Shown :
      (p q : Phase) (v : LogView A E T)
      → Shown p v
      → InLog (length v.log) q
      → passed (length v.log) p ≡ passed (length v.log) q
      → Shown q v
  same-Shown p q v s inside same = record {
    fine = s.fine;
    logged = s.logged;
    inside = inside;
    shown =
        subst (λ n. (ys : List A) × R ys (take n v.log) × (v.text ≡ joined (map l.line ys))) same
          s.shown;
  }

  pub enter-Shown :
      (i : Option ℕ) (v : LogView A E T) → Shown (scanning i) v → Returns ShownView (enter l i v)
  unfolding enter
  enter-Shown i v s =
      let (w, e) = round_ok v.general v.title s.fine in
      (
        record v { posts = v.posts - 1; phase = scanning i; title = w },
        rw e refl,
        record { fine = s.fine; logged = s.logged; inside = s.inside; shown = s.shown },
      )

  -- A view at an entry shows it, and goes on to the next.
  pub scan-Next :
      (i : ℕ) (v : LogView A E T)
      → Shown (scanning (some i)) v
      → Returns
          (λ v'.
            Shown (scanning (next_of v.log i)) v'
            × (v'.log ≡ v.log)
            × (v'.phase ≡ scanning (next_of v.log i)))
          (step_at l (scanning (some i)) v)
  unfolding step_at
  scan-Next i v s =
      let (x, found) = get_elem?-some v.log i s.inside in
      let (w, e) = entry_ok v.general v.title s.fine in
      let (inside, same) = next_of-InLog v.log i s.inside in
      let (ys, r, shows) = s.shown in
      (
        record v { phase = scanning (next_of v.log i); text = v.text ++ l.line x; title = w },
        rw (found, e) refl,
        (
          record {
            fine = s.fine;
            logged = s.logged;
            inside = inside;
            shown = (
              ys ++ x ∷ [],
              rw (same, take_next i v.log x found) (follows.shown_too ys (take i v.log) x r),
              line_after l.line v.text ys x shows,
            );
          },
          refl,
          refl,
        ),
      )

  step_at-Shown :
      (p : Phase) (v : LogView A E T) → ShownView v → Shown p v → Returns ShownView (step_at l p v)
  unfolding step_at
  step_at-Shown starting v stays s =
      let (inside, same) = head_of-InLog v.log in
      if_intro (Returns ShownView) (ltb 0 v.posts) (enter l (head_of v.log) v) (ok v)
        (enter-Shown (head_of v.log) v
          (same-Shown starting (scanning (head_of v.log)) v s inside (sym same)))
        (v, refl, stays)
  step_at-Shown (scanning none) v stays s =
      let (inside, same) = tail_of-InLog v.log s.logged in
      let now = same-Shown (scanning none) (resting (tail_of v.log)) v s inside (sym same) in
      (
        record v { phase = resting (tail_of v.log) },
        refl,
        record { fine = now.fine; logged = now.logged; inside = now.inside; shown = now.shown },
      )
  step_at-Shown (scanning (some i)) v stays s =
      let (v', e, (shown, same, now)) = scan-Next i v s in
      (v', e, subst (λ q. Shown q v') (sym now) shown)
  step_at-Shown (resting none) v stays s = absurd s.inside
  step_at-Shown (resting (some i)) v stays s =
      let (inside, same) = next_of-InLog v.log i s.inside in
      if_intro (Returns ShownView) (ltb 0 v.posts) (enter l (next_of v.log i) v) (ok v)
        (enter-Shown (next_of v.log i) v
          (same-Shown (resting (some i)) (scanning (next_of v.log i)) v s inside (sym same)))
        (v, refl, stays)

  -- A phase at which the entries passed stay those that they were.
  kept_passed :
      (p : Phase) (v : LogView A E T) (entry : A) (n : ℕ)
      → n ≤ length v.log
      → passed (length v.log) p ≡ n
      → passed (length (list_add v.log entry)) p ≡ n
      → InLog (length (list_add v.log entry)) p
      → Shown p v
      → Shown p (record v { log = list_add v.log entry })
  kept_passed p v entry n le was now inside s =
      let (ys, r, shows) = s.shown in
      record {
        fine = s.fine;
        logged = omega (arith, length-append v.log (entry ∷ []));
        inside = inside;
        shown = (
          ys,
          rw (now, take-append_le n v.log (entry ∷ []) le) (subst (λ k. R ys (take k v.log)) was r),
          shows,
        );
      }

  append-Shown :
      (p : Phase) (v : LogView A E T) (entry : A)
      → (p ≡ scanning none → Late)
      → Shown p v
      → Shown p (record v { log = list_add v.log entry })
  append-Shown starting v entry may s = kept_passed starting v entry 0 (omega arith) refl refl tt s
  append-Shown (scanning none) v entry may s =
      let (ys, r, shows) = s.shown in
      record {
        fine = s.fine;
        logged = omega (arith, length-append v.log (entry ∷ []));
        inside = tt;
        shown = (
          ys,
          rw (take_all (length (v.log ++ entry ∷ [])) (v.log ++ entry ∷ []) (omega arith)) (
              follows.missed (may refl) ys v.log entry
                (rw (take_all (length v.log) v.log (omega arith)) at r)),
          shows,
        );
      }
  append-Shown (scanning (some i)) v entry may s =
      kept_passed (scanning (some i)) v entry i (omega (arith, s.inside)) refl refl
        (omega (arith, s.inside, length-append v.log (entry ∷ []))) s
  append-Shown (resting none) v entry may s = absurd s.inside
  append-Shown (resting (some i)) v entry may s =
      kept_passed (resting (some i)) v entry (suc i) (omega (arith, s.inside)) refl refl
        (omega (arith, s.inside, length-append v.log (entry ∷ []))) s

  move-Shown :
      (m : Move A E) (v : LogView A E T)
      → MayMove Late Fine m v
      → ShownView v
      → Returns ShownView (move l m v)
  unfolding move view_step
  move-Shown (append entry) v may s = (
    record v { log = list_add v.log entry },
    refl,
    (let n = append-Shown v.phase v entry may s in
        record { fine = n.fine; logged = n.logged; inside = n.inside; shown = n.shown }),
  )
  move-Shown (publish general) v may s = (
    record v { general = general },
    refl,
    record { fine = may; logged = s.logged; inside = s.inside; shown = s.shown },
  )
  move-Shown post v may s = (
    record v { posts = v.posts + 1 },
    refl,
    record { fine = s.fine; logged = s.logged; inside = s.inside; shown = s.shown },
  )
  move-Shown view v may s = step_at-Shown v.phase v s s

  pub run_moves-Shown :
      (ms : List (Move A E)) (v : LogView A E T)
      → Allowed l Late Fine ms v
      → ShownView v
      → Returns ShownView (run_moves l ms v)
  unfolding run_moves
  run_moves-Shown [] v may s = (v, refl, s)
  run_moves-Shown (m ∷ ms) v may s =
      let (v1, e, s1) = move-Shown m v may.0 s in rw e (run_moves-Shown ms v1 (may.1 v1 e) s1)
