-- ===== src/Terminal/ProcessShown.antt =====
-- What the process view shows: some of the entries behind the first, in their order.
use ribabari.Prelude.{
  suc, ◌+◌, ◌-◌, ◌≤◌, ◌≡◌, refl, subst, none, some, List, [], ◌∷◌, ◌++◌, arith, if_intro, ltb,
  rest_of, length, length-append, get_elem?-some, take, take-append_le, take_all, take_next, ok,
  Returns, map,
}
use ribabari.LinkedList.{list_add}
use ribabari.Log.{ProcLogInfo}
use ribabari.Terminal.Format.{joined}
use ribabari.Terminal.Lines.{process_line}
use ribabari.Terminal.Reader.{
  Phase, starting, scanning, resting, Move, append, publish, post, view, head_of, tail_of, next_of,
}
use ribabari.Terminal.Shown.{line_after}
use ribabari.Terminal.Complete.{Sublist, nil, keep, skip}
use ribabari.Terminal.ProcessView.{
  ProcessView, after_entry, process_step_at, refresh_process_log, process_move, process_moves,
  start_process_view,
}
use ribabari.Terminal.ProcessRest.{
  behind, InRest, ShownAt, sublist_whole, get_elem?-rest_of, rest_of-append, length-rest_of,
  next_of-InRest, head_of-some, tail_of-some, after_entry-InRest,
}

abbrev Shown : ProcessView → Type 0
Shown v = ShownAt v.phase v

process_step_at-Shown :
    (p : Phase) (v : ProcessView) → Shown v → ShownAt p v → Returns Shown (process_step_at p v)
unfolding process_step_at
process_step_at-Shown starting v stays s =
    if_intro (Returns Shown) (ltb 0 v.posts)
      (ok (record v { posts = v.posts - 1; phase = resting (head_of v.log) })) (ok v)
      (
        record v { posts = v.posts - 1; phase = resting (head_of v.log) },
        refl,
        rw (head_of-some v.log s.logged)
            (record { logged = s.logged; inside = s.logged; shown = s.shown }),
      )
      (v, refl, stays)
process_step_at-Shown (resting none) v stays s = absurd s.inside
process_step_at-Shown (resting (some i)) v stays s =
    let (ys, part, text) = s.shown in
    let (inside, more) = next_of-InRest v.log i ys s.inside part in
    if_intro (Returns Shown) (ltb 0 v.posts)
      (ok (record v { posts = v.posts - 1; phase = scanning (next_of v.log i) })) (ok v)
      (
        record v { posts = v.posts - 1; phase = scanning (next_of v.log i) },
        refl,
        record { logged = s.logged; inside = inside; shown = (ys, more, text) },
      )
      (v, refl, stays)
process_step_at-Shown (scanning none) v stays s =
    let (ys, part, text) = s.shown in
    let few = length-rest_of v.log in
    (
      record v { phase = resting (tail_of v.log); mem_posts = v.mem_posts + 1 },
      refl,
      rw (tail_of-some v.log s.logged) (record {
        logged = s.logged;
        inside = omega (arith, s.logged);
        shown = (
          ys,
          rw (take_all (length v.log - 1) (rest_of v.log) (omega (arith, few)))
              (sublist_whole (length v.log) (rest_of v.log) part),
          text,
        );
      }),
    )
process_step_at-Shown (scanning (some i)) v stays s =
    let (ys, part, text) = s.shown in
    let (x, found) = get_elem?-some v.log i s.inside.1 in
    let found' = get_elem?-rest_of v.log i x s.inside.0 found in
    let longer : Sublist (ys ++ x ∷ []) (take (suc (i - 1)) (rest_of v.log)) =
      rw (take_next (i - 1) (rest_of v.log) x found') (keep x part) in
    let (inside, more) = after_entry-InRest v.log i (ys ++ x ∷ []) x s.inside.1 (
      subst (λ n. Sublist (ys ++ x ∷ []) (take n (rest_of v.log))) {x = suc (i - 1)}
        (omega (arith, s.inside.0)) longer) in
    (
      record v { phase = after_entry v.log i x; text = v.text ++ process_line x },
      rw found refl,
      record {
        logged = s.logged;
        inside = inside;
        shown = (ys ++ x ∷ [], more, line_after process_line v.text ys x text);
      },
    )

-- A new entry leaves those that the view has passed.
append-kept :
    (p : Phase) (v : ProcessView) (entry : ProcLogInfo)
    → ShownAt p v
    → InRest (length (list_add v.log entry)) p
    → behind (length (list_add v.log entry)) p ≤ length (rest_of v.log)
    → behind (length v.log) p ≡ behind (length (list_add v.log entry)) p
    → ShownAt p (record v { log = list_add v.log entry })
append-kept p v entry s inside few same =
    let (ys, part, text) = s.shown in
    record {
      logged = omega (arith, length-append v.log (entry ∷ []));
      inside = inside;
      shown = (
        ys,
        rw
            (
              rest_of-append v.log entry s.logged,
              take-append_le (behind (length (list_add v.log entry)) p) (rest_of v.log) (entry ∷ [])
                  few,
            )
            (subst (λ n. Sublist ys (take n (rest_of v.log))) same part),
        text,
      );
    }

append-Shown :
    (p : Phase) (v : ProcessView) (entry : ProcLogInfo)
    → ShownAt p v
    → ShownAt p (record v { log = list_add v.log entry })
append-Shown starting v entry s = append-kept starting v entry s tt (omega arith) refl
append-Shown (scanning none) v entry s =
    let (ys, part, text) = s.shown in
    let few = length-rest_of v.log in
    let more = length-append v.log (entry ∷ []) in
    record {
      logged = omega (arith, more);
      inside = tt;
      shown = (
        ys,
        rw
            (
              rest_of-append v.log entry s.logged,
              take_all (length (list_add v.log entry)) (rest_of v.log ++ entry ∷ [])
                  (omega (arith, few, more, length-append (rest_of v.log) (entry ∷ []))),
            )
            (skip entry (sublist_whole (length v.log) (rest_of v.log) part)),
        text,
      );
    }
append-Shown (scanning (some i)) v entry s =
    let more = length-append v.log (entry ∷ []) in
    append-kept (scanning (some i)) v entry s (s.inside.0, omega (arith, s.inside.1, more))
      (omega (arith, s.inside.1, length-rest_of v.log)) refl
append-Shown (resting none) v entry s = absurd s.inside
append-Shown (resting (some i)) v entry s =
    let more = length-append v.log (entry ∷ []) in
    append-kept (resting (some i)) v entry s (omega (arith, s.inside, more))
      (omega (arith, s.inside, length-rest_of v.log)) refl

process_move-Shown :
    (m : Move ProcLogInfo (Unit {0})) (v : ProcessView) → Shown v → Returns Shown (process_move m v)
unfolding process_move refresh_process_log
process_move-Shown (append entry) v s =
    (record v { log = list_add v.log entry }, refl, append-Shown v.phase v entry s)
process_move-Shown (publish general) v s = (v, refl, s)
process_move-Shown post v s = (
  record v { posts = v.posts + 1 },
  refl,
  record { logged = s.logged; inside = s.inside; shown = s.shown },
)
process_move-Shown view v s = process_step_at-Shown v.phase v s s

process_moves-Shown :
    (ms : List (Move ProcLogInfo (Unit {0}))) (v : ProcessView)
    → Shown v
    → Returns Shown (process_moves ms v)
unfolding process_moves
process_moves-Shown [] v s = (v, refl, s)
process_moves-Shown (m ∷ ms) v s =
    let (v1, e, s1) = process_move-Shown m v s in rw e (process_moves-Shown ms v1 s1)

-- However the simulation and the process view take turns from the first entry on, the view does not fail,
-- and what it has written is the lines of some of the entries behind the first, in their order, each at
-- most once: the first entry is never shown.
pub process_moves-Sublist :
    (x : ProcLogInfo) (ms : List (Move ProcLogInfo (Unit {0})))
    → Returns
        (λ v.
          (ys : List ProcLogInfo) × Sublist ys
            (take (behind (length v.log) v.phase) (rest_of v.log))
          × (v.text ≡ joined (map process_line ys)))
        (process_moves (append x ∷ ms) start_process_view)
unfolding process_moves process_move
process_moves-Sublist x ms =
    let (v, e, s) =
      process_moves-Shown ms (record start_process_view { log = x ∷ [] })
        (record { logged = omega arith; inside = tt; shown = ([], nil, refl) }) in
    (v, e, s.shown)
