-- ===== src/Terminal/ProcessView.antt =====
-- refresh_process_log of terminal/terminal.c: the loop of the process view, which waits twice before its first
-- round, leaves the inner loop at an entry for no process, and wakes the memory view after each round.
use ribabari.Prelude.{
  ℕ, ◌+◌, ◌-◌, none, some, List, [], ◌∷◌, ◌++◌, ltb, if◌then◌else◌, get_elem?, Run, ok, ◌>>=◌,
  or_fault,
}
use ribabari.LinkedList.{list_add}
use ribabari.Process.{CString}
use ribabari.Log.{ProcLogInfo, proc, no_proc}
use ribabari.Terminal.Lines.{process_line}
use ribabari.Terminal.Reader.{
  Phase, starting, scanning, resting, Move, append, publish, post, view, head_of, tail_of, next_of,
}

-- `scanning none` is the end of the inner loop, however it was left. `mem_posts` are the posts of mem_mutex.
pub record ProcessView : Type 0 where
  pub log : List ProcLogInfo
  pub posts : ℕ
  pub phase : Phase
  pub text : CString
  pub mem_posts : ℕ

-- Where the inner loop goes on behind an entry.
unfoldable pub after_entry : List ProcLogInfo → ℕ → ProcLogInfo → Phase
after_entry log i (proc name remaining pc sid f_op_count) = scanning (next_of log i)
after_entry log i no_proc = scanning none

unfoldable pub process_step_at : Phase → ProcessView → Run ProcessView
unfolding after_entry
process_step_at starting v =
    if ltb 0 v.posts
    then ok (record v { posts = v.posts - 1; phase = resting (head_of v.log) })
    else ok v
process_step_at (resting last) v =
    if ltb 0 v.posts
    then (or_fault last
        >>= (λ i. ok (record v { posts = v.posts - 1; phase = scanning (next_of v.log i) })))
    else ok v
process_step_at (scanning none) v =
    ok (record v { phase = resting (tail_of v.log); mem_posts = v.mem_posts + 1 })
process_step_at (scanning (some i)) v = do
  entry ← or_fault (get_elem? v.log i)
  ok (record v { phase = after_entry v.log i entry; text = v.text ++ process_line entry })

unfoldable pub refresh_process_log : ProcessView → Run ProcessView
unfolding process_step_at
refresh_process_log v = process_step_at v.phase v

-- The simulation publishes nothing for this view.
unfoldable pub process_move : Move ProcLogInfo (Unit {0}) → ProcessView → Run ProcessView
unfolding refresh_process_log
process_move (append entry) v = ok (record v { log = list_add v.log entry })
process_move (publish general) v = ok v
process_move post v = ok (record v { posts = v.posts + 1 })
process_move view v = refresh_process_log v

unfoldable pub process_moves : List (Move ProcLogInfo (Unit {0})) → ProcessView → Run ProcessView
unfolding process_move
process_moves [] v = ok v
process_moves (m ∷ ms) v = do v1 ← process_move m v; process_moves ms v1

abbrev pub start_process_view : ProcessView
start_process_view = record { log = []; posts = 0; phase = starting; text = []; mem_posts = 0 }
