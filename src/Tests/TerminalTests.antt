-- ===== src/Tests/TerminalTests.antt =====
-- The views, the menu and the windows at concrete values.
use ribabari.Prelude.{
  ◌≡◌, refl, true, false, some, List, [], ◌∷◌, arith, pos, length, take, map, Run, ℕ, ok, ◌>>=◌,
  Returns, rest_of,
}
use ribabari.Process.{CString}
use ribabari.Log.{DiskLogInfo, DiskGeneralLog, ProcLogInfo, proc, no_proc}
use ribabari.Text.Numbers.{print_int, decimal}
use ribabari.Terminal.Format.{codes, joined}
use ribabari.Terminal.Lines.{process_line, disk_line}
use ribabari.Terminal.Titles.{sprintf_rs, disk_rates, refresh_disk_window_title}
use ribabari.Terminal.TitleRoom.{IsApart, refresh_disk_window_title-IsApart}
use ribabari.Terminal.Reader.{
  Phase, Move, append, post, view, starting, resting, start_view, enter, step_at, view_step, move,
  run_moves,
}
use ribabari.Terminal.Refresh.{DiskView, disk_loop}
use ribabari.Terminal.Shown.{passed}
use ribabari.Terminal.Loops.{DiskFits, disk_loop-on_round, disk_loop-on_entry}
use ribabari.Terminal.Complete.{run_moves-Complete}
use ribabari.Terminal.CatchUp.{Catches, run_moves-CatchUp}
use ribabari.Terminal.ProcessView.{
  ProcessView, after_entry, process_step_at, refresh_process_log, process_move, process_moves,
  start_process_view,
}
use ribabari.Terminal.ProcessRest.{behind}
use ribabari.Terminal.ProcessShown.{process_moves-Sublist}
use ribabari.Terminal.Complete.{Sublist}
use ribabari.Terminal.Layout.{
  init_process_log, win_memory_create, win_disk_create, init_res_acq_log, init_io_log,
  init_menu_window, input_window, warning_window,
}
use ribabari.Terminal.Placed.{IsPlaced, IsTiled, file_question, file_warning, layout-IsPlaced}

abbrev counters : DiskGeneralLog
counters = record {
  r_req_count = 2;
  w_req_count = 1;
  forward_dir = true;
  curr_track = 17;
  angular_v = pos 7203;
  pending_requests_size = 4;
}

abbrev disk_read : DiskLogInfo
disk_read = record {
  proc_name = codes "editor";
  proc_id = 1;
  track = pos 17;
  is_read = true;
  turnaround = pos 6700;
}

abbrev disk_write : DiskLogInfo
disk_write = record {
  proc_name = codes "shell";
  proc_id = 2;
  track = pos 40;
  is_read = false;
  turnaround = pos 9000;
}

disk_line_text :
    disk_line disk_read
    ≡ codes "Process editor has read on track 17 with a turnaround of 6700u.t.\n"
unfolding disk_line print_int decimal
disk_line_text = refl

process_line_text :
    process_line (proc (codes "editor") (pos 250) 7 (pos 3) 1)
    ≡ codes "PROCESS:     editor, REMAINING:  250ms, PC:    7, ID:  3, FILES:  1.\n"
unfolding process_line print_int decimal
process_line_text = refl

abbrev two_reads : List (Move DiskLogInfo DiskGeneralLog)
two_reads = append disk_write ∷ post ∷ view ∷ view ∷ []

refresh_disk_window_title-IsApart_example :
    Returns (IsApart 120) (refresh_disk_window_title 240 counters)
refresh_disk_window_title-IsApart_example =
    refresh_disk_window_title-IsApart 240 counters (omega arith) (omega arith, omega arith)
      (omega arith) (omega arith) (omega arith) (omega arith)

layout-IsPlaced_example :
    IsPlaced 24 80 (init_process_log 24 80)
    × IsPlaced 24 80 (win_memory_create 24 80)
    × IsPlaced 24 80 (win_disk_create 24 80)
    × IsPlaced 24 80 (init_res_acq_log 24 80)
    × IsPlaced 24 80 (init_io_log 24 80)
    × IsPlaced 24 80 (init_menu_window 24 80 3 (codes "Main Menu"))
    × IsPlaced 24 80 (input_window 24 80 40 file_question)
    × IsPlaced 24 80 (warning_window 24 80 file_warning (codes "WARNING."))
    × IsTiled 24 80
layout-IsPlaced_example = layout-IsPlaced 24 80 (omega arith) (omega arith)

counters_fit : DiskFits counters
counters_fit = ((omega arith, omega arith), omega arith, omega arith, omega arith, omega arith)

run_moves-Complete_example :
    Returns
      (λ (v : DiskView).
        v.text ≡ joined (map disk_line (take (passed (length v.log) v.phase) v.log)))
      (run_moves (disk_loop 240) (append disk_read ∷ two_reads) (start_view counters []))
run_moves-Complete_example =
    run_moves-Complete (disk_loop 240) DiskFits (disk_loop-on_round 240 (omega arith))
      (disk_loop-on_entry 240) counters [] disk_read two_reads counters_fit
      ((λ e. cc), (λ v1 e1. (tt, (λ v2 e2. (tt, (λ v3 e3. (tt, (λ v4 e4. tt))))))))

-- Two entries and a post, before the first step of the view.
abbrev woken_view : DiskView
woken_view = record {
  log = disk_read ∷ disk_write ∷ [];
  posts = 1;
  general = counters;
  phase = starting;
  text = [];
  title = [];
}

run_moves-CatchUp_example : Catches (disk_loop 240) 3 woken_view
unfolding run_moves move
run_moves-CatchUp_example =
    run_moves-CatchUp (disk_loop 240) DiskFits (disk_loop-on_round 240 (omega arith))
      (disk_loop-on_entry 240) counters [] disk_read (append disk_write ∷ post ∷ []) counters_fit
      ((λ e. cc), (λ v1 e1. (tt, (λ v2 e2. tt)))) woken_view refl (omega arith)

abbrev seen : DiskView → Run (CString × Phase)
seen v = ok (v.text, v.phase)

-- An entry that comes between the end of the inner loop and the reading of the tail is never shown: the view
-- goes on behind it.
lost_entry :
    (run_moves
        (disk_loop 240)
        (append disk_read ∷ post ∷ view ∷ view ∷ append disk_write ∷ post ∷ view ∷ view ∷ view ∷ [])
        (start_view counters [])
      >>= seen)
    ≡ ok (disk_line disk_read, resting (some 1))
unfolding run_moves move view_step step_at enter refresh_disk_window_title sprintf_rs disk_line
    print_int decimal disk_rates
lost_entry = refl

abbrev idle_then_two : List (Move ProcLogInfo (Unit {0}))
idle_then_two =
    post
    ∷ view
    ∷ append (proc (codes "editor") (pos 250) 7 (pos 3) 1)
    ∷ post
    ∷ view
    ∷ view
    ∷ view
    ∷ []

process_moves-Sublist_example :
    Returns
      (λ v.
        (ys : List ProcLogInfo) × Sublist ys (take (behind (length v.log) v.phase) (rest_of v.log))
        × (v.text ≡ joined (map process_line ys)))
      (process_moves (append no_proc ∷ idle_then_two) start_process_view)
process_moves-Sublist_example = process_moves-Sublist no_proc idle_then_two

abbrev written : ProcessView → Run (CString × ℕ)
written v = ok (v.text, v.mem_posts)

-- The first entry is not shown, the second is.
second_entry_only :
    (process_moves (append no_proc ∷ idle_then_two) start_process_view >>= written)
    ≡ ok (process_line (proc (codes "editor") (pos 250) 7 (pos 3) 1), 1)
unfolding process_moves process_move refresh_process_log process_step_at process_line print_int
    decimal after_entry
second_entry_only = refl
