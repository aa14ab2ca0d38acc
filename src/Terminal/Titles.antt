-- ===== src/Terminal/Titles.antt =====
-- The title bars of terminal/terminal.c: the texts that refresh_disk_window_title, refresh_io_title_window,
-- refresh_memory_window_title and refresh_res_acq_window_title write, each with its column in row 1. The
-- percentage of the memory in use is computed in double, so its text is an argument.
use ribabari.Prelude.{
  ℕ, ◌/◌, List, [], ◌∷◌, if◌then◌else◌, ltb, ℤ, pos, negsuc, ◌-ℤ◌, length, Run, ok, fault, ◌>>=◌,
}
use ribabari.Process.{CString}
use ribabari.Log.{DiskGeneralLog, IoGeneralLog}
use ribabari.Semaphore.{SemaphoreTable}
use ribabari.Memory.{SegmentTable, div_int}
use ribabari.Text.Numbers.{print_int}
use ribabari.Terminal.{sem_blocked_count, max_seg_size}
use ribabari.Terminal.Format.{codes, joined}

-- What stands in a title bar: texts with their columns, in the order of writing.
abbrev pub Title : Type 0
Title = List (ℤ × CString)

-- WIN_MEM_BUFFER_RS_SIZE, WIN_DISK_BUFFER_RS_SIZE, and the size of print_buffer.
abbrev pub buffer_rs_size : ℕ
buffer_rs_size = 64

-- `sprintf` into such a buffer: a longer text, with its NUL, is written past the end.
unfoldable pub sprintf_rs : CString → Run CString
sprintf_rs text = if ltb (length text) buffer_rs_size then ok text else fault

-- The column at which title_print is called.
unfoldable pub title_column : ℕ → CString → ℤ
title_column width title = div_int (pos width -ℤ pos (length title)) 2

unfoldable pub disk_rates : DiskGeneralLog → CString
disk_rates g = joined (
    codes "AngV: "
    ∷ print_int g.angular_v
    ∷ codes " rpm R: "
    ∷ print_int (pos g.r_req_count)
    ∷ codes " W: "
    ∷ print_int (pos g.w_req_count)
    ∷ [])

unfoldable pub disk_arm : DiskGeneralLog → CString
disk_arm g = joined (
    codes "DIR: "
    ∷ (if g.forward_dir then codes "F" else codes "B")
    ∷ codes " Track: "
    ∷ print_int (pos g.curr_track)
    ∷ codes " Requests: "
    ∷ print_int (pos g.pending_requests_size)
    ∷ [])

unfoldable pub refresh_disk_window_title : ℕ → DiskGeneralLog → Run Title
unfolding sprintf_rs disk_rates
refresh_disk_window_title cols g = do
  rates ← sprintf_rs (disk_rates g)
  ok (
      (pos 1, disk_arm g)
      ∷ (pos (cols / 2) -ℤ pos (length rates) -ℤ pos 1, rates)
      ∷ (title_column (cols / 2) (codes "Disk View"), codes "Disk View")
      ∷ [])

unfoldable pub print_time : IoGeneralLog → CString
print_time g = joined (codes "Print: " ∷ print_int g.p_time ∷ codes " u.t." ∷ [])

unfoldable pub refresh_io_title_window : ℕ → IoGeneralLog → Run Title
unfolding sprintf_rs print_time
refresh_io_title_window cols g = do
  buffer ← sprintf_rs (print_time g)
  ok (
      (
        pos 1,
        joined (
            codes "R: "
            ∷ print_int (pos g.r_bytes)
            ∷ codes " bytes W: "
            ∷ print_int (pos g.w_bytes)
            ∷ codes " bytes"
            ∷ []),
      )
      ∷ (pos (cols / 2) -ℤ pos (length buffer) -ℤ pos 2, buffer)
      ∷ (title_column (cols / 2) (codes "I/O View"), codes "I/O View")
      ∷ [])

unfoldable pub refresh_res_acq_window_title : ℕ → SemaphoreTable → Run Title
refresh_res_acq_window_title cols table = do
  count ← sem_blocked_count table
  ok (
      (
        pos 1,
        joined (
            codes "Semaphore Count: "
            ∷ print_int (pos (length table))
            ∷ codes " Blocked: "
            ∷ print_int count
            ∷ []),
      )
      ∷ (
        title_column (cols / 2) (codes "Resource Acquisition View"),
        codes "Resource Acquisition View",
      )
      ∷ [])

-- `x >> 10`, which rounds down.
unfoldable pub shift_10 : ℤ → ℤ
shift_10 (pos n) = pos (n / 1024)
shift_10 (negsuc n) = negsuc (n / 1024)

-- `x >> 1`
unfoldable pub shift_1 : ℤ → ℤ
shift_1 (pos n) = pos (n / 2)
shift_1 (negsuc n) = negsuc (n / 2)

-- `use` is the text of the percentage, with the format %.1lf.
unfoldable pub memory_use : CString → SegmentTable → CString
memory_use use_text t = joined (
    codes "LSS: "
    ∷ print_int (shift_10 (max_seg_size t.seg_list))
    ∷ codes " Kbytes Use: "
    ∷ use_text
    ∷ codes "%"
    ∷ [])

unfoldable pub refresh_memory_window_title : ℕ → (ℤ → CString) → SegmentTable → Run Title
unfolding sprintf_rs memory_use
refresh_memory_window_title cols use_of t = do
  buffer ← sprintf_rs (memory_use (use_of t.remaining) t)
  ok (
      (
        pos 1,
        joined (codes "Remaining: " ∷ print_int (shift_10 t.remaining) ∷ codes " Kbytes" ∷ []),
      )
      ∷ (pos (cols / 2) -ℤ pos (length buffer) -ℤ pos 1, buffer)
      ∷ (shift_1 (pos (cols / 2) -ℤ pos (length (codes "Memory View"))), codes "Memory View")
      ∷ [])
