-- ===== src/Terminal/Placed.antt =====
-- On a screen that is large enough the windows lie where they should.
use ribabari.Prelude.{ℕ, ◌≤◌, ◌≡◌, refl, arith, ℤ, pos, ◌+ℤ◌, ◌-ℤ◌, ◌≤ℤ◌, ◌<ℤ◌, length}
use ribabari.Process.{CString}
use ribabari.Terminal.Format.{codes}
use ribabari.Terminal.Titles.{shift_1}
use ribabari.Terminal.Layout.{
  Rect, Win, init_process_log, win_memory_create, win_disk_create, init_res_acq_log, init_io_log,
  init_menu_window, input_window, warning_window,
}

-- A window with an area lies in one of a size, as newwin and derwin ask.
abbrev Inside : ℤ → ℤ → Rect → Type 0
Inside height width r =
    (pos 0 <ℤ r.height)
    × (pos 0 <ℤ r.width)
    × (pos 0 ≤ℤ r.y)
    × (pos 0 ≤ℤ r.x)
    × (r.y +ℤ r.height ≤ℤ height)
    × (r.x +ℤ r.width ≤ℤ width)

-- A window on the screen, with the two that are derived from it in it, the text below the title, and the
-- caption between the borders.
abbrev pub IsPlaced : ℕ → ℕ → Win → Type 0
IsPlaced lines cols w =
    Inside (pos lines) (pos cols) w.main
    × Inside (w.main.height) (w.main.width) w.text
    × Inside (w.main.height) (w.main.width) w.title
    × (w.title.y +ℤ w.title.height ≤ℤ w.text.y)
    × (pos 0 <ℤ w.caption.0)
    × (w.caption.0 +ℤ pos (length w.caption.1) <ℤ w.title.width)

process-IsPlaced :
    (lines cols : ℕ) → 22 ≤ lines → 56 ≤ cols → IsPlaced lines cols (init_process_log lines cols)
unfolding init_process_log ◌+ℤ◌ ◌-ℤ◌
process-IsPlaced lines cols hl hc = ground arith

memory-IsPlaced :
    (lines cols : ℕ) → 22 ≤ lines → 56 ≤ cols → IsPlaced lines cols (win_memory_create lines cols)
unfolding win_memory_create ◌+ℤ◌ ◌-ℤ◌ shift_1
memory-IsPlaced lines cols hl hc = ground arith

disk-IsPlaced :
    (lines cols : ℕ) → 22 ≤ lines → 56 ≤ cols → IsPlaced lines cols (win_disk_create lines cols)
unfolding win_disk_create ◌+ℤ◌ ◌-ℤ◌
disk-IsPlaced lines cols hl hc = ground arith

res_acq-IsPlaced :
    (lines cols : ℕ) → 22 ≤ lines → 56 ≤ cols → IsPlaced lines cols (init_res_acq_log lines cols)
unfolding init_res_acq_log ◌+ℤ◌ ◌-ℤ◌
res_acq-IsPlaced lines cols hl hc = ground arith

io-IsPlaced :
    (lines cols : ℕ) → 22 ≤ lines → 56 ≤ cols → IsPlaced lines cols (init_io_log lines cols)
unfolding init_io_log ◌+ℤ◌ ◌-ℤ◌
io-IsPlaced lines cols hl hc = ground arith

menu-IsPlaced :
    (lines cols : ℕ)
    → 22 ≤ lines
    → 56 ≤ cols
    → IsPlaced lines cols (init_menu_window lines cols 3 (codes "Main Menu"))
unfolding init_menu_window ◌+ℤ◌ ◌-ℤ◌
menu-IsPlaced lines cols hl hc = ground arith

abbrev pub file_question : CString
file_question = codes "What is the name of the file?"

abbrev pub file_warning : CString
file_warning = codes "The file could not be executed or it does not exist."

input-IsPlaced :
    (lines cols : ℕ)
    → 22 ≤ lines
    → 56 ≤ cols
    → IsPlaced lines cols (input_window lines cols 40 file_question)
unfolding input_window ◌+ℤ◌ ◌-ℤ◌
input-IsPlaced lines cols hl hc = ground arith

warning-IsPlaced :
    (lines cols : ℕ)
    → 22 ≤ lines
    → 56 ≤ cols
    → IsPlaced lines cols (warning_window lines cols file_warning (codes "WARNING."))
unfolding warning_window ◌+ℤ◌ ◌-ℤ◌
warning-IsPlaced lines cols hl hc = ground arith

-- A window of the screen ends above another, or on its left.
abbrev Above : Win → Win → Type 0
Above a b = a.main.y +ℤ a.main.height ≤ℤ b.main.y

abbrev LeftOf : Win → Win → Type 0
LeftOf a b = a.main.x +ℤ a.main.width ≤ℤ b.main.x

-- How the windows share the screen: the menu, the I/O view and the disk view stand on the left, one
-- below another, and on the right the process view above the memory view, whose place the view of the
-- acquisitions takes.
abbrev pub IsTiled : ℕ → ℕ → Type 0
IsTiled lines cols =
    let menu = init_menu_window lines cols 3 (codes "Main Menu") in
    let process = init_process_log lines cols in
    let memory = win_memory_create lines cols in
    let disk = win_disk_create lines cols in
    let io = init_io_log lines cols in
    Above menu io
    × Above io disk
    × Above process memory
    × LeftOf menu process
    × LeftOf io process
    × LeftOf disk memory
    × LeftOf disk process
    × ((init_res_acq_log lines cols).main ≡ memory.main)

tiled : (lines cols : ℕ) → 22 ≤ lines → IsTiled lines cols
unfolding init_menu_window init_process_log win_memory_create win_disk_create init_io_log
    init_res_acq_log ◌+ℤ◌ ◌-ℤ◌
tiled lines cols hl = (
  ground arith,
  ground arith,
  ground arith,
  ground arith,
  ground arith,
  ground arith,
  ground arith,
  refl,
)

-- On a screen of at least 22 lines and 56 columns every window lies on the screen, its text and its title
-- lie in it, the text below the title, the caption fits between the borders. The memory window
-- and that of the acquisitions have the same place; the menu, the process view, that place, the disk view
-- and the I/O view do not overlap.
pub layout-IsPlaced :
    (lines cols : ℕ)
    → 22 ≤ lines
    → 56 ≤ cols
    → IsPlaced lines cols (init_process_log lines cols)
      × IsPlaced lines cols (win_memory_create lines cols)
      × IsPlaced lines cols (win_disk_create lines cols)
      × IsPlaced lines cols (init_res_acq_log lines cols)
      × IsPlaced lines cols (init_io_log lines cols)
      × IsPlaced lines cols (init_menu_window lines cols 3 (codes "Main Menu"))
      × IsPlaced lines cols (input_window lines cols 40 file_question)
      × IsPlaced lines cols (warning_window lines cols file_warning (codes "WARNING."))
      × IsTiled lines cols
layout-IsPlaced lines cols hl hc = (
  process-IsPlaced lines cols hl hc,
  memory-IsPlaced lines cols hl hc,
  disk-IsPlaced lines cols hl hc,
  res_acq-IsPlaced lines cols hl hc,
  io-IsPlaced lines cols hl hc,
  menu-IsPlaced lines cols hl hc,
  input-IsPlaced lines cols hl hc,
  warning-IsPlaced lines cols hl hc,
  tiled lines cols hl,
)
