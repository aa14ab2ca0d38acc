-- ===== src/Terminal/Layout.antt =====
-- The windows of terminal/terminal.c: what init_process_log, win_memory_create, win_disk_create,
-- init_res_acq_log, init_io_log, init_menu_window, get_input_from_window and print_with_window ask of newwin
-- and derwin on a screen of so many lines and columns, and where they write the caption.
use ribabari.Prelude.{ℕ, ◌/◌, ◌+◌, ltb, if◌then◌else◌, ℤ, pos, ◌+ℤ◌, ◌-ℤ◌, length}
use ribabari.Process.{CString}
use ribabari.Memory.{div_int}
use ribabari.Terminal.Format.{codes}
use ribabari.Terminal.Titles.{shift_1}

-- A window: its size, and its place on the screen, or in the window that it is derived from.
pub record Rect : Type 0 where
  pub height : ℤ
  pub width : ℤ
  pub y : ℤ
  pub x : ℤ

-- `win_t`, with the text that title_print writes into the title window, and its column.
pub record Win : Type 0 where
  pub main : Rect
  pub text : Rect
  pub title : Rect
  pub caption : ℤ × CString

abbrev pub box_offset : ℤ
box_offset = pos 2

abbrev pub title_offset : ℤ
title_offset = pos 2

abbrev pub box_size : ℤ
box_size = pos 2

abbrev rect : ℤ → ℤ → ℤ → ℤ → Rect
rect height width y x = record { height = height; width = width; y = y; x = x }

-- A text in the middle of a line, with a division by two that rounds as in C.
abbrev centered : ℤ → CString → ℤ × CString
centered width text = (div_int (width -ℤ pos (length text)) 2, text)

module _ (lines cols : ℕ) where
  abbrev main_height : ℤ
  main_height = pos (lines / 2)

  abbrev main_width : ℤ
  main_width = pos (cols / 2)

  unfoldable pub init_process_log : Win
  init_process_log = record {
    main = rect main_height main_width (pos 0) main_width;
    text =
        rect (main_height -ℤ title_offset -ℤ box_offset) (main_width -ℤ box_offset +ℤ pos 1)
          (div_int box_offset 2 +ℤ title_offset) (pos 1);
    title = rect (pos 3) main_width (pos 0) (pos 0);
    caption = centered main_width (codes "Process View");
  }

  unfoldable pub win_memory_create : Win
  win_memory_create = record {
    main = rect main_height main_width main_height main_width;
    text =
        rect (main_height -ℤ title_offset -ℤ box_offset) (main_width -ℤ box_offset -ℤ pos 1)
          (shift_1 box_offset +ℤ title_offset) (pos 1);
    title = rect (pos 3) main_width (pos 0) (pos 0);
    caption = (shift_1 (main_width -ℤ pos (length (codes "Memory View"))), codes "Memory View");
  }

  unfoldable pub win_disk_create : Win
  win_disk_create = record {
    main = rect main_height main_width main_height (pos 0);
    text =
        rect (main_height -ℤ (box_offset +ℤ title_offset)) (main_width -ℤ (box_offset +ℤ pos 1))
          (box_offset +ℤ pos 1) (pos 1);
    title = rect (pos 3) main_width (pos 0) (pos 0);
    caption = centered main_width (codes "Disk View");
  }

  unfoldable pub init_res_acq_log : Win
  init_res_acq_log = record {
    main = rect main_height main_width main_height main_width;
    text =
        rect (main_height -ℤ title_offset -ℤ box_offset) (main_width -ℤ box_offset -ℤ pos 1)
          (div_int box_offset 2 +ℤ title_offset) (pos 1);
    title = rect (pos 3) main_width (pos 0) (pos 0);
    caption = centered main_width (codes "Resource Acquisition View");
  }

  unfoldable pub init_io_log : Win
  init_io_log = record {
    main = rect (main_height -ℤ pos 7) main_width (pos 7) (pos 0);
    text =
        rect (main_height -ℤ pos 6 -ℤ (box_offset +ℤ title_offset))
          (main_width -ℤ (box_offset +ℤ pos 1)) (box_offset +ℤ pos 1) (pos 1);
    title = rect (pos 3) main_width (pos 0) (pos 0);
    caption = centered main_width (codes "I/O View");
  }

  -- create_menu gives the menu four lines more than it has choices, and half of the columns.
  unfoldable pub init_menu_window : ℕ → CString → Win
  init_menu_window choices_count menu_title =
      let height = pos (choices_count + 4) in
      record {
        main = rect height main_width (pos 0) (pos 0);
        text = rect (height -ℤ pos 3) (main_width -ℤ box_size) (pos 3) box_size;
        title = rect (pos 3) main_width (pos 0) (pos 0);
        caption = centered main_width menu_title;
      }

  -- Of get_input_from_window, without coordinates.
  unfoldable pub input_window : ℕ → CString → Win
  input_window buffer_size title =
      let width = pos buffer_size +ℤ box_size in
      record {
        main =
            rect (pos 5) width (main_height -ℤ pos 1)
              (div_int (pos cols -ℤ pos buffer_size +ℤ box_size) 2);
        text = rect (pos 1) (pos buffer_size +ℤ pos 1) (pos 3) (pos 1);
        title = rect (pos 3) width (pos 0) (pos 0);
        caption = centered width title;
      }

  -- Of print_with_window, for the coordinates -1.
  unfoldable pub warning_window : CString → CString → Win
  warning_window string title =
      let longest = if ltb (length title) (length string) then length string else length title in
      let width = pos longest +ℤ box_size in
      record {
        main = rect (pos 5) width (main_height -ℤ pos 1) (div_int (pos cols -ℤ width) 2);
        text = rect (pos 1) (width -ℤ pos 2) (pos 3) (pos 1);
        title = rect (pos 3) width (pos 0) (pos 0);
        caption = centered width title;
      }
