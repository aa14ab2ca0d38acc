-- ===== src/Terminal/Screen.antt =====
-- begin_terminal and create_menu of terminal/terminal.c: the windows that stay open, and what the menu begins
-- with.
use ribabari.Prelude.{ℕ, false, List, [], length}
use ribabari.Process.{CString}
use ribabari.Kernel.State.{Kernel}
use ribabari.Terminal.Format.{codes}
use ribabari.Terminal.Layout.{
  Win, init_process_log, win_memory_create, win_disk_create, init_res_acq_log, init_io_log,
  init_menu_window,
}
use ribabari.Terminal.Menu.{MenuChoice, main_menu, Desk}

-- The global variables of the windows.
pub record Screen : Type 0 where
  pub process_window : Win
  pub io_window : Win
  pub menu_window : Win
  pub res_acq_window : Win
  pub win_mem : Win
  pub win_disk : Win

unfoldable pub create_menu : ℕ → ℕ → List MenuChoice → CString → Win
create_menu lines cols choices title = init_menu_window lines cols (length choices) title

unfoldable pub begin_terminal : ℕ → ℕ → Screen
unfolding create_menu
begin_terminal lines cols = record {
  menu_window = create_menu lines cols main_menu (codes "Main Menu");
  process_window = init_process_log lines cols;
  win_mem = win_memory_create lines cols;
  win_disk = win_disk_create lines cols;
  io_window = init_io_log lines cols;
  res_acq_window = init_res_acq_log lines cols;
}

-- The memory view is the one that is shown first.
unfoldable pub first_desk : {M : Type 0} → List ℕ → List CString → M → Kernel → Desk M
first_desk keys typed menu kernel = record {
  keys = keys;
  typed = typed;
  menu = menu;
  r_view = false;
  kernel = kernel;
  warnings = [];
}
