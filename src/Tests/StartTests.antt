-- ===== src/Tests/StartTests.antt =====
-- From the start of main: a process is created in the menu.
use ribabari.Prelude.{◌≡◌, refl, some, false, arith, Returns, ℕ, true, [], ◌∷◌, take, take_most}
use ribabari.Memory.{segment_table_init}
use ribabari.Program.Printed.{print_lines}
use ribabari.Program.RoundTrip.{code_lines}
use ribabari.Program.Header.{print_head}
use ribabari.Semaphore.{semaphore_table_init}
use ribabari.Kernel.State.{Kernel, kernel_init}
use ribabari.Kernel.Created.{Created, NumberedBelow}
use ribabari.Kernel.Step.{done, IsKept}
use ribabari.Terminal.Format.{codes}
use ribabari.Terminal.Menu.{HostEnv, Desk, main_menu, enter_key, menu_key}
use ribabari.Terminal.MenuCreate.{menu_key-Created}
use ribabari.Terminal.Screen.{first_desk}
use ribabari.Tests.MenuTests.{item, drive}
use ribabari.Start.{start, start-IsKept}
use ribabari.Tests.Data.{libc, arm, host}
use ribabari.Tests.ProgramTests.{head, head-IsHead, statements, s_found}

abbrev first : Kernel
first = start arm host

first-IsKept : IsKept first
first-IsKept = start-IsKept libc arm host first done

unnumbered : NumberedBelow first.next_proc_id first.procs
unfolding start kernel_init
unnumbered q i h = cc

-- Every name belongs to a file with the program.
abbrev with_program : HostEnv ℕ
with_program = record {
  key_down = 258;
  key_up = 259;
  key_codes = (omega arith, omega arith);
  menu_driver = drive;
  current_item = item;
  wgetnstr = λ n typed. take n typed;
  wgetnstr_most = take_most;
  exists = λ name. true;
  file = λ name. some (print_head head (print_lines (code_lines statements)));
  address = λ k. 3;
}

-- The menu stands on its first item, and the name of a file is typed.
abbrev first_desk_with : Kernel → Desk ℕ
first_desk_with k = first_desk (enter_key ∷ []) (codes "job.txt" ∷ []) 0 k

menu_key-Created_example :
    Returns
      (λ r'.
        (r'.0 ≡ false)
        × (r'.1.typed ≡ [])
        × (r'.1.warnings ≡ [])
        × (r'.1.menu ≡ 0)
        × Created 3 head statements 4096 1073741824 first r'.1.kernel
        × IsKept r'.1.kernel)
      (menu_key with_program main_menu enter_key (first_desk_with first))
unfolding start semaphore_table_init segment_table_init first_desk
menu_key-Created_example =
    menu_key-Created with_program (first_desk_with first) (codes "job.txt") head statements 4
      1073741824 first-IsKept unnumbered head-IsHead (omega arith)
      (omega arith, ((omega arith, omega arith, (0, s_found)), (omega arith, tt))) refl refl
      (omega arith) (omega arith) (omega arith) refl refl refl (omega arith) refl refl
