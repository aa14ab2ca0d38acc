-- ===== src/Tests/MenuTests.antt =====
-- The main menu with a cursor on its three items, and a kernel with a running process.
use ribabari.Prelude.{
  ℕ, ◌-◌, ◌+◌, ◌≡◌, ◌↔◌, ◌⊎◌, refl, Bool, true, false, none, List, [], ◌∷◌, arith, ok, fault, take,
  take_most, ltb, if◌then◌else◌, ◌==◌,
}
use ribabari.Process.{CString, strcmp_eq}
use ribabari.Terminal.Format.{codes}
use ribabari.Terminal.Menu.{
  HostEnv, Desk, Request, req_down_item, req_up_item, main_menu, enter_key, menu_key, menu_loop,
  get_type_from_string, main_menu_functions, get_input_from_window,
}
use ribabari.Terminal.MenuLoop.{IsOther, menu_key_leaves}
use ribabari.Tests.Data.{kernel_with, one_running}

abbrev pub item : ℕ → CString
item n =
    if n == 0
    then codes "Process Create"
    else if n == 1
    then codes "Toggle Resource Acquisition View"
    else codes "Exit"

abbrev pub drive : Request → ℕ → ℕ
drive req_down_item n = if ltb n 2 then n + 1 else n
drive req_up_item n = n - 1

-- No file exists.
abbrev bare : HostEnv ℕ
bare = record {
  key_down = 258;
  key_up = 259;
  key_codes = (omega arith, omega arith);
  menu_driver = drive;
  current_item = item;
  wgetnstr = λ n typed. take n typed;
  wgetnstr_most = take_most;
  exists = λ name. false;
  file = λ name. none;
  address = λ k. 9;
}

abbrev desk : List ℕ → ℕ → Bool → Desk ℕ
desk keys cursor r_view = record {
  keys = keys;
  typed = [];
  menu = cursor;
  r_view = r_view;
  kernel = kernel_with one_running;
  warnings = [];
}

-- Down, Enter, down, Enter: the view is toggled, then the loop returns.
abbrev toggled_then_exit : List ℕ
toggled_then_exit = b'j' ∷ 10 ∷ 258 ∷ 10 ∷ []

toggles : menu_loop bare 5 main_menu (desk toggled_then_exit 0 false) ≡ ok (desk [] 2 true)
unfolding menu_loop menu_key get_type_from_string main_menu_functions strcmp_eq
toggles = refl

menu_key_leaves_example :
    (menu_key bare main_menu enter_key (desk [] 2 true) ≡ ok (true, desk [] 2 true)) ↔ (
      (desk [] 2 true ≡ desk [] 2 true)
      × ((enter_key ≡ 0) ⊎ ((enter_key ≡ enter_key) × IsOther (codes "Exit"))))
menu_key_leaves_example = menu_key_leaves bare enter_key (desk [] 2 true) (desk [] 2 true)

-- A name of forty bytes fills the buffer, and its NUL is written past the end.
abbrev forty : CString
forty = codes "/home/user/programs/editor.synthetic.txt"

name_overflows :
    get_input_from_window bare 40 (record (desk [] 0 false) { typed = forty ∷ [] }) ≡ fault
unfolding get_input_from_window
name_overflows = refl
