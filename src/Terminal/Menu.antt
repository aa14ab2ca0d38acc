-- ===== src/Terminal/Menu.antt =====
-- The main menu of terminal/terminal.c and terminal/terminal.h: menu_loop, main_menu_functions,
-- get_type_from_string and get_input_from_window. The menu of curses, its input line and the files are
-- parameters.
use ribabari.Prelude.{
  ℕ, zero, suc, ◌≤◌, ◌<◌, Bool, true, false, not, Option, List, [], ◌∷◌, ◌==◌, ◌||◌, ltb,
  if◌then◌else◌, ℤ, pos, negsuc, eq_ℤ, length, Run, ok, hung, fault, ◌>>=◌,
}
use ribabari.Process.{CString, Ptr, strcmp_eq}
use ribabari.Text.{Bytes}
use ribabari.Kernel.State.{Kernel}
use ribabari.Kernel.Create.{process_create}
use ribabari.Terminal.Format.{codes}

-- EXIT
abbrev pub exit_value : ℤ
exit_value = negsuc 0

-- `main_menu_choices`: CREATE and TOGGLE_RESOURCE_VIEW.
abbrev pub create_value : ℤ
create_value = pos 0

abbrev pub toggle_value : ℤ
toggle_value = pos 1

pub record MenuChoice : Type 0 where
  pub text : CString
  pub value : ℤ

-- MAIN_MENU
abbrev pub main_menu : List MenuChoice
main_menu =
    record { text = codes "Process Create"; value = create_value }
    ∷ record { text = codes "Toggle Resource Acquisition View"; value = toggle_value }
    ∷ record { text = codes "Exit"; value = exit_value }
    ∷ []

unfoldable pub get_type_from_string : List MenuChoice → CString → ℤ
get_type_from_string [] buffer = negsuc 0
get_type_from_string (choice ∷ rest) buffer =
    if strcmp_eq choice.text buffer then choice.value else get_type_from_string rest buffer

-- What the requests of menu_driver ask for.
pub data Request : Type 0 where
  req_down_item req_up_item : Request

-- The libraries and the files: the codes of two keys, above those of bytes, a menu of curses and its current item, the line that wgetnstr gives for what
-- is typed, at most so many bytes of it, whether a file exists, what is in it if it can be opened, and the
-- address that malloc gives for a process.
pub record HostEnv (M : Type 0) : Type 0 where
  pub key_down : ℕ
  pub key_up : ℕ
  pub key_codes : (255 < key_down) × (255 < key_up)
  pub menu_driver : Request → M → M
  pub current_item : M → CString
  pub wgetnstr : ℕ → CString → CString
  pub wgetnstr_most : (n : ℕ) (typed : CString) → length (wgetnstr n typed) ≤ n
  pub exists : CString → Bool
  pub file : CString → Option Bytes
  pub address : Kernel → Ptr

-- What the menu thread reads and changes: the keys and the lines still to be typed, the menu, the chosen view,
-- the kernel, and the warnings that were shown.
pub record Desk (M : Type 0) : Type 0 where
  pub keys : List ℕ
  pub typed : List CString
  pub menu : M
  pub r_view : Bool
  pub kernel : Kernel
  pub warnings : List CString

abbrev pub enter_key : ℕ
enter_key = 10

-- The size of the buffer for a file's name.
abbrev pub name_size : ℕ
name_size = 40

module _ {M : Type 0} (env : HostEnv M) where
  -- wgetnstr writes a NUL behind the bytes that it has read, past the end if they fill the buffer.
  unfoldable pub get_input_from_window : ℕ → Desk M → Run (CString × Desk M)
  get_input_from_window buffer_size d = elim d.typed [
    | [] ↦ hung
    | line ∷ rest ↦
        let buffer = env.wgetnstr buffer_size line in
        if ltb (length buffer) buffer_size then ok (buffer, record d { typed = rest }) else fault
  ]

  -- print_with_window: it waits for a key.
  unfoldable pub print_with_window : CString → Desk M → Run (Desk M)
  print_with_window string d = elim d.keys [
    | [] ↦ hung
    | key ∷ rest ↦ ok (record d { keys = rest; warnings = string ∷ d.warnings })
  ]

  -- The case CREATE, for the name that was typed.
  unfoldable pub create_from : CString → Desk M → Run (Desk M)
  unfolding print_with_window
  create_from input d =
      let created = process_create (env.file input) (env.address d.kernel) d.kernel in
      if not (env.exists input)
      then print_with_window (codes "The file could not be executed or it does not exist.") d
      else (created >>= λ kernel. ok (record d { kernel = kernel }))

  unfoldable pub main_menu_functions : ℤ → Desk M → Run (Desk M)
  unfolding get_input_from_window create_from
  main_menu_functions menu_function d =
      let create =
        get_input_from_window name_size d >>= (λ named. create_from (named.0) (named.1)) in
      if eq_ℤ menu_function create_value
      then create
      else if eq_ℤ menu_function toggle_value
      then ok (record d { r_view = not d.r_view })
      else ok d

  -- What menu_loop does with a key, and whether it then returns: at 0, and at Enter on an item whose type is
  -- EXIT; at Enter on another item it calls main_menu_functions.
  unfoldable pub menu_key : List MenuChoice → ℕ → Desk M → Run (Bool × Desk M)
  unfolding main_menu_functions get_type_from_string
  menu_key choices c d =
      let type = get_type_from_string choices (env.current_item d.menu) in
      let chosen = main_menu_functions type d >>= (λ d'. ok (false, d')) in
      if c == 0
      then ok (true, d)
      else if c == b'j' || c == env.key_down
      then ok (false, record d { menu = env.menu_driver req_down_item d.menu })
      else if c == b'k' || c == env.key_up
      then ok (false, record d { menu = env.menu_driver req_up_item d.menu })
      else if c == enter_key
      then (if eq_ℤ type exit_value then ok (true, d) else chosen)
      else ok (false, d)

  -- On fuel: each round reads a key, and waits for ever if there is none.
  unfoldable pub menu_loop : ℕ → List MenuChoice → Desk M → Run (Desk M)
  unfolding menu_key
  menu_loop zero choices d = hung
  menu_loop (suc fuel) choices d = elim d.keys [
    | [] ↦ hung
    | c ∷ rest ↦
        menu_key choices c (record d { keys = rest })
        >>= (λ r. elim r.0 [ true ↦ ok (r.1) | false ↦ menu_loop fuel choices (r.1) ])
  ]
