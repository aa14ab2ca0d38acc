-- ===== src/Terminal/MenuCreate.antt =====
-- What the main menu does with Enter on its first item.
use ribabari.Prelude.{
  ℕ, ◌*◌, ◌≤◌, ◌<◌, ◌≡◌, ◌≢◌, refl, none, some, pos, All, Returns, true, false, List, [], ◌∷◌,
  arith, ==_ne, ltb, length, ok,
}
use ribabari.Process.{CString, null, strcmp_eq}
use ribabari.Kernel.State.{Kernel}
use ribabari.Kernel.Create.{process_create}
use ribabari.Kernel.Created.{Created, NumberedBelow, process_create-Created}
use ribabari.Kernel.Lifetime.{Created-IsSettled}
use ribabari.Kernel.Step.{IsKept}
use ribabari.Memory.{kilobyte, max_mem_size}
use ribabari.Program.Printed.{print_lines}
use ribabari.Program.Statements.{Statement, IsKnown}
use ribabari.Program.RoundTrip.{code_lines}
use ribabari.Program.Joined.{register_all}
use ribabari.Program.Header.{Head, IsHead, semaphores_line, print_head}
use ribabari.Text.{line_room}
use ribabari.Terminal.Format.{codes}
use ribabari.Terminal.Menu.{
  main_menu, get_type_from_string, HostEnv, Desk, enter_key, name_size, get_input_from_window,
  create_from, main_menu_functions, menu_key,
}

module _ {M : Type 0} (env : HostEnv M) where
  -- A name that fits into the buffer, and belongs to a file, is given to process_create.
  pub create_key :
      (name : CString) (d : Desk M) (k : Kernel)
      → env.current_item d.menu ≡ codes "Process Create"
      → d.typed ≡ name ∷ []
      → length (env.wgetnstr name_size name) < name_size
      → env.exists (env.wgetnstr name_size name) ≡ true
      → process_create (env.file (env.wgetnstr name_size name)) (env.address d.kernel) d.kernel
        ≡ ok k
      → menu_key env main_menu enter_key d ≡ ok (false, record d { typed = []; kernel = k })
  unfolding menu_key main_menu_functions get_type_from_string strcmp_eq get_input_from_window
      create_from
  create_key name d k item typed short exists created =
      let fits : ltb (length (env.wgetnstr name_size name)) name_size ≡ true =
        ground (arith, short) in
      rw
        (
          item,
          ==_ne enter_key env.key_down (omega (arith, env.key_codes.0)),
          ==_ne enter_key env.key_up (omega (arith, env.key_codes.1)),
          typed,
          fits,
          exists,
          created,
        )
        refl

module _ {M : Type 0} (env : HostEnv M) (d : Desk M) (name : CString) (src : Head)
    (code : List Statement) (size r : ℕ) (kept : IsKept d.kernel)
    (below : NumberedBelow d.kernel.next_proc_id d.kernel.procs) (head : IsHead src)
    (short : length (semaphores_line src.names) < line_room)
    (known : All (IsKnown (register_all d.kernel.sem_table src.names)) code)
    (asked : src.seg_size ≡ pos size) (left : d.kernel.seg_table.remaining ≡ pos r)
    (fits : size * kilobyte ≤ r) (bound : r ≤ max_mem_size) (ne : env.address d.kernel ≢ null)
    (free : d.kernel.procs (env.address d.kernel) ≡ none)
    (item : env.current_item d.menu ≡ codes "Process Create") (typed : d.typed ≡ name ∷ [])
    (named : length (env.wgetnstr name_size name) < name_size)
    (exists : env.exists (env.wgetnstr name_size name) ≡ true)
    (file : env.file (env.wgetnstr name_size name)
      ≡ some (print_head src (print_lines (code_lines code)))) where
  -- On any settled kernel with the ids below the next one: Enter on Process Create, and a name that fits into
  -- its buffer, of a file that is a printed program whose semaphores are in its own line or in the table
  -- and whose segment fits in the free memory, at an address of malloc where no process is. The menu goes
  -- on with the name taken and no warning shown; the process of the program is created at the address,
  -- and the kernel is settled.
  pub menu_key-Created :
      Returns
        (λ r'.
          (r'.0 ≡ false)
          × (r'.1.typed ≡ [])
          × (r'.1.warnings ≡ d.warnings)
          × (r'.1.menu ≡ d.menu)
          × Created (env.address d.kernel) src code (size * kilobyte) r d.kernel r'.1.kernel
          × IsKept r'.1.kernel)
        (menu_key env main_menu enter_key d)
  menu_key-Created =
      let p = env.address d.kernel in
      let (k, e, made) =
        process_create-Created p d.kernel src code size r kept.0.valid ne free below head short
          known asked left fits bound in
      let created : process_create (env.file (env.wgetnstr name_size name)) p d.kernel ≡ ok k =
        rw file e in
      (
        (false, record d { typed = []; kernel = k }),
        create_key env name d k item typed named exists created,
        (
          refl,
          refl,
          refl,
          refl,
          made,
          (
            Created-IsSettled p src code (size * kilobyte) r d.kernel k kept.0 made,
            rw (made.arm) (kept.1),
          ),
        ),
      )
