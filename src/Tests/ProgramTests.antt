-- ===== src/Tests/ProgramTests.antt =====
-- A synthetic program, as a text and read back.
use ribabari.Prelude.{
  ◌≡◌, refl, some, none, List, [], ◌∷◌, ◌++◌, arith, pos, ok, Returns, length, replicate, ◌-◌,
}
use ribabari.Process.{strcmp_eq}
use ribabari.Text.{Bytes, newline, fgets, next_token, atoi}
use ribabari.Semaphore.{Semaphore, SemaphoreTable, semaphore_find, semaphore_init}
use ribabari.Instruction.{Instr, exec}
use ribabari.Program.{
  instr_parse, is_blank, opcode_of, read_code, read_semaphores, all_lines, lines_from,
  parse_synthetic_program,
}
use ribabari.Program.Slots.{Parsed, finished, skipped, taken, read_code-Parsed}
use ribabari.Program.Names.{Registered, read_semaphores-Registered}
use ribabari.Program.Printed.{print_lines}
use ribabari.Program.Statements.{exec_for, read_at, p_on, Statement}
use ribabari.Program.RoundTrip.{code_lines, code_of, read_code-print_lines}
use ribabari.Program.Joined.{register_all}
use ribabari.Program.Header.{
  Head, IsHead, print_head, process_of, parse_synthetic_program-print_head,
}

-- "exec 4", a blank line, and an end with no newline.
abbrev short_file : Bytes
short_file = b'e' ∷ b'x' ∷ b'e' ∷ b'c' ∷ b' ' ∷ b'4' ∷ newline ∷ newline ∷ []

short_lines :
    all_lines short_file
    ≡ (b'e' ∷ b'x' ∷ b'e' ∷ b'c' ∷ b' ' ∷ b'4' ∷ newline ∷ []) ∷ (newline ∷ []) ∷ []
unfolding lines_from fgets
short_lines = refl

abbrev four : Instr
four = record { op = exec; value = pos 4; sem = none }

short_Parsed : Parsed [] (all_lines short_file) (some four ∷ [])
unfolding lines_from fgets is_blank strcmp_eq instr_parse next_token atoi opcode_of
short_Parsed = taken refl refl (skipped refl finished)

read_code-Parsed_example :
    read_code short_file []
    ≡ ok (
      (some four ∷ []) ++ replicate (length (all_lines short_file) - 1) none,
      length (all_lines short_file),
    )
read_code-Parsed_example = read_code-Parsed short_file [] (some four ∷ []) short_Parsed

first_token : next_token (b's' ∷ b' ' ∷ b't' ∷ []) ≡ some (b's' ∷ [], b't' ∷ [])
unfolding next_token
first_token = refl

read_semaphores-Registered_example :
    Returns
      (Registered ((b's' ∷ []) ∷ (b't' ∷ []) ∷ []) [])
      (read_semaphores (b's' ∷ b' ' ∷ b't' ∷ []) [])
read_semaphores-Registered_example =
    read_semaphores-Registered (b's' ∷ b' ' ∷ b't' ∷ []) (b's' ∷ []) (b't' ∷ []) [] first_token

abbrev pub s_table : SemaphoreTable
s_table = register_all [] ((b's' ∷ []) ∷ [])

pub s_found : semaphore_find s_table (b's' ∷ []) ≡ some 0
unfolding semaphore_find strcmp_eq ribabari.Semaphore.semaphore_register semaphore_init
s_found = refl

abbrev pub statements : List Statement
statements = exec_for (pos 40) ∷ p_on (b's' ∷ []) ∷ read_at (pos 45) ∷ []

read_code-print_lines_example :
    read_code (print_lines (code_lines statements)) s_table ≡ ok (code_of statements, 3)
read_code-print_lines_example =
    read_code-print_lines s_table statements
      (omega arith, ((omega arith, omega arith, (0, s_found)), (omega arith, tt)))

abbrev pub head : Head
head = record {
  name = b'j' ∷ b'o' ∷ b'b' ∷ [];
  seg_id = pos 9;
  priority = pos 1;
  seg_size = pos 4;
  names = (b's' ∷ []) ∷ [];
}

pub head-IsHead : IsHead head
head-IsHead = record {
  name_line = (omega arith, omega arith);
  seg_id_fits = omega arith;
  priority_fits = omega arith;
  seg_size_fits = omega arith;
  words = (((λ e. cc), omega arith), tt);
}

parse_synthetic_program-print_head_example :
    parse_synthetic_program (print_head head []) 3 []
    ≡ ok (process_of head 3, [], register_all [] ((b's' ∷ []) ∷ []))
parse_synthetic_program-print_head_example =
    parse_synthetic_program-print_head head [] 3 [] head-IsHead (omega arith)
