-- ===== src/Program/Header.antt =====
-- The head of a synthetic program: its name, three numbers, and the line of its semaphores.
use ribabari.Prelude.{
  ℕ, ◌<◌, ◌≡◌, refl, Option, some, none, List, [], ◌∷◌, ◌++◌, arith, ℤ, pos, Fits, ok, All, length,
}
use ribabari.Process.{CString, Process, new, strcmp_eq}
use ribabari.Text.{Bytes, newline, line_room, read_line}
use ribabari.Text.Numbers.{print_int, atoi-print_int, print_int-words, length-print_int}
use ribabari.Semaphore.{SemaphoreTable}
use ribabari.Program.{parse_synthetic_program, parse_semaphores}
use ribabari.Program.Printed.{IsLine, with_newline, fgets-line, read_line-line}
use ribabari.Program.Statements.{chop-append, words-IsPlain}
use ribabari.Program.Joined.{
  IsWord, join, register_all, read_semaphores-join, join-not_blank, IsPlain-join,
}

pub record Head : Type 0 where
  pub name : CString
  pub seg_id : ℤ
  pub priority : ℤ
  pub seg_size : ℤ
  pub names : List CString

pub record IsHead (src : Head) : Type 0 where
  pub name_line : IsLine src.name
  pub seg_id_fits : Fits src.seg_id
  pub priority_fits : Fits src.priority
  pub seg_size_fits : Fits src.seg_size
  pub words : All IsWord src.names

abbrev pub semaphores_line : List CString → CString
semaphores_line [] = []
semaphores_line (n ∷ ns) = join n ns

-- A blank line stands behind the semaphores, or in their place.
abbrev pub print_names : List CString → Bytes → Bytes
print_names [] code = newline ∷ code
print_names (n ∷ ns) code = join n ns ++ newline ∷ newline ∷ code

abbrev pub print_head : Head → Bytes → Bytes
print_head src code =
    src.name
    ++ newline
      ∷ (print_int src.seg_id
          ++ newline
            ∷ (print_int src.priority
                ++ newline ∷ (print_int src.seg_size ++ newline ∷ print_names src.names code)))

abbrev pub semaphores_of : List CString → Option (List CString)
semaphores_of [] = none
semaphores_of (n ∷ ns) = some (n ∷ ns)

abbrev pub process_of : Head → ℕ → Process
process_of src id = record {
  name = src.name;
  id = id;
  pc = 0;
  code_len = 0;
  seg_id = src.seg_id;
  seg_size = src.seg_size;
  priority = src.priority;
  remaining = pos 0;
  state = new;
  o_files = [];
  semaphores = semaphores_of src.names;
}

number-IsLine : (v : ℤ) → Fits v → IsLine (print_int v)
number-IsLine v fits =
    (words-IsPlain (print_int v) (print_int-words v), omega (arith, length-print_int v fits))

-- The line of semaphores, read, and what parse_semaphores makes of it.
names-print :
    (names : List CString) (buf : CString) (code : Bytes) (t : SemaphoreTable)
    → All IsWord names
    → length (semaphores_line names) < line_room
    → (let (line, rest) = read_line buf (print_names names code) in parse_semaphores line rest t)
      ≡ ok (semaphores_of names, code, register_all t names)
unfolding parse_semaphores
names-print [] buf code t words short =
    rw (read_line-line buf [] code (tt, omega arith)) (unfold strcmp_eq in refl)
names-print (n ∷ ns) buf code t words short =
    rw
      (
        read_line-line buf (join n ns) (newline ∷ code) (IsPlain-join n ns words.0 words.1, short),
        join-not_blank n ns words.0,
        chop-append (join n ns) newline,
      )
      (rw (
        read_semaphores-join n ns t words.0 words.1,
        read_line-line (join n ns) [] code (tt, omega arith),
      ))

-- The head of a program, printed with any code behind it, is read back: the process has the name, the
-- numbers and the semaphores of the head and the id it was given; its semaphores are registered in
-- their order; and the code is what is left of the file.
pub parse_synthetic_program-print_head :
    (src : Head) (code : Bytes) (id : ℕ) (t : SemaphoreTable)
    → IsHead src
    → length (semaphores_line src.names) < line_room
    → parse_synthetic_program (print_head src code) id t
      ≡ ok (process_of src id, code, register_all t src.names)
unfolding parse_synthetic_program
parse_synthetic_program-print_head src code id t h short =
    let tail3 = print_names src.names code in
    let tail2 = print_int src.seg_size ++ newline ∷ tail3 in
    let tail1 = print_int src.priority ++ newline ∷ tail2 in
    let line0 = print_int src.seg_id in
    let line1 = print_int src.priority in
    let line2 = print_int src.seg_size in
    rw (fgets-line src.name (line0 ++ newline ∷ tail1) h.name_line, chop-append src.name newline)
      (rw
        (
          read_line-line src.name line0 tail1 (number-IsLine src.seg_id h.seg_id_fits),
          atoi-print_int src.seg_id h.seg_id_fits,
        )
        (rw
          (
            read_line-line (with_newline line0) line1 tail2
                (number-IsLine src.priority h.priority_fits),
            atoi-print_int src.priority h.priority_fits,
          )
          (rw
            (
              read_line-line (with_newline line1) line2 tail3
                  (number-IsLine src.seg_size h.seg_size_fits),
              atoi-print_int src.seg_size h.seg_size_fits,
            )
            (rw (names-print src.names (with_newline line2) code t h.words short)))))
