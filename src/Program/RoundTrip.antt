-- ===== src/Program/RoundTrip.antt =====
-- A synthetic program as a text, and what parse_synthetic_program and read_code of process/process.c make
-- of that text.
use ribabari.Prelude.{
  ℕ, suc, ◌-◌, ◌≤◌, ◌≡◌, refl, sym, ◌∙◌, ap, subst, false, Option, some, List, [], ◌∷◌, ◌++◌, arith,
  ℤ, Fits, ok, All, length, length-append, map,
}
use mathlib.Core.List.{append-nil}
use ribabari.Process.{CString, strcmp_eq}
use ribabari.Text.{space}
use ribabari.Text.Numbers.{IsWordByte, print_int, print_int-words, length-print_int}
use ribabari.Semaphore.{SemaphoreTable}
use ribabari.Instruction.{Instr}
use ribabari.Program.{read_code, all_lines, is_blank, exec_word, read_word, write_word, print_word}
use ribabari.Program.Lines.{IsPlain}
use ribabari.Program.Printed.{IsLine, with_newline, print_lines, all_lines-print}
use ribabari.Program.Slots.{Parsed, finished, taken, read_code-Parsed}
use ribabari.Program.Statements.{
  Statement, exec_for, read_at, write_at, print_for, p_on, v_on, print_statement, binary, meaning,
  IsKnown, instr_parse-print_statement, words-IsPlain,
}
use ribabari.Program.Joined.{IsPlain-append}

-- A printed statement is one line of text, and not a blank one.
record Printable (s : Statement) : Type 0 where
  line : IsLine (print_statement s)
  text : is_blank (with_newline (print_statement s)) ≡ false

binary-IsLine :
    (word : CString) (v : ℤ) → All IsPlain word → length word ≤ 5 → Fits v → IsLine (binary word v)
binary-IsLine word v h short fits = (
  IsPlain-append word (space ∷ print_int v) h
      ((omega arith, omega arith), words-IsPlain (print_int v) (print_int-words v)),
  omega (arith, length-append word (space ∷ print_int v), length-print_int v fits),
)

semaphore-IsLine :
    (a : ℕ) (name : CString)
    → IsPlain a
    → All IsWordByte name
    → length name ≤ 200
    → IsLine (a ∷ b'(' ∷ (name ++ b')' ∷ []))
semaphore-IsLine a name h words short = (
  (
    h,
    (
      (omega arith, omega arith),
      IsPlain-append name (b')' ∷ []) (words-IsPlain name words) (omega arith),
    ),
  ),
  omega (arith, length-append name (b')' ∷ [])),
)

IsKnown-Printable : (t : SemaphoreTable) (s : Statement) → IsKnown t s → Printable s
unfolding is_blank strcmp_eq
IsKnown-Printable t (exec_for v) fits = record {
  line = binary-IsLine exec_word v (omega arith) (omega arith) fits;
  text = refl;
}
IsKnown-Printable t (read_at v) fits = record {
  line = binary-IsLine read_word v (omega arith) (omega arith) fits;
  text = refl;
}
IsKnown-Printable t (write_at v) fits = record {
  line = binary-IsLine write_word v (omega arith) (omega arith) fits;
  text = refl;
}
IsKnown-Printable t (print_for v) fits = record {
  line = binary-IsLine print_word v (omega arith) (omega arith) fits;
  text = refl;
}
IsKnown-Printable t (p_on name) (words, short, found) = record {
  line = semaphore-IsLine b'P' name (omega arith) words short;
  text = refl;
}
IsKnown-Printable t (v_on name) (words, short, found) = record {
  line = semaphore-IsLine b'V' name (omega arith) words short;
  text = refl;
}

abbrev pub code_lines : List Statement → List CString
code_lines [] = []
code_lines (s ∷ rest) = print_statement s ∷ code_lines rest

abbrev pub code_of : List Statement → List (Option Instr)
code_of [] = []
code_of (s ∷ rest) = some (meaning s) ∷ code_of rest

code_lines-IsLine :
    (t : SemaphoreTable) (code : List Statement)
    → All (IsKnown t) code
    → All IsLine (code_lines code)
code_lines-IsLine t [] h = tt
code_lines-IsLine t (s ∷ code) h = ((IsKnown-Printable t s h.0).line, code_lines-IsLine t code h.1)

code_lines-Parsed :
    (t : SemaphoreTable) (code : List Statement)
    → All (IsKnown t) code
    → Parsed t (map with_newline (code_lines code)) (code_of code)
code_lines-Parsed t [] h = finished
code_lines-Parsed t (s ∷ code) h =
    taken (IsKnown-Printable t s h.0).text (instr_parse-print_statement t s h.0)
      (code_lines-Parsed t code h.1)

length-code_lines :
    (code : List Statement) → length (map with_newline (code_lines code)) ≡ length code
length-code_lines [] = refl
length-code_lines (s ∷ code) = ap suc (length-code_lines code)

pub length-code_of : (code : List Statement) → length (code_of code) ≡ length code
length-code_of [] = refl
length-code_of (s ∷ code) = ap suc (length-code_of code)

-- The code of a program, printed a statement a line, is read back as the instructions that the statements
-- stand for, and the length reported is their number.
pub read_code-print_lines :
    (t : SemaphoreTable) (code : List Statement)
    → All (IsKnown t) code
    → read_code (print_lines (code_lines code)) t ≡ ok (code_of code, length code)
read_code-print_lines t code h =
    let lines = all_lines-print (code_lines code) (code_lines-IsLine t code h) in
    let parsed : Parsed t (all_lines (print_lines (code_lines code))) (code_of code) =
      subst (λ ls. Parsed t ls (code_of code)) (sym lines) (code_lines-Parsed t code h) in
    let none_over : length code - length code ≡ 0 = omega arith in
    read_code-Parsed (print_lines (code_lines code)) t (code_of code) parsed
    ∙ rw (lines, length-code_lines code, length-code_of code, none_over, append-nil)
