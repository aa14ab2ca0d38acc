-- ===== src/Program/Statements.antt =====
-- The lines of a synthetic program's code, as the README describes them, and instr_parse on them.
use mathlib.Core.Option
use ribabari.Prelude.{
  ℕ, ◌≤◌, ◌≡◌, ◌≢◌, refl, some, none, [], ◌∷◌, ◌++◌, arith, ℤ, pos, Fits, ok, All, length,
}
use ribabari.Process.{CString, strcmp_eq}
use ribabari.Text.{newline, space, chop}
use ribabari.Text.Numbers.{print_int, IsWordByte, atoi-print_int, print_int-words}
use ribabari.Text.Tokens.{NoSpace, next_token-space, next_token-last}
use ribabari.Semaphore.{SemaphoreTable, semaphore_find}
use ribabari.Instruction.{Opcode, exec, read, write, print, sem_p, sem_v, Instr}
use ribabari.Program.{
  exec_word, read_word, write_word, print_word, opcode_of, instr_binary_parse, inner_name,
  instr_parse,
}
use ribabari.Program.Lines.{IsPlain}
use ribabari.Program.Printed.{with_newline}

pub data Statement : Type 0 where
  exec_for read_at write_at print_for : ℤ → Statement
  p_on v_on : CString → Statement

abbrev pub binary : CString → ℤ → CString
binary word v = word ++ space ∷ print_int v

abbrev pub print_statement : Statement → CString
print_statement (exec_for v) = binary exec_word v
print_statement (read_at v) = binary read_word v
print_statement (write_at v) = binary write_word v
print_statement (print_for v) = binary print_word v
print_statement (p_on name) = b'P' ∷ b'(' ∷ (name ++ b')' ∷ [])
print_statement (v_on name) = b'V' ∷ b'(' ∷ (name ++ b')' ∷ [])

abbrev with_value : Opcode → ℤ → Instr
with_value op v = record { op = op; value = v; sem = none }

abbrev on_semaphore : Opcode → CString → Instr
on_semaphore op name = record { op = op; value = pos 0; sem = some name }

-- The instruction that a statement stands for.
abbrev pub meaning : Statement → Instr
meaning (exec_for v) = with_value exec v
meaning (read_at v) = with_value read v
meaning (write_at v) = with_value write v
meaning (print_for v) = with_value print v
meaning (p_on name) = on_semaphore sem_p name
meaning (v_on name) = on_semaphore sem_v name

abbrev pub IsName : SemaphoreTable → CString → Type 0
IsName table name =
    All IsWordByte name × (length name ≤ 200) × ((i : ℕ) × (semaphore_find table name ≡ some i))

-- Its number is an `int`, or its semaphore is registered.
abbrev pub IsKnown : SemaphoreTable → Statement → Type 0
IsKnown table (exec_for v) = Fits v
IsKnown table (read_at v) = Fits v
IsKnown table (write_at v) = Fits v
IsKnown table (print_for v) = Fits v
IsKnown table (p_on name) = IsName table name
IsKnown table (v_on name) = IsName table name

words-NoSpace : (s : CString) → All IsWordByte s → NoSpace (with_newline s)
words-NoSpace [] h = (omega arith, tt)
words-NoSpace (c ∷ s) h = (h.0.2, words-NoSpace s h.1)

pub words-IsPlain : (s : CString) → All IsWordByte s → All IsPlain s
words-IsPlain [] h = tt
words-IsPlain (c ∷ s) h = ((h.0.0, h.0.1), words-IsPlain s h.1)

append-ne_nil : (s : CString) (c : ℕ) → s ++ c ∷ [] ≢ []
append-ne_nil [] c e = cc
append-ne_nil (x ∷ s) c e = cc

pub chop-append : (s : CString) (c : ℕ) → chop (s ++ c ∷ []) ≡ ok s
unfolding chop
chop-append [] c = refl
chop-append (x ∷ []) c = refl
chop-append (x ∷ y ∷ s) c = rw (chop-append (y ∷ s) c)

binary-print :
    (word : CString) (v : ℤ)
    → word ≢ []
    → NoSpace word
    → Fits v
    → instr_binary_parse (word ++ space ∷ with_newline (print_int v))
      ≡ ok (Option.map (λ op. with_value op v) (opcode_of word))
unfolding instr_binary_parse
binary-print word v ne h fits = rw (
  next_token-space word (with_newline (print_int v)) ne h,
  next_token-last (with_newline (print_int v)) (append-ne_nil (print_int v) newline)
      (words-NoSpace (print_int v) (print_int-words v)),
  atoi-print_int v fits,
)

inner_name-print :
    (a b : ℕ) (name : CString) → inner_name (a ∷ b ∷ with_newline (name ++ b')' ∷ [])) ≡ ok name
unfolding inner_name
inner_name-print a b name = rw (chop-append (name ++ b')' ∷ []) newline, chop-append name b')')

-- A line of code that is printed for a statement, with a number that is an `int` or a semaphore that is
-- registered, is parsed as the instruction that the statement stands for.
pub instr_parse-print_statement :
    (table : SemaphoreTable) (s : Statement)
    → IsKnown table s
    → instr_parse (with_newline (print_statement s)) table ≡ ok (some (meaning s))
unfolding instr_parse opcode_of strcmp_eq
instr_parse-print_statement table (exec_for v) fits =
    binary-print exec_word v (cc) (omega arith) fits
instr_parse-print_statement table (read_at v) fits =
    binary-print read_word v (cc) (omega arith) fits
instr_parse-print_statement table (write_at v) fits =
    binary-print write_word v (cc) (omega arith) fits
instr_parse-print_statement table (print_for v) fits =
    binary-print print_word v (cc) (omega arith) fits
instr_parse-print_statement table (p_on name) (plain, short, (i, e)) =
    rw (inner_name-print b'P' b'(' name, e)
instr_parse-print_statement table (v_on name) (plain, short, (i, e)) =
    rw (inner_name-print b'V' b'(' name, e)
