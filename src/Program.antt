-- ===== src/Program.antt =====
-- The parser of synthetic programs: instr_parse and instr_semaphore_parse of process/instruction.c, and
-- read_code, read_semaphores and parse_synthetic_program of process/process.c. Allocations succeed.
pub mod Lines
pub mod Printed
pub mod Statements
pub mod Slots
pub mod Names
pub mod Joined
pub mod RoundTrip
pub mod Header
use mathlib.Core.Option
use ribabari.Prelude.{
  ℕ, zero, suc, ◌+◌, Bool, true, false, ◌||◌, Option, none, some, List, [], ◌∷◌, ◌==◌, ltb,
  if◌then◌else◌, ℤ, pos, Run, ok, exited, fault, ◌>>=◌, or_fault, or_exit, length, set, replicate,
  count,
}
use ribabari.Process.{CString, Process, ProcessState, new, strcmp_eq}
use ribabari.Text.{Bytes, newline, space, fgets, read_line, chop, atoi, next_token}
use ribabari.Semaphore.{SemaphoreTable, semaphore_find, semaphore_register}
use ribabari.Instruction.{Opcode, exec, read, write, print, sem_p, sem_v, Instr}

abbrev pub exec_word : CString
exec_word = b'e' ∷ b'x' ∷ b'e' ∷ b'c' ∷ []

abbrev pub read_word : CString
read_word = b'r' ∷ b'e' ∷ b'a' ∷ b'd' ∷ []

abbrev pub write_word : CString
write_word = b'w' ∷ b'r' ∷ b'i' ∷ b't' ∷ b'e' ∷ []

abbrev pub print_word : CString
print_word = b'p' ∷ b'r' ∷ b'i' ∷ b'n' ∷ b't' ∷ []

-- The opcode of a word; another word leaves the field unset.
unfoldable pub opcode_of : CString → Option Opcode
opcode_of word =
    if strcmp_eq word exec_word
    then some exec
    else if strcmp_eq word read_word
    then some read
    else if strcmp_eq word write_word
    then some write
    else if strcmp_eq word print_word
    then some print
    else none

-- The text between the first two bytes and the last two.
unfoldable pub inner_name : CString → Run CString
inner_name [] = fault
inner_name (a ∷ []) = fault
inner_name (a ∷ b ∷ cs) = do shorter ← chop cs; chop shorter

-- The field `value` is not set, and no semaphore instruction reads it.
unfoldable pub instr_semaphore_parse : Bool → CString → SemaphoreTable → Run Instr
unfolding inner_name
instr_semaphore_parse is_p line table = do
  name ← inner_name line
  sem ← or_exit (semaphore_find table name)
  ok (record { op = if is_p then sem_p else sem_v; value = pos 0; sem = some name })

-- `strtok` gives NULL if a word is missing, and `atoi` reads through it. An instruction without an
-- opcode cannot be evaluated, like a slot that was never written.
unfoldable pub instr_binary_parse : CString → Run (Option Instr)
unfolding opcode_of
instr_binary_parse line = do
  (left_op, rest) ← or_fault (next_token line)
  (right, _) ← or_fault (next_token rest)
  right_op ← atoi right
  ok (Option.map (λ op. record { op = op; value = right_op; sem = none }) (opcode_of left_op))

unfoldable pub instr_parse : CString → SemaphoreTable → Run (Option Instr)
unfolding instr_semaphore_parse instr_binary_parse
instr_parse [] table = instr_binary_parse []
instr_parse (c ∷ cs) table =
    if c == b'P' || c == b'V'
    then (do instr ← instr_semaphore_parse (c == b'P') (c ∷ cs) table; ok (some instr))
    else instr_binary_parse (c ∷ cs)

-- while (fgets(buf, BUF_LEN_PARSE, fp)) ... : the lines that are left, on fuel.
unfoldable pub lines_from : ℕ → Bytes → List CString
lines_from zero fp = []
lines_from (suc n) fp = elim (fgets fp) [ none ↦ [] | some (line, rest) ↦ line ∷ lines_from n rest ]

-- Every line takes a byte at least.
abbrev pub all_lines : Bytes → List CString
all_lines fp = lines_from (length fp) fp

unfoldable pub is_blank : CString → Bool
is_blank buf =
    strcmp_eq buf [] || (strcmp_eq buf (newline ∷ []) || strcmp_eq buf (b'\r' ∷ newline ∷ []))

-- The second loop of `read_code`; `code[i]` out of bounds is a fault.
unfoldable pub parse_lines :
    List CString → ℕ → List (Option Instr) → SemaphoreTable → Run (List (Option Instr))
unfolding is_blank
parse_lines [] i code table = ok code
parse_lines (buf ∷ rest) i code table =
    let skip = parse_lines rest i code table in
    let parsed = (do
      instr ← instr_parse buf table
      if ltb i (length code) then parse_lines rest (i + 1) (set code i instr) table else fault) in
    if is_blank buf then skip else parsed

-- The code, and the length that `*code_len` is set to.
unfoldable pub read_code : Bytes → SemaphoreTable → Run (List (Option Instr) × ℕ)
read_code fp table = do
  let code_len = length (all_lines fp)
  code ← parse_lines (all_lines fp) 0 (replicate code_len none) table
  ok (code, code_len)

-- do { proc->semaphores[i] = ...; i++; } while (...), with the room that is left in the array.
unfoldable pub register_names :
    ℕ → CString → CString → SemaphoreTable → Run (List CString × SemaphoreTable)
register_names zero tok rest table = fault
register_names (suc room) tok rest table =
    let table' = semaphore_register table tok in
    elim (next_token rest) [
      | none ↦ ok (tok ∷ [], table')
      | some (tok', rest') ↦ (do
        (names, last) ← register_names room tok' rest' table'
        ok (tok ∷ names, last))
    ]

unfoldable pub read_semaphores : CString → SemaphoreTable → Run (List CString × SemaphoreTable)
read_semaphores sem_line table = do
  (tok, rest) ← or_fault (next_token sem_line)
  register_names (count space sem_line + 1) tok rest table

-- The line of semaphores, and the blank line behind it; a blank line stands for no semaphores.
unfoldable pub parse_semaphores :
    CString → Bytes → SemaphoreTable → Run (Option (List CString) × Bytes × SemaphoreTable)
parse_semaphores buf fp table = if strcmp_eq buf (newline ∷ []) then ok (none, fp, table) else (do
  sem_line ← chop buf
  (names, table') ← read_semaphores sem_line table
  ok (some names, (read_line sem_line fp).1, table'))

-- The process, what is left of the file, and the semaphore table; `code_len` is set later.
unfoldable pub parse_synthetic_program :
    Bytes → ℕ → SemaphoreTable → Run (Process × Bytes × SemaphoreTable)
unfolding parse_semaphores
parse_synthetic_program fp id table = do
  (buf, fp1) ← or_fault (fgets fp)
  name ← chop buf
  let (buf1, fp2) = read_line name fp1
  seg_id ← atoi buf1
  let (buf2, fp3) = read_line buf1 fp2
  priority ← atoi buf2
  let (buf3, fp4) = read_line buf2 fp3
  seg_size ← atoi buf3
  let (buf4, fp5) = read_line buf3 fp4
  (semaphores, fp6, table') ← parse_semaphores buf4 fp5 table
  ok (
    record {
      name = name;
      id = id;
      pc = 0;
      code_len = 0;
      seg_id = seg_id;
      seg_size = seg_size;
      priority = priority;
      remaining = pos 0;
      state = new;
      o_files = [];
      semaphores = semaphores;
    },
    fp6,
    table',
  )
