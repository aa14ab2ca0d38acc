-- ===== src/Program/Slots.antt =====
-- The array that read_code fills: within bounds, in order, with a slot left over for every blank line.
use ribabari.Prelude.{
  ℕ, zero, suc, ◌+◌, ◌-◌, ◌≤◌, ◌≡◌, refl, ap, true, false, Option, none, List, [], ◌∷◌, ◌++◌, arith,
  ltb, ok, length, length-append, set, replicate,
}
use mathlib.Core.List.{append_assoc}
use ribabari.Process.{CString}
use ribabari.Text.{Bytes}
use ribabari.Semaphore.{SemaphoreTable}
use ribabari.Instruction.{Instr}
use ribabari.Program.{instr_parse, is_blank, parse_lines, read_code, all_lines}

-- The lines that are not blank parse as these instructions, in order.
pub data Parsed (table : SemaphoreTable) : List CString → List (Option Instr) → Type 0 where
  finished : Parsed table [] []
  skipped :
      {buf : CString} {rest : List CString} {code : List (Option Instr)}
      → is_blank buf ≡ true
      → Parsed table rest code
      → Parsed table (buf ∷ rest) code
  taken :
      {buf : CString} {rest : List CString} {instr : Option Instr} {code : List (Option Instr)}
      → is_blank buf ≡ false
      → instr_parse buf table ≡ ok instr
      → Parsed table rest code
      → Parsed table (buf ∷ rest) (instr ∷ code)

pub length-Parsed :
    {table : SemaphoreTable} {lines : List CString} {code : List (Option Instr)}
    → Parsed table lines code
    → length code ≤ length lines
length-Parsed finished = omega arith
length-Parsed (skipped e p) = omega (arith, length-Parsed p)
length-Parsed (taken e f p) = omega (arith, length-Parsed p)

set-append :
    (done : List (Option Instr)) (a b : Option Instr) (rest : List (Option Instr))
    → set (done ++ a ∷ rest) (length done) b ≡ (done ++ b ∷ []) ++ rest
set-append [] a b rest = refl
set-append (x ∷ done) a b rest = ap (◌∷◌ x) (set-append done a b rest)

-- `m` slots are left behind those that were filled.
filled :
    (table : SemaphoreTable) (lines : List CString) (code done : List (Option Instr)) (m : ℕ)
    → Parsed table lines code
    → length code ≤ m
    → parse_lines lines (length done) (done ++ replicate m none) table
      ≡ ok (done ++ (code ++ replicate (m - length code) none))
unfolding parse_lines
filled table [] [] done m finished room = let all : m - 0 ≡ m = omega arith in rw all
filled table [] (instr ∷ code) done m p room = elim p [ ]
filled table (buf ∷ rest) code done m (skipped e p) room =
    rw e (filled table rest code done m p room)
filled table (buf ∷ rest) (instr ∷ code) done zero (taken e f p) room = absurd (omega (arith, room))
filled table (buf ∷ rest) (instr ∷ code) done (suc m) (taken e f p) room =
    let within : ltb (length done) (length (done ++ none ∷ replicate m none)) ≡ true =
      ground (arith, length-append done (none ∷ replicate m none)) in
    let next : length done + 1 ≡ length (done ++ instr ∷ []) =
      omega (arith, length-append done (instr ∷ [])) in
    let rest_ok = filled table rest code (done ++ instr ∷ []) m p (omega (arith, room)) in
    let fewer : suc m - suc (length code) ≡ m - length code = omega arith in
    rw (
      e,
      f,
      within,
      next,
      set-append done none instr (replicate m none),
      rest_ok,
      fewer,
      append_assoc,
    )

-- If every line that is not blank parses, read_code returns; no write is outside of the array; the
-- instructions stand at its start, in order; and the length that it reports counts the blank lines
-- too, so for each of these a slot at the end was never written.
pub read_code-Parsed :
    (fp : Bytes) (table : SemaphoreTable) (code : List (Option Instr))
    → Parsed table (all_lines fp) code
    → read_code fp table
      ≡ ok (code ++ replicate (length (all_lines fp) - length code) none, length (all_lines fp))
unfolding read_code
read_code-Parsed fp table code p =
    rw (filled table (all_lines fp) code [] (length (all_lines fp)) p (length-Parsed p))
