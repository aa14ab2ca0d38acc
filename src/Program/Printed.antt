-- ===== src/Program/Printed.antt =====
-- Lines that were printed, read back by fgets.
use ribabari.Prelude.{
  ℕ, zero, suc, ◌+◌, ◌≤◌, ◌<◌, ◌≡◌, refl, ap, some, none, List, [], ◌∷◌, ◌++◌, arith, length, All,
  length-append, map, subst,
}
use ribabari.Process.{CString}
use ribabari.Text.{Bytes, newline, line_room, c_string, take_line, fgets, read_line}
use ribabari.Program.{lines_from, all_lines}
use ribabari.Program.Lines.{IsPlain}

abbrev pub with_newline : CString → CString
with_newline line = line ++ newline ∷ []

-- A line that fits the buffer with its newline and the terminator.
abbrev pub IsLine : CString → Type 0
IsLine line = All IsPlain line × (length line < line_room)

c_string-line :
    (line : CString) → All IsPlain line → c_string (with_newline line) ≡ with_newline line
unfolding c_string
c_string-line [] h = refl
c_string-line (c ∷ line) h = ground (arith, h.0, c_string-line line h.1)

take_line-line :
    (n : ℕ) (line rest : Bytes)
    → All IsPlain line
    → length line < n
    → take_line n (line ++ newline ∷ rest) ≡ (with_newline line, rest)
unfolding take_line
take_line-line zero line rest h k = absurd (omega (arith, k))
take_line-line (suc n) [] rest h k = refl
take_line-line (suc n) (c ∷ line) rest h k = ground (arith, h.0, take_line-line n line rest h.1)

pub fgets-line :
    (line rest : Bytes)
    → IsLine line
    → fgets (line ++ newline ∷ rest) ≡ some (with_newline line, rest)
unfolding fgets
fgets-line [] rest h =
    rw (take_line-line line_room [] rest tt h.1) (ap (λ s. some (s, rest)) (c_string-line [] tt))
fgets-line (c ∷ line) rest h =
    rw (take_line-line line_room (c ∷ line) rest h.0 h.1)
      (ap (λ s. some (s, rest)) (c_string-line (c ∷ line) h.0))

pub read_line-line :
    (buf line rest : Bytes)
    → IsLine line
    → read_line buf (line ++ newline ∷ rest) ≡ (with_newline line, rest)
unfolding read_line
read_line-line buf line rest h = rw (read_line, fgets-line line rest h)

fgets-nil : fgets [] ≡ none
unfolding fgets
fgets-nil = refl

abbrev pub print_lines : List CString → Bytes
print_lines [] = []
print_lines (line ∷ rest) = line ++ newline ∷ print_lines rest

less_rest : (a b n : ℕ) → a + suc b ≤ suc n → b ≤ n
less_rest a b n h = omega arith

lines_from-print :
    (n : ℕ) (lines : List CString)
    → All IsLine lines
    → length (print_lines lines) ≤ n
    → lines_from n (print_lines lines) ≡ map with_newline lines
unfolding lines_from
lines_from-print zero [] h k = refl
lines_from-print (suc n) [] h k = rw (lines_from, fgets-nil)
lines_from-print zero (line ∷ lines) h k =
    absurd (omega (arith, k, length-append line (newline ∷ print_lines lines)))
lines_from-print (suc n) (line ∷ lines) h k =
    let fits =
      less_rest (length line) (length (print_lines lines)) n
        (subst (λ m. m ≤ suc n) (length-append line (newline ∷ print_lines lines)) k) in
    rw (lines_from, fgets-line line (print_lines lines) h.0)
      (ap (◌∷◌ (with_newline line)) (lines_from-print n lines h.1 fits))

pub all_lines-print :
    (lines : List CString)
    → All IsLine lines
    → all_lines (print_lines lines) ≡ map with_newline lines
all_lines-print lines h = lines_from-print (length (print_lines lines)) lines h (omega arith)
