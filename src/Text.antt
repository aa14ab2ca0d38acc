-- ===== src/Text.antt =====
-- What the parser of process/process.c and process/instruction.c uses of the C library: fgets over a file of
-- bytes, atoi, strtok with the separator " ", and the cut of a string's last byte. A string is its
-- bytes before the terminator.

pub mod Tokens
pub mod Words
pub mod Numbers
use ribabari.Prelude.{
  ℕ, zero, suc, ◌+◌, ◌-◌, ◌*◌, Bool, ◌||◌, ◌&&◌, Option, none, some, List, [], ◌∷◌, ◌==◌, leb,
  if◌then◌else◌, ℤ, pos, sub_ℕ, int, Run, ok, fault, ◌>>=◌,
}
use ribabari.Process.{CString}

abbrev pub Bytes : Type 0
Bytes = List ℕ

abbrev pub newline : ℕ
newline = b'\n'

abbrev pub space : ℕ
space = b' '

-- BUF_LEN_PARSE: a buffer takes one byte less than its length.
abbrev pub line_room : ℕ
line_room = 255

-- The bytes before the first NUL.
unfoldable pub c_string : Bytes → CString
c_string [] = []
c_string (c ∷ cs) = if c == 0 then [] else c ∷ c_string cs

-- At most so many bytes, up to a newline, which is taken too; and what is left of the file.
unfoldable pub take_line : ℕ → Bytes → Bytes × Bytes
take_line zero fp = ([], fp)
take_line (suc n) [] = ([], [])
take_line (suc n) (c ∷ fp) =
    let (line, rest) = take_line n fp in if c == newline then (c ∷ [], fp) else (c ∷ line, rest)

-- `none` is NULL, at the end of the file.
unfoldable pub fgets : Bytes → Option (CString × Bytes)
unfolding take_line c_string
fgets [] = none
fgets (c ∷ fp) = let (line, rest) = take_line line_room (c ∷ fp) in some (c_string line, rest)

-- `fgets(buf, BUF_LEN_PARSE, fp)` with no test: at the end of the file the buffer keeps what it held.
unfoldable pub read_line : CString → Bytes → CString × Bytes
read_line buf fp = elim (fgets fp) [ none ↦ (buf, fp) | some (line, rest) ↦ (line, rest) ]

-- `buf[strlen(buf) - 1] = '\0'`, out of bounds for an empty string.
unfoldable pub chop : CString → Run CString
chop [] = fault
chop (c ∷ []) = ok []
chop (c ∷ d ∷ cs) = do rest ← chop (d ∷ cs); ok (c ∷ rest)

unfoldable pub is_space : ℕ → Bool
is_space c = c == space || (leb 9 c && leb c 13)

unfoldable pub is_digit : ℕ → Bool
is_digit c = leb b'0' c && leb c b'9'

unfoldable pub skip_space : CString → CString
unfolding is_space
skip_space [] = []
skip_space (c ∷ cs) = if is_space c then skip_space cs else c ∷ cs

-- The number that the leading digits spell behind `acc`.
unfoldable pub digits : ℕ → CString → ℕ
unfolding is_digit
digits acc [] = acc
digits acc (c ∷ cs) = if is_digit c then digits (acc * 10 + (c - b'0')) cs else acc

unfoldable pub signed : CString → Run ℤ
unfolding digits
signed [] = ok (pos 0)
signed (c ∷ cs) =
    if c == b'-'
    then int (sub_ℕ 0 (digits 0 cs))
    else if c == b'+'
    then int (pos (digits 0 cs))
    else int (pos (digits 0 (c ∷ cs)))

-- A number that is no `int` is undefined behaviour.
unfoldable pub atoi : CString → Run ℤ
unfolding skip_space signed
atoi s = signed (skip_space s)

unfoldable pub skip_separators : CString → CString
skip_separators [] = []
skip_separators (c ∷ cs) = if c == space then skip_separators cs else c ∷ cs

-- Up to the next separator, which is dropped.
unfoldable pub split_token : CString → CString × CString
split_token [] = ([], [])
split_token (c ∷ cs) =
    let (token, rest) = split_token cs in if c == space then ([], cs) else (c ∷ token, rest)

unfoldable pub token_of : CString → Option (CString × CString)
unfolding split_token
token_of [] = none
token_of (c ∷ cs) = some (split_token (c ∷ cs))

-- `strtok(s, " ")`, with what `strtok(NULL, " ")` goes on with; `none` is NULL.
unfoldable pub next_token : CString → Option (CString × CString)
unfolding skip_separators token_of
next_token s = token_of (skip_separators s)
