-- ===== src/Terminal/Format.antt =====
-- What the views use of printf: the conversions %d and %s, with a least width, on bytes.
use Prim.Native.Char.{code}
use Prim.Native.String.{String}
use ribabari.Prelude.{
  ℕ, ◌-◌, ◌≤◌, ◌+◌, ◌≡◌, refl, count, count-append, List, [], ◌∷◌, ◌++◌, arith, ℤ, length,
  length-append, length-replicate, replicate, leb, if◌then◌else◌, Fits,
}
use ribabari.Process.{CString}
use ribabari.Text.{space}
use ribabari.Text.Numbers.{print_int, length-print_int}

-- The bytes of a literal.
abbrev pub codes : String → CString
codes String.[] = []
codes (String.◌∷◌ c s) = code c ∷ codes s

abbrev pub joined : List CString → CString
joined [] = []
joined (piece ∷ rest) = piece ++ joined rest

abbrev pub length_all : List CString → ℕ
length_all [] = 0
length_all (piece ∷ rest) = length piece + length_all rest

pub length-joined : (pieces : List CString) → length (joined pieces) ≡ length_all pieces
length-joined [] = refl
length-joined (piece ∷ rest) = omega (arith, length-append piece (joined rest), length-joined rest)

abbrev pub count_all : ℕ → List CString → ℕ
count_all c [] = 0
count_all c (piece ∷ rest) = count c piece + count_all c rest

pub count-joined : (c : ℕ) (pieces : List CString) → count c (joined pieces) ≡ count_all c pieces
count-joined c [] = refl
count-joined c (piece ∷ rest) =
    omega (arith, count-append c piece (joined rest), count-joined c rest)

-- `%<width>s`: spaces on the left, up to the width.
unfoldable pub pad : ℕ → CString → CString
pad width s = replicate (width - length s) space ++ s

unfoldable pub pad_int : ℕ → ℤ → CString
unfolding pad
pad_int width v = pad width (print_int v)

pub length-pad :
    (width : ℕ) (s : CString)
    → length (pad width s) ≡ (if leb (length s) width then width else length s)
unfolding pad
length-pad width s = ground (
  arith,
  length-append (replicate (width - length s) space) s,
  length-replicate (width - length s) space,
)

-- An `int` in a field of at most eleven bytes takes at most eleven.
pub length-pad_int : (width : ℕ) (v : ℤ) → width ≤ 11 → Fits v → length (pad_int width v) ≤ 11
unfolding pad_int
length-pad_int width v small fits =
    ground (arith, length-pad width (print_int v), length-print_int v fits)
