-- ===== src/Text/Numbers.antt =====
-- atoi reads back what is printed in decimal.
use ribabari.Prelude.{
  ℕ, zero, suc, ◌+◌, ◌-◌, ◌*◌, ◌/◌, ◌%◌, ◌≤◌, ◌<◌, ◌≡◌, ◌≢◌, refl, ◌∙◌, Bool-cases, inl, inr, [],
  ◌∷◌, ◌++◌, arith, ltb, if◌then◌else◌, ℤ, pos, negsuc, int_max, int_min, length, length-append,
  Fits, ok, All,
}
use ribabari.Process.{CString}
use ribabari.Text.{newline, space, digits, atoi}

-- The decimal digits of a number, on fuel that the number itself exceeds.
unfoldable pub decimal : ℕ → ℕ → CString
decimal zero n = []
decimal (suc fuel) n =
    let high = decimal fuel (n / 10) in
    if ltb n 10 then (b'0' + n) ∷ [] else high ++ (b'0' + n % 10) ∷ []

unfoldable pub print_int : ℤ → CString
print_int (pos n) = decimal (suc n) n
print_int (negsuc n) = b'-' ∷ decimal (suc (suc n)) (suc n)

abbrev IsDigit : ℕ → Type 0
IsDigit c = (b'0' ≤ c) × (c ≤ b'9')

All-IsDigit_append : (xs ys : CString) → All IsDigit xs → All IsDigit ys → All IsDigit (xs ++ ys)
All-IsDigit_append [] ys h k = k
All-IsDigit_append (x ∷ xs) ys h k = (h.0, All-IsDigit_append xs ys h.1 k)

decimal-digits : (fuel n : ℕ) → All IsDigit (decimal fuel n)
unfolding decimal
decimal-digits zero n = tt
decimal-digits (suc fuel) n = elim (Bool-cases (ltb n 10)) [
  | inl e ↦ rw e (ground arith)
  | inr e ↦ rw e (
      All-IsDigit_append (decimal fuel (n / 10)) ((b'0' + n % 10) ∷ [])
        (decimal-digits fuel (n / 10)) (omega arith))
]

digits-append :
    (acc : ℕ) (xs ys : CString) → All IsDigit xs → digits acc (xs ++ ys) ≡ digits (digits acc xs) ys
unfolding digits
digits-append acc [] ys h = refl
digits-append acc (x ∷ xs) ys h =
    ground (arith, h.0, digits-append (acc * 10 + (x - b'0')) xs ys h.1)

digits-decimal : (fuel n : ℕ) → n < fuel → digits 0 (decimal fuel n) ≡ n
unfolding decimal digits
digits-decimal zero n h = absurd (omega (arith, h))
digits-decimal (suc fuel) n h = elim (Bool-cases (ltb n 10)) [
  | inl e ↦ rw e (ground arith)
  | inr e ↦
      rw
        (
          e,
          digits-append 0 (decimal fuel (n / 10)) ((b'0' + n % 10) ∷ [])
              (decimal-digits fuel (n / 10)),
        )
        (ground (arith, digits-decimal fuel (n / 10)))
]

digits-line : (fuel n : ℕ) → n < fuel → digits 0 (decimal fuel n ++ newline ∷ []) ≡ n
unfolding digits
digits-line fuel n h =
    digits-append 0 (decimal fuel n) (newline ∷ []) (decimal-digits fuel n)
    ∙ digits-decimal fuel n h

-- What begins with a digit has no space or sign before it.
signed-digits :
    (s : CString) (n : ℕ)
    → All IsDigit s
    → s ≢ []
    → digits 0 (s ++ newline ∷ []) ≡ n
    → n ≤ int_max
    → atoi (s ++ newline ∷ []) ≡ ok (pos n)
unfolding atoi
signed-digits [] n h ne e fits = absurd (ne refl)
signed-digits (c ∷ s) n h ne e fits = ground (arith, h.0)

decimal-ne_nil : (fuel n : ℕ) → decimal (suc fuel) n ≢ []
unfolding decimal
decimal-ne_nil fuel n e = elim (Bool-cases (ltb n 10)) [
  | inl t ↦ cc (rw t at e)
  | inr t ↦ not_nil (decimal fuel (n / 10)) (b'0' + n % 10) (rw t at e)
]
  where
    not_nil : (xs : CString) (x : ℕ) → xs ++ x ∷ [] ≢ []
    not_nil [] x e' = cc
    not_nil (y ∷ ys) x e' = cc

signed-minus :
    (s : CString) (n : ℕ) → digits 0 s ≡ suc n → suc n ≤ int_min → atoi (b'-' ∷ s) ≡ ok (negsuc n)
unfolding atoi
signed-minus s n e fits = rw e (ground arith)

pub atoi-print_int : (v : ℤ) → Fits v → atoi (print_int v ++ newline ∷ []) ≡ ok v
unfolding print_int
atoi-print_int (pos n) fits =
    signed-digits (decimal (suc n) n) n (decimal-digits (suc n) n) (decimal-ne_nil n n)
      (digits-line (suc n) n (omega arith)) fits.0
atoi-print_int (negsuc n) fits =
    signed-minus (decimal (suc (suc n)) (suc n) ++ newline ∷ []) n
      (digits-line (suc (suc n)) (suc n) (omega arith)) fits.1

-- A byte of a word, which no separator, newline or NUL is.
abbrev pub IsWordByte : ℕ → Type 0
IsWordByte c = (c ≢ 0) × (c ≢ newline) × (c ≢ space)

digits-words : (s : CString) → All IsDigit s → All IsWordByte s
digits-words [] h = tt
digits-words (c ∷ s) h = ((omega arith, omega arith, omega arith), digits-words s h.1)

pub print_int-words : (v : ℤ) → All IsWordByte (print_int v)
unfolding print_int
print_int-words (pos n) = digits-words (decimal (suc n) n) (decimal-digits (suc n) n)
print_int-words (negsuc n) = (
  (omega arith, omega arith, omega arith),
  digits-words (decimal (suc (suc n)) (suc n)) (decimal-digits (suc (suc n)) (suc n)),
)

pub print_int-ne_nil : (v : ℤ) → print_int v ≢ []
unfolding print_int
print_int-ne_nil (pos n) e = decimal-ne_nil n n e
print_int-ne_nil (negsuc n) e = cc

ten_power : ℕ → ℕ
ten_power zero = 1
ten_power (suc k) = 10 * ten_power k

length-decimal : (fuel k n : ℕ) → n < ten_power (suc k) → length (decimal fuel n) ≤ suc k
unfolding decimal ten_power
length-decimal zero k n h = omega arith
length-decimal (suc fuel) zero n h = ground arith
length-decimal (suc fuel) (suc k) n h = ground (
  arith,
  length-decimal fuel k (n / 10),
  length-append (decimal fuel (n / 10)) ((b'0' + n % 10) ∷ []),
)

below_ten_power : (n : ℕ) → n ≤ int_min → n < ten_power 10
unfolding ten_power
below_ten_power n h = omega arith

-- An `int` takes at most eleven bytes.
pub length-print_int : (v : ℤ) → Fits v → length (print_int v) ≤ 11
unfolding print_int
length-print_int (pos n) fits =
    omega (arith, length-decimal (suc n) 9 n (below_ten_power n (omega arith)))
length-print_int (negsuc n) fits =
    omega (arith, length-decimal (suc (suc n)) 9 (suc n) (below_ten_power (suc n) fits.1))
