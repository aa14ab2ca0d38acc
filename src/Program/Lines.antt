-- ===== src/Program/Lines.antt =====
-- fgets line by line: a file is read whole, and a printed line comes back.
use ribabari.Prelude.{
  ℕ, zero, suc, ◌+◌, ◌≤◌, ◌≡◌, ◌≢◌, refl, sym, ◌∙◌, ap, Bool-cases, List, [], ◌∷◌, ◌++◌, arith,
  ◌==◌, inl, inr, length, All, length-append,
}
use ribabari.Process.{CString}
use ribabari.Text.{Bytes, newline, line_room, c_string, take_line, fgets}
use ribabari.Program.{lines_from, all_lines}

-- A byte of a file that is text.
abbrev pub IsText : ℕ → Type 0
IsText c = c ≢ 0

-- A byte within a line.
abbrev pub IsPlain : ℕ → Type 0
IsPlain c = (c ≢ 0) × (c ≢ newline)

pub c_string-text : (s : Bytes) → All IsText s → c_string s ≡ s
unfolding c_string
c_string-text [] h = refl
c_string-text (c ∷ s) h = ground (arith, h.0, c_string-text s h.1)

abbrev pub flatten : List CString → Bytes
flatten [] = []
flatten (line ∷ rest) = line ++ flatten rest

-- What is read and what is left make the file.
record Splits (n : ℕ) (fp : Bytes) (r : Bytes × Bytes) : Type 0 where
  whole : r.0 ++ r.1 ≡ fp
  short : length r.0 ≤ n
  texts : All IsText fp → All IsText r.0 × All IsText r.1

take_line-Splits : (n : ℕ) (fp : Bytes) → Splits n fp (take_line n fp)
unfolding take_line
take_line-Splits zero fp = record { whole = refl; short = omega arith; texts = λ h. (tt, h) }
take_line-Splits (suc n) [] = record { whole = refl; short = omega arith; texts = λ h. (tt, tt) }
take_line-Splits (suc n) (c ∷ fp) =
    let s = take_line-Splits n fp in
    elim (Bool-cases (c == newline)) [
      | inl e ↦ rw e (record { whole = refl; short = omega arith; texts = λ h. ((h.0, tt), h.1) })
      | inr e ↦ rw e (record {
        whole = ap (◌∷◌ c) s.whole;
        short = omega (arith, s.short);
        texts = λ h. ((h.0, (s.texts h.1).0), (s.texts h.1).1);
      })
    ]

take_line-starts : (n c : ℕ) (fp : Bytes) → 1 ≤ length (take_line (suc n) (c ∷ fp)).0
unfolding take_line
take_line-starts n c fp = ground arith

-- Lines of at most 255 bytes each that make up the file.
pub record Covers (fp : Bytes) (lines : List CString) : Type 0 where
  pub whole : flatten lines ≡ fp
  pub short : All (λ line. length line ≤ line_room) lines
  pub filled : All (λ line. 1 ≤ length line) lines

less_left : (a b c n : ℕ) → a + b ≡ suc c → 1 ≤ a → suc c ≤ suc n → b ≤ n
less_left a b c n e h k = omega arith

lines_from-Covers :
    (n : ℕ) (fp : Bytes) → length fp ≤ n → All IsText fp → Covers fp (lines_from n fp)
unfolding lines_from fgets
lines_from-Covers zero [] h text = record { whole = refl; short = tt; filled = tt }
lines_from-Covers zero (c ∷ fp) h text = absurd (omega (arith, h))
lines_from-Covers (suc n) [] h text = record { whole = refl; short = tt; filled = tt }
lines_from-Covers (suc n) (c ∷ fp) h text =
    let s = take_line-Splits line_room (c ∷ fp) in
    let some_byte = take_line-starts 254 c fp in
    let t = s.texts text in
    let line = (take_line line_room (c ∷ fp)).0 in
    let left = (take_line line_room (c ∷ fp)).1 in
    let total : length line + length left ≡ suc (length fp) =
      sym (length-append line left) ∙ ap length s.whole in
    let rest =
      lines_from-Covers n left
        (less_left (length line) (length left) (length fp) n total some_byte h) t.1 in
    rw (c_string-text line t.0) (record {
      whole = ap (◌++◌ line) rest.whole ∙ s.whole;
      short = (s.short, rest.short);
      filled = (some_byte, rest.filled);
    })

-- Reading to the end of a file without NUL bytes comes to the end: the lines that fgets gives are the whole
-- file, in order; each has at least one byte, and at most the 255 that the buffer takes.
pub all_lines-Covers : (fp : Bytes) → All IsText fp → Covers fp (all_lines fp)
all_lines-Covers fp text = lines_from-Covers (length fp) fp (omega arith) text
