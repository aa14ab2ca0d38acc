-- ===== src/Program/Joined.antt =====
-- A line of semaphore names, and read_semaphores on it.
use ribabari.Prelude.{
  ℕ, zero, suc, ◌+◌, ◌≤◌, ◌≡◌, ◌≢◌, refl, false, some, List, [], ◌∷◌, ◌++◌, arith, ok, All, length,
  count, count-append,
}
use ribabari.Process.{CString, strcmp_eq}
use ribabari.Text.{newline, space, next_token}
use ribabari.Text.Numbers.{IsWordByte}
use ribabari.Text.Tokens.{NoSpace, next_token-space, next_token-last}
use ribabari.Semaphore.{SemaphoreTable, semaphore_register}
use ribabari.Program.{register_names, read_semaphores}
use ribabari.Program.Names.{next_token-nil}
use ribabari.Program.Lines.{IsPlain}
use ribabari.Program.Printed.{with_newline}
use ribabari.Program.Statements.{words-IsPlain}

abbrev pub IsWord : CString → Type 0
IsWord w = (w ≢ []) × All IsWordByte w

abbrev pub join : CString → List CString → CString
join n [] = n
join n (m ∷ ns) = n ++ space ∷ join m ns

abbrev pub register_all : SemaphoreTable → List CString → SemaphoreTable
register_all t [] = t
register_all t (n ∷ ns) = register_all (semaphore_register t n) ns

-- What strtok has left behind the first name.
abbrev behind : List CString → CString
behind [] = []
behind (m ∷ ns) = join m ns

words-NoSpace : (s : CString) → All IsWordByte s → NoSpace s
words-NoSpace [] h = tt
words-NoSpace (c ∷ s) h = (h.0.2, words-NoSpace s h.1)

next_token-join :
    (n : CString) (ns : List CString) → IsWord n → next_token (join n ns) ≡ some (n, behind ns)
next_token-join n [] h = next_token-last n h.0 (words-NoSpace n h.1)
next_token-join n (m ∷ ns) h = next_token-space n (join m ns) h.0 (words-NoSpace n h.1)

length-join : (n : CString) (ns : List CString) → length ns ≤ count space (join n ns)
length-join n [] = omega arith
length-join n (m ∷ ns) = omega (arith, count-append space n (space ∷ join m ns), length-join m ns)

register_names-behind :
    (room : ℕ) (n : CString) (ns : List CString) (t : SemaphoreTable)
    → length ns ≤ room
    → All IsWord ns
    → register_names (suc room) n (behind ns) t ≡ ok (n ∷ ns, register_all t (n ∷ ns))
unfolding register_names
register_names-behind room n [] t h words = rw (register_names, next_token-nil)
register_names-behind zero n (m ∷ ns) t h words = absurd (omega (arith, h))
register_names-behind (suc room) n (m ∷ ns) t h words = rw (
  register_names,
  next_token-join m ns words.0,
  register_names-behind room m ns (semaphore_register t n) (omega (arith, h)) words.1,
)

room_for :
    (n : CString) (ns : List CString) → count space (join n ns) + 1 ≡ suc (count space (join n ns))
room_for n ns = omega arith

-- The names of a line, one space apart, are read in order, and each is registered.
pub read_semaphores-join :
    (n : CString) (ns : List CString) (t : SemaphoreTable)
    → IsWord n
    → All IsWord ns
    → read_semaphores (join n ns) t ≡ ok (n ∷ ns, register_all t (n ∷ ns))
unfolding read_semaphores
read_semaphores-join n ns t h words = rw (
  next_token-join n ns h,
  room_for n ns,
  register_names-behind (count space (join n ns)) n ns t (length-join n ns) words,
)

pub join-not_blank :
    (n : CString) (ns : List CString)
    → IsWord n
    → strcmp_eq (with_newline (join n ns)) (newline ∷ []) ≡ false
unfolding strcmp_eq
join-not_blank [] ns h = absurd (h.0 refl)
join-not_blank (c ∷ n) [] h = ground (arith, h.1.0)
join-not_blank (c ∷ n) (m ∷ ns) h = ground (arith, h.1.0)

pub IsPlain-append : (xs ys : CString) → All IsPlain xs → All IsPlain ys → All IsPlain (xs ++ ys)
IsPlain-append [] ys h k = k
IsPlain-append (x ∷ xs) ys h k = (h.0, IsPlain-append xs ys h.1 k)

pub IsPlain-join :
    (n : CString) (ns : List CString) → IsWord n → All IsWord ns → All IsPlain (join n ns)
IsPlain-join n [] h words = words-IsPlain n h.1
IsPlain-join n (m ∷ ns) h words =
    IsPlain-append n (space ∷ join m ns) (words-IsPlain n h.1)
      ((omega arith, omega arith), IsPlain-join m ns words.0 words.1)
