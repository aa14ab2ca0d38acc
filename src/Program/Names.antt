-- ===== src/Program/Names.antt =====
-- The semaphores of a program: read_semaphores of process/process.c stays within its array, and registers
-- the names of the line.
use ribabari.Prelude.{
  ℕ, zero, suc, ◌+◌, ◌≤◌, ◌≡◌, refl, ap, true, ◌||◌, Option, some, none, List, [], ◌∷◌, ◌++◌, arith,
  ◌==◌, pos, Returns, All, count, Bool-cases, Option-cases, inl, inr,
}
use ribabari.Process.{CString, strcmp_eq, strcmp_eq_refl}
use ribabari.Text.{space, next_token, split_token, skip_separators, token_of}
use ribabari.Text.Words.{words, next_token-no_words, next_token-words}
use ribabari.Semaphore.{
  Semaphore, SemaphoreTable, semaphore_init, semaphore_find, semaphore_register, is_registered,
}
use ribabari.Program.{register_names, read_semaphores}

is_registered-append :
    (t : SemaphoreTable) (sem : Semaphore) (name : CString)
    → is_registered (t ++ sem ∷ []) name ≡ (is_registered t name || strcmp_eq sem.name name)
unfolding is_registered
is_registered-append [] sem name = ground arith
is_registered-append (it ∷ t) sem name = ground (arith, is_registered-append t sem name)

pub is_registered-semaphore_register :
    (t : SemaphoreTable) (name : CString) → is_registered (semaphore_register t name) name ≡ true
unfolding semaphore_register
is_registered-semaphore_register t name =
    ground (arith, is_registered-append t (semaphore_init name (pos 1)) name, strcmp_eq_refl name)

pub is_registered-kept :
    (t : SemaphoreTable) (name other : CString)
    → is_registered t other ≡ true
    → is_registered (semaphore_register t name) other ≡ true
unfolding semaphore_register
is_registered-kept t name other h =
    ground (arith, is_registered-append t (semaphore_init name (pos 1)) other)

pub semaphore_find-is_registered :
    (t : SemaphoreTable) (name : CString)
    → is_registered t name ≡ true
    → (i : ℕ) × (semaphore_find t name ≡ some i)
unfolding is_registered semaphore_find
semaphore_find-is_registered [] name h = cc
semaphore_find-is_registered (it ∷ t) name h = elim (Bool-cases (strcmp_eq it.name name)) [
  | inl e ↦ (0, rw e)
  | inr e ↦ let (i, f) = semaphore_find-is_registered t name (rw e at h) in (suc i, rw (e, f))
]

-- The room that the array must have for what is left behind a token.
abbrev needed : CString → ℕ
needed [] = 0
needed (c ∷ cs) = suc (count space (c ∷ cs))

split_token-room : (s : CString) → needed (split_token s).1 ≤ count space s
unfolding split_token
split_token-room [] = omega arith
split_token-room (c ∷ s) = elim (Bool-cases (c == space)) [
  | inl e ↦ rw e (room s)
  | inr e ↦ rw e (omega (arith, split_token-room s))
]
  where
    room : (cs : CString) → needed cs ≤ 1 + count space cs
    room [] = omega arith
    room (d ∷ ds) = omega arith

skip_separators-room : (s : CString) → count space (skip_separators s) ≤ count space s
unfolding skip_separators
skip_separators-room [] = omega arith
skip_separators-room (c ∷ s) = ground (arith, skip_separators-room s)

abbrev rest_or : Option (CString × CString) → CString
rest_or none = []
rest_or (some r) = r.1

token_of-room : (s tok rest : CString) → token_of s ≡ some (tok, rest) → needed rest ≤ count space s
unfolding token_of
token_of-room [] tok rest h = cc
token_of-room (c ∷ s) tok rest h =
    let e : (split_token (c ∷ s)).1 ≡ rest = ap rest_or h in rw (← e) (split_token-room (c ∷ s))

next_token-room :
    (s tok rest : CString) → next_token s ≡ some (tok, rest) → needed rest ≤ count space s
unfolding next_token
next_token-room s tok rest h =
    omega (arith, token_of-room (skip_separators s) tok rest h, skip_separators-room s)

pub next_token-nil : next_token [] ≡ none
unfolding next_token
next_token-nil = refl

-- The names read are the words of the line, in order; they are registered, and so is what was before.
pub record Registered (line : List CString) (t : SemaphoreTable) (r : List CString × SemaphoreTable)
    : Type 0 where
  pub names : r.0 ≡ line
  pub read : All (λ name. is_registered r.1 name ≡ true) r.0
  pub kept : (name : CString) → is_registered t name ≡ true → is_registered r.1 name ≡ true

register_names-Registered :
    (room : ℕ) (tok rest : CString) (t : SemaphoreTable)
    → suc (needed rest) ≤ room
    → Returns (Registered (tok ∷ words rest) t) (register_names room tok rest t)
unfolding register_names
register_names-Registered zero tok rest t h = absurd (omega (arith, h))
register_names-Registered (suc room) tok rest t h = elim (Option-cases (next_token rest)) [
  | inl e ↦ (
    (tok ∷ [], semaphore_register t tok),
    rw (register_names, e),
    record {
      names = rw (next_token-no_words rest e) refl;
      read = (is_registered-semaphore_register t tok, tt);
      kept = λ name k. is_registered-kept t tok name k;
    },
  )
  | inr (next, e) ↦
      let t' = semaphore_register t tok in
      let less : suc (needed next.1) ≤ room = more rest next.0 next.1 e (omega arith) in
      let ((names, last), e', r) = register_names-Registered room next.0 next.1 t' less in
      (
        (tok ∷ names, last),
        rw (register_names, e, e'),
        record {
          names = rw (next_token-words rest next.0 next.1 e) (ap (◌∷◌ tok) r.names);
          read = (r.kept tok (is_registered-semaphore_register t tok), r.read);
          kept = λ name k. r.kept name (is_registered-kept t tok name k);
        },
      )
]
  where
    more :
        (s tok' rest' : CString)
        → next_token s ≡ some (tok', rest')
        → needed s ≤ room
        → suc (needed rest') ≤ room
    more [] tok' rest' f k = cc (next_token-nil)
    more (c ∷ cs) tok' rest' f k = omega (arith, next_token-room (c ∷ cs) tok' rest' f, k)

-- A line with a token: read_semaphores returns, so it never writes behind the end of the array that it
-- sized by counting separators; the names that it returns are the words between the spaces of the
-- line, all of them in their order; every one is registered, and no registration is lost.
pub read_semaphores-Registered :
    (sem_line tok rest : CString) (t : SemaphoreTable)
    → next_token sem_line ≡ some (tok, rest)
    → Returns (Registered (words sem_line) t) (read_semaphores sem_line t)
unfolding read_semaphores
read_semaphores-Registered sem_line tok rest t e =
    rw (e, next_token-words sem_line tok rest e)
      (register_names-Registered (count space sem_line + 1) tok rest t
        (omega (arith, next_token-room sem_line tok rest e)))
