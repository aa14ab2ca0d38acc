-- ===== src/Semaphore/Table.antt =====
-- The table of semaphores: names are registered once, and what is registered is found again.
use mathlib.Core.Option
use mathlib.Core.Bool.{false≢true}
use ribabari.Prelude.{
  ℕ, suc, ◌+◌, ◌≡◌, refl, sym, ◌∙◌, Bool, true, false, Option, none, some, [], ◌∷◌, ◌++◌, arith,
  if◌then◌else◌, pos, Bool-cases, inl, inr, length, ◌≤◌,
}
use ribabari.Process.{CString, strcmp_eq, strcmp_eq_iff}
use ribabari.Semaphore.{
  Semaphore, SemaphoreTable, semaphore_find, is_registered, semaphore_init, semaphore_register,
}

-- How many semaphores have a name.
abbrev pub named : CString → SemaphoreTable → ℕ
named name [] = 0
named name (sem ∷ rest) = (if strcmp_eq sem.name name then 1 else 0) + named name rest

named-append :
    (name : CString) (t u : SemaphoreTable) → named name (t ++ u) ≡ named name t + named name u
named-append name [] u = omega arith
named-append name (sem ∷ t) u = omega (arith, named-append name t u)

is_registered-named :
    (t : SemaphoreTable) (name : CString) → is_registered t name ≡ false → named name t ≡ 0
unfolding is_registered
is_registered-named [] name h = refl
is_registered-named (sem ∷ t) name h = ground (arith, is_registered-named t name)

-- A name is never entered twice: if no name stood twice in the table, none does after a registration.
pub semaphore_register_unique :
    (t : SemaphoreTable) (name : CString)
    → ((other : CString) → named other t ≤ 1)
    → (other : CString) → named other (semaphore_register t name) ≤ 1
unfolding semaphore_register
semaphore_register_unique t name once other = elim (Bool-cases (is_registered t name)) [
  | inl e ↦ rw e (once other)
  | inr e ↦
      rw (e, named-append other t (semaphore_init name (pos 1) ∷ []))
        (elim (Bool-cases (strcmp_eq name other)) [
          | inl same ↦
              rw (same) (
                omega
                  (arith, is_registered-named t other (rw (strcmp_eq_iff name other same) at e)))
          | inr differ ↦ rw differ (omega (arith, once other))
        ])
]

map-suc-if :
    (b : Bool) (o : Option ℕ) (n : ℕ)
    → Option.map suc (if b then some n else none) ≡ (if b then some (suc n) else none)
map-suc-if b o n = ground arith

find-append :
    (t : SemaphoreTable) (sem : Semaphore) (other : CString)
    → semaphore_find (t ++ sem ∷ []) other ≡ (
        if is_registered t other
        then semaphore_find t other
        else if strcmp_eq sem.name other
        then some (length t)
        else none)
unfolding semaphore_find is_registered
find-append [] sem other = ground arith
find-append (x ∷ t) sem other = ground (arith, find-append t sem other)

find-unregistered :
    (t : SemaphoreTable) (other : CString)
    → is_registered t other ≡ false
    → semaphore_find t other ≡ none
unfolding semaphore_find is_registered
find-unregistered [] other h = refl
find-unregistered (x ∷ t) other h = ground (arith, find-unregistered t other)

find-registered :
    (t : SemaphoreTable) (name other : CString)
    → is_registered t name ≡ true
    → semaphore_find t other ≡ (
        if is_registered t other
        then semaphore_find t other
        else if strcmp_eq name other
        then some (length t)
        else none)
find-registered t name other h = elim (Bool-cases (is_registered t other)) [
  | inl old ↦ rw old
  | inr missing ↦ elim (Bool-cases (strcmp_eq name other)) [
    | inl same ↦ absurd (false≢true (sym missing ∙ rw (strcmp_eq_iff name other same) at h))
    | inr differ ↦ rw (missing, differ) (find-unregistered t other missing)
  ]
]

-- The lookup after a registration: a name that was registered is found where it was; the new name is found
-- at the end of the table, if it was not registered; and no other name is found.
pub semaphore_find-semaphore_register :
    (t : SemaphoreTable) (name other : CString)
    → semaphore_find (semaphore_register t name) other ≡ (
        if is_registered t other
        then semaphore_find t other
        else if strcmp_eq name other
        then some (length t)
        else none)
unfolding semaphore_register
semaphore_find-semaphore_register t name other = elim (Bool-cases (is_registered t name)) [
  | inl e ↦ rw e (find-registered t name other e)
  | inr e ↦ rw e (find-append t (semaphore_init name (pos 1)) other)
]
