-- ===== src/Tests/SemaphoreTests.antt =====
-- The theorems about semaphores, applied.
use ribabari.Prelude.{◌≤◌, ◌≡◌, some, none, if◌then◌else◌, length, List, [], ◌∷◌, arith, ℤ, pos}
use ribabari.Process.{Ptr, CString, strcmp_eq}
use ribabari.Semaphore.{
  Semaphore, SemaphoreTable, semaphore_find, semaphore_register, is_registered,
}
use ribabari.Semaphore.Table.{named, semaphore_find-semaphore_register}

abbrev pub semaphore : ℤ → List Ptr → Semaphore
semaphore s waiters = record { name = 115 ∷ []; s = s; waiters = waiters; mutex = 1 }

one_name : (other : CString) → named other (semaphore (pos 1) [] ∷ []) ≤ 1
one_name other = ground arith

abbrev one_table : SemaphoreTable
one_table = semaphore (pos 1) [] ∷ []

semaphore_find-semaphore_register_example :
    semaphore_find (semaphore_register one_table (116 ∷ [])) (115 ∷ []) ≡ (
      if is_registered one_table (115 ∷ [])
      then semaphore_find one_table (115 ∷ [])
      else if strcmp_eq (116 ∷ []) (115 ∷ [])
      then some (length one_table)
      else none)
semaphore_find-semaphore_register_example =
    semaphore_find-semaphore_register one_table (116 ∷ []) (115 ∷ [])
