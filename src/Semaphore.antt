-- ===== src/Semaphore.antt =====
-- semaphore/semaphore.c and semaphore/semaphore.h: the table of named semaphores, and P and V. The
-- functions that P and V are given (`sleep`, `wakeup`) and the log that they write act on the rest of
-- the kernel, a type `E`; they come as the interface `Blocking`, which the kernel fills.
pub mod Table
pub mod Balance
use mathlib.Core.Option
use ribabari.Prelude.{
  ℕ, suc, ◌+◌, ◌-◌, Bool, true, false, Option, none, some, List, [], ◌∷◌, ◌++◌, ◌==◌, if◌then◌else◌,
  ℤ, pos, ◌+ℤ◌, ◌-ℤ◌, ltb_ℤ, leb_ℤ, int, Run, ok, hung, ◌>>=◌, Returns,
}
use ribabari.LinkedList.{list_add, list_remove_head}
use ribabari.Process.{Ptr, CString, strcmp_eq}

-- `s` is the field S; `mutex` is the value of the binary semaphore that guards the others.
pub record Semaphore : Type 0 where
  pub name : CString
  pub s : ℤ
  pub waiters : List Ptr
  pub mutex : ℕ

abbrev pub SemaphoreTable : Type 0
SemaphoreTable = List Semaphore

unfoldable pub semaphore_init : CString → ℤ → Semaphore
semaphore_init name s = record { name = name; s = s; waiters = []; mutex = 1 }

unfoldable pub semaphore_table_init : SemaphoreTable
semaphore_table_init = []

-- The position of the semaphore with a name; `none` is NULL.
unfoldable pub semaphore_find : SemaphoreTable → CString → Option ℕ
semaphore_find [] name = none
semaphore_find (sem ∷ rest) name =
    if strcmp_eq sem.name name then some 0 else Option.map suc (semaphore_find rest name)

unfoldable pub is_registered : SemaphoreTable → CString → Bool
is_registered [] name = false
is_registered (sem ∷ rest) name = if strcmp_eq sem.name name then true else is_registered rest name

unfoldable pub semaphore_register : SemaphoreTable → CString → SemaphoreTable
unfolding is_registered semaphore_init
semaphore_register table name =
    if is_registered table name then table else table ++ semaphore_init name (pos 1) ∷ []

-- `sem_wait` and `sem_post` of the system, within one call: no other thread posts in between.
abbrev pub sem_wait : ℕ → Run ℕ
sem_wait m = if m == 0 then hung else ok (m - 1)

abbrev pub sem_post : ℕ → ℕ
sem_post m = m + 1

-- What P and V need of the rest of the kernel. `Good` is its invariant, and `Known p` says that `p` is a
-- live process. `acq_log proc name acq blocked` is `res_acq_log` with the post that follows it.
pub record Blocking (E : Type 0) : Type 1 where
  pub sleep : E → Run E
  pub wakeup : Ptr → E → Run E
  pub acq_log : Ptr → CString → Bool → Bool → E → Run E
  pub Good : E → Type 0
  pub Known : Ptr → E → Type 0
  pub sleep_returns :
      (e : E) → Good e → Returns (λ e'. Good e' × ((q : Ptr) → Known q e → Known q e')) (sleep e)
  pub wakeup_returns :
      (p : Ptr) (e : E)
      → Good e
      → Known p e
      → Returns (λ e'. Good e' × ((q : Ptr) → Known q e → Known q e')) (wakeup p e)
  pub acq_log_returns :
      (p : Ptr) (name : CString) (acq blocked : Bool) (e : E)
      → Good e
      → Known p e
      → Returns
          (λ e'. Good e' × ((q : Ptr) → Known q e → Known q e'))
          (acq_log p name acq blocked e)

module _ {E : Type 0} (b : Blocking E) where
  -- `sem->S--`, and to sleep behind the waiters if that leaves it negative.
  unfoldable pub acquire : Semaphore → Ptr → E → Run (Bool × Semaphore × E)
  acquire sem proc e = do
    s ← int (sem.s -ℤ pos 1)
    if ltb_ℤ s (pos 0)
        then (do
          e' ← b.sleep e
          ok (true, record sem { s = s; waiters = list_add sem.waiters proc }, e'))
        else ok (false, record sem { s = s }, e)

  unfoldable pub semaphore_P : Semaphore → Ptr → E → Run (Semaphore × E)
  semaphore_P sem proc e = do
    m ← sem_wait sem.mutex
    (blocked, sem1, e1) ← acquire (record sem { mutex = m }) proc e
    e2 ← b.acq_log proc sem.name true blocked e1
    ok (record sem1 { mutex = sem_post sem1.mutex }, e2)

  -- `sem->S++`, and to wake the first waiter if there was one to be woken.
  unfoldable pub release : Semaphore → E → Run (Semaphore × E)
  release sem e = do
    s ← int (sem.s +ℤ pos 1)
    if leb_ℤ s (pos 0)
        then (do
          (p, rest) ← list_remove_head sem.waiters
          e' ← b.wakeup p e
          ok (record sem { s = s; waiters = rest }, e'))
        else ok (record sem { s = s }, e)

  unfoldable pub semaphore_V : Semaphore → Ptr → E → Run (Semaphore × E)
  semaphore_V sem process e = do
    m ← sem_wait sem.mutex
    (sem1, e1) ← release (record sem { mutex = m }) e
    e2 ← b.acq_log process sem.name false false e1
    ok (record sem1 { mutex = sem_post sem1.mutex }, e2)
