-- ===== src/Kernel/Lifetime.antt =====
-- The creation and the end of a process, on a settled kernel.
use ribabari.Prelude.{
  ℕ, zero, suc, ◌+◌, ◌≡◌, ◌≢◌, inl, inr, refl, ap, ◌∙◌, some, pos, List, [], ◌∷◌, ◌++◌, arith,
  if_intro, ==-cases, count, get_elem?,
}
use ribabari.Process.{Ptr, null, CString, Process}
use ribabari.Semaphore.{
  Semaphore, SemaphoreTable, semaphore_init, semaphore_register, is_registered,
}
use ribabari.Semaphore.Balance.{IsBalanced, semaphore_init-IsBalanced}
use ribabari.Program.Statements.{Statement}
use ribabari.Program.Joined.{register_all}
use ribabari.Program.Header.{Head}
use ribabari.Kernel.State.{Kernel}
use ribabari.Kernel.Asleep.{waiting, IsSettled}
use ribabari.Kernel.Created.{Created}
use ribabari.Kernel.Finished.{Finished}

abbrev AllBalanced : SemaphoreTable → Type 0
AllBalanced table = (i : ℕ) (sem : Semaphore) → get_elem? table i ≡ some sem → IsBalanced sem

waiting-append_new :
    (q : Ptr) (table : SemaphoreTable) (sem : Semaphore)
    → sem.waiters ≡ []
    → waiting q (table ++ sem ∷ []) ≡ waiting q table
waiting-append_new q [] sem e = rw e refl
waiting-append_new q (it ∷ table) sem e =
    ap (◌+◌ (count q it.waiters)) (waiting-append_new q table sem e)

AllBalanced-append_new :
    (table : SemaphoreTable) (sem : Semaphore)
    → AllBalanced table
    → IsBalanced sem
    → AllBalanced (table ++ sem ∷ [])
AllBalanced-append_new [] sem all one zero it e = let same : sem ≡ it = cc in rw same at one
AllBalanced-append_new [] sem all one (suc i) it e = cc
AllBalanced-append_new (x ∷ table) sem all one zero it e = all 0 it e
AllBalanced-append_new (x ∷ table) sem all one (suc i) it e =
    AllBalanced-append_new table sem (λ j y h. all (suc j) y h) one i it e

-- Registration leaves the waiters alone, and the semaphores balanced.
registered :
    (q : Ptr) (table : SemaphoreTable) (name : CString)
    → AllBalanced table
    → AllBalanced (semaphore_register table name)
      × (waiting q (semaphore_register table name) ≡ waiting q table)
unfolding semaphore_register semaphore_init
registered q table name all =
    if_intro (λ t. AllBalanced t × (waiting q t ≡ waiting q table)) (is_registered table name) table
      (table ++ semaphore_init name (pos 1) ∷ []) (all, refl)
      (
        AllBalanced-append_new table (semaphore_init name (pos 1)) all
            (semaphore_init-IsBalanced name 1 (omega arith)),
        waiting-append_new q table (semaphore_init name (pos 1)) refl,
      )

all_registered :
    (q : Ptr) (table : SemaphoreTable) (names : List CString)
    → AllBalanced table
    → AllBalanced (register_all table names)
      × (waiting q (register_all table names) ≡ waiting q table)
all_registered q table [] all = (all, refl)
all_registered q table (n ∷ ns) all =
    let (all1, same1) = registered q table n all in
    let (all2, same2) = all_registered q (semaphore_register table n) ns all1 in
    (all2, same2 ∙ same1)

-- A new process waits for nothing.
pub Created-IsSettled :
    (p : Ptr) (src : Head) (code : List Statement) (size r : ℕ) (k k' : Kernel)
    → IsSettled k
    → Created p src code size r k k'
    → IsSettled k'
Created-IsSettled p src code size r k k' settled made = record {
  valid = made.valid;
  balanced = rw made.semaphores (all_registered 0 k.sem_table src.names settled.balanced).0;
  asleep = λ q.
      rw (made.arm, made.semaphores, made.queued)
        (ground
          (arith, settled.asleep q, (all_registered q k.sem_table src.names settled.balanced).1));
}

-- The process that has the CPU waits for nothing either, so it can be freed.
pub Finished-IsSettled :
    (c : Process) (k k' : Kernel)
    → k.scheduler.scheduled_proc ≢ null
    → IsSettled k
    → Finished k.scheduler.scheduled_proc c k k'
    → IsSettled k'
Finished-IsSettled c k k' busy settled gone = record {
  valid = gone.valid;
  balanced = rw gone.sems settled.balanced;
  asleep = λ q.
      rw (gone.arm, gone.sems)
        (elim (==-cases k.scheduler.scheduled_proc q) [
          | inl e ↦ ground (arith, settled.asleep q, settled.valid.once q)
          | inr e ↦ ground (arith, settled.asleep q, gone.asleep q)
        ]);
}
