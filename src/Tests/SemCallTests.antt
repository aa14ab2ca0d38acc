-- ===== src/Tests/SemCallTests.antt =====
-- P and V of the process that has the CPU, on the one semaphore of the kernel.
use ribabari.Prelude.{◌+◌, ◌≤◌, ok, length}
use ribabari.Disk.Resolve.{processes}
use ribabari.Terminal.{sem_blocked_count}
use ribabari.Terminal.Views.{all_waiters, sem_blocked_count-waiters}
use ribabari.Prelude.{
  ℕ, zero, suc, ◌≡◌, refl, some, [], ◌∷◌, arith, Returns, pos, negsuc, get_elem?, true,
}
use ribabari.Semaphore.{Semaphore}
use ribabari.Semaphore.Balance.{IsBalanced}
use ribabari.Sched.{Scheduler}
use ribabari.Kernel.State.{Kernel}
use ribabari.Kernel.Asleep.{IsSettled}
use ribabari.Kernel.{semaphore_p, semaphore_v}
use ribabari.Kernel.SemDown.{Slept, semaphore_p-IsSettled}
use ribabari.Kernel.SemUp.{Released, semaphore_v-IsSettled}
use ribabari.Tests.Data.{
  one_running, one_blocked, one_running-IsValid, one_blocked-IsValid, kernel_with,
}
use ribabari.Tests.SemaphoreTests.{semaphore}

abbrev pub with_semaphore : Scheduler → Semaphore → Kernel
with_semaphore sch sem = record (kernel_with sch) { sem_table = sem ∷ [] }

one-IsBalanced :
    (sem : Semaphore)
    → IsBalanced sem
    → (i : ℕ) (it : Semaphore) → get_elem? (sem ∷ []) i ≡ some it
    → IsBalanced it
one-IsBalanced sem v zero it h = let e : sem ≡ it = cc in rw e at v
one-IsBalanced sem v (suc i) it h = cc

pub taken-IsSettled : IsSettled (with_semaphore one_running (semaphore (pos 0) []))
taken-IsSettled = record {
  valid = one_running-IsValid;
  balanced = one-IsBalanced (semaphore (pos 0) []) (omega arith);
  asleep = λ q. omega arith;
}

pub awaited-IsSettled : IsSettled (with_semaphore one_blocked (semaphore (negsuc 0) (1 ∷ [])))
awaited-IsSettled = record {
  valid = one_blocked-IsValid;
  balanced = one-IsBalanced (semaphore (negsuc 0) (1 ∷ [])) (omega arith);
  asleep = λ q. omega arith;
}

semaphore_p-IsSettled_example :
    Returns
      (λ k'.
        IsSettled k'
        × Slept
            (with_semaphore one_running (semaphore (pos 0) []))
            0
            (semaphore (pos 0) [])
            true
            k')
      (semaphore_p (some 0) (with_semaphore one_running (semaphore (pos 0) [])))
semaphore_p-IsSettled_example =
    semaphore_p-IsSettled (with_semaphore one_running (semaphore (pos 0) [])) 0
      (semaphore (pos 0) []) taken-IsSettled refl (ground arith) (omega arith)

semaphore_v-IsSettled_example :
    Returns
      (Released
        (with_semaphore one_blocked (semaphore (negsuc 0) (1 ∷ [])))
        0
        (semaphore (negsuc 0) (1 ∷ [])))
      (semaphore_v (some 0) (with_semaphore one_blocked (semaphore (negsuc 0) (1 ∷ []))))
semaphore_v-IsSettled_example =
    semaphore_v-IsSettled (with_semaphore one_blocked (semaphore (negsuc 0) (1 ∷ []))) 0
      (semaphore (negsuc 0) (1 ∷ [])) awaited-IsSettled refl (ground arith) (omega arith)

abbrev awaited : Kernel
awaited = with_semaphore one_blocked (semaphore (negsuc 0) (1 ∷ []))

sem_blocked_count-waiters_example :
    (sem_blocked_count awaited.sem_table ≡ ok (pos (length (all_waiters awaited.sem_table))))
    × (length (all_waiters awaited.sem_table)
          + length (processes awaited.disk_scheduler.pending_requests)
        ≤ length awaited.scheduler.blocked_queue.queue)
sem_blocked_count-waiters_example =
    sem_blocked_count-waiters awaited awaited-IsSettled (omega arith)
