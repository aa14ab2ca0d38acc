-- ===== src/Kernel/Asleep.antt =====
-- The kernel with its processes that wait: for a semaphore, for the disk, each in the blocked queue.
use ribabari.Prelude.{
  ℕ, zero, suc, ◌+◌, ◌≤◌, ◌≡◌, ◌≢◌, refl, some, [], ◌∷◌, arith, inl, inr, Bool, ok, count,
  get_elem?, get_elem?-set_cases, set,
}
use ribabari.Process.{Ptr, null, CString, Points-load}
use ribabari.Log.{Host, res_acq_log}
use ribabari.Sched.Valid.{IsValid, Live}
use ribabari.Semaphore.{Semaphore, SemaphoreTable}
use ribabari.Semaphore.Balance.{IsBalanced}
use ribabari.Disk.Resolve.{processes}
use ribabari.Kernel.State.{Kernel}
use ribabari.Kernel.Blocking.{acq_log}

-- How often a process waits for a semaphore.
abbrev pub waiting : Ptr → SemaphoreTable → ℕ
waiting q [] = 0
waiting q (sem ∷ rest) = count q sem.waiters + waiting q rest

pub waiting-set :
    (q : Ptr) (table : SemaphoreTable) (i : ℕ) (sem sem' : Semaphore)
    → get_elem? table i ≡ some sem
    → waiting q (set table i sem') + count q sem.waiters ≡ waiting q table + count q sem'.waiters
waiting-set q [] i sem sem' h = cc
waiting-set q (it ∷ table) zero sem sem' h = let e : it ≡ sem = cc in rw e (omega arith)
waiting-set q (it ∷ table) (suc i) sem sem' h = omega (arith, waiting-set q table i sem sem' h)

pub waiting-ge :
    (q : Ptr) (table : SemaphoreTable) (i : ℕ) (sem : Semaphore)
    → get_elem? table i ≡ some sem
    → count q sem.waiters ≤ waiting q table
waiting-ge q [] i sem h = cc
waiting-ge q (it ∷ table) zero sem h = let e : it ≡ sem = cc in rw e (omega arith)
waiting-ge q (it ∷ table) (suc i) sem h = omega (arith, waiting-ge q table i sem h)

-- The scheduler is valid, the semaphores are balanced, and a process waits for semaphores and for the disk
-- together at most as often as it stands in the blocked queue, hence for one thing only.
pub record IsSettled (k : Kernel) : Type 0 where
  pub valid : IsValid k.scheduler k.procs
  pub balanced : (i : ℕ) (sem : Semaphore) → get_elem? k.sem_table i ≡ some sem → IsBalanced sem
  pub asleep :
      (q : Ptr)
      → count q (processes k.disk_scheduler.pending_requests) + waiting q k.sem_table
        ≤ count q k.scheduler.blocked_queue.queue

-- The log changes the host only.
pub acq_log-ok :
    (p : Ptr) (name : CString) (acq blocked : Bool) (k : Kernel)
    → Live k.procs p
    → (h : Host) × (acq_log p name acq blocked k ≡ ok (record k { host = h }))
unfolding acq_log
acq_log-ok p name acq blocked k (c, here, b) =
    let h = res_acq_log c.name name acq blocked k.host in
    (record h { res_acq_mutex = h.res_acq_mutex + 1 }, rw (Points-load here) refl)

pub IsBalanced-set :
    (k : Kernel) (i : ℕ) (sem : Semaphore)
    → IsSettled k
    → IsBalanced sem
    → (j : ℕ) (it : Semaphore) → get_elem? (set k.sem_table i sem) j ≡ some it
    → IsBalanced it
IsBalanced-set k i sem settled balanced j it h =
    elim (get_elem?-set_cases k.sem_table i j sem it h) [
      | inl e ↦ rw e balanced
      | inr old ↦ settled.balanced j it old
    ]

-- The process that has the CPU is live.
pub curr-Live :
    (k : Kernel)
    → IsSettled k
    → k.scheduler.scheduled_proc ≢ null
    → Live k.procs k.scheduler.scheduled_proc
curr-Live k settled busy = settled.valid.live k.scheduler.scheduled_proc (ground (arith, busy))
