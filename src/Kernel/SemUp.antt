-- ===== src/Kernel/SemUp.antt =====
-- sysCall(SEMAPHORE_V, sem) of kernel/kernel.c: the semaphores and the scheduler together.
use ribabari.Prelude.{
  ℕ, ◌+◌, ◌<◌, ◌≤◌, ◌≡◌, ◌≢◌, refl, sym, ◌∙◌, ap, some, List, [], ◌∷◌, arith, ◌==◌, if◌then◌else◌,
  inl, inr, true, false, Bool-cases, leb_ℤ, pos, ◌+ℤ◌, pos_part, int_max, ok, count, count-erase,
  get_elem?, set, rest_of, Returns,
}
use ribabari.LinkedList.{list_add}
use ribabari.Process.{Ptr, null}
use ribabari.Sched.{Scheduler, high, enqueue}
use ribabari.Sched.Valid.{IsValid, Live, places}
use ribabari.Sched.Unblock.{
  unblocked, schedule_unblock_process-ok, unblocked-IsValid, unblocked-blocked, unblocked-places,
}
use ribabari.Semaphore.{Semaphore, semaphore_V, release}
use ribabari.Semaphore.Balance.{int-suc, given_back, given_back-IsBalanced, no_waiters, some_waiter}
use ribabari.Disk.Resolve.{processes}
use ribabari.Kernel.State.{Kernel}
use ribabari.Kernel.Blocking.{wakeup}
use ribabari.Kernel.Asleep.{
  waiting, waiting-set, waiting-ge, acq_log-ok, IsBalanced-set, curr-Live, IsSettled,
}
use ribabari.Kernel.{semaphore_v}

wakeup-ok :
    (p : Ptr) (k : Kernel)
    → IsValid k.scheduler k.procs
    → Live k.procs p
    → wakeup p k ≡ ok (record k { scheduler = unblocked high p k.scheduler })
unfolding wakeup
wakeup-ok p k v l = rw (schedule_unblock_process-ok p high v l) refl

-- What V does to the queues: the process that waited longest is blocked no more, and the last one of the
-- high queue.
abbrev pub Woken : List Ptr → Scheduler → Scheduler → Type 0
Woken [] sch sch' = sch' ≡ sch
Woken (p ∷ rest) sch sch' =
    (count p sch'.blocked_queue.queue ≡ 0)
    × (sch'.high_queue.queue ≡ list_add sch.high_queue.queue p)
    × ((q : Ptr) → places q sch' ≡ places q sch)

module _ (k : Kernel) (i : ℕ) (sem : Semaphore) where
  abbrev with_waiters : List Ptr → Semaphore
  with_waiters ws = record sem { s = sem.s +ℤ pos 1; waiters = ws; mutex = 1 }

  abbrev pub Released : Kernel → Type 0
  Released k' =
      IsSettled k'
      × Woken sem.waiters k.scheduler k'.scheduler
      × (k'.sem_table ≡ set k.sem_table i (given_back sem))
      × (k'.disk_scheduler ≡ k.disk_scheduler)

  table_given :
      (ws : List Ptr)
      → ws ≡ rest_of sem.waiters
      → set k.sem_table i (with_waiters ws) ≡ set k.sem_table i (given_back sem)
  table_given ws e = ap (λ ws'. set k.sem_table i (with_waiters ws')) e

module _ (k : Kernel) (i : ℕ) (sem : Semaphore) (settled : IsSettled k)
    (found : get_elem? k.sem_table i ≡ some sem) (busy : k.scheduler.scheduled_proc ≢ null) where
  -- A waiter is in the blocked queue, hence a live process.
  waiter_blocked : (p : Ptr) → 0 < count p sem.waiters → 0 < count p k.scheduler.blocked_queue.queue
  waiter_blocked p h = omega (arith, waiting-ge p k.sem_table i sem found, settled.asleep p)

  module _ (p : Ptr) (rest : List Ptr) (e : sem.waiters ≡ p ∷ rest)
      (h : 0 < count p k.scheduler.blocked_queue.queue) where
    woken : Woken (p ∷ rest) k.scheduler (unblocked high p k.scheduler)
    unfolding enqueue
    woken = (
      ground (arith, settled.valid.once p, count-erase p p k.scheduler.blocked_queue.queue),
      ground arith,
      λ q. unblocked-places p q high k.scheduler,
    )

    woken-asleep :
        (sem' : Semaphore)
        → sem'.waiters ≡ rest
        → (q : Ptr)
        → count q (processes k.disk_scheduler.pending_requests) + waiting q (set k.sem_table i sem')
          ≤ count q (unblocked high p k.scheduler).blocked_queue.queue
    woken-asleep sem' e' q =
        let before : count q sem.waiters ≡ (if p == q then 1 else 0) + count q rest = rw e refl in
        let after : count q sem'.waiters ≡ count q rest = rw e' refl in
        omega (
          arith,
          settled.asleep q,
          waiting-set q k.sem_table i sem sem' found,
          unblocked-blocked p q high k.scheduler h,
        )

  semaphore_v-free :
      pos_part sem.s < int_max
      → leb_ℤ (sem.s +ℤ pos 1) (pos 0) ≡ false
      → Returns (Released k i sem) (semaphore_v (some i) k)
  unfolding semaphore_v semaphore_V release
  semaphore_v-free room test =
      let balanced = settled.balanced i sem found in
      let curr = k.scheduler.scheduled_proc in
      let none_waits = no_waiters sem curr balanced test in
      let (h, logged) = acq_log-ok curr sem.name false false k (curr-Live k settled busy) in
      let back = given_back-IsBalanced sem curr balanced room in
      let waited = back.waiting in
      let none_left = rw none_waits at waited in
      let sem' = record sem { s = sem.s +ℤ pos 1; mutex = 1 } in
      rw (found, balanced.free, int-suc sem.s balanced.fits room, test, logged)
        (
          _,
          refl,
          (
            record {
              valid = settled.valid;
              balanced =
                  IsBalanced-set k i sem' settled
                    (record { free = refl; waiting = rw none_waits none_left; fits = back.fits });
              asleep =
                  λ q. omega (arith, settled.asleep q, waiting-set q k.sem_table i sem sem' found);
            },
            rw none_waits refl,
            table_given k i sem sem.waiters (none_waits ∙ sym (ap rest_of none_waits)),
            refl,
          ),
        )

  semaphore_v-wake :
      pos_part sem.s < int_max
      → leb_ℤ (sem.s +ℤ pos 1) (pos 0) ≡ true
      → Returns (Released k i sem) (semaphore_v (some i) k)
  unfolding semaphore_v semaphore_V release
  semaphore_v-wake room test =
      let balanced = settled.balanced i sem found in
      let curr = k.scheduler.scheduled_proc in
      let (p, rest, e) = some_waiter sem curr balanced test in
      let asleep = waiter_blocked p (rw e (ground arith)) in
      let live = settled.valid.live p (omega (arith, asleep)) in
      let sch' = unblocked high p k.scheduler in
      let (h, logged) =
        acq_log-ok curr sem.name false false (record k { scheduler = sch' })
          (curr-Live k settled busy) in
      let back = given_back-IsBalanced sem curr balanced room in
      let waited = back.waiting in
      let left = rw e at waited in
      let sem' = record sem { s = sem.s +ℤ pos 1; waiters = rest; mutex = 1 } in
      rw
        (
          found,
          balanced.free,
          int-suc sem.s balanced.fits room,
          test,
          e,
          wakeup-ok p k settled.valid live,
          logged,
        )
        (
          _,
          refl,
          (
            record {
              valid = unblocked-IsValid p high settled.valid;
              balanced =
                  IsBalanced-set k i sem' settled
                    (record { free = refl; waiting = left; fits = back.fits });
              asleep = woken-asleep p rest e asleep sem' refl;
            },
            woken p rest e asleep,
            refl,
            refl,
          ),
        )

  -- Let the kernel be settled (a valid scheduler, balanced semaphores, and every process that waits for a
  -- semaphore or for the disk in the blocked queue, once for each), a process have the CPU, and the
  -- semaphore be in the table with a value below INT_MAX. Then V on it returns and the kernel is
  -- settled again; the process that waited longest, if any did, has left the blocked queue for the
  -- end of the high queue, and every process stands at as many places as before. The semaphore
  -- has one unit more and that waiter less, and the other semaphores are as they were.
  pub semaphore_v-IsSettled :
      pos_part sem.s < int_max → Returns (Released k i sem) (semaphore_v (some i) k)
  semaphore_v-IsSettled room = elim (Bool-cases (leb_ℤ (sem.s +ℤ pos 1) (pos 0))) [
    | inl test ↦ semaphore_v-wake room test
    | inr test ↦ semaphore_v-free room test
  ]
