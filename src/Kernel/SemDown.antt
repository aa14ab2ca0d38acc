-- ===== src/Kernel/SemDown.antt =====
-- sysCall(SEMAPHORE_P, sem) of kernel/kernel.c: the semaphores and the scheduler together.
use ribabari.Prelude.{
  ℕ, ℤ, ◌<◌, ◌≡◌, ◌≢◌, refl, sym, ◌∙◌, some, [], ◌∷◌, arith, inl, inr, true, false, Bool,
  Bool-cases, ltb_ℤ, leb_ℤ, pos, ◌-ℤ◌, neg_part, int_min, count-append, get_elem?, set, Returns,
  Returns-and,
}
use ribabari.LinkedList.{list_add}
use ribabari.Process.{null}
use ribabari.Sched.{semaphore_blocked}
use ribabari.Sched.Schedule.{schedule_process-keeps}
use ribabari.Sched.Dispatch.{schedule_process-Requeued}
use ribabari.Semaphore.{Semaphore, semaphore_P, acquire}
use ribabari.Semaphore.Balance.{int-pred, went_on, waits, went_on-AfterP, waits-AfterP}
use ribabari.Kernel.State.{Kernel}
use ribabari.Kernel.Blocking.{sleep, process_interrupt}
use ribabari.Kernel.Asleep.{waiting-set, acq_log-ok, IsBalanced-set, curr-Live, IsSettled}
use ribabari.Kernel.{semaphore_p}

same_test : (s : ℤ) → ltb_ℤ (s -ℤ pos 1) (pos 0) ≡ leb_ℤ s (pos 0)
unfolding ◌-ℤ◌
same_test s = ground arith

module _ (k : Kernel) (i : ℕ) (sem : Semaphore) where
  -- What P does to the queues, by its test: the process is the last of the blocked queue, or keeps the CPU.
  abbrev pub Slept : Bool → Kernel → Type 0
  Slept true k' =
      (k'.scheduler.blocked_queue.queue
        ≡ list_add k.scheduler.blocked_queue.queue k.scheduler.scheduled_proc)
      × (k'.sem_table ≡ set k.sem_table i (waits sem k.scheduler.scheduled_proc))
      × (k'.disk_scheduler ≡ k.disk_scheduler)
  Slept false k' =
      (k'.scheduler ≡ k.scheduler)
      × (k'.sem_table ≡ set k.sem_table i (went_on sem))
      × (k'.disk_scheduler ≡ k.disk_scheduler)

module _ (k : Kernel) (i : ℕ) (sem : Semaphore) (settled : IsSettled k)
    (found : get_elem? k.sem_table i ≡ some sem) (busy : k.scheduler.scheduled_proc ≢ null) where
  semaphore_p-free :
      neg_part sem.s < int_min
      → ltb_ℤ (sem.s -ℤ pos 1) (pos 0) ≡ false
      → Returns (λ k'. IsSettled k' × Slept k i sem false k') (semaphore_p (some i) k)
  unfolding semaphore_p semaphore_P acquire
  semaphore_p-free room test =
      let balanced = settled.balanced i sem found in
      let curr = k.scheduler.scheduled_proc in
      let (h, logged) = acq_log-ok curr sem.name true false k (curr-Live k settled busy) in
      let after = went_on-AfterP sem curr balanced room test in
      rw (found, balanced.free, int-pred sem.s balanced.fits room, test, logged)
        (
          _,
          refl,
          (
            record {
              valid = settled.valid;
              balanced = IsBalanced-set k i (went_on sem) settled after.1;
              asleep = λ q.
                  omega
                    (arith, settled.asleep q, waiting-set q k.sem_table i sem (went_on sem) found);
            },
            (refl, refl, refl),
          ),
        )

  semaphore_p-wait :
      neg_part sem.s < int_min
      → ltb_ℤ (sem.s -ℤ pos 1) (pos 0) ≡ true
      → Returns (λ k'. IsSettled k' × Slept k i sem true k') (semaphore_p (some i) k)
  unfolding semaphore_p semaphore_P acquire sleep process_interrupt
  semaphore_p-wait room test =
      let balanced = settled.balanced i sem found in
      let curr = k.scheduler.scheduled_proc in
      let (r, slept, (kept, (d, has, (queue, now)))) =
        Returns-and (schedule_process-keeps semaphore_blocked settled.valid)
          (schedule_process-Requeued semaphore_blocked settled.valid busy) in
      let (h, logged) =
        acq_log-ok curr sem.name true true (record k { scheduler = r.0; procs = r.1 })
          (kept.1 curr (curr-Live k settled busy)) in
      let after = waits-AfterP sem curr balanced room test in
      rw (found, balanced.free, int-pred sem.s balanced.fits room, test, slept, logged)
        (
          _,
          refl,
          (
            record {
              valid = kept.0;
              balanced = IsBalanced-set k i (waits sem curr) settled after.1;
              asleep = λ q. rw queue (
                  omega (
                    arith,
                    settled.asleep q,
                    waiting-set q k.sem_table i sem (waits sem curr) found,
                    count-append q k.scheduler.blocked_queue.queue (curr ∷ []),
                    count-append q sem.waiters (curr ∷ []),
                  ));
            },
            (queue, refl, refl),
          ),
        )

  -- Let the kernel be settled, a process have the CPU, and the semaphore be in the table with a value above
  -- INT_MIN. Then P on it returns and the kernel is settled again. If the value was positive, the
  -- scheduler is as it was; otherwise the process is the last of the blocked queue, and of those that
  -- wait for the semaphore. The semaphore has one unit less, and the other semaphores are as they were.
  pub semaphore_p-IsSettled :
      neg_part sem.s < int_min
      → Returns
          (λ k'. IsSettled k' × Slept k i sem (leb_ℤ sem.s (pos 0)) k')
          (semaphore_p (some i) k)
  semaphore_p-IsSettled room = elim (Bool-cases (ltb_ℤ (sem.s -ℤ pos 1) (pos 0))) [
    | inl test ↦ rw (sym (same_test sem.s) ∙ test) (semaphore_p-wait room test)
    | inr test ↦ rw (sym (same_test sem.s) ∙ test) (semaphore_p-free room test)
  ]

pub Slept-disk :
    (k : Kernel) (i : ℕ) (sem : Semaphore) (b : Bool) (k' : Kernel)
    → Slept k i sem b k'
    → k'.disk_scheduler ≡ k.disk_scheduler
Slept-disk k i sem true k' h = h.2
Slept-disk k i sem false k' h = h.2
