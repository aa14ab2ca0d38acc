-- ===== src/Kernel/Calls.antt =====
-- What each call of the CPU thread, and a round of the disk thread, keeps of the kernel.
use ribabari.Prelude.{
  ℕ, ◌<◌, ◌≡◌, ◌≢◌, refl, some, false, arith, ℤ, pos, neg_part, pos_part, leb_ℤ, int_min, int_max,
  ok, Bool, count-append, get_elem?, [], ◌∷◌, Returns-and, Returns-ok,
}
use ribabari.Process.{null, Process, Store}
use ribabari.Log.{Libc, Host}
use ribabari.Sched.{Scheduler, scheduler_init}
use ribabari.Sched.Valid.{Distinct, scheduler_init-IsValid}
use ribabari.Sched.Schedule.{schedule_process-IsValid}
use ribabari.Sched.Dispatch.{parks, schedule_process-blocked}
use ribabari.Semaphore.{Semaphore, semaphore_table_init}
use ribabari.Disk.{DiskScheduler, disk, disk_scheduler_init}
use ribabari.Disk.Round.{disk-RoundDone}
use ribabari.Disk.Turnaround.{time_for}
use ribabari.Kernel.State.{Kernel, kernel_init}
use ribabari.Kernel.Blocking.{process_interrupt}
use ribabari.Kernel.SemDown.{Slept-disk, semaphore_p-IsSettled}
use ribabari.Kernel.SemUp.{semaphore_v-IsSettled}
use ribabari.Kernel.Print.{Printed}
use ribabari.Kernel.DiskCall.{Requested, processes-append}
use ribabari.Kernel.{semaphore_p, semaphore_v}
use ribabari.Kernel.Step.{IsKept}

-- The kernel starts so, whatever `malloc` left in the disk scheduler.
pub kernel_init-IsKept :
    (procs : Store) (d : DiskScheduler) (h : Host) → Distinct procs → IsKept (kernel_init procs d h)
unfolding kernel_init disk_scheduler_init semaphore_table_init scheduler_init
kernel_init-IsKept procs d h ids = (
  record {
    valid = scheduler_init-IsValid procs ids;
    balanced = λ i sem none_there. cc;
    asleep = λ q. omega arith;
  },
  omega arith,
)

module _ (libc : Libc) (k : Kernel) (kept : IsKept k) where
  pub preempt-IsKept :
      (flags : ℕ)
      → parks flags ≡ false
      → (k' : Kernel) → process_interrupt flags k ≡ ok k'
      → IsKept k'
  unfolding process_interrupt
  preempt-IsKept flags off k' h =
      let v = kept.0.valid in
      let (r, e, (valid, same)) =
        Returns-and (schedule_process-IsValid flags v) (schedule_process-blocked flags v off) in
      Returns-ok {P = IsKept} k'
        (
          record k { scheduler = r.0; procs = r.1 },
          rw e refl,
          (
            record {
              valid = valid;
              balanced = kept.0.balanced;
              asleep = λ q. rw same (kept.0.asleep q);
            },
            kept.1,
          ),
        )
        h

  pub down-IsKept :
      (i : ℕ) (sem : Semaphore)
      → get_elem? k.sem_table i ≡ some sem
      → k.scheduler.scheduled_proc ≢ null
      → neg_part sem.s < int_min
      → (k' : Kernel) → semaphore_p (some i) k ≡ ok k'
      → IsKept k'
  down-IsKept i sem found busy room k' h =
      let (settled, slept) =
        Returns-ok k' (semaphore_p-IsSettled k i sem kept.0 found busy room) h in
      (settled, rw (Slept-disk k i sem (leb_ℤ sem.s (pos 0)) k' slept) (kept.1))

  pub up-IsKept :
      (i : ℕ) (sem : Semaphore)
      → get_elem? k.sem_table i ≡ some sem
      → k.scheduler.scheduled_proc ≢ null
      → pos_part sem.s < int_max
      → (k' : Kernel) → semaphore_v (some i) k ≡ ok k'
      → IsKept k'
  up-IsKept i sem found busy room k' h =
      let (settled, woken, table, same) =
        Returns-ok k' (semaphore_v-IsSettled k i sem kept.0 found busy room) h in
      (settled, rw same (kept.1))

  pub request-IsKept : (t : ℕ) (is_read : Bool) (k' : Kernel) → Requested t is_read k k' → IsKept k'
  request-IsKept t is_read k' r =
      let (m, timed, now) = r.request in
      let pending = k.disk_scheduler.pending_requests in
      let curr = k.scheduler.scheduled_proc in
      (
        record {
          valid = r.valid;
          balanced = rw r.sems (kept.0.balanced);
          asleep = λ q.
              rw (now, r.sems, r.queue)
                (omega (
                  arith,
                  kept.0.asleep q,
                  processes-append q pending (record {
                    process = curr;
                    track = pos t;
                    read = is_read;
                    turnaround = pos (time_for m);
                  }),
                  count-append q k.scheduler.blocked_queue.queue (curr ∷ []),
                ));
        },
        rw now (kept.1),
      )

  pub print_out-IsKept :
      (duration : ℤ) (c : Process) (k' : Kernel) → Printed k c duration k' → IsKept k'
  print_out-IsKept duration c k' r = (
    record {
      valid = r.valid;
      balanced = rw r.sems (kept.0.balanced);
      asleep = λ q. rw (r.sems, r.arm) (omega (arith, kept.0.asleep q, r.asleep q));
    },
    rw r.arm (kept.1),
  )

  pub round-IsKept :
      (d : DiskScheduler) (sch : Scheduler) (h : Host)
      → disk libc k.disk_scheduler k.scheduler k.procs k.host ≡ ok (d, sch, h)
      → IsKept (record k { disk_scheduler = d; scheduler = sch; host = h })
  round-IsKept d sch h eq =
      let r =
        Returns-ok (d, sch, h)
          (disk-RoundDone libc k.disk_scheduler k.scheduler k.procs k.host kept.1 kept.0.valid
            (λ q. omega (arith, kept.0.asleep q)))
          eq in
      (
        record {
          valid = r.valid;
          balanced = kept.0.balanced;
          asleep = λ q. omega (arith, kept.0.asleep q, r.woken q);
        },
        r.on,
      )
