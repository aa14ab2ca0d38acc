-- ===== src/Kernel/Parked.antt =====
-- sysCall(PROCESS_INTERRUPT, IO_REQUESTED) of kernel/kernel.c: what the calls that wait for a device
-- start with; and the change of the remaining time that they all make.
use ribabari.Prelude.{◌≡◌, refl, some, arith, ℤ, Returns, Returns-and}
use ribabari.LinkedList.{list_add}
use ribabari.Process.{Ptr, Process, Store, write, blocked, Points}
use ribabari.Process.Update.{write-update}
use ribabari.Sched.{Scheduler, schedule_process, io_requested}
use ribabari.Sched.Valid.{InBudget, IsValid, places, Live-update, Distinct-update}
use ribabari.Sched.Choose.{with_state}
use ribabari.Sched.Schedule.{schedule_process-keeps, schedule_process-places}
use ribabari.Sched.Dispatch.{schedule_process-Requeued}

-- The process that had the CPU waits, blocked, at the end of the blocked queue, and nowhere else.
pub record Parked (sch : Scheduler) (c : Process) (r : Scheduler × Store) : Type 0 where
  pub valid : IsValid r.0 r.1
  pub queue : r.0.blocked_queue.queue ≡ list_add sch.blocked_queue.queue sch.scheduled_proc
  pub here : Points r.1 sch.scheduled_proc (with_state blocked c)
  pub same : (q : Ptr) → places q r.0 ≡ places q sch

pub schedule_process-Parked :
    (sch : Scheduler) (s : Store) (c : Process)
    → IsValid sch s
    → Points s sch.scheduled_proc c
    → Returns (Parked sch c) (schedule_process sch io_requested s)
schedule_process-Parked sch s c v here =
    let (r, e, ((kept, same), (d, has, (queue, now)))) =
      Returns-and
        (Returns-and (schedule_process-keeps io_requested v)
          (schedule_process-places io_requested v))
        (schedule_process-Requeued io_requested v here.ne_null) in
    let before : s sch.scheduled_proc ≡ some c = here.holds in
    let after : r.1 sch.scheduled_proc ≡ some (with_state blocked c) = cc in
    (
      r,
      e,
      record {
        valid = kept.0;
        queue = queue;
        here = record { ne_null = here.ne_null; holds = after };
        same = λ q. omega (arith, same q);
      },
    )

abbrev pub with_remaining : ℤ → Process → Process
with_remaining remaining c = record c { remaining = remaining }

-- A new remaining time within the budget keeps the scheduler valid.
pub IsValid-with_remaining :
    {sch : Scheduler} {s : Store} {p : Ptr} {c : Process} (remaining : ℤ)
    → InBudget (with_remaining remaining c)
    → Points s p c
    → IsValid sch s
    → IsValid sch (write s p (some (with_remaining remaining c)))
IsValid-with_remaining {s = s} {p = p} {c = c} remaining b here v =
    rw (write-update s p c (with_remaining remaining) here.holds) (record {
      live = λ q h. Live-update s p q (with_remaining remaining) (λ d old. b) (v.live q h);
      once = v.once;
      ids = Distinct-update s p (with_remaining remaining) (λ d. refl) v.ids;
      high_slice = v.high_slice;
      low_slice = v.low_slice;
    })
