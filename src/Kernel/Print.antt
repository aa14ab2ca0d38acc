-- ===== src/Kernel/Print.antt =====
-- sysCall(PRINT_REQUEST, duration) of kernel/kernel.c, with print_request of io/print.c.
use ribabari.Prelude.{
  ◌+◌, ◌≤◌, ◌≡◌, refl, ◌∙◌, some, List, [], ◌∷◌, arith, ℤ, ◌+ℤ◌, ◌-ℤ◌, ◌≤ℤ◌, pos, negsuc, neg_part,
  int_min, ap, ◌==◌, if◌then◌else◌, Fits, int-ok, count, count-append, Returns, Returns-and,
}
use ribabari.LinkedList.{list_add}
use ribabari.Process.{Ptr, Process, Store, write, blocked, Points, Points-load, Points-write}
use ribabari.Log.{Host, io_print_log, print_log}
use ribabari.Sched.{Scheduler, low, low_quantum, schedule_unblock_process}
use ribabari.Sched.Valid.{InBudget, IsValid, Live, places}
use ribabari.Sched.Choose.{with_state}
use ribabari.Sched.Unblock.{
  unblocked, unblocked-blocked, schedule_unblock_process-ok, schedule_unblock_process-IsValid,
  schedule_unblock_process-moves,
}
use ribabari.Kernel.State.{Kernel}
use ribabari.Kernel.Blocking.{process_interrupt}
use ribabari.Kernel.Parked.{Parked, schedule_process-Parked, with_remaining, IsValid-with_remaining}
use ribabari.Kernel.{io_finish, print_request, print_call}

-- The process `p` comes back from the device: it stands at the end of the low queue.
record Released (p : Ptr) (sch sch' : Scheduler) (s : Store) : Type 0 where
  valid : IsValid sch' s
  queue : sch'.low_queue.queue ≡ list_add sch.low_queue.queue p
  left : count p sch'.blocked_queue.queue ≡ 0
  same : (q : Ptr) → places q sch' ≡ places q sch
  woken :
      (q : Ptr)
      → count q sch.blocked_queue.queue
        ≡ (if p == q then 1 else 0) + count q sch'.blocked_queue.queue

released :
    {sch : Scheduler} {s : Store} (p : Ptr) (xs : List Ptr)
    → IsValid sch s
    → Live s p
    → sch.blocked_queue.queue ≡ list_add xs p
    → Returns (λ sch'. Released p sch sch' s) (schedule_unblock_process sch p low s)
released {sch} {s} p xs v l e =
    let waits : 1 ≤ count p sch.blocked_queue.queue =
      rw e (ground (arith, count-append p xs (p ∷ []))) in
    let woken : Returns
        (λ sch'.
          (q : Ptr)
          → count q sch.blocked_queue.queue
            ≡ (if p == q then 1 else 0) + count q sch'.blocked_queue.queue)
        (schedule_unblock_process sch p low s) =
      (
        unblocked low p sch,
        schedule_unblock_process-ok p low v l,
        λ q. unblocked-blocked p q low sch waits,
      ) in
    let (sch', eq, ((valid, (moves, same)), leaves)) =
      Returns-and
        (Returns-and (schedule_unblock_process-IsValid p low v l)
          (schedule_unblock_process-moves p low v l))
        woken in
    (
      sch',
      eq,
      record {
        valid = valid;
        queue = ground arith;
        left = ground arith;
        same = same;
        woken = leaves;
      },
    )

-- What a print leaves of the kernel `k`, for the process with the record `c`.
pub record Printed (k : Kernel) (c : Process) (duration : ℤ) (k' : Kernel) : Type 0 where
  pub valid : IsValid k'.scheduler k'.procs
  pub queue :
      (xs : List Ptr) × (k'.scheduler.low_queue.queue ≡ list_add xs k.scheduler.scheduled_proc)
  pub left : count k.scheduler.scheduled_proc k'.scheduler.blocked_queue.queue ≡ 0
  pub same : (q : Ptr) → places q k'.scheduler ≡ places q k.scheduler
  pub asleep :
      (q : Ptr) → count q k'.scheduler.blocked_queue.queue ≡ count q k.scheduler.blocked_queue.queue
  pub sems : k'.sem_table ≡ k.sem_table
  pub arm : k'.disk_scheduler ≡ k.disk_scheduler
  pub charged :
      k'.procs k.scheduler.scheduled_proc
      ≡ some (with_remaining (c.remaining -ℤ duration) (with_state blocked c))

Fits-budget : (a : ℤ) → a ≤ℤ low_quantum → neg_part a ≤ int_min → Fits a
Fits-budget (pos n) h l = omega (arith, h)
Fits-budget (negsuc n) h l = omega (arith, l)

module _ (k : Kernel) (c : Process) (duration : ℤ) (good : IsValid k.scheduler k.procs)
    (here : Points k.procs k.scheduler.scheduled_proc c)
    (budget : InBudget (with_remaining (c.remaining -ℤ duration) c))
    (total : Fits (k.host.io_general_log.p_time +ℤ duration)) where
  abbrev printed_host : Host
  printed_host = record k.host {
    io_general_log = record (k.host.io_general_log) {
      p_time = k.host.io_general_log.p_time +ℤ duration;
    };
    io_log_list = list_add k.host.io_log_list (print_log c.name duration);
    io_mutex = k.host.io_mutex + 1;
  }

  -- print_request, for the process that sysCall has just parked.
  prints :
      (k1 : Kernel)
      → k1.host ≡ k.host
      → k1.sem_table ≡ k.sem_table
      → k1.disk_scheduler ≡ k.disk_scheduler
      → Parked k.scheduler c (k1.scheduler, k1.procs)
      → Returns (Printed k c duration) (print_request k.scheduler.scheduled_proc duration k1)
  unfolding print_request io_finish io_print_log
  prints k1 host sems arm parked =
      let p = k.scheduler.scheduled_proc in
      let d = with_remaining (c.remaining -ℤ duration) (with_state blocked c) in
      let fits = Fits-budget (c.remaining -ℤ duration) budget.0 budget.1 in
      let v = IsValid-with_remaining (c.remaining -ℤ duration) budget parked.here parked.valid in
      let now : Points (write k1.procs p (some d)) p d = Points-write d parked.here in
      let (sch', e, r) =
        released p k.scheduler.blocked_queue.queue v (d, now, budget) parked.queue in
      (
        record k1 { scheduler = sch'; procs = write k1.procs p (some d); host = printed_host },
        rw (
          Points-load parked.here,
          host,
          int-ok (k.host.io_general_log.p_time +ℤ duration) total,
          int-ok (c.remaining -ℤ duration) fits,
          e,
        ),
        record {
          valid = r.valid;
          queue = (k1.scheduler.low_queue.queue, r.queue);
          left = r.left;
          same = λ q. r.same q ∙ parked.same q;
          asleep = λ q. omega (
            arith,
            r.woken q,
            ap (count q) parked.queue,
            count-append q k.scheduler.blocked_queue.queue (p ∷ []),
          );
          sems = sems;
          arm = arm;
          charged = now.holds;
        },
      )

  -- On a valid scheduler, if the printing time still adds up to an `int` and the duration leaves
  -- the time of the running process within its budget, a print call returns with the scheduler
  -- valid: the process is not waiting, but stands at the end of the low queue, its time shortened
  -- by the duration and its state still BLOCKED; every process keeps its number of places, and its
  -- number of places in the blocked queue; and the semaphores and the disk are as they were.
  pub print_call-Printed : Returns (Printed k c duration) (print_call duration k)
  unfolding print_call process_interrupt
  print_call-Printed =
      let (r, e, parked) = schedule_process-Parked k.scheduler k.procs c good here in
      rw e (prints (record k { scheduler = r.0; procs = r.1 }) refl refl refl parked)
