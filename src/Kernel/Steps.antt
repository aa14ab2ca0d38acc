-- ===== src/Kernel/Steps.antt =====
-- What each step of the CPU thread, the disk thread or the menu keeps, and any number of them.
use ribabari.Prelude.{◌*◌, ◌≡◌, refl, subst, ok, Returns-ok}
use ribabari.Process.{Process, Points}
use ribabari.Log.{Libc, Host}
use ribabari.Sched.{none_flag, quantum_completed}
use ribabari.Sched.Valid.{InBudget}
use ribabari.Kernel.Asleep.{curr-Live}
use ribabari.Memory.{kilobyte}
use ribabari.Kernel.State.{Kernel}
use ribabari.Kernel.Finish.{process_finish}
use ribabari.Kernel.Created.{process_create-Created}
use ribabari.Kernel.Finished.{process_finish-Finished}
use ribabari.Kernel.Lifetime.{Created-IsSettled, Finished-IsSettled}
use ribabari.Kernel.Step.{
  CanFinish, Step, idle, instruction, preempt, create, finish, round, Steps, done, step, IsKept,
}
use ribabari.Kernel.Calls.{preempt-IsKept, round-IsKept}
use ribabari.Kernel.Evaluated.{run_instruction-IsKept}

-- The logs are no part of the invariant.
logged-IsKept : (k : Kernel) (h : Host) → IsKept k → IsKept (record k { host = h })
logged-IsKept k h kept =
    (record { valid = kept.0.valid; balanced = kept.0.balanced; asleep = kept.0.asleep }, kept.1)

-- The process that has the CPU is within its budget.
curr-InBudget :
    (k : Kernel) (c : Process) → IsKept k → Points k.procs k.scheduler.scheduled_proc c → InBudget c
curr-InBudget k c kept here =
    let (d, there, budget) = curr-Live k kept.0 here.ne_null in
    let found = there.holds in
    let held = here.holds in let same : d ≡ c = cc in subst InBudget same budget

finish-IsKept :
    (libc : Libc) (k k' : Kernel)
    → IsKept k
    → CanFinish k
    → process_finish libc k.scheduler.scheduled_proc k ≡ ok k'
    → IsKept k'
finish-IsKept libc k k' kept can e =
    let gone =
      Returns-ok k'
        (process_finish-Finished libc k k.scheduler.scheduled_proc can.c can.names can.seg
          kept.0.valid can.here (curr-InBudget k can.c kept can.here) can.here.ne_null can.live
          can.listed can.few can.active can.once can.set can.loaded can.space can.sized)
        e in
    (Finished-IsSettled can.c k k' can.here.ne_null kept.0 gone, rw (gone.arm) (kept.1))

module _ (libc : Libc) (k : Kernel) (kept : IsKept k) where
  Step-IsKept : (k' : Kernel) → Step libc k k' → IsKept k'
  Step-IsKept k' (idle h e) =
      preempt-IsKept libc (record k { host = h }) (logged-IsKept k h kept) none_flag refl k' e
  Step-IsKept k' (instruction {k1} instr c fetched here enabled e) =
      run_instruction-IsKept libc k k1 k' instr c kept fetched here enabled e
  Step-IsKept k' (preempt e) = preempt-IsKept libc k kept quantum_completed refl k' e
  Step-IsKept k' (create p src code size r ne free below head short known asked left fits bound e) =
      let made =
        Returns-ok k'
          (process_create-Created p k src code size r kept.0.valid ne free below head short known
            asked left fits bound)
          e in
      (Created-IsSettled p src code (size * kilobyte) r k k' kept.0 made, rw (made.arm) (kept.1))
  Step-IsKept k' (finish can e) = finish-IsKept libc k k' kept can e
  Step-IsKept k' (round d sch h e) = round-IsKept libc k kept d sch h e

pub Steps-IsKept : (libc : Libc) (k k' : Kernel) → Steps libc k k' → IsKept k → IsKept k'
Steps-IsKept libc k k' done kept = kept
Steps-IsKept libc k k' (step {k1} one rest) kept =
    Steps-IsKept libc k1 k' rest (Step-IsKept libc k kept k1 one)
