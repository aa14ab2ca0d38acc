-- ===== src/Kernel/Blocking.antt =====
-- What the semaphores are given by kernel.c: `sleep`, `wakeup` and the log, with the laws that the
-- interface `Blocking` asks for.
use ribabari.Prelude.{ℕ, ◌+◌, refl, Bool, ok, Run, ◌>>=◌, Returns}
use ribabari.Process.{Ptr, CString, load, Points-load}
use ribabari.Log.{res_acq_log}
use ribabari.Sched.{schedule_process, schedule_unblock_process, semaphore_blocked, high}
use ribabari.Sched.Valid.{IsValid, Live}
use ribabari.Sched.Schedule.{schedule_process-keeps}
use ribabari.Sched.Unblock.{schedule_unblock_process-IsValid}
use ribabari.Semaphore.{Blocking}
use ribabari.Kernel.State.{Kernel}

-- sysCall(PROCESS_INTERRUPT, flags)
unfoldable pub process_interrupt : ℕ → Kernel → Run Kernel
process_interrupt flags k = do
  (sch, s) ← schedule_process k.scheduler flags k.procs
  ok (record k { scheduler = sch; procs = s })

unfoldable pub sleep : Kernel → Run Kernel
sleep = process_interrupt semaphore_blocked

unfoldable pub wakeup : Ptr → Kernel → Run Kernel
wakeup p k = do
  sch ← schedule_unblock_process k.scheduler p high k.procs
  ok (record k { scheduler = sch })

-- `res_acq_log` for a process, and the post of the view's semaphore.
unfoldable pub acq_log : Ptr → CString → Bool → Bool → Kernel → Run Kernel
acq_log p name acq blocked k = do
  c ← load k.procs p
  let h = res_acq_log c.name name acq blocked k.host
  ok (record k { host = record h { res_acq_mutex = h.res_acq_mutex + 1 } })

abbrev pub Good : Kernel → Type 0
Good k = IsValid k.scheduler k.procs

abbrev pub Known : Ptr → Kernel → Type 0
Known p k = Live k.procs p

abbrev pub Keeps : Kernel → Kernel → Type 0
Keeps k k' = Good k' × ((q : Ptr) → Known q k → Known q k')

pub process_interrupt-Keeps :
    (flags : ℕ) (k : Kernel) → Good k → Returns (Keeps k) (process_interrupt flags k)
unfolding process_interrupt
process_interrupt-Keeps flags k g =
    let (r, e, kept) = schedule_process-keeps flags g in rw e (_, refl, kept)

pub sleep_returns : (k : Kernel) → Good k → Returns (Keeps k) (sleep k)
unfolding sleep
sleep_returns k g = process_interrupt-Keeps semaphore_blocked k g

pub wakeup_returns : (p : Ptr) (k : Kernel) → Good k → Known p k → Returns (Keeps k) (wakeup p k)
unfolding wakeup
wakeup_returns p k g l =
    let (sch, e, v) = schedule_unblock_process-IsValid p high g l in rw e (_, refl, (v, λ q h. h))

pub acq_log_returns :
    (p : Ptr) (name : CString) (acq blocked : Bool) (k : Kernel)
    → Good k
    → Known p k
    → Returns (Keeps k) (acq_log p name acq blocked k)
unfolding acq_log
acq_log_returns p name acq blocked k g l =
    let (c, h, b) = l in rw (Points-load h) (_, refl, (g, λ q h'. h'))

abbrev pub kernel_blocking : Blocking Kernel
kernel_blocking = record {
  sleep = sleep;
  wakeup = wakeup;
  acq_log = acq_log;
  Good = Good;
  Known = Known;
  sleep_returns = sleep_returns;
  wakeup_returns = wakeup_returns;
  acq_log_returns = acq_log_returns;
}
