-- ===== src/Kernel/Evaluated.antt =====
-- One instruction of the CPU thread: the fetch, then eval of kernel/kernel.c with what it charges.
use ribabari.Prelude.{
  ℕ, ◌<◌, ◌≡◌, refl, some, true, false, Bool, arith, Bool-cases, inl, inr, pos, ◌-ℤ◌, ◌+◌, max_int,
  ok, int, ◌>>=◌, bind_cases, ok-inj, subst, ap, Returns-ok, int-exact, neg_part, pos_part, int_min,
  int_max, get_elem?,
}
use ribabari.Process.{Ptr, CString, Process, write, load, Points, Points-load, load-Points}
use ribabari.Process.Update.{write-update}
use ribabari.Log.{Libc, Host}
use ribabari.Instruction.{Instr, Opcode, exec, read, write as write_op, print, sem_p, sem_v}
use ribabari.Memory.{SegmentTable}
use ribabari.Sched.Valid.{InBudget, Live-update, Distinct-update}
use ribabari.Kernel.State.{Kernel}
use ribabari.Kernel.Parked.{with_remaining}
use ribabari.Kernel.Step.{IsKept, Enabled, executes, downs, ups, reads, writes, prints, CanRequest}
use ribabari.Kernel.Calls.{down-IsKept, up-IsKept, request-IsKept, print_out-IsKept}
use ribabari.Kernel.DiskCall.{disk_rw_request-Requested}
use ribabari.Kernel.Print.{print_call-Printed}
use ribabari.Semaphore.{Semaphore, semaphore_find}
use ribabari.Kernel.{
  charge, eval_op, eval, is_blocked, semaphore_p, semaphore_v, disk_rw_request, sys_call,
}
use ribabari.Cpu.{fetch, fetch_instr, run_instruction}

-- One process changes, within its budget and with its id, and so do the memory and the logs.
changed-IsKept :
    (k : Kernel) (p : Ptr) (c : Process) (f : Process → Process) (t : SegmentTable) (h : Host)
    → k.procs p ≡ some c
    → ((d : Process) → (f d).id ≡ d.id)
    → ((d : Process) → InBudget d → InBudget (f d))
    → IsKept k
    → IsKept (record k { procs = write k.procs p (some (f c)); seg_table = t; host = h })
changed-IsKept k p c f t h here ids budget kept = (
  record {
    valid = rw (write-update k.procs p c f here) (record {
      live = λ q at. Live-update k.procs p q f budget (kept.0.valid.live q at);
      once = kept.0.valid.once;
      ids = Distinct-update k.procs p f ids kept.0.valid.ids;
      high_slice = kept.0.valid.high_slice;
      low_slice = kept.0.valid.low_slice;
    });
    balanced = kept.0.balanced;
    asleep = kept.0.asleep;
  },
  kept.1,
)

-- The program counter moves on, the page is marked, and the instruction is logged.
pub fetch_instr-IsKept :
    (k : Kernel) (instr : Instr) (k1 : Kernel)
    → fetch_instr k ≡ ok (instr, k1)
    → IsKept k
    → IsKept k1 × (k1.scheduler.scheduled_proc ≡ k.scheduler.scheduled_proc)
unfolding fetch_instr
fetch_instr-IsKept k instr k1 e kept =
    let p = k.scheduler.scheduled_proc in
    let (c, here, e1) = bind_cases (load k.procs p) _ (instr, k1) e in
    let ((i, segs), fetched, e2) =
      bind_cases (fetch k.seg_table.seg_list c.seg_id c.pc) _ (instr, k1) e1 in
    let same = ap (λ (r : Instr × Kernel). r.1) (ok-inj _ (instr, k1) e2) in
    subst (λ k'. IsKept k' × (k'.scheduler.scheduled_proc ≡ p)) same
      (
        changed-IsKept k p c (λ d. record d { pc = d.pc + 1 }) _ _
            (load-Points k.procs p c here).holds (λ d. refl) (λ d b. b) kept,
        refl,
      )

abbrev charged : Process → Process
charged c = with_remaining (max_int (pos 0) (c.remaining -ℤ pos 200)) c

charged-InBudget : (d : Process) → InBudget d → InBudget (charged d)
unfolding ◌-ℤ◌
charged-InBudget d b = ground arith

charge-IsKept : (p : Ptr) (k k' : Kernel) → charge p k ≡ ok k' → IsKept k → IsKept k'
unfolding charge
charge-IsKept p k k' e kept =
    let (c, here, e1) = bind_cases (load k.procs p) _ k' e in
    let (left, exact, e2) = bind_cases (int (c.remaining -ℤ pos 200)) _ k' e1 in
    let same = ok-inj _ k' e2 in
    subst IsKept same (
      rw (← int-exact (c.remaining -ℤ pos 200) left exact) (
        changed-IsKept k p c charged k.seg_table k.host (load-Points k.procs p c here).holds
          (λ d. refl) charged-InBudget kept))

module _ (libc : Libc) (instr : Instr) (k k' : Kernel) (c : Process) (kept : IsKept k)
    (here : Points k.procs k.scheduler.scheduled_proc c) where
  exec-IsKept :
      InBudget (with_remaining (c.remaining -ℤ instr.value) c)
      → eval_op libc exec instr k.scheduler.scheduled_proc k ≡ ok k'
      → IsKept k'
  unfolding eval_op
  exec-IsKept budget e =
      let p = k.scheduler.scheduled_proc in
      let e1 : int (c.remaining -ℤ instr.value) >>= (λ left.
        ok (record k { procs = write k.procs p (some (record c { remaining = left })) }))
          ≡ ok k' =
        rw (Points-load here) at e in
      let (left, exact, e2) = bind_cases (int (c.remaining -ℤ instr.value)) _ k' e1 in
      let room = rw (int-exact (c.remaining -ℤ instr.value) left exact) at budget in
      subst IsKept (ok-inj _ k' e2) (
        changed-IsKept k p c (with_remaining left) k.seg_table k.host here.holds (λ d. refl)
          (λ d b. room) kept)

  down_op-IsKept :
      (name : CString) (i : ℕ) (sem : Semaphore)
      → instr.sem ≡ some name
      → semaphore_find k.sem_table name ≡ some i
      → get_elem? k.sem_table i ≡ some sem
      → neg_part sem.s < int_min
      → eval_op libc sem_p instr k.scheduler.scheduled_proc k ≡ ok k'
      → IsKept k'
  unfolding eval_op sys_call
  down_op-IsKept name i sem named found at room e =
      let p = k.scheduler.scheduled_proc in
      let (k1, e1, e2) = bind_cases (semaphore_p (some i) k) _ k' (rw (named, found) at e) in
      let kept1 = down-IsKept libc k kept i sem at here.ne_null room k1 e1 in
      let (d, e3, e4) = bind_cases (load k1.procs p) _ k' e2 in
      elim (Bool-cases (is_blocked d.state)) [
        | inl b ↦ subst IsKept (ok-inj k1 k' (rw b at e4)) kept1
        | inr b ↦ charge-IsKept p k1 k' (rw b at e4) kept1
      ]

  up_op-IsKept :
      (name : CString) (i : ℕ) (sem : Semaphore)
      → instr.sem ≡ some name
      → semaphore_find k.sem_table name ≡ some i
      → get_elem? k.sem_table i ≡ some sem
      → pos_part sem.s < int_max
      → eval_op libc sem_v instr k.scheduler.scheduled_proc k ≡ ok k'
      → IsKept k'
  unfolding eval_op sys_call
  up_op-IsKept name i sem named found at room e =
      let p = k.scheduler.scheduled_proc in
      let (k1, e1, e2) = bind_cases (semaphore_v (some i) k) _ k' (rw (named, found) at e) in
      charge-IsKept p k1 k' e2 (up-IsKept libc k kept i sem at here.ne_null room k1 e1)

  disk_op-IsKept :
      (is_read : Bool)
      → CanRequest libc k c instr.value
      → disk_rw_request libc is_read instr.value k ≡ ok k'
      → IsKept k'
  disk_op-IsKept is_read can e = request-IsKept libc k kept can.t is_read k' (
      Returns-ok k'
        (disk_rw_request-Requested libc can.t k c can.size kept.0.valid here
          (λ q. omega (arith, kept.0.asleep q)) can.active can.listed can.few (kept.1) can.within
          can.not_late can.sized is_read)
        (rw can.on at e))

  pub eval_op-IsKept :
      (op : Opcode)
      → Enabled libc k c instr op
      → eval_op libc op instr k.scheduler.scheduled_proc k ≡ ok k'
      → IsKept k'
  unfolding eval_op sys_call
  eval_op-IsKept exec (executes budget) e = exec-IsKept budget e
  eval_op-IsKept sem_p (downs name i sem named found at room) e =
      down_op-IsKept name i sem named found at room e
  eval_op-IsKept sem_v (ups name i sem named found at room) e =
      up_op-IsKept name i sem named found at room e
  eval_op-IsKept read (reads can) e = disk_op-IsKept true can e
  eval_op-IsKept write_op (writes can) e = disk_op-IsKept false can e
  eval_op-IsKept print (prints budget total) e =
      print_out-IsKept libc k kept instr.value c k'
        (Returns-ok k' (print_call-Printed k c instr.value kept.0.valid here budget total) e)

pub run_instruction-IsKept :
    (libc : Libc) (k k1 k' : Kernel) (instr : Instr) (c : Process)
    → IsKept k
    → fetch_instr k ≡ ok (instr, k1)
    → Points k1.procs k1.scheduler.scheduled_proc c
    → Enabled libc k1 c instr instr.op
    → run_instruction libc k ≡ ok k'
    → IsKept k'
unfolding run_instruction eval
run_instruction-IsKept libc k k1 k' instr c kept fetched here enabled e =
    let (kept1, same) = fetch_instr-IsKept k instr k1 fetched kept in
    let run = rw fetched at e in
    eval_op-IsKept libc instr k1 k' c kept1 here instr.op enabled (rw (← same) at run)
