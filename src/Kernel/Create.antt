-- ===== src/Kernel/Create.antt =====
-- process_create of process/process.c, and the load of its code: sysCall(MEM_LOAD_REQ) of kernel/kernel.c
-- with the interrupt MEM_LOAD_FINISH.
use ribabari.Prelude.{◌+◌, Option, some, List, if◌then◌else◌, pos, eq_ℤ, Run, ok, ◌>>=◌, or_exit}
use ribabari.LinkedList.{list_add}
use ribabari.Process.{Ptr, ready, load, write}
use ribabari.Sched.{with_queue}
use ribabari.Instruction.{Instr}
use ribabari.Memory.{mem_req_load}
use ribabari.Text.{Bytes}
use ribabari.Program.{parse_synthetic_program, read_code}
use ribabari.Kernel.State.{Kernel}

-- sysCall(MEM_LOAD_REQ, ...) with the interrupt MEM_LOAD_FINISH that follows it: the process enters the
-- process table and, ready, the queue of its priority.
unfoldable pub mem_load_finish : Ptr → Kernel → Run Kernel
mem_load_finish p k = do
  c ← load k.procs p
  let high = k.scheduler.high_queue
  let low = k.scheduler.low_queue
  ok (record k {
    proc_table = list_add k.proc_table p;
    procs = write k.procs p (some (record c { state = ready }));
    scheduler =
        if eq_ℤ c.priority (pos 1)
        then record (k.scheduler) { high_queue = with_queue high (list_add high.queue p) }
        else record (k.scheduler) { low_queue = with_queue low (list_add low.queue p) };
  })

unfoldable pub mem_load_req : Ptr → List (Option Instr) → Kernel → Run Kernel
mem_load_req p code k = do
  c ← load k.procs p
  seg_table ← mem_req_load c code k.seg_table
  mem_load_finish p (record k { seg_table = seg_table })

-- The file is `none` if it cannot be opened; `p` is the address that `malloc` gives.
unfoldable pub process_create : Option Bytes → Ptr → Kernel → Run Kernel
process_create file p k = do
  fp ← or_exit file
  (proc, rest, table) ← parse_synthetic_program fp k.next_proc_id k.sem_table
  (code, code_len) ← read_code rest table
  mem_load_req p code (record k {
    next_proc_id = k.next_proc_id + 1;
    sem_table = table;
    procs = write k.procs p (some (record proc { code_len = code_len }));
  })
