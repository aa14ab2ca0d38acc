-- ===== src/Tests/StepTests.antt =====
-- A turn of the CPU thread: an instruction is executed; then the quantum of its process ends.
use ribabari.Prelude.{◌≤◌, ◌≡◌, refl, some, [], ◌∷◌, arith, pos, ok, false, ◌-ℤ◌}
use ribabari.Process.{Process, running, Points}
use ribabari.Instruction.{Instr}
use ribabari.Memory.{Segment}
use ribabari.Sched.{quantum_completed}
use ribabari.Kernel.State.{Kernel}
use ribabari.Kernel.Blocking.{process_interrupt-Keeps}
use ribabari.Kernel.Evaluated.{run_instruction-IsKept}
use ribabari.Kernel.Step.{Enabled, executes, CanFinish, Steps, IsKept}
use ribabari.Cpu.{Cpu, inner, fetch_instr, run_instruction}
use ribabari.Tests.Data.{libc, job, code, kernel_with, one_running, one_running-IsValid}

-- The segment of the first process, with its two instructions on a page.
abbrev code_segment : Segment
code_segment = record {
  id = pos 1;
  size = pos 4096;
  page_table = record { code = code; used = some false } ∷ [];
  page_count = 1;
  page_qtd = pos 1;
}

abbrev at_first : Kernel
at_first = record (kernel_with one_running) {
  seg_table = record { seg_list = code_segment ∷ []; seg_list_size = 1; remaining = pos 0 };
}

abbrev at_turn : Cpu
at_turn = record { phase = inner; no_process = false; kernel = at_first }

at_first-IsKept : IsKept at_first
at_first-IsKept = (
  record {
    valid = one_running-IsValid;
    balanced = λ i sem none_there. cc;
    asleep = λ q. omega arith;
  },
  omega arith,
)

fetched : (r : Instr × Kernel) × (fetch_instr at_first ≡ ok r)
unfolding fetch_instr ribabari.Cpu.fetch ribabari.Cpu.read_page ribabari.Process.load
fetched = (_, refl)

executed : (k : Kernel) × (run_instruction libc at_first ≡ ok k)
unfolding run_instruction fetch_instr ribabari.Cpu.fetch ribabari.Cpu.read_page
    ribabari.Process.load ribabari.Kernel.eval ribabari.Process.write ◌-ℤ◌
executed = (_, refl)

abbrev CanRun : Instr × Kernel → Type 0
CanRun r =
    (c : Process) × Points r.1.procs r.1.scheduler.scheduled_proc c × Enabled libc r.1 c r.0 r.0.op

first_CanRun : CanRun fetched.0
unfolding fetched ribabari.Process.write ◌-ℤ◌
first_CanRun = (
  record (job 1 running) { pc = 1 },
  record { ne_null = omega arith; holds = refl },
  executes (omega arith, omega arith),
)

abbrev NotAtEnd : Kernel → Type 0
NotAtEnd k =
    (c : Process) → Points k.procs k.scheduler.scheduled_proc c → c.code_len ≤ c.pc → CanFinish k

abbrev job_after : Process
job_after = record (job 1 running) { pc = 1; remaining = pos 660 }

executed-IsKept : IsKept executed.0
executed-IsKept =
    let (c, here, can) = first_CanRun in
    run_instruction-IsKept libc at_first fetched.0.1 executed.0 fetched.0.0 c at_first-IsKept
      fetched.1 here can executed.1

abbrev after_quantum : Kernel
after_quantum = (process_interrupt-Keeps quantum_completed executed.0 (executed-IsKept.0.valid)).0
