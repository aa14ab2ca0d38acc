-- ===== src/Kernel/Step.antt =====
-- The CPU thread, the disk thread and the menu in turn, on the kernel: their steps. A step of the CPU is
-- a part of a turn of its loop in cpu/cpu.c.
use ribabari.Prelude.{
  ◌+ℤ◌, ◌-ℤ◌, Fits, ℕ, ◌*◌, none, List, All, pos_part, ◌+◌, ◌<◌, ◌≤◌, ◌≡◌, ◌≢◌, some, ℤ, pos,
  neg_part, int_min, int_max, ◌≤ℤ◌, ok, count, length, get_elem?,
}
use ribabari.Process.{Ptr, CString, null, Process, Points}
use ribabari.Log.{Libc, Host}
use ribabari.Sched.{Scheduler, none_flag, quantum_completed}
use ribabari.Sched.Valid.{InBudget, Live}
use ribabari.Semaphore.{Semaphore, semaphore_find}
use ribabari.Disk.{DiskScheduler, disk, disk_track_limit}
use ribabari.Disk.Arm.{OnDisk}
use ribabari.File.{file_size}
use ribabari.File.Openers.{IsActive}
use ribabari.Kernel.State.{Kernel}
use ribabari.Kernel.Blocking.{process_interrupt}
use ribabari.Kernel.Asleep.{IsSettled}
use ribabari.Kernel.Parked.{with_remaining}
use ribabari.Cpu.{fetch_instr, run_instruction}
use ribabari.Instruction.{Instr, Opcode, exec, read, write, print, sem_p, sem_v}
use ribabari.Text.{line_room}
use ribabari.Memory.{Segment, kilobyte, max_mem_size, segment_find}
use ribabari.Memory.Space.{IsSpace}
use ribabari.Program.Printed.{print_lines}
use ribabari.Program.Statements.{Statement, IsKnown}
use ribabari.Program.RoundTrip.{code_lines}
use ribabari.Program.Joined.{register_all}
use ribabari.Program.Header.{Head, IsHead, semaphores_line, print_head}
use ribabari.Kernel.Create.{process_create}
use ribabari.Kernel.Created.{NumberedBelow}
use ribabari.Kernel.Finish.{process_finish}
use ribabari.Kernel.Files.{times}

-- The conditions of a disk request on `track`, as Kernel.DiskCall asks.
pub record CanRequest (libc : Libc) (k : Kernel) (c : Process) (track : ℤ) : Type 0 where
  pub t : ℕ
  pub size : ℤ
  pub on : track ≡ pos t
  pub within : t ≤ disk_track_limit
  pub active : IsActive k.proc_table k.procs k.file_table
  pub listed : count k.scheduler.scheduled_proc k.proc_table ≡ 1
  pub few : length k.proc_table < int_max
  pub not_late : pos 0 ≤ℤ c.remaining
  pub sized : file_size libc (libc.rand k.host.draws) (libc.rand (k.host.draws + 1)) ≡ ok size

-- What each instruction needs besides the invariant: execution and printing leave the time of the process within
-- the budget, a semaphore is in the table and its value does not leave the `int`, and a disk request
-- can be made.
pub data Enabled (libc : Libc) (k : Kernel) (c : Process) (instr : Instr) : Opcode → Type 0 where
  executes : InBudget (with_remaining (c.remaining -ℤ instr.value) c) → Enabled libc k c instr exec
  downs :
      (name : CString) (i : ℕ) (sem : Semaphore)
      → instr.sem ≡ some name
      → semaphore_find k.sem_table name ≡ some i
      → get_elem? k.sem_table i ≡ some sem
      → neg_part sem.s < int_min
      → Enabled libc k c instr sem_p
  ups :
      (name : CString) (i : ℕ) (sem : Semaphore)
      → instr.sem ≡ some name
      → semaphore_find k.sem_table name ≡ some i
      → get_elem? k.sem_table i ≡ some sem
      → pos_part sem.s < int_max
      → Enabled libc k c instr sem_v
  reads : CanRequest libc k c instr.value → Enabled libc k c instr read
  writes : CanRequest libc k c instr.value → Enabled libc k c instr write
  prints :
      InBudget (with_remaining (c.remaining -ℤ instr.value) c)
      → Fits (k.host.io_general_log.p_time +ℤ instr.value)
      → Enabled libc k c instr print

-- The conditions under which the process that has the CPU can end, as Kernel.Finished asks.
pub record CanFinish (k : Kernel) : Type 0 where
  pub c : Process
  pub names : List CString
  pub seg : Segment
  pub here : Points k.procs k.scheduler.scheduled_proc c
  pub live : (q : Ptr) → 0 < count q k.proc_table → Live k.procs q
  pub listed : count k.scheduler.scheduled_proc k.proc_table ≡ 1
  pub few : length k.proc_table ≤ int_max
  pub active : IsActive k.proc_table k.procs k.file_table
  pub once : (n : ℤ) → times n c.o_files ≤ 1
  pub set : c.semaphores ≡ some names
  pub loaded : segment_find k.seg_table.seg_list c.seg_id ≡ some seg
  pub space : IsSpace k.seg_table.remaining
  pub sized : IsSpace seg.size × (pos_part k.seg_table.remaining + pos_part seg.size ≤ int_max)

-- A step of the CPU thread, of the menu or of the disk thread. The CPU finds no process, and schedules one; or
-- it fetches and evaluates an instruction whole, with what that charges; or it leaves its inner loop, at
-- the end of the quantum or of the process. The menu creates a process as Kernel.Created asks, and the
-- disk thread makes a round.
pub data Step (libc : Libc) (k : Kernel) : Kernel → Type 0 where
  idle :
      {k' : Kernel} (h : Host)
      → process_interrupt none_flag (record k { host = h }) ≡ ok k'
      → Step libc k k'
  instruction :
      {k1 k' : Kernel} (instr : Instr) (c : Process)
      → fetch_instr k ≡ ok (instr, k1)
      → Points k1.procs k1.scheduler.scheduled_proc c
      → Enabled libc k1 c instr instr.op
      → run_instruction libc k ≡ ok k'
      → Step libc k k'
  preempt : {k' : Kernel} → process_interrupt quantum_completed k ≡ ok k' → Step libc k k'
  finish :
      {k' : Kernel}
      → CanFinish k
      → process_finish libc k.scheduler.scheduled_proc k ≡ ok k'
      → Step libc k k'
  create :
      {k' : Kernel} (p : Ptr) (src : Head) (code : List Statement) (size r : ℕ)
      → p ≢ null
      → k.procs p ≡ none
      → NumberedBelow k.next_proc_id k.procs
      → IsHead src
      → length (semaphores_line src.names) < line_room
      → All (IsKnown (register_all k.sem_table src.names)) code
      → src.seg_size ≡ pos size
      → k.seg_table.remaining ≡ pos r
      → size * kilobyte ≤ r
      → r ≤ max_mem_size
      → process_create (some (print_head src (print_lines (code_lines code)))) p k ≡ ok k'
      → Step libc k k'
  round :
      (d : DiskScheduler) (sch : Scheduler) (h : Host)
      → disk libc k.disk_scheduler k.scheduler k.procs k.host ≡ ok (d, sch, h)
      → Step libc k (record k { disk_scheduler = d; scheduler = sch; host = h })

-- Any number of steps of the threads, in any order.
pub data Steps (libc : Libc) : Kernel → Kernel → Type 0 where
  done : {k : Kernel} → Steps libc k k
  step : {k k1 k' : Kernel} → Step libc k k1 → Steps libc k1 k' → Steps libc k k'

-- The kernel is settled, and the arm of the disk stands on a track.
abbrev pub IsKept : Kernel → Type 0
IsKept k = IsSettled k × OnDisk k.disk_scheduler
