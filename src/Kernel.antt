-- ===== src/Kernel.antt =====
-- kernel/kernel.c: the system calls, the interrupts, and the evaluation of an instruction; with
-- `print_request` of io/print.c, which they call.
pub mod State
pub mod Blocking
pub mod Finish
pub mod Create
pub mod Added
pub mod Created
pub mod Detached
pub mod Finished
pub mod Asleep
pub mod SemUp
pub mod SemDown
pub mod Lifetime
pub mod Step
pub mod Steps
pub mod Calls
pub mod Evaluated
pub mod Files
pub mod Parked
pub mod Print
pub mod FilesKept
pub mod DiskCall
use ribabari.Prelude.{
  ℕ, ◌+◌, Bool, true, false, Option, none, some, List, [], ◌∷◌, ◌==◌, if◌then◌else◌, ℤ, pos, ◌-ℤ◌,
  eq_ℤ, int, exited, max_int, Run, ok, fault, ◌>>=◌, or_fault, get_elem?, set,
}
use ribabari.LinkedList.{list_add, list_search, list_remove_node}
use ribabari.Process.{
  Ptr, null, Process, ProcessState, new, blocked, ready, running, terminated, Store, CString, load,
  write, proc_cmp,
}
use ribabari.Log.{Libc, Host, io_print_log}
use ribabari.Sched.{Scheduler, with_queue, none_flag, io_requested, low, schedule_unblock_process}
use ribabari.Semaphore.{semaphore_find, semaphore_P, semaphore_V}
use ribabari.Text.{Bytes}
use ribabari.Instruction.{Instr, Opcode, exec, read, write as write_op, print, sem_p, sem_v}
use ribabari.Memory.{mem_req_load, segment_free}
use ribabari.Disk.{disk_request, disk_block}
use ribabari.File.{FileTable, fs_read_request, fs_write_request, fs_close_request}
use State.{Kernel}
use Blocking.{process_interrupt, kernel_blocking}
use Finish.{process_finish}
use Create.{mem_load_req, process_create}

-- interruptControl(DISK_FINISH, p) and interruptControl(PRINT_FINISH, p).
unfoldable pub io_finish : Ptr → Kernel → Run Kernel
io_finish p k = do
  sch ← schedule_unblock_process k.scheduler p low k.procs
  ok (record k { scheduler = sch })

-- The pointer that `semaphore_find` gave; NULL is a fault as soon as P or V reads through it.
unfoldable pub semaphore_p : Option ℕ → Kernel → Run Kernel
semaphore_p sem k = do
  i ← or_fault sem
  it ← or_fault (get_elem? k.sem_table i)
  (it', k') ← semaphore_P kernel_blocking it k.scheduler.scheduled_proc k
  ok (record k' { sem_table = set k'.sem_table i it' })

unfoldable pub semaphore_v : Option ℕ → Kernel → Run Kernel
semaphore_v sem k = do
  i ← or_fault sem
  it ← or_fault (get_elem? k.sem_table i)
  (it', k') ← semaphore_V kernel_blocking it k.scheduler.scheduled_proc k
  ok (record k' { sem_table = set k'.sem_table i it' })

-- sysCall(FS_REQUEST, ...)
unfoldable pub fs_request : Libc → Ptr → ℤ → Bool → Kernel → Run Kernel
fs_request libc p track is_read k = do
  block ← disk_block track
  (files, s, h) ←
      if is_read
      then fs_read_request libc k.file_table p block k.procs k.host
      else fs_write_request libc k.file_table p block k.procs k.host
  ok (record k { file_table = files; procs = s; host = h })

-- sysCall(DISK_READ_REQUEST, track) and sysCall(DISK_WRITE_REQUEST, track).
unfoldable pub disk_rw_request : Libc → Bool → ℤ → Kernel → Run Kernel
disk_rw_request libc is_read track k = do
  let curr_proc = k.scheduler.scheduled_proc
  k1 ← process_interrupt io_requested k
  (d, s, h) ← disk_request curr_proc k1.disk_scheduler track is_read k1.procs k1.host
  fs_request libc curr_proc track is_read (record k1 { disk_scheduler = d; procs = s; host = h })

-- print_request of io/print.c.
unfoldable pub print_request : Ptr → ℤ → Kernel → Run Kernel
print_request p duration k = do
  c ← load k.procs p
  h ← io_print_log c.name duration k.host
  remaining ← int (c.remaining -ℤ duration)
  io_finish p (record k {
    procs = write k.procs p (some (record c { remaining = remaining }));
    host = record h { io_mutex = h.io_mutex + 1 };
  })

-- sysCall(PRINT_REQUEST, duration)
unfoldable pub print_call : ℤ → Kernel → Run Kernel
print_call duration k = do
  let curr_proc = k.scheduler.scheduled_proc
  k1 ← process_interrupt io_requested k
  print_request curr_proc duration k1

-- The calls that the CPU and the terminal make, with their arguments.
pub data Call : Type 0 where
  interrupt : (flags : ℕ) → Call
  finish : (p : Ptr) → Call
  create : (file : Option Bytes) → (p : Ptr) → Call
  load_req : (p : Ptr) → (code : List (Option Instr)) → Call
  sem_down sem_up : (sem : Option ℕ) → Call
  disk_read disk_write print_for : (arg : ℤ) → Call
  fs_req : (p : Ptr) → (track : ℤ) → (is_read : Bool) → Call

unfoldable pub sys_call : Libc → Call → Kernel → Run Kernel
sys_call libc (interrupt flags) k = process_interrupt flags k
sys_call libc (finish p) k = process_finish libc p k
sys_call libc (create file p) k = process_create file p k
sys_call libc (load_req p code) k = mem_load_req p code k
sys_call libc (sem_down sem) k = semaphore_p sem k
sys_call libc (sem_up sem) k = semaphore_v sem k
sys_call libc (disk_read track) k = disk_rw_request libc true track k
sys_call libc (disk_write track) k = disk_rw_request libc false track k
sys_call libc (print_for duration) k = print_call duration k
sys_call libc (fs_req p track is_read) k = fs_request libc p track is_read k

abbrev pub is_blocked : ProcessState → Bool
is_blocked new = false
is_blocked blocked = true
is_blocked ready = false
is_blocked running = false
is_blocked terminated = false

-- `proc->remaining = MAX(0, proc->remaining - 200)`
unfoldable pub charge : Ptr → Kernel → Run Kernel
charge p k = do
  c ← load k.procs p
  left ← int (c.remaining -ℤ pos 200)
  ok (record k { procs = write k.procs p (some (record c { remaining = max_int (pos 0) left })) })

unfoldable pub eval_op : Libc → Opcode → Instr → Ptr → Kernel → Run Kernel
eval_op libc exec instr p k = do
  c ← load k.procs p
  left ← int (c.remaining -ℤ instr.value)
  ok (record k { procs = write k.procs p (some (record c { remaining = left })) })
eval_op libc sem_p instr p k = do
  name ← or_fault instr.sem
  k1 ← sys_call libc (sem_down (semaphore_find k.sem_table name)) k
  c ← load k1.procs p
  if is_blocked c.state then ok k1 else charge p k1
eval_op libc sem_v instr p k = do
  name ← or_fault instr.sem
  k1 ← sys_call libc (sem_up (semaphore_find k.sem_table name)) k
  charge p k1
eval_op libc read instr p k = sys_call libc (disk_read instr.value) k
eval_op libc write_op instr p k = sys_call libc (disk_write instr.value) k
eval_op libc print instr p k = sys_call libc (print_for instr.value) k

unfoldable pub eval : Libc → Ptr → Instr → Kernel → Run Kernel
unfolding eval_op
eval libc p instr k = eval_op libc instr.op instr p k
