-- ===== src/Cpu.antt =====
-- cpu/cpu.c: the loop of the CPU thread, a turn at a time. The clock makes an instruction last a second: each
-- turn is given whether that time has passed since the last one.
pub mod Fetch
pub mod PastEnd
pub mod Turn
use ribabari.Prelude.{
  ℕ, suc, ◌+◌, Bool, true, false, not, ◌&&◌, Option, none, some, List, [], ◌∷◌, ◌==◌, if◌then◌else◌,
  ltb, leb, ℤ, pos, eq_ℤ, ltb_ℤ, Run, ok, fault, ◌>>=◌, or_fault, get_elem?, set, length,
}
use ribabari.Process.{Ptr, null, Process, load, write}
use ribabari.Log.{Libc, Host, process_log, process_np_log}
use ribabari.Sched.{none_flag, quantum_completed}
use ribabari.Instruction.{Instr}
use ribabari.Memory.{Page, Segment, page_number, page_offset}
use ribabari.Kernel.State.{Kernel}
use ribabari.Kernel.Blocking.{process_interrupt}
use ribabari.Kernel.{Call, interrupt, finish, sys_call, eval}

-- The page that holds the address, its instruction there, and the page with its used bit set.
unfoldable pub read_page : List Page → ℕ → Run (Instr × List Page)
read_page pages pc = do
  page ← or_fault (get_elem? pages (page_number pc))
  written ← or_fault (get_elem? page.code (page_offset pc))
  instr ← or_fault written
  used ← or_fault page.used
  ok (instr, if used then pages else set pages (page_number pc) (record page { used = some true }))

-- The fetch from the first segment with an id: a missing segment is NULL, and read through.
unfoldable pub fetch : List Segment → ℤ → ℕ → Run (Instr × List Segment)
fetch [] sid pc = fault
fetch (it ∷ rest) sid pc =
    let here = (do
      (instr, pages) ← read_page it.page_table pc
      ok (instr, record it { page_table = pages } ∷ rest)) in
    let further = (do (instr, rest') ← fetch rest sid pc; ok (instr, it ∷ rest')) in
    if eq_ℤ it.id sid then here else further

-- The first half of the body of the inner loop: the fetch at the program counter, which moves on, and the log.
unfoldable pub fetch_instr : Kernel → Run (Instr × Kernel)
fetch_instr k = do
  let p = k.scheduler.scheduled_proc
  c ← load k.procs p
  let k1 = record k { procs = write k.procs p (some (record c { pc = c.pc + 1 })) }
  (instr, segs) ← fetch k.seg_table.seg_list c.seg_id c.pc
  let h = process_log c.name c.remaining c.pc c.seg_id (length c.o_files) k.host
  ok (
    instr,
    record k1 {
      seg_table = record (k.seg_table) { seg_list = segs };
      host = record h { log_mutex = h.log_mutex + 1; refresh_sem = h.refresh_sem + 1 };
    },
  )

-- What the inner loop does once a second has passed.
unfoldable pub run_instruction : Libc → Kernel → Run Kernel
unfolding fetch_instr
run_instruction libc k = do
  (instr, k1) ← fetch_instr k
  eval libc k.scheduler.scheduled_proc instr k1

-- The body of the inner loop: an instruction, if its time has come.
unfoldable pub body : Libc → Bool → Kernel → Run Kernel
body libc elapsed k = if elapsed then run_instruction libc k else ok k

-- Where the thread stands: at the head of the endless loop, or in the inner loop before its body.
pub data Phase : Type 0 where
  outer inner : Phase

pub record Cpu : Type 0 where
  pub phase : Phase
  pub no_process : Bool
  pub kernel : Kernel

-- The condition of the inner loop.
unfoldable pub goes_on : Kernel → Run Bool
goes_on k = if k.scheduler.scheduled_proc == null then ok false else do
  c ← load k.procs k.scheduler.scheduled_proc
  ok (ltb_ℤ (pos 0) c.remaining && ltb c.pc c.code_len)

-- What follows the inner loop: the process is done, or its quantum is.
unfoldable pub leave_inner : Libc → Kernel → Run Kernel
leave_inner libc k = if k.scheduler.scheduled_proc == null then ok k else do
  c ← load k.procs k.scheduler.scheduled_proc
  if leb c.code_len c.pc
      then sys_call libc (finish k.scheduler.scheduled_proc) k
      else sys_call libc (interrupt quantum_completed) k

log_idle : Bool → Host → Host
log_idle true h = h
log_idle false h =
    let logged = process_np_log h in
    record logged { log_mutex = logged.log_mutex + 1; refresh_sem = logged.refresh_sem + 1 }

outer_step : Libc → Cpu → Run Cpu
unfolding log_idle
outer_step libc m =
    if m.kernel.scheduler.scheduled_proc == null
    then (do
      k ←
          process_interrupt none_flag
            (record (m.kernel) { host = log_idle m.no_process m.kernel.host })
      ok (record { phase = outer; no_process = true; kernel = k }))
    else ok (record m { phase = inner; no_process = false })

inner_step : Libc → Bool → Cpu → Run Cpu
unfolding body
inner_step libc elapsed m = do
  k ← body libc elapsed m.kernel
  more ← goes_on k
  if more
      then ok (record m { kernel = k })
      else (do k' ← leave_inner libc k; ok (record m { phase = outer; kernel = k' }))

-- One turn of the thread.
unfoldable pub cpu : Libc → Bool → Cpu → Run Cpu
unfolding outer_step inner_step
cpu libc elapsed m = elim m.phase [ outer ↦ outer_step libc m | inner ↦ inner_step libc elapsed m ]
