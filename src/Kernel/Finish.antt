-- ===== src/Kernel/Finish.antt =====
-- process_finish of process/process.c.
use ribabari.Prelude.{none, some, List, [], ◌∷◌, ◌==◌, if◌then◌else◌, ℤ, Run, ok, ◌>>=◌, or_fault}
use ribabari.LinkedList.{list_search, list_remove_node}
use ribabari.Process.{Ptr, null, Store, CString, load, write, proc_cmp}
use ribabari.Log.{Libc, Host}
use ribabari.Sched.{Scheduler, with_queue, none_flag}
use ribabari.Memory.{segment_free}
use ribabari.File.{FileTable, fs_close_request}
use ribabari.Kernel.State.{Kernel}
use ribabari.Kernel.Blocking.{process_interrupt}

-- FOREACH(proc->o_files, int) fs_close_request(...)
unfoldable pub close_files : Libc → CString → List ℤ → FileTable → Host → Run (FileTable × Host)
close_files libc name [] files h = ok (files, h)
close_files libc name (it ∷ rest) files h = do
  (files1, h1) ← fs_close_request libc files name it h
  close_files libc name rest files1 h1

-- The queues without the process: the first of the three that holds it loses it.
unfoldable pub detach_blocked : Ptr → Scheduler → Store → Run Scheduler
detach_blocked p sch s = do
  node ← list_search (λ q. proc_cmp s q p) sch.blocked_queue.queue
  elim node [
    | none ↦ ok sch
    | some i ↦ (do
      queue ← list_remove_node sch.blocked_queue.queue (some i)
      ok (record sch { blocked_queue = with_queue sch.blocked_queue queue }))
  ]

unfoldable pub detach_low : Ptr → Scheduler → Store → Run Scheduler
unfolding detach_blocked
detach_low p sch s = do
  node ← list_search (λ q. proc_cmp s q p) sch.low_queue.queue
  elim node [
    | none ↦ detach_blocked p sch s
    | some i ↦ (do
      queue ← list_remove_node sch.low_queue.queue (some i)
      ok (record sch { low_queue = with_queue sch.low_queue queue }))
  ]

unfoldable pub detach : Ptr → Scheduler → Store → Run Scheduler
unfolding detach_low
detach p sch s = do
  node ← list_search (λ q. proc_cmp s q p) sch.high_queue.queue
  elim node [
    | none ↦ detach_low p sch s
    | some i ↦ (do
      queue ← list_remove_node sch.high_queue.queue (some i)
      ok (record sch { high_queue = with_queue sch.high_queue queue }))
  ]

-- The process leaves the table, the CPU, its files, its segment and the queues, and its memory is freed;
-- to free the semaphore names is a fault if that field was never set.
unfoldable pub process_finish : Libc → Ptr → Kernel → Run Kernel
process_finish libc p k = if p == null then ok k else do
  node ← list_search (λ q. proc_cmp k.procs q p) k.proc_table
  proc_table ← list_remove_node k.proc_table node
  scheduled ← proc_cmp k.procs k.scheduler.scheduled_proc p
  let k0 = record k { proc_table = proc_table }
  k1 ← if scheduled then process_interrupt none_flag k0 else ok k0
  c ← load k1.procs p
  (files, h) ← close_files libc c.name c.o_files k1.file_table k1.host
  seg_table ← segment_free k1.seg_table c.seg_id
  sch ← detach p k1.scheduler k1.procs
  semaphores ← or_fault c.semaphores
  ok (record k1 {
    file_table = files;
    host = h;
    seg_table = seg_table;
    scheduler = sch;
    procs = write k1.procs p none;
  })
