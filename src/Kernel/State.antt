-- ===== src/Kernel/State.antt =====
-- kernel/kernel.h: the kernel structure, with the heap of processes and what the terminal reads.
use ribabari.Prelude.{ℕ, List, []}
use ribabari.Process.{Ptr, Store}
use ribabari.Log.{Host}
use ribabari.Sched.{Scheduler, scheduler_init}
use ribabari.Semaphore.{SemaphoreTable, semaphore_table_init}
use ribabari.Memory.{SegmentTable, segment_table_init}
use ribabari.Disk.{DiskScheduler, disk_scheduler_init}
use ribabari.File.{FileTable, file_table_init}

-- The field `pc` of the C structure is never used.
pub record Kernel : Type 0 where
  pub procs : Store
  pub proc_table : List Ptr
  pub next_proc_id : ℕ
  pub seg_table : SegmentTable
  pub scheduler : Scheduler
  pub disk_scheduler : DiskScheduler
  pub sem_table : SemaphoreTable
  pub file_table : FileTable
  pub host : Host

-- What `kernel_init` sets, over whatever `malloc` left in the disk scheduler.
unfoldable pub kernel_init : Store → DiskScheduler → Host → Kernel
kernel_init procs d h = record {
  procs = procs;
  proc_table = [];
  next_proc_id = 1;
  seg_table = segment_table_init;
  scheduler = scheduler_init;
  disk_scheduler = disk_scheduler_init d;
  sem_table = semaphore_table_init;
  file_table = file_table_init;
  host = h;
}
