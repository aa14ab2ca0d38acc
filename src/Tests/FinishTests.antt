-- ===== src/Tests/FinishTests.antt =====
-- The end of the process that has the CPU and a file open, while another one is ready.
use ribabari.Prelude.{◌≡◌, ◌≢◌, ◌⊎◌, refl, [], arith, inl, inr, Returns}
use ribabari.Process.{Ptr, null, ready}
use ribabari.Sched.Valid.{IsValid, Live, Distinct}
use ribabari.Memory.{segment_find}
use ribabari.Kernel.State.{Kernel}
use ribabari.Kernel.Finish.{process_finish}
use ribabari.Kernel.Finished.{Finished, process_finish-Finished}
use ribabari.Tests.Data.{job, kernel_with, libc, one_running}
use ribabari.Tests.FileTests.{reader, readers, active, active-IsActive, Points-reader}
use ribabari.Tests.MemoryTests.{one_segment, used_segment}

abbrev busy_kernel : Kernel
busy_kernel = record (kernel_with one_running) {
  procs = readers;
  file_table = active;
  seg_table = one_segment;
}

Live-readers : (q : Ptr) → q ≢ null → ((q ≡ 1) ⊎ (q ≡ 2)) → Live readers q
Live-readers q ne (inl e) = rw e (reader, Points-reader, omega arith)
Live-readers q ne (inr e) = rw e (job 2 ready, ground arith, omega arith)

Distinct-readers : Distinct readers
Distinct-readers p q i hp hq = ground arith

readers-IsValid : IsValid one_running readers
readers-IsValid = record {
  live = λ q h. Live-readers q (λ e. ground arith) (ground arith);
  once = λ q. ground arith;
  ids = Distinct-readers;
  high_slice = refl;
  low_slice = refl;
}

process_finish-Finished_example :
    Returns (Finished 1 reader busy_kernel) (process_finish libc 1 busy_kernel)
unfolding segment_find
process_finish-Finished_example =
    process_finish-Finished libc busy_kernel 1 reader [] used_segment readers-IsValid Points-reader
      (omega arith, omega arith) (ground arith)
      (λ q h. Live-readers q (λ e. ground arith) (ground arith)) refl (omega arith) active-IsActive
      (λ n. ground arith) refl refl (omega arith, omega arith)
      ((omega arith, omega arith), omega arith)
