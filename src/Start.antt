-- ===== src/Start.antt =====
-- main.c: the state in which main starts the threads of the disk and of the CPU, and the menu.
use ribabari.Prelude.{none}
use ribabari.Process.{Store}
use ribabari.Log.{Libc, Host, process_log_init, disk_log_init, io_log_init, res_acq_log_init}
use ribabari.Disk.{DiskScheduler}
use ribabari.Sched.Valid.{Distinct}
use ribabari.Kernel.State.{Kernel, kernel_init}
use ribabari.Kernel.Step.{Steps, IsKept}
use ribabari.Kernel.Calls.{kernel_init-IsKept}
use ribabari.Kernel.Steps.{Steps-IsKept}

-- No process has been allocated yet.
abbrev pub no_processes : Store
no_processes q = none

-- The logs are initialised before the kernel; `malloc` has left `d` in the disk scheduler, and `h` is what the
-- global variables hold before.
unfoldable pub start : DiskScheduler → Host → Kernel
unfolding process_log_init disk_log_init io_log_init res_acq_log_init kernel_init
start d h =
    kernel_init no_processes d (res_acq_log_init (io_log_init (disk_log_init (process_log_init h))))

-- From the state in which main starts the threads, after any number of steps, in any order, each under its
-- conditions, the kernel is settled and the arm of the disk is on a track.
pub start-IsKept :
    (libc : Libc) (d : DiskScheduler) (h : Host) (k : Kernel) → Steps libc (start d h) k → IsKept k
unfolding start
start-IsKept libc d h k steps = Steps-IsKept libc _ k steps (
    kernel_init-IsKept no_processes d
      (res_acq_log_init (io_log_init (disk_log_init (process_log_init h)))) none_alike)
  where
    none_alike : Distinct no_processes
    none_alike a b i ha hb = cc
