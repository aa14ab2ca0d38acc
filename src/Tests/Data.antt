-- ===== src/Tests/Data.antt =====
-- Two processes and schedulers over them.
use ribabari.Prelude.{
  ℕ, ◌≡◌, ◌≢◌, refl, Option, none, some, List, [], ◌∷◌, arith, ◌==◌, if◌then◌else◌, inl, inr, ◌⊎◌,
  true, false, ℤ, pos, negsuc,
}
use ribabari.Process.{Ptr, null, Process, ProcessState, running, ready, Store, Points}
use ribabari.Log.{Libc, Host}
use ribabari.Disk.{DiskScheduler}
use ribabari.Instruction.{Instr, exec}
use ribabari.Memory.{SegmentTable}
use ribabari.Kernel.State.{Kernel}
use ribabari.Sched.{Scheduler, SchedulerQueue}
use ribabari.Sched.Valid.{IsValid, Live, Distinct}

abbrev pub job : ℕ → ProcessState → Process
job id state = record {
  name = 106 ∷ [];
  id = id;
  pc = 0;
  code_len = 2;
  seg_id = pos id;
  seg_size = pos 4;
  priority = pos 0;
  remaining = pos 700;
  state = state;
  o_files = [];
  semaphores = some [];
}

abbrev pub jobs : Store
jobs q = if q == 1 then some (job 1 running) else if q == 2 then some (job 2 ready) else none

abbrev pub queue : List Ptr → ℤ → SchedulerQueue
queue xs quantum = record { queue = xs; quantum = quantum }

-- The first process has the CPU, and the second is in the low queue.
abbrev pub one_running : Scheduler
one_running = record {
  scheduled_proc = 1;
  high_queue = queue [] (pos 1000);
  low_queue = queue (2 ∷ []) (pos 2000);
  blocked_queue = queue [] (negsuc 0);
}

-- The first process is blocked.
abbrev pub one_blocked : Scheduler
one_blocked = record {
  scheduled_proc = 2;
  high_queue = queue [] (pos 1000);
  low_queue = queue [] (pos 2000);
  blocked_queue = queue (1 ∷ []) (negsuc 0);
}

pub Points-one : Points jobs 1 (job 1 running)
Points-one = ground arith

pub Live-one : Live jobs 1
Live-one = (job 1 running, Points-one, omega arith)

pub Live-two : Live jobs 2
Live-two = (job 2 ready, ground arith, omega arith)

Live-either : (q : Ptr) → q ≢ null → ((q ≡ 1) ⊎ (q ≡ 2)) → Live jobs q
Live-either q ne (inl e) = rw e Live-one
Live-either q ne (inr e) = rw e Live-two

Distinct-jobs : Distinct jobs
Distinct-jobs p q i hp hq = ground arith

pub one_running-IsValid : IsValid one_running jobs
one_running-IsValid = record {
  live = λ q h. Live-either q (λ e. ground arith) (ground arith);
  once = λ q. ground arith;
  ids = Distinct-jobs;
  high_slice = refl;
  low_slice = refl;
}

pub one_blocked-IsValid : IsValid one_blocked jobs
one_blocked-IsValid = record {
  live = λ q h. Live-either q (λ e. ground arith) (ground arith);
  once = λ q. ground arith;
  ids = Distinct-jobs;
  high_slice = refl;
  low_slice = refl;
}

abbrev pub libc : Libc
libc = record {
  rand_max = 32767;
  rand = λ k. 7;
  time = λ k. pos k;
  angular = λ track. pos 7200;
  rand_bounded = λ k. omega arith;
}

abbrev pub host : Host
host = record {
  process_log_list = [];
  disk_log_list = [];
  io_log_list = [];
  res_acq_log_list = [];
  disk_general_log = record {
    r_req_count = 0;
    w_req_count = 0;
    forward_dir = true;
    curr_track = 0;
    angular_v = pos 0;
    pending_requests_size = 0;
  };
  io_general_log = record { r_bytes = 0; w_bytes = 0; p_time = pos 0 };
  log_mutex = 0;
  disk_mutex = 0;
  refresh_sem = 0;
  io_mutex = 0;
  res_acq_mutex = 0;
  draws = 0;
  readings = 0;
}

-- The arm going down from the track 50.
abbrev pub arm : DiskScheduler
arm = record { pending_requests = []; forward_dir = false; curr_track = 50; angular_v = pos 0 }

abbrev pub kernel_with : Scheduler → Kernel
kernel_with sch = record {
  procs = jobs;
  proc_table = 1 ∷ 2 ∷ [];
  next_proc_id = 3;
  seg_table = record { seg_list = []; seg_list_size = 0; remaining = pos 1073741824 };
  scheduler = sch;
  disk_scheduler = arm;
  sem_table = [];
  file_table = [];
  host = host;
}

abbrev pub exec_for : ℤ → Option Instr
exec_for time = some (record { op = exec; value = time; sem = none })

abbrev pub code : List (Option Instr)
code = exec_for (pos 40) ∷ exec_for (pos 800) ∷ []

abbrev pub memory : SegmentTable
memory = record { seg_list = []; seg_list_size = 0; remaining = pos 8192 }
