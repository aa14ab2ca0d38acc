-- ===== src/Log.antt =====
-- terminal/log.c and terminal/log.h: the log lists that the views of the terminal read, the counting
-- semaphores that wake the views, and the readings of `rand` and `time`.
use ribabari.Prelude.{
  ℕ, ◌+◌, ◌%◌, ◌≤◌, Bool, not, List, [], ◌==◌, if◌then◌else◌, bit_and, ℤ, pos, int, ◌+ℤ◌, Run, ok,
  ◌>>=◌,
}
use ribabari.LinkedList.{list_add}
use ribabari.Process.{CString}

-- What the C libraries compute: the values of the successive calls of `rand` and `time`, and for a track
-- the angular velocity `(int) (7200 + 100 * sin(track))`.
pub record Libc : Type 0 where
  pub rand_max : ℕ
  pub rand : ℕ → ℕ
  pub time : ℕ → ℤ
  pub angular : ℕ → ℤ
  pub rand_bounded : (k : ℕ) → rand k ≤ rand_max

pub data ProcLogInfo : Type 0 where
  proc : (name : CString) (remaining : ℤ) (pc : ℕ) (sid : ℤ) (f_op_count : ℕ) → ProcLogInfo
  no_proc : ProcLogInfo

pub record DiskLogInfo : Type 0 where
  pub proc_name : CString
  pub proc_id : ℕ
  pub track : ℤ
  pub is_read : Bool
  pub turnaround : ℤ

-- The flags of `io_log_fs_flag_t`.
abbrev pub io_log_fs_read : ℕ
io_log_fs_read = 1

abbrev pub io_log_fs_write : ℕ
io_log_fs_write = 2

abbrev pub io_log_fs_f_open : ℕ
io_log_fs_f_open = 4

abbrev pub io_log_fs_f_close : ℕ
io_log_fs_f_close = 8

pub data IoLogInfo : Type 0 where
  print_log : (proc_name : CString) (duration : ℤ) → IoLogInfo
  fs_log : (proc_name : CString) (inumber : ℤ) (opt : ℕ) → IoLogInfo
  disk_req_log : (proc_name : CString) (read : Bool) → IoLogInfo

pub record ResAcqLog : Type 0 where
  pub proc_name : CString
  pub sem_name : CString
  pub acq : Bool
  pub blocked : Bool

-- `disk_log_t`.
pub record DiskGeneralLog : Type 0 where
  pub r_req_count : ℕ
  pub w_req_count : ℕ
  pub forward_dir : Bool
  pub curr_track : ℕ
  pub angular_v : ℤ
  pub pending_requests_size : ℕ

-- `io_log_t`.
pub record IoGeneralLog : Type 0 where
  pub r_bytes : ℕ
  pub w_bytes : ℕ
  pub p_time : ℤ

-- All that the simulation shares with the terminal, and how often `rand` and `time` were called.
pub record Host : Type 0 where
  pub process_log_list : List ProcLogInfo
  pub disk_log_list : List DiskLogInfo
  pub io_log_list : List IoLogInfo
  pub res_acq_log_list : List ResAcqLog
  pub disk_general_log : DiskGeneralLog
  pub io_general_log : IoGeneralLog
  pub log_mutex : ℕ
  pub disk_mutex : ℕ
  pub refresh_sem : ℕ
  pub io_mutex : ℕ
  pub res_acq_mutex : ℕ
  pub draws : ℕ
  pub readings : ℕ

unfoldable pub process_log_init : Host → Host
process_log_init h = record h { process_log_list = [] }

unfoldable pub process_log : CString → ℤ → ℕ → ℤ → ℕ → Host → Host
process_log name remaining pc sid f_op_count h = record h {
  process_log_list = list_add h.process_log_list (proc name remaining pc sid f_op_count);
}

unfoldable pub process_np_log : Host → Host
process_np_log h = record h { process_log_list = list_add h.process_log_list no_proc }

-- The fields that `disk_log_init` leaves alone keep their value.
unfoldable pub disk_log_init : Host → Host
disk_log_init h = record h {
  disk_general_log = record (h.disk_general_log) { r_req_count = 0; w_req_count = 0 };
  disk_log_list = [];
}

unfoldable pub disk_log : CString → ℕ → ℤ → Bool → ℤ → Host → Host
disk_log name proc_id track read turnaround h = record h {
  disk_general_log =
      if read
      then record (h.disk_general_log) { r_req_count = h.disk_general_log.r_req_count + 1 }
      else record (h.disk_general_log) { w_req_count = h.disk_general_log.w_req_count + 1 };
  disk_log_list = list_add h.disk_log_list (record {
    proc_name = name;
    proc_id = proc_id;
    track = track;
    is_read = read;
    turnaround = turnaround;
  });
}

unfoldable pub io_log_init : Host → Host
io_log_init h = record h {
  io_general_log = record { r_bytes = 0; w_bytes = 0; p_time = pos 0 };
  io_log_list = [];
}

-- `1 + (rand() & 65535)` bytes are drawn for a read or a write, and none for another flag.
add_bytes : Libc → ℕ → Host → Host
add_bytes libc opt h =
    let bytes = 1 + libc.rand h.draws % 65536 in
    if not (bit_and opt io_log_fs_read == 0)
    then record h {
      io_general_log = record (h.io_general_log) { r_bytes = h.io_general_log.r_bytes + bytes };
      draws = h.draws + 1;
    }
    else if not (bit_and opt io_log_fs_write == 0)
    then record h {
      io_general_log = record (h.io_general_log) { w_bytes = h.io_general_log.w_bytes + bytes };
      draws = h.draws + 1;
    }
    else h

unfoldable pub io_fs_log : Libc → CString → ℤ → ℕ → Host → Host
unfolding add_bytes
io_fs_log libc name inumber opt h =
    let g = add_bytes libc opt h in
    record g { io_log_list = list_add g.io_log_list (fs_log name inumber opt) }

unfoldable pub io_disk_log : CString → Bool → Host → Host
io_disk_log name read h = record h { io_log_list = list_add h.io_log_list (disk_req_log name read) }

unfoldable pub io_print_log : CString → ℤ → Host → Run Host
io_print_log name duration h = do
  p_time ← int (h.io_general_log.p_time +ℤ duration)
  ok (record h {
    io_general_log = record (h.io_general_log) { p_time = p_time };
    io_log_list = list_add h.io_log_list (print_log name duration);
  })

unfoldable pub res_acq_log_init : Host → Host
res_acq_log_init h = record h { res_acq_log_list = [] }

unfoldable pub res_acq_log : CString → CString → Bool → Bool → Host → Host
res_acq_log name sem_name acq blocked h = record h {
  res_acq_log_list =
      list_add h.res_acq_log_list
        (record { proc_name = name; sem_name = sem_name; acq = acq; blocked = blocked });
}

-- `disk` publishes the state of the arm after each move.
unfoldable pub disk_general_update : Bool → ℕ → ℤ → ℕ → Host → Host
disk_general_update forward_dir curr_track angular_v pending h = record h {
  disk_general_log = record (h.disk_general_log) {
    forward_dir = forward_dir;
    curr_track = curr_track;
    angular_v = angular_v;
    pending_requests_size = pending;
  };
}
