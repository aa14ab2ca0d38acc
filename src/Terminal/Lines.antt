-- ===== src/Terminal/Lines.antt =====
-- The line that each view of terminal/terminal.c writes for a log entry: the texts given to wprintw in
-- refresh_process_log, refresh_disk_log, refresh_io_log and refresh_res_acq_log, without their colours.
use ribabari.Prelude.{ℕ, Bool, not, ◌&&◌, ◌||◌, [], ◌∷◌, ◌==◌, if◌then◌else◌, bit_and, ℤ, pos}
use ribabari.Process.{CString}
use ribabari.Log.{
  ProcLogInfo, proc, no_proc, DiskLogInfo, IoLogInfo, print_log, fs_log, disk_req_log, ResAcqLog,
  io_log_fs_read, io_log_fs_write, io_log_fs_f_open, io_log_fs_f_close,
}
use ribabari.Text.Numbers.{print_int}
use ribabari.Terminal.Format.{codes, joined, pad, pad_int}

unfoldable pub proc_line : CString → ℤ → ℕ → ℤ → ℕ → CString
unfolding pad pad_int
proc_line name remaining pc sid f_op_count = joined (
    codes "PROCESS: "
    ∷ pad 10 name
    ∷ codes ", "
    ∷ codes "REMAINING: "
    ∷ pad_int 4 remaining
    ∷ codes "ms, "
    ∷ codes "PC: "
    ∷ pad_int 4 (pos pc)
    ∷ codes ", "
    ∷ codes "ID: "
    ∷ pad_int 2 sid
    ∷ codes ", "
    ∷ codes "FILES: "
    ∷ pad_int 2 (pos f_op_count)
    ∷ codes ".\n"
    ∷ [])

unfoldable pub process_line : ProcLogInfo → CString
unfolding proc_line
process_line (proc name remaining pc sid f_op_count) = proc_line name remaining pc sid f_op_count
process_line no_proc = codes "No process running.\n"

unfoldable pub disk_line : DiskLogInfo → CString
disk_line info = joined (
    codes "Process "
    ∷ info.proc_name
    ∷ codes " has "
    ∷ (if info.is_read then codes "read " else codes "written ")
    ∷ codes "on track "
    ∷ print_int info.track
    ∷ codes " with a turnaround of "
    ∷ print_int info.turnaround
    ∷ codes "u.t.\n"
    ∷ [])

-- `opt & flag`
abbrev pub has_flag : ℕ → ℕ → Bool
has_flag opt flag = not (bit_and opt flag == 0)

unfoldable pub fs_verb : ℕ → CString
fs_verb opt =
    if has_flag opt io_log_fs_read || has_flag opt io_log_fs_write
    then (if has_flag opt io_log_fs_read
        then codes "read"
        else if has_flag opt io_log_fs_write
        then codes "written"
        else codes "not specified")
    else if has_flag opt io_log_fs_f_open
    then codes "opened"
    else if has_flag opt io_log_fs_f_close
    then codes "closed"
    else codes "not specified"

unfoldable pub io_line : IoLogInfo → CString
unfolding fs_verb
io_line (print_log proc_name duration) = joined (
    codes "Process "
    ∷ proc_name
    ∷ codes " is printing for "
    ∷ print_int duration
    ∷ codes " u.t.\n"
    ∷ [])
io_line (fs_log proc_name inumber opt) = joined (
    codes "Process "
    ∷ proc_name
    ∷ codes " has "
    ∷ fs_verb opt
    ∷ codes " the file with inode "
    ∷ print_int inumber
    ∷ codes ".\n"
    ∷ [])
io_line (disk_req_log proc_name read) = joined (
    codes "Process "
    ∷ proc_name
    ∷ codes " has requested a "
    ∷ (if read then codes "read" else codes "write")
    ∷ codes " operation.\n"
    ∷ [])

unfoldable pub res_acq_line : ResAcqLog → CString
res_acq_line log = joined (
    codes "Process "
    ∷ log.proc_name
    ∷ codes " "
    ∷ (if not (log.acq && log.blocked)
        then joined (
            codes "has "
            ∷ (if log.acq then codes "acquired" else codes "released")
            ∷ codes " "
            ∷ [])
        else codes "has been blocked, waiting for ")
    ∷ codes "the semaphore "
    ∷ log.sem_name
    ∷ codes ".\n"
    ∷ [])
