-- ===== src/Disk.antt =====
-- disk/disk.c and disk/disk.h: the arm, the requests and their turnaround, and one round of the disk
-- thread. Tracks of the arm are numbers, since it moves down only from above 0.
pub mod Arm
pub mod Turnaround
pub mod Resolve
pub mod Round
pub mod Served
use ribabari.Prelude.{
  ℕ, ◌+◌, ◌-◌, Bool, true, false, some, List, [], ◌∷◌, ◌++◌, ◌==◌, if◌then◌else◌, ℤ, pos, ◌+ℤ◌,
  ◌-ℤ◌, ◌*ℤ◌, ltb_ℤ, leb_ℤ, eq_ℤ, int, Run, ok, ◌>>=◌, length,
}
use ribabari.LinkedList.{list_add}
use ribabari.Process.{Ptr, Process, Store, load, write}
use ribabari.Log.{
  Libc, Host, io_disk_log, disk_log, io_fs_log, io_log_fs_read, io_log_fs_write,
  disk_general_update,
}
use ribabari.Sched.{Scheduler, low, schedule_unblock_process}

abbrev pub disk_track_limit : ℕ
disk_track_limit = 200

abbrev pub disk_operation_time : ℕ
disk_operation_time = 5000

abbrev pub disk_track_move_time : ℕ
disk_track_move_time = 100

-- The macro DISK_BLOCK(track), and INODE_NUMBER(x) of file/file.h.
unfoldable pub disk_block : ℤ → Run ℤ
disk_block track = do product ← int (track *ℤ pos 521); int (product +ℤ pos 8)

unfoldable pub inode_number : ℤ → Run ℤ
inode_number x = do product ← int (x *ℤ pos 948); int (product +ℤ pos 5)

pub record DiskRequest : Type 0 where
  pub process : Ptr
  pub track : ℤ
  pub read : Bool
  pub turnaround : ℤ

pub record DiskScheduler : Type 0 where
  pub pending_requests : List DiskRequest
  pub forward_dir : Bool
  pub curr_track : ℕ
  pub angular_v : ℤ

-- The field `angular_v` is not set, and keeps what it was.
unfoldable pub disk_scheduler_init : DiskScheduler → DiskScheduler
disk_scheduler_init d = record d { pending_requests = []; forward_dir = true; curr_track = 0 }

-- How many tracks the arm is taken to move before it serves a request.
unfoldable pub distance : Bool → ℕ → ℤ → Run ℤ
distance forward_dir curr_track track =
    if forward_dir
    then (if leb_ℤ (pos curr_track) track then int (track -ℤ pos curr_track) else (do
      up ← int (pos disk_track_limit -ℤ pos curr_track)
      down ← int (pos disk_track_limit -ℤ track)
      int (up +ℤ down)))
    else if ltb_ℤ track (pos curr_track)
    then int (pos curr_track -ℤ track)
    else int (pos curr_track +ℤ track)

unfoldable pub disk_time : DiskScheduler → ℤ → Run ℤ
disk_time d track = do
  tracks ← distance d.forward_dir d.curr_track track
  moving ← int (tracks *ℤ pos disk_track_move_time)
  int (pos disk_operation_time +ℤ moving)

unfoldable pub disk_request :
    Ptr → DiskScheduler → ℤ → Bool → Store → Host → Run (DiskScheduler × Store × Host)
disk_request process d track read s h = do
  time ← disk_time d track
  c ← load s process
  let logged = io_disk_log c.name read h
  remaining ← int (c.remaining -ℤ time)
  let request : DiskRequest = record {
    process = process;
    track = track;
    read = read;
    turnaround = time;
  }
  ok (
    record d { pending_requests = list_add d.pending_requests request },
    write s process (some (record c { remaining = remaining })),
    record logged { io_mutex = logged.io_mutex + 1 },
  )

-- The arm moves by one track, or turns at the last track and at the first.
unfoldable pub move_arm : DiskScheduler → DiskScheduler
move_arm d =
    if d.forward_dir
    then if d.curr_track == disk_track_limit
      then record d { forward_dir = false }
      else record d { curr_track = d.curr_track + 1 }
    else if d.curr_track == 0
    then record d { forward_dir = true }
    else record d { curr_track = d.curr_track - 1 }

-- One request that is over the track: its logs, and the interrupt DISK_FINISH.
unfoldable pub serve : Libc → DiskRequest → ℤ → Scheduler → Store → Host → Run (Scheduler × Host)
serve libc request track sch s h = do
  c ← load s request.process
  block ← disk_block track
  inumber ← inode_number block
  let h1 = disk_log c.name c.id track request.read request.turnaround h
  let opt = if request.read then io_log_fs_read else io_log_fs_write
  let h2 = io_fs_log libc c.name inumber opt (record h1 { disk_mutex = h1.disk_mutex + 1 })
  sch' ← schedule_unblock_process sch request.process low s
  ok (sch', record h2 { io_mutex = h2.io_mutex + 1 })

-- The requests that are over the track are served and taken out, in their order.
unfoldable pub rw_disk_op_resolve :
    Libc
    → List DiskRequest
    → ℤ
    → Scheduler
    → Store
    → Host
    → Run (List DiskRequest × Scheduler × Host)
rw_disk_op_resolve libc [] track sch s h = ok ([], sch, h)
rw_disk_op_resolve libc (request ∷ rest) track sch s h =
    let skip = (do
      (kept, sch', h') ← rw_disk_op_resolve libc rest track sch s h
      ok (request ∷ kept, sch', h')) in
    let hit = (do
      (sch1, h1) ← serve libc request track sch s h
      rw_disk_op_resolve libc rest track sch1 s h1) in
    if eq_ℤ request.track track then hit else skip

-- The body of the disk thread's loop, each time that its interval has passed.
unfoldable pub disk :
    Libc → DiskScheduler → Scheduler → Store → Host → Run (DiskScheduler × Scheduler × Host)
disk libc d sch s h = do
  (pending, sch', h1) ← rw_disk_op_resolve libc d.pending_requests (pos d.curr_track) sch s h
  let moved = move_arm (record d { pending_requests = pending })
  let angular_v = libc.angular moved.curr_track
  ok (
    record moved { angular_v = angular_v },
    sch',
    disk_general_update moved.forward_dir moved.curr_track angular_v (length pending) h1,
  )
