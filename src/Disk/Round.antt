-- ===== src/Disk/Round.antt =====
-- A whole round of the disk thread, the body of the loop of disk/disk.c.
use ribabari.Prelude.{◌+◌, count, ◌≡◌, pos, length, ◌∙◌, arith, Returns, List}
use ribabari.Process.{Ptr, Store}
use ribabari.Log.{Libc, Host, disk_general_update}
use ribabari.Sched.{Scheduler}
use ribabari.Sched.Valid.{IsValid}
use ribabari.Disk.{DiskRequest, DiskScheduler, disk, move_arm}
use ribabari.Disk.Arm.{OnDisk, move_arm-OnDisk}
use ribabari.Disk.Resolve.{Awaited, others, processes, processes-split, rw_disk_op_resolve-Resolved}

pub record RoundDone (d : DiskScheduler) (sch : Scheduler) (s : Store)
    (r : DiskScheduler × Scheduler × Host) : Type 0 where
  pub on : OnDisk r.0
  pub valid : IsValid r.1 s
  pub awaited : Awaited r.0.pending_requests r.1
  pub moved :
      (r.0.forward_dir ≡ (move_arm d).forward_dir) × (r.0.curr_track ≡ (move_arm d).curr_track)
  pub woken :
      (q : Ptr)
      → count q (processes r.0.pending_requests) + count q sch.blocked_queue.queue
        ≡ count q (processes d.pending_requests) + count q r.1.blocked_queue.queue
  pub left : r.0.pending_requests ≡ others (pos d.curr_track) d.pending_requests

move_arm-pending : (d : DiskScheduler) → (move_arm d).pending_requests ≡ d.pending_requests
unfolding move_arm
move_arm-pending d = ground arith

-- The way of the arm does not depend on the requests.
move_arm-same :
    (d : DiskScheduler) (pending : List DiskRequest)
    → ((move_arm (record d { pending_requests = pending })).forward_dir ≡ (move_arm d).forward_dir)
      × ((move_arm (record d { pending_requests = pending })).curr_track ≡ (move_arm d).curr_track)
unfolding move_arm
move_arm-same d pending = ground arith

-- If the arm stands on a track of the disk, the scheduler is valid and every process with a waiting
-- request is blocked, a round of the disk thread returns and keeps the three; the requests for the
-- track are served, those for another track still wait, in their order, each process leaves the
-- blocked queue as often as a request of it is served, and the arm makes its move.
pub disk-RoundDone :
    (libc : Libc) (d : DiskScheduler) (sch : Scheduler) (s : Store) (h : Host)
    → OnDisk d
    → IsValid sch s
    → Awaited d.pending_requests sch
    → Returns (RoundDone d sch s) (disk libc d sch s h)
unfolding disk
disk-RoundDone libc d sch s h on v a =
    let ((pending, sch', h1), e, (done, awaited)) =
      rw_disk_op_resolve-Resolved libc d.curr_track on d.pending_requests h v a in
    let moved = move_arm (record d { pending_requests = pending }) in
    let kept : moved.pending_requests ≡ pending =
      move_arm-pending (record d { pending_requests = pending }) in
    let angular_v = libc.angular moved.curr_track in
    (
      (
        record moved { angular_v = angular_v },
        sch',
        disk_general_update moved.forward_dir moved.curr_track angular_v (length pending) h1,
      ),
      rw e,
      record {
        on = (move_arm-OnDisk (record d { pending_requests = pending }) on).0;
        valid = done.valid;
        awaited = rw kept awaited;
        moved = move_arm-same d pending;
        woken = λ q.
            rw (kept, done.kept)
              (omega
                (arith, done.leaving q, processes-split q (pos d.curr_track) d.pending_requests));
        left = kept ∙ done.kept;
      },
    )
