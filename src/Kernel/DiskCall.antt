-- ===== src/Kernel/DiskCall.antt =====
-- sysCall(DISK_READ_REQUEST, track) and sysCall(DISK_WRITE_REQUEST, track) of kernel/kernel.c: the
-- scheduler, the disk and the file table together.
use ribabari.Prelude.{
  ℕ, ◌+◌, ◌*◌, ◌≤◌, ◌<◌, ◌≡◌, refl, subst, some, List, [], ◌∷◌, arith, ◌==◌, if◌then◌else◌, ℤ, pos,
  negsuc, ◌-ℤ◌, ◌≤ℤ◌, Fits, int-ok, int_max, length, count, count-append, Bool, true, false, inl,
  inr, Returns, Returns-and, ok,
}
use ribabari.LinkedList.{list_add}
use ribabari.Process.{Ptr, Process, Store, write, blocked, Points, Points-load, Points-write}
use ribabari.Process.Update.{write-update}
use ribabari.Log.{Libc, Host, io_disk_log}
use ribabari.Sched.{Scheduler, io_requested, low_quantum}
use ribabari.Sched.Valid.{IsValid, places, Live-update, Distinct-update}
use ribabari.Sched.Choose.{with_state}
use ribabari.Disk.{DiskRequest, disk_block, disk_request, disk_time, disk_track_limit, inode_number}
use ribabari.Disk.Arm.{OnDisk}
use ribabari.Disk.Resolve.{Awaited, processes, disk_block-ok, inode_number-ok}
use ribabari.Disk.Turnaround.{time_for, disk_time-bounded}
use ribabari.File.{file_size, fs_read_request, fs_write_request}
use ribabari.File.Openers.{IsActive}
use ribabari.File.Requests.{
  HasOpen, Touched, opened_by, fs_read_request-IsActive, fs_write_request-IsActive,
}
use ribabari.Kernel.State.{Kernel}
use ribabari.Kernel.Blocking.{process_interrupt}
use ribabari.Kernel.Parked.{schedule_process-Parked, with_remaining, IsValid-with_remaining}
use ribabari.Kernel.FilesKept.{
  SameFiles, IsActive-SameFiles, schedule_process-SameFiles, openers-update,
}
use ribabari.Kernel.{disk_rw_request, fs_request}

pub processes-append :
    (q : Ptr) (pending : List DiskRequest) (request : DiskRequest)
    → count q (processes (list_add pending request))
      ≡ count q (processes pending) + (if request.process == q then 1 else 0)
processes-append q [] request = omega arith
processes-append q (it ∷ pending) request = omega (arith, processes-append q pending request)

IsValid-Touched :
    {sch : Scheduler} {s s' : Store} {p : Ptr} {c : Process} (n : ℤ)
    → Touched s p c n s'
    → Points s p c
    → IsValid sch s
    → IsValid sch s'
IsValid-Touched n (inl e) here v = rw e v
IsValid-Touched {s = s} {p = p} {c = c} n (inr e) here v =
    let f : Process → Process = λ d. opened_by d n in
    rw (e, write-update s p c f here.holds)
      (record {
        live = λ q h. Live-update s p q f (λ d b. b) (v.live q h);
        once = v.once;
        ids = Distinct-update s p f (λ d. refl) v.ids;
        high_slice = v.high_slice;
        low_slice = v.low_slice;
      })

SameFiles-with_remaining :
    {s : Store} {p : Ptr} {c : Process} (remaining : ℤ)
    → Points s p c
    → SameFiles s (write s p (some (with_remaining remaining c)))
SameFiles-with_remaining {s} {p} {c} remaining here ps n =
    rw (write-update s p c (with_remaining remaining) here.holds)
      (openers-update (with_remaining remaining) (λ d. refl) n ps s p)

-- The time that is left behind a turnaround is within the budget.
spent :
    (a : ℤ) (m : ℕ)
    → m ≤ 2 * disk_track_limit
    → pos 0 ≤ℤ a
    → a ≤ℤ low_quantum
    → Fits (a -ℤ pos (time_for m)) × ((a -ℤ pos (time_for m)) ≤ℤ low_quantum)
unfolding ◌-ℤ◌
spent (pos a) m few low high = ground arith
spent (negsuc a) m few low high = absurd (omega (arith, low))

-- The number of the inode of a track.
abbrev pub inode_of : ℕ → ℤ
inode_of t = pos ((t * 521 + 8) * 948 + 5)

-- What a disk request leaves of the kernel `k`: the request is the last that waits, with its turnaround.
pub record Requested (t : ℕ) (is_read : Bool) (k k' : Kernel) : Type 0 where
  pub valid : IsValid k'.scheduler k'.procs
  pub awaited : Awaited k'.disk_scheduler.pending_requests k'.scheduler
  pub active : IsActive k.proc_table k'.procs k'.file_table
  pub request :
      (m : ℕ) × (disk_time k.disk_scheduler (pos t) ≡ ok (pos (time_for m)))
      × (k'.disk_scheduler ≡ record (k.disk_scheduler) {
        pending_requests = list_add k.disk_scheduler.pending_requests (record {
          process = k.scheduler.scheduled_proc;
          track = pos t;
          read = is_read;
          turnaround = pos (time_for m);
        });
      })
  pub opened : HasOpen k'.procs k.scheduler.scheduled_proc (inode_of t)
  pub queue :
      k'.scheduler.blocked_queue.queue
      ≡ list_add k.scheduler.blocked_queue.queue k.scheduler.scheduled_proc
  pub same : (q : Ptr) → places q k'.scheduler ≡ places q k.scheduler
  pub sems : k'.sem_table ≡ k.sem_table

module _ (libc : Libc) (t : ℕ) (k : Kernel) (c : Process) (size : ℤ)
    (good : IsValid k.scheduler k.procs) (here : Points k.procs k.scheduler.scheduled_proc c)
    (waits : Awaited k.disk_scheduler.pending_requests k.scheduler)
    (active : IsActive k.proc_table k.procs k.file_table)
    (listed : count k.scheduler.scheduled_proc k.proc_table ≡ 1)
    (few : length k.proc_table < int_max) (on : OnDisk k.disk_scheduler)
    (track : t ≤ disk_track_limit) (not_late : pos 0 ≤ℤ c.remaining)
    (sized : file_size libc (libc.rand k.host.draws) (libc.rand (k.host.draws + 1)) ≡ ok size) where
  in_budget : c.remaining ≤ℤ low_quantum
  in_budget =
      let (d, h, b) = good.live k.scheduler.scheduled_proc (grind (arith, here.ne_null)) in
      let first : k.procs k.scheduler.scheduled_proc ≡ some c = here.holds in
      let second : k.procs k.scheduler.scheduled_proc ≡ some d = h.holds in
      let same : d ≡ c = cc in subst (λ x. x.remaining ≤ℤ low_quantum) same b.0

  block_ok : disk_block (pos t) ≡ ok (pos (t * 521 + 8))
  block_ok = disk_block-ok t track

  number_ok : inode_number (pos (t * 521 + 8)) ≡ ok (inode_of t)
  number_ok = inode_number-ok (t * 521 + 8) (omega arith)

  files_request :
      (is_read : Bool) (s : Store) (d : Process) (h : Host)
      → h.draws ≡ k.host.draws
      → Points s k.scheduler.scheduled_proc d
      → IsActive k.proc_table s k.file_table
      → Returns
          (λ r.
            IsActive k.proc_table r.1 r.0
            × HasOpen r.1 k.scheduler.scheduled_proc (inode_of t)
            × Touched s k.scheduler.scheduled_proc d (inode_of t) r.1)
          (if is_read
            then fs_read_request libc k.file_table k.scheduler.scheduled_proc
                (pos (t * 521 + 8))
                s
                h
            else fs_write_request libc k.file_table k.scheduler.scheduled_proc
                (pos (t * 521 + 8))
                s
                h)
  files_request true s d h same p a =
      fs_read_request-IsActive libc k.proc_table s k.scheduler.scheduled_proc d (pos (t * 521 + 8))
        (inode_of t) size h p listed few number_ok (rw same sized) k.file_table a
  files_request false s d h same p a =
      fs_write_request-IsActive libc k.proc_table s k.scheduler.scheduled_proc d (pos (t * 521 + 8))
        (inode_of t) size h p listed few number_ok (rw same sized) k.file_table a

  -- Let the scheduler be valid with the process on the CPU, every process with a waiting request be
  -- in the blocked queue, the arm stand on a track of the disk, the inodes count exactly the
  -- processes of the process table, and the table hold the process once and fewer processes than
  -- INT_MAX. A request for a track of the disk, by a process whose time is not overdrawn, when a
  -- new inode would draw a size that is an `int`, returns and keeps the first two and the counts;
  -- the process waits at the end of the blocked queue, its request is the last of the disk, with
  -- the turnaround that disk_time gives, the process has the file of the track open, and the
  -- semaphores are as they were.
  pub disk_rw_request-Requested :
      (is_read : Bool) → Returns (Requested t is_read k) (disk_rw_request libc is_read (pos t) k)
  unfolding disk_rw_request process_interrupt disk_request fs_request io_disk_log
  disk_rw_request-Requested is_read =
      let p = k.scheduler.scheduled_proc in
      let (r, e, (parked, same_files)) =
        Returns-and (schedule_process-Parked k.scheduler k.procs c good here)
          (schedule_process-SameFiles io_requested good) in
      let (m, few_tracks, timed) = disk_time-bounded k.disk_scheduler t on track in
      let (fits, low) = spent c.remaining m few_tracks not_late in_budget in
      let remaining = c.remaining -ℤ pos (time_for m) in
      let d = with_remaining remaining (with_state blocked c) in
      let s2 = write r.1 p (some d) in
      let now : Points s2 p d = Points-write d parked.here in
      let v2 = IsValid-with_remaining remaining (low, fits.1) parked.here parked.valid in
      let logged = io_disk_log c.name is_read k.host in
      let h2 = record logged { io_mutex = logged.io_mutex + 1 } in
      let a2 =
        IsActive-SameFiles k.proc_table k.file_table
          (SameFiles-with_remaining remaining parked.here)
          (IsActive-SameFiles k.proc_table k.file_table same_files active) in
      let (fr, e3, (a3, opened, touched)) = files_request is_read s2 d h2 refl now a2 in
      let request : DiskRequest = record {
        process = p;
        track = pos t;
        read = is_read;
        turnaround = pos (time_for m);
      } in
      let pending = list_add k.disk_scheduler.pending_requests request in
      (
        record k {
          procs = fr.1;
          scheduler = r.0;
          disk_scheduler = record (k.disk_scheduler) { pending_requests = pending };
          file_table = fr.0;
          host = fr.2;
        },
        rw (e, timed, Points-load parked.here, int-ok remaining fits, block_ok, e3),
        record {
          valid = IsValid-Touched (inode_of t) touched now v2;
          awaited = λ q. rw parked.queue (
              omega (
                arith,
                waits q,
                processes-append q k.disk_scheduler.pending_requests request,
                count-append q k.scheduler.blocked_queue.queue (p ∷ []),
              ));
          active = a3;
          request = (m, timed, refl);
          opened = opened;
          queue = parked.queue;
          same = parked.same;
          sems = refl;
        },
      )
