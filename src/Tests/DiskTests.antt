-- ===== src/Tests/DiskTests.antt =====
-- The theorems about the disk, applied.
use ribabari.Prelude.{ℕ, ◌+◌, ◌≤◌, refl, Returns, inr, List, [], ◌∷◌, arith, pos, true}
use ribabari.Disk.Served.{World, IsSound, IsFair, ServedAfter, first, rounds-serve}
use ribabari.Disk.Round.{RoundDone, disk-RoundDone}
use ribabari.Disk.{DiskRequest, DiskScheduler, disk, rw_disk_op_resolve}
use ribabari.Disk.Turnaround.{IsTimed, disk_time-IsTimed}
use ribabari.Disk.Resolve.{Resolved, Awaited, rw_disk_op_resolve-Resolved}
use ribabari.Tests.Data.{jobs, libc, host, arm, one_blocked, one_blocked-IsValid}

disk_time-IsTimed_example : IsTimed arm 120
disk_time-IsTimed_example =
    disk_time-IsTimed arm 120 (omega arith) (omega arith) (inr (omega arith))

abbrev pending : List DiskRequest
pending = record { process = 1; track = pos 50; read = true; turnaround = pos 5000 } ∷ []

awaited : Awaited pending one_blocked
awaited q = omega arith

rw_disk_op_resolve-Resolved_example :
    Returns
      (λ r. Resolved (pos 50) one_blocked jobs pending r × Awaited r.0 r.1)
      (rw_disk_op_resolve libc pending (pos 50) one_blocked jobs host)
rw_disk_op_resolve-Resolved_example =
    rw_disk_op_resolve-Resolved libc 50 (omega arith) pending host one_blocked-IsValid awaited

abbrev busy_arm : DiskScheduler
busy_arm = record arm { pending_requests = pending }

disk-RoundDone_example :
    Returns (RoundDone busy_arm one_blocked jobs) (disk libc busy_arm one_blocked jobs host)
disk-RoundDone_example =
    disk-RoundDone libc busy_arm one_blocked jobs host (omega arith) one_blocked-IsValid awaited

abbrev at_work : World
at_work = record { drive = busy_arm; scheduler = one_blocked; procs = jobs; host = host }

at_work-IsSound : IsSound at_work
at_work-IsSound = record { on = omega arith; valid = one_blocked-IsValid; awaited = awaited }

-- The others log something between two rounds.
abbrev log_more : ℕ → World → World
log_more i w = record w { host = record (w.host) { log_mutex = w.host.log_mutex + i } }

log_more-IsFair : IsFair log_more
log_more-IsFair = record {
  sound = λ i w s. record { on = s.on; valid = s.valid; awaited = s.awaited };
  arm = λ i w. (refl, refl);
  keeps = λ i w r h. h;
}

abbrev the_request : DiskRequest
the_request = record { process = 1; track = pos 50; read = true; turnaround = pos 5000 }

rounds-serve_example :
    (j : ℕ) × (j ≤ 401) × ServedAfter libc log_more log_more-IsFair the_request 50 j 0 at_work
rounds-serve_example =
    rounds-serve libc log_more log_more-IsFair the_request 50 0 at_work refl (omega arith)
      at_work-IsSound first
