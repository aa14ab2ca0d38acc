-- ===== src/Tests/SchedTests.antt =====
-- The theorems about the scheduler, applied.
use ribabari.Prelude.{◌+◌, ◌≡◌, Returns, if◌then◌else◌, arith}
use ribabari.Process.{Ptr}
use ribabari.Sched.{schedule_process, quantum_completed, io_requested, none_flag}
use ribabari.Sched.Valid.{IsValid, places, at_cpu}
use ribabari.Sched.Schedule.{schedule_process-IsValid, schedule_process-places, requeues}
use ribabari.Sched.Dispatch.{
  Dispatched, Requeued, schedule_process-Dispatched, schedule_process-Requeued,
}
use ribabari.Tests.Data.{jobs, one_running, one_running-IsValid}

schedule_process-IsValid_example :
    Returns (λ r. IsValid r.0 r.1) (schedule_process one_running io_requested jobs)
schedule_process-IsValid_example = schedule_process-IsValid io_requested one_running-IsValid

schedule_process-places_example :
    Returns
      (λ r.
        (q : Ptr)
        → places q r.0 + (if requeues none_flag then 0 else at_cpu q 1) ≡ places q one_running)
      (schedule_process one_running none_flag jobs)
schedule_process-places_example = schedule_process-places none_flag one_running-IsValid

schedule_process-Dispatched_example :
    Returns (Dispatched one_running jobs) (schedule_process one_running quantum_completed jobs)
schedule_process-Dispatched_example =
    schedule_process-Dispatched quantum_completed one_running-IsValid

schedule_process-Requeued_example :
    Returns
      (Requeued quantum_completed 1 one_running jobs)
      (schedule_process one_running quantum_completed jobs)
schedule_process-Requeued_example =
    schedule_process-Requeued quantum_completed one_running-IsValid (omega arith)
