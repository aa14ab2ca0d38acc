-- ===== src/Tests/KernelTests.antt =====
-- A print call and a disk request of the process that has the CPU, while another one is ready.
use ribabari.Prelude.{pos, Returns, refl, arith, ◌-ℤ◌, ◌+ℤ◌, true, ◌≡◌, ok, [], ◌∷◌}
use ribabari.Process.{running, has_opened_file, mem_file}
use ribabari.File.{file_size}
use ribabari.File.Active.{absent}
use ribabari.File.Openers.{IsActive}
use ribabari.Kernel.{print_call, disk_rw_request}
use ribabari.Kernel.Print.{Printed, print_call-Printed}
use ribabari.Kernel.DiskCall.{Requested, disk_rw_request-Requested}
use ribabari.Tests.Data.{job, jobs, kernel_with, libc, one_running, one_running-IsValid, Points-one}

print_call-Printed_example :
    Returns
      (Printed (kernel_with one_running) (job 1 running) (pos 40))
      (print_call (pos 40) (kernel_with one_running))
unfolding ◌-ℤ◌ ◌+ℤ◌
print_call-Printed_example =
    print_call-Printed (kernel_with one_running) (job 1 running) (pos 40) one_running-IsValid
      Points-one (omega arith, omega arith) (omega arith, omega arith)

nothing_open : IsActive (1 ∷ 2 ∷ []) jobs []
unfolding has_opened_file mem_file
nothing_open n = absent

size_drawn : file_size libc 7 7 ≡ ok (pos 807)
unfolding file_size ◌+ℤ◌
size_drawn = refl

disk_rw_request-Requested_example :
    Returns
      (Requested 60 true (kernel_with one_running))
      (disk_rw_request libc true (pos 60) (kernel_with one_running))
disk_rw_request-Requested_example =
    disk_rw_request-Requested libc 60 (kernel_with one_running) (job 1 running) (pos 807)
      one_running-IsValid Points-one (λ q. omega arith) nothing_open refl (omega arith)
      (omega arith) (omega arith) (omega arith) size_drawn true
