-- ===== src/Tests/CreateTests.antt =====
-- The creation of a third process, beside two that there are.
use ribabari.Prelude.{refl, some, arith, Returns}
use ribabari.Program.Printed.{print_lines}
use ribabari.Program.RoundTrip.{code_lines}
use ribabari.Program.Header.{print_head}
use ribabari.Kernel.Create.{process_create}
use ribabari.Kernel.Created.{Created, NumberedBelow, process_create-Created}
use ribabari.Tests.Data.{jobs, kernel_with, one_running, one_running-IsValid}
use ribabari.Tests.ProgramTests.{head, head-IsHead, statements, s_found}

numbered : NumberedBelow 3 jobs
numbered q i h = ground arith

process_create-Created_example :
    Returns (Created 3 head statements 4096 1073741824 (kernel_with one_running)) (
      process_create
        (some (print_head head (print_lines (code_lines statements))))
        3
        (kernel_with one_running))
process_create-Created_example =
    process_create-Created 3 (kernel_with one_running) head statements 4 1073741824
      one_running-IsValid (omega arith) refl numbered head-IsHead (omega arith)
      (omega arith, ((omega arith, omega arith, (0, s_found)), (omega arith, tt))) refl refl
      (omega arith) (omega arith)
