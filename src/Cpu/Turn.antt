-- ===== src/Cpu/Turn.antt =====
-- A turn of the CPU thread is made of the steps of Kernel.Step.
use ribabari.Process.{Process}
use ribabari.Kernel.State.{Kernel}
use ribabari.Kernel.Step.{Step}
use ribabari.Cpu.{Cpu}
