-- ===== src/Tests.antt =====
-- Concrete states, and the theorems applied to them.
mod Data
mod SchedTests
mod SemaphoreTests
mod MemoryTests
mod DiskTests
mod FileTests
mod ProgramTests
mod CreateTests
mod KernelTests
mod CpuTests
mod ListTests
mod FinishTests
mod SemCallTests
mod StepTests
mod TerminalTests
mod MenuTests
mod MemoryViewTests
mod StartTests
