-- ===== src/Instruction.antt =====
-- process/instruction.h: the opcodes and the instructions. A field that has not been set is `none`, and
-- so is a NULL semaphore name.
use ribabari.Prelude.{Option, ℤ}
use ribabari.Process.{CString}

pub data Opcode : Type 0 where
  exec read write print sem_p sem_v : Opcode

pub record Instr : Type 0 where
  pub op : Opcode
  pub value : ℤ
  pub sem : Option CString
