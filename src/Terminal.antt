-- ===== src/Terminal.antt =====
-- The functions of terminal/terminal.c that read the kernel for the views: which process has a segment, the
-- largest segment, and how many processes wait for semaphores. The children hold the views, the menu and the
-- windows.
pub mod Format
pub mod Lines
pub mod Titles
pub mod TitleRoom
pub mod Reader
pub mod Refresh
pub mod Shown
pub mod Following
pub mod Complete
pub mod CatchUp
pub mod ProcessView
pub mod ProcessRest
pub mod ProcessShown
pub mod Menu
pub mod MenuLoop
pub mod Layout
pub mod Placed
pub mod MemoryView
pub mod Loops
pub mod Screen
pub mod MemoryLines
pub mod MemoryShown
pub mod MenuCreate
pub mod Views
use ribabari.Prelude.{
  List, [], ◌∷◌, if◌then◌else◌, length, ℤ, pos, ◌+ℤ◌, eq_ℤ, ltb_ℤ, int, Run, ok, ◌>>=◌,
}
use ribabari.Process.{Ptr, null, Store, load}
use ribabari.Semaphore.{SemaphoreTable}
use ribabari.Memory.{Segment}

-- The loop of `sem_blocked_count`, with the count so far.
unfoldable pub sem_blocked_from : ℤ → SemaphoreTable → Run ℤ
sem_blocked_from count [] = ok count
sem_blocked_from count (sem ∷ rest) = do
  count1 ← int (count +ℤ pos (length sem.waiters))
  sem_blocked_from count1 rest

unfoldable pub sem_blocked_count : SemaphoreTable → Run ℤ
sem_blocked_count sem_table = sem_blocked_from (pos 0) sem_table

-- The loop of `max_seg_size`, with the largest size so far.
unfoldable pub max_seg_from : ℤ → List Segment → ℤ
max_seg_from max [] = max
max_seg_from max (it ∷ rest) = max_seg_from (if ltb_ℤ max it.size then it.size else max) rest

unfoldable pub max_seg_size : List Segment → ℤ
max_seg_size seg_list = max_seg_from (pos 0) seg_list

-- The first process of the table with the segment, NULL if there is none.
unfoldable pub get_process_sid : Store → List Ptr → ℤ → Run Ptr
get_process_sid s [] sid = ok null
get_process_sid s (it ∷ rest) sid = do
  c ← load s it
  if eq_ℤ c.seg_id sid then ok it else get_process_sid s rest sid
