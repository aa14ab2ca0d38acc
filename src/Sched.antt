-- ===== src/Sched.antt =====
-- sched/sched.c and sched/sched.h: the three queues, the choice of the next process, and the way back
-- from the blocked queue. A function takes the scheduler and the heap of processes, and returns both.
pub mod Valid
pub mod Choose
pub mod Schedule
pub mod Dispatch
pub mod Fields
pub mod Unblock
use ribabari.Prelude.{
  ℕ, Bool, not, ◌||◌, Option, none, some, List, [], ◌∷◌, ◌==◌, if◌then◌else◌, bit_and, ℤ, pos,
  negsuc, ◌+ℤ◌, int, max_int, min_int, Run, ok, ◌>>=◌,
}
use ribabari.LinkedList.{list_add, list_empty, list_remove_head, list_search, list_remove_node}
use ribabari.Process.{
  Ptr, null, Process, ProcessState, ready, blocked, running, Store, write, load, proc_cmp,
}

-- `scheduler_flag_t`, a set of bits.
abbrev pub none_flag : ℕ
none_flag = 0

abbrev pub io_requested : ℕ
io_requested = 1

abbrev pub quantum_completed : ℕ
quantum_completed = 2

abbrev pub semaphore_blocked : ℕ
semaphore_blocked = 4

abbrev pub has : ℕ → ℕ → Bool
has flags bit = not (bit_and flags bit == 0)

pub data QueueFlag : Type 0 where
  low high : QueueFlag

abbrev pub high_quantum : ℤ
high_quantum = pos 1000

abbrev pub low_quantum : ℤ
low_quantum = pos 2000

pub record SchedulerQueue : Type 0 where
  pub queue : List Ptr
  pub quantum : ℤ

pub record Scheduler : Type 0 where
  pub scheduled_proc : Ptr
  pub high_queue : SchedulerQueue
  pub low_queue : SchedulerQueue
  pub blocked_queue : SchedulerQueue

abbrev pub with_queue : SchedulerQueue → List Ptr → SchedulerQueue
with_queue q xs = record q { queue = xs }

unfoldable pub create_queue : ℤ → SchedulerQueue
create_queue quantum = record { queue = []; quantum = quantum }

unfoldable pub scheduler_init : Scheduler
unfolding create_queue
scheduler_init = record {
  scheduled_proc = null;
  high_queue = create_queue high_quantum;
  low_queue = create_queue low_quantum;
  blocked_queue = create_queue (negsuc 0);
}

-- `p->remaining = MAX(lo, MIN(hi, p->remaining + quantum))`, unless `p` is NULL.
unfoldable pub top_up : ℤ → ℤ → ℤ → Ptr → Store → Run Store
top_up lo hi quantum p s = if p == null then ok s else do
  c ← load s p
  sum ← int (c.remaining +ℤ quantum)
  ok (write s p (some (record c { remaining = max_int lo (min_int hi sum) })))

unfoldable pub set_state : ProcessState → Ptr → Store → Run Store
set_state state p s = do c ← load s p; ok (write s p (some (record c { state = state })))

-- The next process: the head of the high queue, else of the low queue, else NULL.
unfoldable pub take_next : Scheduler → Store → Run (Ptr × Scheduler × Store)
take_next sch s =
    if not (list_empty sch.high_queue.queue)
    then (do
      (p, rest) ← list_remove_head sch.high_queue.queue
      t ← top_up (pos 1000) high_quantum sch.high_queue.quantum p s
      ok (p, record sch { high_queue = with_queue sch.high_queue rest }, t))
    else if not (list_empty sch.low_queue.queue)
    then (do
      (p, rest) ← list_remove_head sch.low_queue.queue
      t ← top_up (pos 0) low_quantum sch.low_queue.quantum p s
      ok (p, record sch { low_queue = with_queue sch.low_queue rest }, t))
    else ok (null, sch, s)

-- What becomes of the process that had the CPU.
unfoldable pub put_back : ℕ → Ptr → Scheduler → Store → Run (Scheduler × Store)
put_back flags curr sch s =
    if curr == null
    then ok (sch, s)
    else if has flags io_requested || has flags semaphore_blocked
    then (do
      let queue = with_queue sch.blocked_queue (list_add sch.blocked_queue.queue curr)
      t ← set_state blocked curr s
      ok (record sch { blocked_queue = queue }, t))
    else if has flags quantum_completed
    then (do
      let queue = with_queue sch.high_queue (list_add sch.high_queue.queue curr)
      t ← set_state ready curr s
      ok (record sch { high_queue = queue }, t))
    else ok (sch, s)

unfoldable pub schedule_process : Scheduler → ℕ → Store → Run (Scheduler × Store)
schedule_process sch flags s = do
  (next, sch1, s1) ← take_next sch s
  (sch2, s2) ← put_back flags sch.scheduled_proc sch1 s1
  s3 ← if next == null then ok s2 else set_state running next s2
  ok (record sch2 { scheduled_proc = next }, s3)

-- `default:` of the switch prints and exits; the enum has no third value.
unfoldable pub enqueue : QueueFlag → Ptr → Scheduler → Scheduler
enqueue high p sch = record sch {
  high_queue = with_queue sch.high_queue (list_add sch.high_queue.queue p);
}
enqueue low p sch = record sch {
  low_queue = with_queue sch.low_queue (list_add sch.low_queue.queue p);
}

-- The part of `schedule_unblock_process` behind the search.
unblock_node : QueueFlag → Ptr → Scheduler → Option ℕ → Run Scheduler
unblock_node flag p sch none = ok sch
unblock_node flag p sch (some i) = do
  rest ← list_remove_node sch.blocked_queue.queue (some i)
  ok (enqueue flag p (record sch { blocked_queue = with_queue sch.blocked_queue rest }))

unfoldable pub schedule_unblock_process : Scheduler → Ptr → QueueFlag → Store → Run Scheduler
unfolding unblock_node
schedule_unblock_process sch p flag s = do
  node ← list_search (λ q. proc_cmp s q p) sch.blocked_queue.queue
  unblock_node flag p sch node
