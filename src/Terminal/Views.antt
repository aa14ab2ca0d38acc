-- ===== src/Terminal/Views.antt =====
-- What the functions that read the kernel for the views give.
use ribabari.Prelude.{
  ℕ, suc, ◌+◌, ◌<◌, ◌≤◌, ◌≡◌, refl, List, [], ◌∷◌, ◌++◌, arith, if◌then◌else◌, ◌∙◌, ap, ok, int,
  length, length-append, count, count-append, erase, count-erase, ℤ, pos, ◌+ℤ◌, ◌≤ℤ◌, int_max, All,
  ltb_ℤ,
}
use ribabari.Process.{Ptr}
use ribabari.Semaphore.{SemaphoreTable}
use ribabari.Memory.{Segment}
use ribabari.Disk.Resolve.{processes}
use ribabari.Kernel.State.{Kernel}
use ribabari.Kernel.Asleep.{waiting, IsSettled}
use ribabari.Terminal.{sem_blocked_from, sem_blocked_count, max_seg_from, max_seg_size}

-- A list that holds every number at most as often as another is not longer.
length-count : (xs ys : List ℕ) → ((q : ℕ) → count q xs ≤ count q ys) → length xs ≤ length ys
length-count [] ys h = omega arith
length-count (x ∷ xs) ys h =
    let here : 0 < count x ys = ground (arith, h x) in
    omega (
      arith,
      length-erase x ys here,
      length-count xs (erase x ys) (λ q. ground (arith, h q, count-erase x q ys here)),
    )
  where
    length-erase : (x : ℕ) (ys : List ℕ) → 0 < count x ys → length ys ≡ suc (length (erase x ys))
    length-erase x [] h = absurd (omega arith)
    length-erase x (y ∷ ys) h = ground (arith, length-erase x ys)

-- All that wait for a semaphore.
abbrev pub all_waiters : SemaphoreTable → List Ptr
all_waiters [] = []
all_waiters (sem ∷ rest) = sem.waiters ++ all_waiters rest

count-all_waiters :
    (q : Ptr) (table : SemaphoreTable) → count q (all_waiters table) ≡ waiting q table
count-all_waiters q [] = refl
count-all_waiters q (sem ∷ rest) =
    omega (arith, count-append q sem.waiters (all_waiters rest), count-all_waiters q rest)

added : (n m : ℕ) → n + m ≤ int_max → int (pos n +ℤ pos m) ≡ ok (pos (n + m))
unfolding ◌+ℤ◌
added n m room = ground arith

pub blocked_sum :
    (n : ℕ) (table : SemaphoreTable)
    → n + length (all_waiters table) ≤ int_max
    → sem_blocked_from (pos n) table ≡ ok (pos (n + length (all_waiters table)))
unfolding sem_blocked_from
blocked_sum n [] room = ap (λ m. ok (pos m)) (omega arith)
blocked_sum n (sem ∷ rest) room =
    let more = length-append sem.waiters (all_waiters rest) in
    rw (added n (length sem.waiters) (omega (arith, more, room))) (
      blocked_sum (n + length sem.waiters) rest (omega (arith, more, room))
      ∙ ap (λ m. ok (pos m)) (omega (arith, more)))

-- On a settled kernel whose blocked queue is no longer than INT_MAX, sem_blocked_count does not overflow;
-- it gives the number of the processes that wait for semaphores, at most that of the blocked ones.
pub sem_blocked_count-waiters :
    (k : Kernel)
    → IsSettled k
    → length k.scheduler.blocked_queue.queue ≤ int_max
    → (sem_blocked_count k.sem_table ≡ ok (pos (length (all_waiters k.sem_table))))
      × (length (all_waiters k.sem_table) + length (processes k.disk_scheduler.pending_requests)
          ≤ length k.scheduler.blocked_queue.queue)
unfolding sem_blocked_count
sem_blocked_count-waiters k settled few =
    let waits = all_waiters k.sem_table in
    let reads = processes k.disk_scheduler.pending_requests in
    let both : length waits + length reads ≤ length k.scheduler.blocked_queue.queue = omega (
      arith,
      length-append waits reads,
      length-count (waits ++ reads) k.scheduler.blocked_queue.queue (λ q.
          omega
            (arith, settled.asleep q, count-append q waits reads, count-all_waiters q k.sem_table)),
    ) in
    (
      blocked_sum 0 k.sem_table (omega (arith, both, few)) ∙ ap (λ m. ok (pos m)) (omega arith),
      both,
    )

max_seg_from-ge :
    (most : ℤ) (segs : List Segment)
    → (most ≤ℤ max_seg_from most segs) × All (λ seg. seg.size ≤ℤ max_seg_from most segs) segs
unfolding max_seg_from
max_seg_from-ge most [] = (omega arith, tt)
max_seg_from-ge most (it ∷ rest) =
    let next = if ltb_ℤ most it.size then it.size else most in
    let (up, all) = max_seg_from-ge next rest in (ground (arith, up), (ground (arith, up), all))

-- No segment is larger than `max_seg_size`, which is not negative.
pub max_seg_size-ge :
    (segs : List Segment)
    → (pos 0 ≤ℤ max_seg_size segs) × All (λ seg. seg.size ≤ℤ max_seg_size segs) segs
unfolding max_seg_size
max_seg_size-ge segs = max_seg_from-ge (pos 0) segs
