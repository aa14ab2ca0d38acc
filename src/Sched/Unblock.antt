-- ===== src/Sched/Unblock.antt =====
-- `schedule_unblock_process`: a blocked process goes to the end of the queue that the caller names.
use mathlib.Core.Option
use ribabari.Prelude.{
  ℕ, suc, ◌+◌, ◌<◌, ◌≡◌, refl, some, none, arith, ◌==◌, if◌then◌else◌, ==-cases, inl, inr, Option,
  false, List, [], ◌∷◌, ok, count, count-append, erase, count-erase, Returns, ◌∙◌, remove_at,
}
use ribabari.LinkedList.{list_add, list_search}
use ribabari.Process.{Ptr, Store, Points-load, proc_cmp}
use ribabari.Sched.{
  Scheduler, with_queue, QueueFlag, high, low, enqueue, unblock_node, schedule_unblock_process,
}
use ribabari.Sched.Valid.{IsValid, Live, Distinct, places}

-- On live processes with distinct ids `proc_cmp` compares the pointers.
pub proc_cmp-ok :
    (s : Store) (p q : Ptr) → Distinct s → Live s p → Live s q → proc_cmp s p q ≡ ok (p == q)
unfolding proc_cmp
proc_cmp-ok s p q d (a, hp, _) (b, hq, _) =
    rw (Points-load hp, Points-load hq) (ground (arith, d p q a.id, hp.holds, hq.holds))

-- What a search by `proc_cmp` finds, and the list without it.
pub data Found (p : Ptr) (xs : List Ptr) : Option ℕ → Type 0 where
  absent : count p xs ≡ 0 → Found p xs none
  at : (i : ℕ) → 0 < count p xs → remove_at xs i ≡ erase p xs → Found p xs (some i)

Found-cons :
    (p x : Ptr) (xs : List Ptr) (o : Option ℕ)
    → (x == p) ≡ false
    → Found p xs o
    → Found p (x ∷ xs) (Option.map suc o)
Found-cons p x xs none ne (absent e) = absent (ground arith)
Found-cons p x xs (some i) ne (at _ h e) = at (suc i) (ground arith) (ground arith)

pub list_search-Found :
    (s : Store) (p : Ptr) (xs : List Ptr)
    → Distinct s
    → Live s p
    → ((q : Ptr) → 0 < count q xs → Live s q)
    → Returns (Found p xs) (list_search (λ q. proc_cmp s q p) xs)
unfolding list_search
list_search-Found s p [] d l live = (none, refl, absent refl)
list_search-Found s p (x ∷ xs) d l live =
    let (o, e, found) = list_search-Found s p xs d l (λ q h. live q (grind arith)) in
    rw (proc_cmp-ok s x p d (live x (grind arith)) l) (elim (==-cases x p) [
      | inl hit ↦ rw hit (some 0, refl, at 0 (ground arith) (ground arith))
      | inr miss ↦ rw (miss, e) (Option.map suc o, refl, Found-cons p x xs o miss found)
    ])

-- The scheduler after `p` has left the blocked queue.
abbrev pub unblocked : QueueFlag → Ptr → Scheduler → Scheduler
unblocked flag p sch =
    if count p sch.blocked_queue.queue == 0
    then sch
    else enqueue flag p (record sch {
      blocked_queue = with_queue sch.blocked_queue (erase p sch.blocked_queue.queue);
    })

unblock_node-Found :
    (p : Ptr) (flag : QueueFlag) (sch : Scheduler) (o : Option ℕ)
    → Found p sch.blocked_queue.queue o
    → unblock_node flag p sch o ≡ ok (unblocked flag p sch)
unfolding unblock_node
unblock_node-Found p flag sch none (absent e) = ground arith
unblock_node-Found p flag sch (some i) (at _ h e) = ground arith

pub schedule_unblock_process-ok :
    {sch : Scheduler} {s : Store} (p : Ptr) (flag : QueueFlag)
    → IsValid sch s
    → Live s p
    → schedule_unblock_process sch p flag s ≡ ok (unblocked flag p sch)
unfolding schedule_unblock_process
schedule_unblock_process-ok {sch} {s} p flag v l =
    let (o, e, found) =
      list_search-Found s p sch.blocked_queue.queue v.ids l (λ q h. v.live q (omega arith)) in
    rw e (unblock_node-Found p flag sch o found)

pub unblocked-places :
    (p q : Ptr) (flag : QueueFlag) (sch : Scheduler)
    → places q (unblocked flag p sch) ≡ places q sch
unfolding enqueue
unblocked-places p q low sch =
    ground
      (arith, count-append q sch.low_queue.queue (p ∷ []), count-erase p q sch.blocked_queue.queue)
unblocked-places p q high sch =
    ground
      (arith, count-append q sch.high_queue.queue (p ∷ []), count-erase p q sch.blocked_queue.queue)

unblocked-slices :
    (p : Ptr) (flag : QueueFlag) (sch : Scheduler)
    → ((unblocked flag p sch).high_queue.quantum ≡ sch.high_queue.quantum)
      × ((unblocked flag p sch).low_queue.quantum ≡ sch.low_queue.quantum)
unfolding enqueue
unblocked-slices p low sch = ground arith
unblocked-slices p high sch = ground arith

pub unblocked-blocked :
    (p q : Ptr) (flag : QueueFlag) (sch : Scheduler)
    → 0 < count p sch.blocked_queue.queue
    → count q sch.blocked_queue.queue
      ≡ (if p == q then 1 else 0) + count q (unblocked flag p sch).blocked_queue.queue
unfolding enqueue
unblocked-blocked p q low sch h = ground (arith, count-erase p q sch.blocked_queue.queue)
unblocked-blocked p q high sch h = ground (arith, count-erase p q sch.blocked_queue.queue)

pub unblocked-low :
    (p : Ptr) (sch : Scheduler)
    → 0 < count p sch.blocked_queue.queue
    → ((unblocked low p sch).low_queue.queue ≡ list_add sch.low_queue.queue p)
      × ((unblocked low p sch).high_queue.queue ≡ sch.high_queue.queue)
      × ((unblocked low p sch).scheduled_proc ≡ sch.scheduled_proc)
unfolding enqueue
unblocked-low p sch h = ground arith

pub unblocked-IsValid :
    {sch : Scheduler} {s : Store} (p : Ptr) (flag : QueueFlag)
    → IsValid sch s
    → IsValid (unblocked flag p sch) s
unblocked-IsValid {sch} p flag v = record {
  live = λ q h. v.live q (omega (arith, unblocked-places p q flag sch));
  once = λ q. omega (arith, unblocked-places p q flag sch, v.once q);
  ids = v.ids;
  high_slice = (unblocked-slices p flag sch).0 ∙ v.high_slice;
  low_slice = (unblocked-slices p flag sch).1 ∙ v.low_slice;
}

-- For a live process, `schedule_unblock_process` returns and leaves a valid scheduler valid.
pub schedule_unblock_process-IsValid :
    {sch : Scheduler} {s : Store} (p : Ptr) (flag : QueueFlag)
    → IsValid sch s
    → Live s p
    → Returns (λ sch'. IsValid sch' s) (schedule_unblock_process sch p flag s)
schedule_unblock_process-IsValid {sch} p flag v l =
    (unblocked flag p sch, schedule_unblock_process-ok p flag v l, unblocked-IsValid p flag v)

abbrev pub queue_of : QueueFlag → Scheduler → List Ptr
queue_of high sch = sch.high_queue.queue
queue_of low sch = sch.low_queue.queue

-- On a valid scheduler, for a live process: if it is blocked, it leaves the blocked queue for the
-- end of the queue that is named; if not, nothing changes; and every process keeps its number of
-- places.
pub schedule_unblock_process-moves :
    {sch : Scheduler} {s : Store} (p : Ptr) (flag : QueueFlag)
    → IsValid sch s
    → Live s p
    → Returns
        (λ sch'.
          (if count p sch.blocked_queue.queue == 0
            then sch' ≡ sch
            else (count p sch'.blocked_queue.queue ≡ 0)
              × (queue_of flag sch' ≡ list_add (queue_of flag sch) p))
          × ((q : Ptr) → places q sch' ≡ places q sch))
        (schedule_unblock_process sch p flag s)
unfolding enqueue
schedule_unblock_process-moves {sch} p flag v l = (
  unblocked flag p sch,
  schedule_unblock_process-ok p flag v l,
  (go flag, λ q. unblocked-places p q flag sch),
)
  where
    go :
        (flag : QueueFlag)
        → if count p sch.blocked_queue.queue == 0
          then unblocked flag p sch ≡ sch
          else (count p (unblocked flag p sch).blocked_queue.queue ≡ 0)
            × (queue_of flag (unblocked flag p sch) ≡ list_add (queue_of flag sch) p)
    go low = ground (arith, v.once p, count-erase p p sch.blocked_queue.queue)
    go high = ground (arith, v.once p, count-erase p p sch.blocked_queue.queue)
