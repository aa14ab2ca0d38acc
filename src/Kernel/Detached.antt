-- ===== src/Kernel/Detached.antt =====
-- How process_finish of process/process.c takes a process from the queues of the scheduler.
use ribabari.Prelude.{
  ℕ, ◌<◌, ◌≡◌, ◌≢◌, refl, ◌∙◌, Option, none, some, List, arith, ◌==◌, ==_refl, ==-cases, true,
  false, inl, inr, if◌then◌else◌, ok, Run, ◌>>=◌, count, erase, count-erase,
}
use ribabari.LinkedList.{list_remove_node}
use ribabari.Process.{Ptr, Store, write, Points-write_ne}
use ribabari.Sched.{Scheduler, with_queue}
use ribabari.Sched.Valid.{IsValid, Live, Distinct, places, at_cpu}
use ribabari.Sched.Unblock.{Found, absent, at, list_search-Found}
use ribabari.Kernel.Finish.{detach, detach_low, detach_blocked}

abbrev pub without_blocked : Ptr → Scheduler → Scheduler
without_blocked p sch = if count p sch.blocked_queue.queue == 0 then sch else record sch {
  blocked_queue = with_queue sch.blocked_queue (erase p sch.blocked_queue.queue);
}

abbrev pub without_low : Ptr → Scheduler → Scheduler
without_low p sch =
    if count p sch.low_queue.queue == 0
    then without_blocked p sch
    else record sch { low_queue = with_queue sch.low_queue (erase p sch.low_queue.queue) }

-- The scheduler without the process in its queues.
abbrev pub without : Ptr → Scheduler → Scheduler
without p sch =
    if count p sch.high_queue.queue == 0
    then without_low p sch
    else record sch { high_queue = with_queue sch.high_queue (erase p sch.high_queue.queue) }

-- Taking what a search found out of a list, or going on elsewhere.
removed :
    (p : Ptr) (xs : List Ptr) (o : Option ℕ) (other : Run Scheduler) (next : Scheduler)
    (f : List Ptr → Scheduler)
    → Found p xs o
    → other ≡ ok next
    → (elim o [ none ↦ other | some i ↦ (do queue ← list_remove_node xs (some i); ok (f queue)) ])
      ≡ ok (if count p xs == 0 then next else f (erase p xs))
removed p xs none other next f (absent e) h = ground arith
removed p xs (some i) other next f (at _ h' e) h = ground arith

module _ {sch : Scheduler} {s : Store} (p : Ptr) (v : IsValid sch s) (l : Live s p) where
  detach_blocked-ok : detach_blocked p sch s ≡ ok (without_blocked p sch)
  unfolding detach_blocked
  detach_blocked-ok =
      let xs = sch.blocked_queue.queue in
      let (o, e, found) = list_search-Found s p xs v.ids l (λ q h. v.live q (omega arith)) in
      rw e (
        removed p xs o (ok sch) sch
          (λ ys. record sch { blocked_queue = with_queue sch.blocked_queue ys }) found refl)

  detach_low-ok : detach_low p sch s ≡ ok (without_low p sch)
  unfolding detach_low
  detach_low-ok =
      let xs = sch.low_queue.queue in
      let (o, e, found) = list_search-Found s p xs v.ids l (λ q h. v.live q (omega arith)) in
      rw e (
        removed p xs o _ (without_blocked p sch)
          (λ ys. record sch { low_queue = with_queue sch.low_queue ys }) found detach_blocked-ok)

  pub detach-ok : detach p sch s ≡ ok (without p sch)
  unfolding detach
  detach-ok =
      let xs = sch.high_queue.queue in
      let (o, e, found) = list_search-Found s p xs v.ids l (λ q h. v.live q (omega arith)) in
      rw e (
        removed p xs o _ (without_low p sch)
          (λ ys. record sch { high_queue = with_queue sch.high_queue ys }) found detach_low-ok)

  -- Every other process stays where it is, and this one is nowhere.
  pub without-places :
      at_cpu p sch.scheduled_proc ≡ 0
      → (q : Ptr) → places q (without p sch) ≡ (if p == q then 0 else places q sch)
  without-places off q = ground (
    arith,
    v.once p,
    count-erase p q sch.high_queue.queue,
    count-erase p q sch.low_queue.queue,
    count-erase p q sch.blocked_queue.queue,
  )

-- The others stay in the blocked queue.
pub without-blocked :
    (p q : Ptr) (sch : Scheduler)
    → p ≢ q
    → count q (without p sch).blocked_queue.queue ≡ count q sch.blocked_queue.queue
without-blocked p q sch ne = ground (arith, count-erase p q sch.blocked_queue.queue)

without-slices :
    (p : Ptr) (sch : Scheduler)
    → ((without p sch).high_queue.quantum ≡ sch.high_queue.quantum)
      × ((without p sch).low_queue.quantum ≡ sch.low_queue.quantum)
without-slices p sch = ground arith

pub write-none : (s : Store) (p : Ptr) → write s p none p ≡ none
unfolding write
write-none s p = rw (==_refl p)

Distinct-freed : (s : Store) (p : Ptr) → Distinct s → Distinct (write s p none)
unfolding write
Distinct-freed s p d a b i ha hb = d a b i (ground arith) (ground arith)

pub Live-freed : (s : Store) (p q : Ptr) → p ≢ q → Live s q → Live (write s p none) q
Live-freed s p q ne (c, h, b) = (c, Points-write_ne p none ne h, b)

-- Once the process is not at the CPU either, its memory can be freed.
pub without-IsValid :
    {sch : Scheduler} {s : Store} (p : Ptr)
    → IsValid sch s
    → Live s p
    → at_cpu p sch.scheduled_proc ≡ 0
    → IsValid (without p sch) (write s p none)
without-IsValid {sch} {s} p v l off = record {
  live = λ q h. elim (==-cases p q) [
    | inl hit ↦ absurd (at_none q hit h)
    | inr miss ↦ Live-freed s p q (ground arith) (v.live q (kept q miss h))
  ];
  once = λ q. ground (arith, without-places p v l off q, v.once q);
  ids = Distinct-freed s p v.ids;
  high_slice = (without-slices p sch).0 ∙ v.high_slice;
  low_slice = (without-slices p sch).1 ∙ v.low_slice;
}
  where
    at_none : (q : Ptr) → (p == q) ≡ true → 0 < places q (without p sch) → ⊥
    at_none q hit h = let e = without-places p v l off q in let e' = rw hit at e in omega arith

    kept : (q : Ptr) → (p == q) ≡ false → 0 < places q (without p sch) → 0 < places q sch
    kept q miss h = let e = without-places p v l off q in let e' = rw miss at e in omega arith
