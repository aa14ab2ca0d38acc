-- ===== src/Sched/Schedule.antt =====
-- `schedule_process` as a whole: it returns on every valid scheduler, loses no process that it was told
-- to requeue, and hands the CPU over by the priority of the queues.
use ribabari.Prelude.{
  ℕ, ◌+◌, ◌≤◌, ◌≡◌, refl, arith, ◌==◌, if◌then◌else◌, inl, inr, ◌||◌, Bool, true, false, ◌+ℤ◌, [],
  ◌∷◌, ok, count, count-append, Returns, Bool-cases, if_intro, ◌∙◌,
}
use ribabari.Process.{Ptr, null, Process, ProcessState, ready, blocked, running, Store}
use ribabari.Process.Update.{update, id_of, id_of-update}
use ribabari.Sched.{
  Scheduler, schedule_process, has, io_requested, semaphore_blocked, quantum_completed,
}
use ribabari.Sched.Valid.{
  InBudget, IsValid, Live, places, at_cpu, Live-update, Distinct, Distinct-update, Distinct-same,
}
use ribabari.Sched.Choose.{
  Chosen, from_high, from_low, idle, take_next-Taken, requeue, mark, start, put_back-ok, start-ok,
  full_slice, low_slice, with_state,
}

-- The flags under which the process that had the CPU is put in a queue.
abbrev pub requeues : ℕ → Bool
requeues flags =
    (has flags io_requested || has flags semaphore_blocked) || has flags quantum_completed

abbrev pub queued : Ptr → Scheduler → ℕ
queued q sch =
    count q sch.high_queue.queue + count q sch.low_queue.queue + count q sch.blocked_queue.queue

low_slice-InBudget : (c : Process) → InBudget c → InBudget (low_slice c)
unfolding ◌+ℤ◌
low_slice-InBudget c b = ground arith

module _ {sch sch1 : Scheduler} {s t : Store} {p : Ptr} where
  Chosen-Live : Chosen sch s p sch1 t → (q : Ptr) → Live s q → Live t q
  Chosen-Live (from_high rest e ne e1 e2) q l =
      rw e2 (Live-update s p q full_slice (λ c b. omega arith) l)
  Chosen-Live (from_low rest e e' ne e1 e2) q l =
      rw e2 (Live-update s p q low_slice low_slice-InBudget l)
  Chosen-Live (idle e e' ne e1 e2) q l = rw e2 l

  Chosen-Distinct : Chosen sch s p sch1 t → Distinct s → Distinct t
  Chosen-Distinct (from_high rest e ne e1 e2) d =
      rw e2 (Distinct-update s p full_slice (λ c. refl) d)
  Chosen-Distinct (from_low rest e e' ne e1 e2) d =
      rw e2 (Distinct-update s p low_slice (λ c. refl) d)
  Chosen-Distinct (idle e e' ne e1 e2) d = rw e2 d

  Chosen-queued : (q : Ptr) → Chosen sch s p sch1 t → at_cpu q p + queued q sch1 ≡ queued q sch
  Chosen-queued q (from_high rest e ne e1 e2) = rw e1 (ground arith)
  Chosen-queued q (from_low rest e e' ne e1 e2) = rw e1 (ground arith)
  Chosen-queued q (idle e e' ne e1 e2) = rw (e1, ne) (omega arith)

  Chosen-same :
      Chosen sch s p sch1 t
      → (sch1.high_queue.quantum ≡ sch.high_queue.quantum)
        × (sch1.low_queue.quantum ≡ sch.low_queue.quantum)
  Chosen-same (from_high rest e ne e1 e2) = rw e1 (refl, refl)
  Chosen-same (from_low rest e e' ne e1 e2) = rw e1 (refl, refl)
  Chosen-same (idle e e' ne e1 e2) = rw e1 (refl, refl)

requeue-queued :
    (flags : ℕ) (curr q : Ptr) (sch : Scheduler)
    → queued q (requeue flags curr sch)
      ≡ queued q sch + (if requeues flags then at_cpu q curr else 0)
requeue-queued flags curr q sch = ground (
  arith,
  count-append q sch.high_queue.queue (curr ∷ []),
  count-append q sch.blocked_queue.queue (curr ∷ []),
)

requeue-same :
    (flags : ℕ) (curr : Ptr) (sch : Scheduler)
    → ((requeue flags curr sch).high_queue.quantum ≡ sch.high_queue.quantum)
      × ((requeue flags curr sch).low_queue.quantum ≡ sch.low_queue.quantum)
requeue-same flags curr sch = ground arith

module _ (curr q : Ptr) (s : Store) where
  state-Live : (state : ProcessState) → Live s q → Live (update s curr (with_state state)) q
  state-Live state l = Live-update s curr q (with_state state) (λ c b. b) l

  mark-Live : (flags : ℕ) → Live s q → Live (mark flags curr s) q
  mark-Live flags l =
      if_intro (λ (t : Store). Live t q) (curr == null) _ _ l
        (if_intro (λ (t : Store). Live t q) _ _ _ (state-Live blocked l)
          (if_intro (λ (t : Store). Live t q) _ _ _ (state-Live ready l) l))

  start-Live : Live s q → Live (start curr s) q
  start-Live l = if_intro (λ (t : Store). Live t q) (curr == null) _ _ l (state-Live running l)

mark-id_of : (flags : ℕ) (curr q : Ptr) (s : Store) → id_of (mark flags curr s) q ≡ id_of s q
mark-id_of flags curr q s = ground (
  arith,
  id_of-update s curr q (with_state blocked) (λ c. refl),
  id_of-update s curr q (with_state ready) (λ c. refl),
)

start-id_of : (curr q : Ptr) (s : Store) → id_of (start curr s) q ≡ id_of s q
start-id_of curr q s = ground (arith, id_of-update s curr q (with_state running) (λ c. refl))

-- The scheduler and the processes after `schedule_process` chose `p`.
abbrev pub finish : ℕ → Ptr → Scheduler → Scheduler → Scheduler
finish flags p sch sch1 = record (requeue flags sch.scheduled_proc sch1) { scheduled_proc = p }

abbrev pub finish_store : ℕ → Ptr → Scheduler → Store → Store
finish_store flags p sch t = start p (mark flags sch.scheduled_proc t)

abbrev pub Result : Scheduler → ℕ → Store → Type 0
Result sch flags s =
    (p : Ptr) × (sch1 : Scheduler) × (t : Store) × Chosen sch s p sch1 t
    × (schedule_process sch flags s ≡ ok (finish flags p sch sch1, finish_store flags p sch t))

-- The one equation about `schedule_process`: it returns, with these queues and these processes.
pub schedule_process-ok :
    {sch : Scheduler} {s : Store} (flags : ℕ) → IsValid sch s → Result sch flags s
unfolding schedule_process
schedule_process-ok {sch} {s} flags v =
    let (p, sch1, t, e, chosen) = take_next-Taken v in
    let l0 : (sch.scheduled_proc == null) ≡ false → Live t sch.scheduled_proc =
      λ ne. Chosen-Live chosen sch.scheduled_proc (v.live sch.scheduled_proc (grind arith)) in
    let l1 : (p == null) ≡ false → Live (mark flags sch.scheduled_proc t) p = λ ne.
      mark-Live sch.scheduled_proc p t flags
        (Chosen-Live chosen p (v.live p (grind (arith, Chosen-queued p chosen)))) in
    (
      p,
      sch1,
      t,
      chosen,
      rw (
        e,
        put_back-ok flags sch.scheduled_proc sch1 t l0,
        start-ok p (mark flags sch.scheduled_proc t) l1,
      ),
    )

pub finish-places :
    (flags : ℕ) {sch sch1 : Scheduler} {s t : Store} (p q : Ptr)
    → Chosen sch s p sch1 t
    → places q (finish flags p sch sch1)
        + (if requeues flags then 0 else at_cpu q sch.scheduled_proc)
      ≡ places q sch
finish-places flags {sch} {sch1} p q chosen = elim (Bool-cases (requeues flags)) [
  | inl e ↦ rw e (omega (arith, moved e, Chosen-queued q chosen))
  | inr e ↦ rw e (omega (arith, stayed e, Chosen-queued q chosen))
]
  where
    moved :
        requeues flags ≡ true
        → queued q (requeue flags sch.scheduled_proc sch1)
          ≡ queued q sch1 + at_cpu q sch.scheduled_proc
    moved e = let h = requeue-queued flags sch.scheduled_proc q sch1 in rw e at h

    stayed :
        requeues flags ≡ false
        → queued q (requeue flags sch.scheduled_proc sch1) ≡ queued q sch1 + 0
    stayed e = let h = requeue-queued flags sch.scheduled_proc q sch1 in rw e at h

finish-le :
    (flags : ℕ) {sch sch1 : Scheduler} {s t : Store} (p q : Ptr)
    → Chosen sch s p sch1 t
    → places q (finish flags p sch sch1) ≤ places q sch
finish-le flags {sch} {sch1} p q chosen = omega (arith, finish-places flags p q chosen)

finish-id_of :
    (flags : ℕ) {sch sch1 : Scheduler} {s t : Store} (p q : Ptr)
    → Chosen sch s p sch1 t
    → id_of (finish_store flags p sch t) q ≡ id_of t q
finish-id_of flags {sch} {t = t} p q chosen =
    start-id_of p q (mark flags sch.scheduled_proc t) ∙ mark-id_of flags sch.scheduled_proc q t

finish-IsValid :
    (flags : ℕ) {sch sch1 : Scheduler} {s t : Store}
    → IsValid sch s
    → (p : Ptr) → Chosen sch s p sch1 t
    → IsValid (finish flags p sch sch1) (finish_store flags p sch t)
finish-IsValid flags {sch} {sch1} {t = t} v p chosen =
    let slices = requeue-same flags sch.scheduled_proc sch1 in
    record {
      live = λ q h. start-Live p q _ (
          mark-Live sch.scheduled_proc q t flags
            (Chosen-Live chosen q (v.live q (omega (arith, finish-le flags p q chosen)))));
      once = λ q. omega (arith, finish-le flags p q chosen, v.once q);
      ids = Distinct-same t _ (λ q. finish-id_of flags p q chosen) (Chosen-Distinct chosen v.ids);
      high_slice = slices.0 ∙ (Chosen-same chosen).0 ∙ v.high_slice;
      low_slice = slices.1 ∙ (Chosen-same chosen).1 ∙ v.low_slice;
    }

-- On a valid scheduler `schedule_process` returns, whatever the flags, and leaves a valid scheduler.
pub schedule_process-IsValid :
    {sch : Scheduler} {s : Store} (flags : ℕ)
    → IsValid sch s
    → Returns (λ r. IsValid r.0 r.1) (schedule_process sch flags s)
schedule_process-IsValid {sch} {s} flags v =
    let (p, sch1, t, chosen, e) = schedule_process-ok flags v in
    ((finish flags p sch sch1, finish_store flags p sch t), e, finish-IsValid flags v p chosen)

-- On a valid scheduler every process keeps exactly one place through `schedule_process`, but for the one
-- that had the CPU: without one of the three flags it has no place afterwards.
pub schedule_process-places :
    {sch : Scheduler} {s : Store} (flags : ℕ)
    → IsValid sch s
    → Returns
        (λ r.
          (q : Ptr)
          → places q r.0 + (if requeues flags then 0 else at_cpu q sch.scheduled_proc)
            ≡ places q sch)
        (schedule_process sch flags s)
schedule_process-places {sch} {s} flags v =
    let (p, sch1, t, chosen, e) = schedule_process-ok flags v in
    ((finish flags p sch sch1, finish_store flags p sch t), e, λ q. finish-places flags p q chosen)

-- The same, with what callers need besides: no live process dies.
pub schedule_process-keeps :
    {sch : Scheduler} {s : Store} (flags : ℕ)
    → IsValid sch s
    → Returns
        (λ r. IsValid r.0 r.1 × ((q : Ptr) → Live s q → Live r.1 q))
        (schedule_process sch flags s)
schedule_process-keeps {sch} {s} flags v =
    let (p, sch1, t, chosen, e) = schedule_process-ok flags v in
    (
      (finish flags p sch sch1, finish_store flags p sch t),
      e,
      (
        finish-IsValid flags v p chosen,
        λ q l. start-Live p q _ (mark-Live sch.scheduled_proc q t flags (Chosen-Live chosen q l)),
      ),
    )
