-- ===== src/Sched/Dispatch.antt =====
-- Who gets the CPU from `schedule_process`, with how much time, and where the process that had it goes.
use ribabari.Prelude.{
  ℕ, ◌<◌, ◌≡◌, ◌≢◌, refl, sym, some, arith, if◌then◌else◌, ==_ne, inl, inr, ◌||◌, false, Bool, List,
  [], ◌∷◌, Returns, ◌⊎◌, ◌∙◌, rest_of,
}
use ribabari.LinkedList.{list_add}
use ribabari.Process.{Ptr, null, Process, ready, blocked, running, Store}
use ribabari.Process.Update.{update, update_self, update-ne}
use ribabari.Sched.{
  Scheduler, schedule_process, has, io_requested, semaphore_blocked, quantum_completed,
}
use ribabari.Sched.Valid.{IsValid, places}
use ribabari.Sched.Choose.{
  Chosen, from_high, from_low, idle, mark, start, full_slice, low_slice, with_state,
}
use ribabari.Sched.Schedule.{finish-places, finish, finish_store, schedule_process-ok}

mark-ne : (flags : ℕ) (curr q : Ptr) (s : Store) → curr ≢ q → mark flags curr s q ≡ s q
mark-ne flags curr q s ne =
    ground
      (arith, update-ne s curr q (with_state blocked) ne, update-ne s curr q (with_state ready) ne)

start_self :
    (p : Ptr) (s : Store) (c : Process)
    → p ≢ null
    → s p ≡ some c
    → start p s p ≡ some (with_state running c)
start_self p s c ne h = rw (==_ne p null ne) (update_self s p (with_state running) c h)

-- `p` is running, and is as it was but for its state and for the time that `slice` gives it.
abbrev pub Runs : (Process → Process) → Ptr → Store → Scheduler × Store → Type 0
Runs slice p s r =
    (r.0.scheduled_proc ≡ p)
    × ((c : Process) × (s p ≡ some c) × (r.1 p ≡ some (with_state running (slice c))))

abbrev pub Dispatched : Scheduler → Store → Scheduler × Store → Type 0
Dispatched sch s r =
    ((p : Ptr) × (rest : List Ptr) × (sch.high_queue.queue ≡ p ∷ rest) × Runs full_slice p s r)
    ⊎ ((p : Ptr) × (rest : List Ptr) × (sch.high_queue.queue ≡ [])
        × (sch.low_queue.queue ≡ p ∷ rest)
        × Runs low_slice p s r)
    ⊎ ((sch.high_queue.queue ≡ []) × (sch.low_queue.queue ≡ []) × (r.0.scheduled_proc ≡ null))

module _ {sch : Scheduler} {s : Store} (v : IsValid sch s) (flags : ℕ) where
  runs :
      (slice : Process → Process) (sch1 : Scheduler) (p : Ptr)
      → p ≢ null
      → 0 < places p sch
      → sch.scheduled_proc ≢ p
      → Runs slice p s (finish flags p sch sch1, finish_store flags p sch (update s p slice))
  runs slice sch1 p ne here other =
      let (c, h, b) = v.live p here in
      (
        refl,
        (
          c,
          h.holds,
          start_self p _ (slice c) ne
              (mark-ne flags sch.scheduled_proc p _ other ∙ update_self s p slice c h.holds),
        ),
      )

  Chosen-Dispatched :
      {sch1 : Scheduler} {t : Store} (p : Ptr)
      → Chosen sch s p sch1 t
      → Dispatched sch s (finish flags p sch sch1, finish_store flags p sch t)
  Chosen-Dispatched {sch1} p (from_high rest e ne e1 e2) = inl (
    p,
    rest,
    e,
    rw e2 (runs full_slice sch1 p ne (grind arith) (λ same. grind (arith, v.once p))),
  )
  Chosen-Dispatched {sch1} p (from_low rest e e' ne e1 e2) = inr (
      inl (
        p,
        rest,
        e,
        e',
        rw e2 (runs low_slice sch1 p ne (grind arith) (λ same. grind (arith, v.once p))),
      ))
  Chosen-Dispatched p (idle e e' ne e1 e2) = inr (inr (e, e', ne))

-- On a valid scheduler the CPU goes to the head of the high queue, with exactly 1000 time units; if that
-- queue is empty, to the head of the low queue, with 2000 more than it had, but within 0 and 2000; if
-- both are empty, to nobody. The chosen process is then in the running state, and otherwise unchanged.
pub schedule_process-Dispatched :
    {sch : Scheduler} {s : Store} (flags : ℕ)
    → IsValid sch s
    → Returns (Dispatched sch s) (schedule_process sch flags s)
schedule_process-Dispatched {sch} flags v =
    let (p, sch1, t, chosen, e) = schedule_process-ok flags v in
    ((finish flags p sch sch1, finish_store flags p sch t), e, Chosen-Dispatched v flags p chosen)

start-ne : (p q : Ptr) (s : Store) → p ≢ q → start p s q ≡ s q
start-ne p q s ne = ground (arith, update-ne s p q (with_state running) ne)

abbrev pub parks : ℕ → Bool
parks flags = has flags io_requested || has flags semaphore_blocked

mark_self :
    (flags : ℕ) (curr : Ptr) (s : Store) (c : Process)
    → curr ≢ null
    → s curr ≡ some c
    → mark flags curr s curr ≡ (
        if parks flags
        then some (with_state blocked c)
        else if has flags quantum_completed
        then some (with_state ready c)
        else some c)
mark_self flags curr s c ne h =
    ground (
      arith,
      update_self s curr (with_state blocked) c h,
      update_self s curr (with_state ready) c h,
    )

module _ {sch sch1 : Scheduler} {s t : Store} (p : Ptr) where
  Chosen-ne : Chosen sch s p sch1 t → (q : Ptr) → p ≢ q → t q ≡ s q
  Chosen-ne (from_high rest e ne e1 e2) q other = rw e2 (update-ne s p q full_slice other)
  Chosen-ne (from_low rest e e' ne e1 e2) q other = rw e2 (update-ne s p q low_slice other)
  Chosen-ne (idle e e' ne e1 e2) q other = rw e2

  Chosen-other :
      IsValid sch s → Chosen sch s p sch1 t → sch.scheduled_proc ≢ null → p ≢ sch.scheduled_proc
  Chosen-other v (from_high rest e ne e1 e2) curr same = grind (arith, v.once p)
  Chosen-other v (from_low rest e e' ne e1 e2) curr same = grind (arith, v.once p)
  Chosen-other v (idle e e' ne e1 e2) curr same = curr (sym same ∙ ne)

  Chosen-blocked : Chosen sch s p sch1 t → sch1.blocked_queue.queue ≡ sch.blocked_queue.queue
  Chosen-blocked (from_high rest e ne e1 e2) = rw e1
  Chosen-blocked (from_low rest e e' ne e1 e2) = rw e1
  Chosen-blocked (idle e e' ne e1 e2) = rw e1

  Chosen-high : Chosen sch s p sch1 t → sch1.high_queue.queue ≡ rest_of sch.high_queue.queue
  Chosen-high (from_high rest e ne e1 e2) = rw (e1, e)
  Chosen-high (from_low rest e e' ne e1 e2) = rw (e1, e)
  Chosen-high (idle e e' ne e1 e2) = rw (e1, e)

-- What happens to `curr`, which had the CPU.
abbrev pub Requeued : ℕ → Ptr → Scheduler → Store → Scheduler × Store → Type 0
Requeued flags curr sch s r =
    (c : Process) × (s curr ≡ some c)
    × (if parks flags
        then (r.0.blocked_queue.queue ≡ list_add sch.blocked_queue.queue curr)
          × (r.1 curr ≡ some (with_state blocked c))
        else if has flags quantum_completed
        then (r.0.high_queue.queue ≡ list_add (rest_of sch.high_queue.queue) curr)
          × (r.1 curr ≡ some (with_state ready c))
        else (r.1 curr ≡ some c) × (places curr r.0 ≡ 0))

-- On a valid scheduler with a process on the CPU: an I/O request or a semaphore puts it, blocked, at the
-- end of the blocked queue; a spent quantum puts it, ready, at the end of the high queue, behind
-- those that are left there; any other flag leaves it as it is, with no place. Its remaining time
-- is kept in each case.
pub schedule_process-Requeued :
    {sch : Scheduler} {s : Store} (flags : ℕ)
    → IsValid sch s
    → sch.scheduled_proc ≢ null
    → Returns (Requeued flags sch.scheduled_proc sch s) (schedule_process sch flags s)
schedule_process-Requeued {sch} {s} flags v busy =
    let (p, sch1, t, chosen, e) = schedule_process-ok flags v in
    let curr : Ptr = sch.scheduled_proc in
    let (c, h, b) = v.live curr (grind arith) in
    let other = Chosen-other p v chosen busy in
    let kept : t curr ≡ some c = Chosen-ne p chosen curr other ∙ h.holds in
    let after = start-ne p curr (mark flags curr t) other ∙ mark_self flags curr t c busy kept in
    (
      (finish flags p sch sch1, finish_store flags p sch t),
      e,
      (
        c,
        h.holds,
        ground (
          arith,
          after,
          Chosen-blocked p chosen,
          Chosen-high p chosen,
          finish-places flags p curr chosen,
          v.once curr,
        ),
      ),
    )

-- Under the other flags nobody comes to the blocked queue.
pub schedule_process-blocked :
    {sch : Scheduler} {s : Store} (flags : ℕ)
    → IsValid sch s
    → parks flags ≡ false
    → Returns
        (λ r. r.0.blocked_queue.queue ≡ sch.blocked_queue.queue)
        (schedule_process sch flags s)
schedule_process-blocked {sch} {s} flags v off =
    let (p, sch1, t, chosen, e) = schedule_process-ok flags v in
    (
      (finish flags p sch sch1, finish_store flags p sch t),
      e,
      ground (arith, off, Chosen-blocked p chosen),
    )
