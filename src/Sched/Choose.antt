-- ===== src/Sched/Choose.antt =====
-- The steps of `schedule_process` on a valid scheduler: none of them fails, and each has one effect.
use mathlib.Core.Path.{fun_ext}
use ribabari.LinkedList.{list_add}
use ribabari.Prelude.{
  inl, inr, List-cases, ◌||◌, ==-cases, false, ◌≤◌, ==_ne, ℕ, ◌≡◌, ◌≢◌, refl, arith, ◌==◌,
  if◌then◌else◌, ℤ, pos, ◌≤ℤ◌, ◌+ℤ◌, max_int, min_int, List, [], ◌∷◌, ok, int, neg_part, int_min,
  ap,
}
use ribabari.Process.{
  Ptr, null, Process, ProcessState, ready, blocked, running, Store, Points, Points-load,
}
use ribabari.Process.Update.{update, write-update}
use ribabari.Sched.{
  Scheduler, with_queue, high_quantum, low_quantum, top_up, set_state, take_next, put_back, has,
  io_requested, semaphore_blocked, quantum_completed,
}
use ribabari.Sched.Valid.{InBudget, IsValid, Live}

-- A process from the high queue starts with 1000, whatever it had left.
abbrev pub full_slice : Process → Process
full_slice c = record c { remaining = pos 1000 }

-- A process from the low queue gets 2000 more, within 0 and 2000.
abbrev pub low_slice : Process → Process
low_slice c = record c {
  remaining = max_int (pos 0) (min_int low_quantum (c.remaining +ℤ low_quantum));
}

abbrev pub with_state : ProcessState → Process → Process
with_state state c = record c { state = state }

pub data Chosen (sch : Scheduler) (s : Store) (p : Ptr) (sch' : Scheduler) (t : Store)
    : Type 0 where
  from_high :
      (rest : List Ptr)
      → sch.high_queue.queue ≡ p ∷ rest
      → p ≢ null
      → sch' ≡ record sch { high_queue = with_queue sch.high_queue rest }
      → t ≡ update s p full_slice
      → Chosen sch s p sch' t
  from_low :
      (rest : List Ptr)
      → sch.high_queue.queue ≡ []
      → sch.low_queue.queue ≡ p ∷ rest
      → p ≢ null
      → sch' ≡ record sch { low_queue = with_queue sch.low_queue rest }
      → t ≡ update s p low_slice
      → Chosen sch s p sch' t
  idle :
      sch.high_queue.queue ≡ []
      → sch.low_queue.queue ≡ []
      → p ≡ null
      → sch' ≡ sch
      → t ≡ s
      → Chosen sch s p sch' t

abbrev pub capped : ℤ → ℤ → ℤ → Process → Process
capped lo hi quantum c = record c { remaining = max_int lo (min_int hi (c.remaining +ℤ quantum)) }

int-low :
    (r : ℤ) (q : ℕ)
    → q ≤ 2000
    → (r ≤ℤ low_quantum) × (neg_part r ≤ int_min)
    → int (r +ℤ pos q) ≡ ok (r +ℤ pos q)
unfolding ◌+ℤ◌
int-low r q h b = ground arith

full_slice-capped : (q : ℤ) → capped (pos 1000) high_quantum q ≡ full_slice
full_slice-capped q = fun_ext λ c. ap (λ r. record c { remaining = r }) (ground arith)

top_up-ok :
    (lo hi : ℤ) (q : ℕ) (p : Ptr) (s : Store) (c : Process)
    → Points s p c
    → InBudget c
    → q ≤ 2000
    → top_up lo hi (pos q) p s ≡ ok (update s p (capped lo hi (pos q)))
unfolding top_up
top_up-ok lo hi q p s c h b le =
    rw (==_ne p null h.ne_null, Points-load h, int-low c.remaining q le b)
      (ap ok (write-update s p c (capped lo hi (pos q)) h.holds))

set_state-ok :
    (state : ProcessState) (p : Ptr) (s : Store) (c : Process)
    → Points s p c
    → set_state state p s ≡ ok (update s p (with_state state))
unfolding set_state
set_state-ok state p s c h =
    rw (Points-load h) (ap ok (write-update s p c (with_state state) h.holds))

abbrev pub Taken : Scheduler → Store → Type 0
Taken sch s =
    (p : Ptr) × (sch' : Scheduler) × (t : Store) × (take_next sch s ≡ ok (p, sch', t))
    × Chosen sch s p sch' t

take_next-high :
    {sch : Scheduler} {s : Store} (p : Ptr) (rest : List Ptr)
    → IsValid sch s
    → sch.high_queue.queue ≡ p ∷ rest
    → Taken sch s
unfolding take_next
take_next-high {sch} {s} p rest v e =
    let (c, h, b) = v.live p (grind arith) in
    (
      p,
      record sch { high_queue = with_queue sch.high_queue rest },
      update s p full_slice,
      ground
          (arith, top_up-ok (pos 1000) high_quantum 1000 p s c h b, full_slice-capped high_quantum),
      from_high rest e h.ne_null refl refl,
    )

take_next-low :
    {sch : Scheduler} {s : Store} (p : Ptr) (rest : List Ptr)
    → IsValid sch s
    → sch.high_queue.queue ≡ []
    → sch.low_queue.queue ≡ p ∷ rest
    → Taken sch s
unfolding take_next
take_next-low {sch} {s} p rest v e e' =
    let (c, h, b) = v.live p (grind arith) in
    (
      p,
      record sch { low_queue = with_queue sch.low_queue rest },
      update s p low_slice,
      ground (arith, top_up-ok (pos 0) low_quantum 2000 p s c h b),
      from_low rest e e' h.ne_null refl refl,
    )

take_next-idle :
    {sch : Scheduler} {s : Store}
    → sch.high_queue.queue ≡ []
    → sch.low_queue.queue ≡ []
    → Taken sch s
unfolding take_next
take_next-idle {sch} {s} e e' = (null, sch, s, ground arith, idle e e' refl refl refl)

-- On a valid scheduler the choice is made by the queues' order, and never fails.
pub take_next-Taken : {sch : Scheduler} {s : Store} → IsValid sch s → Taken sch s
take_next-Taken {sch} v = elim (List-cases sch.high_queue.queue) [
  | inr (p, rest, e) ↦ take_next-high p rest v e
  | inl e ↦ elim (List-cases sch.low_queue.queue) [
    | inr (p, rest, e') ↦ take_next-low p rest v e e'
    | inl e' ↦ take_next-idle e e'
  ]
]

-- The queues after the process that had the CPU has left it, and its own new state.
abbrev pub requeue : ℕ → Ptr → Scheduler → Scheduler
requeue flags curr sch =
    if curr == null
    then sch
    else if has flags io_requested || has flags semaphore_blocked
    then record sch {
      blocked_queue = with_queue sch.blocked_queue (list_add sch.blocked_queue.queue curr);
    }
    else if has flags quantum_completed
    then record sch { high_queue = with_queue sch.high_queue (list_add sch.high_queue.queue curr) }
    else sch

abbrev pub mark : ℕ → Ptr → Store → Store
mark flags curr s =
    if curr == null
    then s
    else if has flags io_requested || has flags semaphore_blocked
    then update s curr (with_state blocked)
    else if has flags quantum_completed
    then update s curr (with_state ready)
    else s

pub put_back-ok :
    (flags : ℕ) (curr : Ptr) (sch : Scheduler) (s : Store)
    → ((curr == null) ≡ false → Live s curr)
    → put_back flags curr sch s ≡ ok (requeue flags curr sch, mark flags curr s)
unfolding put_back
put_back-ok flags curr sch s live = elim (==-cases curr null) [
  | inl e ↦ rw e
  | inr e ↦
      (let (c, h, b) = live e in
        ground (arith, set_state-ok blocked curr s c h, set_state-ok ready curr s c h))
]

abbrev pub start : Ptr → Store → Store
start p s = if p == null then s else update s p (with_state running)

pub start-ok :
    (p : Ptr) (s : Store)
    → ((p == null) ≡ false → Live s p)
    → (if p == null then ok s else set_state running p s) ≡ ok (start p s)
start-ok p s live = elim (==-cases p null) [
  | inl e ↦ rw e
  | inr e ↦ (let (c, h, b) = live e in rw e (set_state-ok running p s c h))
]
