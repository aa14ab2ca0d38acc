-- ===== src/Sched/Valid.antt =====
-- Where a process stands in the scheduler, and the invariant of the scheduler and its processes.
use ribabari.Prelude.{
  ℕ, ◌+◌, ◌≤◌, ◌<◌, ◌≡◌, refl, some, arith, ◌==◌, if◌then◌else◌, count, neg_part, ◌≤ℤ◌, int_min,
  inl, inr, ==-cases,
}
use ribabari.Process.{Ptr, null, Process, Store, Points}
use ribabari.Process.Update.{id_of, update, id_of-update}
use ribabari.Sched.{Scheduler, high_quantum, low_quantum, scheduler_init}

abbrev pub at_cpu : Ptr → Ptr → ℕ
at_cpu q p = if p == null then 0 else if p == q then 1 else 0

-- At how many places of the scheduler `q` stands.
abbrev pub places : Ptr → Scheduler → ℕ
places q sch =
    at_cpu q sch.scheduled_proc
    + count q sch.high_queue.queue
    + count q sch.low_queue.queue
    + count q sch.blocked_queue.queue

-- The time left to a process never exceeds one quantum of the low queue, and is an `int`.
abbrev pub InBudget : Process → Type 0
InBudget c = (c.remaining ≤ℤ low_quantum) × (neg_part c.remaining ≤ int_min)

abbrev pub Live : Store → Ptr → Type 0
Live s p = (c : Process) × Points s p c × InBudget c

abbrev pub Distinct : Store → Type 0
Distinct s = (p q : Ptr) (i : ℕ) → id_of s p ≡ some i → id_of s q ≡ some i → p ≡ q

pub record IsValid (sch : Scheduler) (s : Store) : Type 0 where
  pub live : (q : Ptr) → 0 < places q sch → Live s q
  pub once : (q : Ptr) → places q sch ≤ 1
  pub ids : Distinct s
  pub high_slice : sch.high_queue.quantum ≡ high_quantum
  pub low_slice : sch.low_queue.quantum ≡ low_quantum

-- A change that keeps the ids keeps them distinct.
pub Distinct-same : (s t : Store) → ((p : Ptr) → id_of t p ≡ id_of s p) → Distinct s → Distinct t
Distinct-same s t same d p q i hp hq = d p q i (cc (same p)) (cc (same q))

pub Distinct-update :
    (s : Store) (p : Ptr) (f : Process → Process)
    → ((c : Process) → (f c).id ≡ c.id)
    → Distinct s
    → Distinct (update s p f)
Distinct-update s p f keep d = Distinct-same s (update s p f) (λ q. id_of-update s p q f keep) d

-- A change that keeps the budget keeps a process live.
pub Live-update :
    (s : Store) (p q : Ptr) (f : Process → Process)
    → ((c : Process) → InBudget c → InBudget (f c))
    → Live s q
    → Live (update s p f) q
unfolding update
Live-update s p q f keep (c, h, b) = elim (==-cases q p) [
  | inl e ↦ (f c, ground arith, keep c b)
  | inr e ↦ (c, ground arith, b)
]

pub scheduler_init-IsValid : (s : Store) → Distinct s → IsValid scheduler_init s
unfolding scheduler_init
scheduler_init-IsValid s d = record {
  live = λ q h. absurd (omega arith);
  once = λ q. omega arith;
  ids = d;
  high_slice = refl;
  low_slice = refl;
}
