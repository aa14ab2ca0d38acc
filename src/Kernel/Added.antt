-- ===== src/Kernel/Added.antt =====
-- A new process in a queue of the scheduler: the interrupt MEM_LOAD_FINISH of kernel/kernel.c.
use ribabari.Prelude.{
  ℕ, ◌+◌, ◌≡◌, ◌≢◌, ◌⊎◌, sym, ◌∙◌, subst, some, none, [], ◌∷◌, arith, ◌==◌, if◌then◌else◌, ℤ, pos,
  eq_ℤ, count-append, inl, inr, ==-cases,
}
use ribabari.LinkedList.{list_add}
use ribabari.Process.{Ptr, null, Process, Store}
use ribabari.Process.Update.{id_of, id_in}
use ribabari.Sched.{Scheduler, with_queue}
use ribabari.Sched.Valid.{IsValid, Live, InBudget, places, Distinct}

-- `t` has a new process `c` at `p`, and is otherwise `s`.
pub record Fresh (s : Store) (p : Ptr) (c : Process) (t : Store) : Type 0 where
  pub ne_null : p ≢ null
  pub free : s p ≡ none
  pub now : t p ≡ some c
  pub same : (q : Ptr) → p ≢ q → t q ≡ s q
  pub new_id : (q : Ptr) (i : ℕ) → id_of s q ≡ some i → i ≢ c.id

abbrev pub with_new : Ptr → ℤ → Scheduler → Scheduler
with_new p priority sch =
    if eq_ℤ priority (pos 1)
    then record sch { high_queue = with_queue sch.high_queue (list_add sch.high_queue.queue p) }
    else record sch { low_queue = with_queue sch.low_queue (list_add sch.low_queue.queue p) }

module _ {sch : Scheduler} {s t : Store} {p : Ptr} {c : Process} (v : IsValid sch s)
    (f : Fresh s p c t) where
  no_place : places p sch ≡ 0
  no_place = elim (==-cases (places p sch) 0) [
    | inl e ↦ ground arith
    | inr e ↦
        let (d, h, b) = v.live p (ground arith) in
        let before : s p ≡ none = f.free in let held : s p ≡ some d = h.holds in absurd (cc)
  ]

  with_new-places :
      (q : Ptr) (priority : ℤ)
      → places q (with_new p priority sch) ≡ places q sch + (if p == q then 1 else 0)
  with_new-places q priority = ground (
    arith,
    count-append q sch.high_queue.queue (p ∷ []),
    count-append q sch.low_queue.queue (p ∷ []),
  )

  kept-Live : (q : Ptr) → p ≢ q → Live s q → Live t q
  kept-Live q ne (d, h, b) = (d, record { ne_null = h.ne_null; holds = f.same q ne ∙ h.holds }, b)

  id_back : (q : Ptr) (i : ℕ) → id_of t q ≡ some i → ((q ≡ p) × (i ≡ c.id)) ⊎ (id_of s q ≡ some i)
  id_back q i h = elim (==-cases p q) [
    | inl e ↦
        let same : q ≡ p = ground arith in
        inl (same, ground (arith, f.now, subst (λ a. id_of t a ≡ some i) same h))
    | inr e ↦ inr (subst (λ o. id_in o ≡ some i) (f.same q (ground arith)) h)
  ]

  all-Distinct : Distinct t
  all-Distinct a b i ha hb = elim (id_back a i ha) [
    | inl (ea, ia) ↦ elim (id_back b i hb) [
      | inl (eb, ib) ↦ ea ∙ sym eb
      | inr old ↦ absurd (f.new_id b i old ia)
    ]
    | inr olda ↦ elim (id_back b i hb) [
      | inl (eb, ib) ↦ absurd (f.new_id a i olda ib)
      | inr oldb ↦ v.ids a b i olda oldb
    ]
  ]

  pub with_new-IsValid : (priority : ℤ) → InBudget c → IsValid (with_new p priority sch) t
  with_new-IsValid priority b = record {
    live = λ q h. elim (==-cases p q) [
      | inl e ↦
          let same : p ≡ q = ground arith in
          subst (λ a. Live t a) same (c, record { ne_null = f.ne_null; holds = f.now }, b)
      | inr e ↦ kept-Live q (ground arith) (v.live q (ground (arith, with_new-places q priority)))
    ];
    once = λ q. ground (arith, with_new-places q priority, no_place, v.once q);
    ids = all-Distinct;
    high_slice = (slices priority).0 ∙ v.high_slice;
    low_slice = (slices priority).1 ∙ v.low_slice;
  }
    where
      slices :
          (priority : ℤ)
          → ((with_new p priority sch).high_queue.quantum ≡ sch.high_queue.quantum)
            × ((with_new p priority sch).low_queue.quantum ≡ sch.low_queue.quantum)
      slices priority = ground arith
