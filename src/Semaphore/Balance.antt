-- ===== src/Semaphore/Balance.antt =====
-- P and V keep a semaphore balanced: while its value is negative, that many processes wait.
use ribabari.Prelude.{
  ℕ, ◌≤◌, ◌<◌, ◌≡◌, refl, true, false, List, [], ◌∷◌, arith, ltb_ℤ, leb_ℤ, if◌then◌else◌, inl, inr,
  ℤ, pos, ◌+ℤ◌, ◌-ℤ◌, pos_part, neg_part, int_max, int_min, Fits, length, length-append, All,
  Returns, ok, Bool-cases, List-cases, rest_of, int,
}
use ribabari.LinkedList.{list_add}
use ribabari.Process.{Ptr}
use ribabari.Semaphore.{
  Semaphore, Blocking, acquire, release, semaphore_P, semaphore_V, semaphore_init,
}

pub record IsBalanced (sem : Semaphore) : Type 0 where
  pub free : sem.mutex ≡ 1
  pub waiting : length sem.waiters ≡ neg_part sem.s
  pub fits : Fits sem.s

pub semaphore_init-IsBalanced :
    (name : List ℕ) (n : ℕ) → n ≤ int_max → IsBalanced (semaphore_init name (pos n))
unfolding semaphore_init
semaphore_init-IsBalanced name n h = omega arith

pub int-pred : (n : ℤ) → Fits n → neg_part n < int_min → int (n -ℤ pos 1) ≡ ok (n -ℤ pos 1)
unfolding ◌-ℤ◌
int-pred n f room = ground arith

pub int-suc : (n : ℤ) → Fits n → pos_part n < int_max → int (n +ℤ pos 1) ≡ ok (n +ℤ pos 1)
unfolding ◌+ℤ◌
int-suc n f room = ground arith

-- What P does to the semaphore: a process that finds it positive goes on; any other waits last.
abbrev pub AfterP : Semaphore → Ptr → Semaphore → Type 0
AfterP sem proc sem' =
    (sem'.s ≡ sem.s -ℤ pos 1)
    × (sem'.name ≡ sem.name)
    × (sem'.waiters ≡ (if leb_ℤ sem.s (pos 0) then list_add sem.waiters proc else sem.waiters))

-- What V does: the process that waited longest is woken, if any waited.
abbrev pub AfterV : Semaphore → Semaphore → Type 0
AfterV sem sem' =
    (sem'.s ≡ sem.s +ℤ pos 1) × (sem'.name ≡ sem.name) × (sem'.waiters ≡ rest_of sem.waiters)

abbrev pub went_on : Semaphore → Semaphore
went_on sem = record sem { s = sem.s -ℤ pos 1; mutex = 1 }

abbrev pub waits : Semaphore → Ptr → Semaphore
waits sem proc = record sem { s = sem.s -ℤ pos 1; mutex = 1; waiters = list_add sem.waiters proc }

abbrev pub given_back : Semaphore → Semaphore
given_back sem = record sem { s = sem.s +ℤ pos 1; mutex = 1; waiters = rest_of sem.waiters }

module _ (sem : Semaphore) (proc : Ptr) (v : IsBalanced sem) where
  pub went_on-AfterP :
      neg_part sem.s < int_min
      → ltb_ℤ (sem.s -ℤ pos 1) (pos 0) ≡ false
      → AfterP sem proc (went_on sem) × IsBalanced (went_on sem)
  unfolding ◌-ℤ◌
  went_on-AfterP room test = ground arith

  pub waits-AfterP :
      neg_part sem.s < int_min
      → ltb_ℤ (sem.s -ℤ pos 1) (pos 0) ≡ true
      → AfterP sem proc (waits sem proc) × IsBalanced (waits sem proc)
  unfolding ◌-ℤ◌
  waits-AfterP room test = ground (arith, length-append sem.waiters (proc ∷ []))

  pub given_back-IsBalanced : pos_part sem.s < int_max → IsBalanced (given_back sem)
  unfolding ◌+ℤ◌
  given_back-IsBalanced room = elim (List-cases sem.waiters) [
    | inl e ↦ ground arith
    | inr (p, rest, e) ↦ ground arith
  ]

  pub no_waiters : leb_ℤ (sem.s +ℤ pos 1) (pos 0) ≡ false → sem.waiters ≡ []
  unfolding ◌+ℤ◌
  no_waiters test = elim (List-cases sem.waiters) [
    | inl e ↦ e
    | inr (p, rest, e) ↦ absurd (ground arith)
  ]

  pub some_waiter :
      leb_ℤ (sem.s +ℤ pos 1) (pos 0) ≡ true
      → (p : Ptr) × (rest : List Ptr) × (sem.waiters ≡ p ∷ rest)
  unfolding ◌+ℤ◌
  some_waiter test = elim (List-cases sem.waiters) [
    | inl e ↦ absurd (ground arith)
    | inr found ↦ found
  ]

module _ {E : Type 0} (b : Blocking E) where
  open b use {sleep, wakeup, acq_log, Good, Known, sleep_returns, wakeup_returns, acq_log_returns}

  abbrev pub AllKnown : List Ptr → E → Type 0
  AllKnown ps e = All (λ p. Known p e) ps

  abbrev Kept : E → E → Type 0
  Kept e e' = Good e' × ((q : Ptr) → Known q e → Known q e')

  AllKnown-Kept : (ps : List Ptr) {e e' : E} → Kept e e' → AllKnown ps e → AllKnown ps e'
  AllKnown-Kept [] k h = tt
  AllKnown-Kept (p ∷ ps) k h = (k.1 p h.0, AllKnown-Kept ps k h.1)

  module _ {sem : Semaphore} {e : E} (v : IsBalanced sem) (good : Good e) where
    semaphore_P-free :
        (proc : Ptr)
        → neg_part sem.s < int_min
        → Known proc e
        → ltb_ℤ (sem.s -ℤ pos 1) (pos 0) ≡ false
        → Returns (λ r. (r.0 ≡ went_on sem) × Kept e r.1) (semaphore_P b sem proc e)
    unfolding semaphore_P acquire
    semaphore_P-free proc room known test =
        let (e', logged, kept) = acq_log_returns proc sem.name true false e good known in
        ((went_on sem, e'), rw (v.free, int-pred sem.s v.fits room, test, logged), (refl, kept))

    semaphore_P-wait :
        (proc : Ptr)
        → neg_part sem.s < int_min
        → Known proc e
        → ltb_ℤ (sem.s -ℤ pos 1) (pos 0) ≡ true
        → Returns (λ r. (r.0 ≡ waits sem proc) × Kept e r.1) (semaphore_P b sem proc e)
    unfolding semaphore_P acquire
    semaphore_P-wait proc room known test =
        let (e1, slept, kept1) = sleep_returns e good in
        let (e2, logged, kept2) =
          acq_log_returns proc sem.name true true e1 kept1.0 (kept1.1 proc known) in
        (
          (waits sem proc, e2),
          rw (v.free, int-pred sem.s v.fits room, test, slept, logged),
          (refl, (kept2.0, λ q h. kept2.1 q (kept1.1 q h))),
        )

    -- P on a balanced semaphore whose value is above INT_MIN, by a live process: it returns and
    -- keeps the balance; it takes one unit if the value was positive, and otherwise puts the
    -- process behind the waiters. The rest of the kernel keeps its invariant, and the processes
    -- that it knew.
    pub semaphore_P-AfterP :
        (proc : Ptr)
        → neg_part sem.s < int_min
        → Known proc e
        → Returns
            (λ r.
              AfterP sem proc r.0
              × IsBalanced r.0
              × Good r.1
              × ((q : Ptr) → Known q e → Known q r.1))
            (semaphore_P b sem proc e)
    semaphore_P-AfterP proc room known = elim (Bool-cases (ltb_ℤ (sem.s -ℤ pos 1) (pos 0))) [
      | inl test ↦
          let (r, eq, sk) = semaphore_P-wait proc room known test in
          let after = waits-AfterP sem proc v room test in
          (r, eq, rw (sk.0) (after.0, after.1, sk.1.0, sk.1.1))
      | inr test ↦
          let (r, eq, sk) = semaphore_P-free proc room known test in
          let after = went_on-AfterP sem proc v room test in
          (r, eq, rw (sk.0) (after.0, after.1, sk.1.0, sk.1.1))
    ]

    semaphore_V-free :
        (process : Ptr)
        → pos_part sem.s < int_max
        → Known process e
        → leb_ℤ (sem.s +ℤ pos 1) (pos 0) ≡ false
        → Returns (λ r. (r.0 ≡ given_back sem) × Kept e r.1) (semaphore_V b sem process e)
    unfolding semaphore_V release
    semaphore_V-free process room known test =
        let (e', logged, kept) = acq_log_returns process sem.name false false e good known in
        let none_waits = no_waiters sem process v test in
        (
          (given_back sem, e'),
          rw (v.free, int-suc sem.s v.fits room, test, logged) (ground arith),
          (refl, kept),
        )

    semaphore_V-wake :
        (process : Ptr)
        → pos_part sem.s < int_max
        → Known process e
        → AllKnown sem.waiters e
        → leb_ℤ (sem.s +ℤ pos 1) (pos 0) ≡ true
        → Returns (λ r. (r.0 ≡ given_back sem) × Kept e r.1) (semaphore_V b sem process e)
    unfolding semaphore_V release
    semaphore_V-wake process room known all test =
        let (p, rest, waiting) = some_waiter sem process v test in
        let (e1, woken, kept1) = wakeup_returns p e good (rw waiting at all).0 in
        let (e2, logged, kept2) =
          acq_log_returns process sem.name false false e1 kept1.0 (kept1.1 process known) in
        (
          (given_back sem, e2),
          rw (v.free, int-suc sem.s v.fits room, test, waiting, woken, logged),
          (refl, (kept2.0, λ q h. kept2.1 q (kept1.1 q h))),
        )

    -- V on a balanced semaphore whose value is below INT_MAX and whose waiters are live, by a live
    -- process: it returns and keeps the balance, gives one unit back, and wakes the process that
    -- waited longest, if any waited. The rest of the kernel keeps its invariant, and the processes
    -- that it knew.
    pub semaphore_V-AfterV :
        (process : Ptr)
        → pos_part sem.s < int_max
        → Known process e
        → AllKnown sem.waiters e
        → Returns
            (λ r.
              AfterV sem r.0 × IsBalanced r.0 × Good r.1 × ((q : Ptr) → Known q e → Known q r.1))
            (semaphore_V b sem process e)
    semaphore_V-AfterV process room known all = elim (Bool-cases (leb_ℤ (sem.s +ℤ pos 1) (pos 0))) [
      | inl test ↦
          let (r, eq, sk) = semaphore_V-wake process room known all test in
          (
            r,
            eq,
            rw (sk.0)
                ((refl, refl, refl), given_back-IsBalanced sem process v room, sk.1.0, sk.1.1),
          )
      | inr test ↦
          let (r, eq, sk) = semaphore_V-free process room known test in
          (
            r,
            eq,
            rw (sk.0)
                ((refl, refl, refl), given_back-IsBalanced sem process v room, sk.1.0, sk.1.1),
          )
    ]
