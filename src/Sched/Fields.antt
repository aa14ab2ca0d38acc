-- ===== src/Sched/Fields.antt =====
-- What schedule_process of sched/sched.c leaves of every process: all but its state and the time left.
use ribabari.Prelude.{ℕ, ℤ, ◌≡◌, refl, ◌∙◌, ap, some, ◌==◌, if_intro, inl, inr, ==-cases, Returns}
use ribabari.Process.{Ptr, null, Process, ProcessState, Store, ready, blocked, running}
use ribabari.Process.Update.{update}
use ribabari.Sched.{Scheduler, schedule_process}
use ribabari.Sched.Valid.{IsValid}
use ribabari.Sched.Choose.{
  Chosen, from_high, from_low, idle, mark, start, with_state, full_slice, low_slice,
}
use ribabari.Sched.Schedule.{schedule_process-ok, finish, finish_store}

abbrev pub with_both : ProcessState → ℤ → Process → Process
with_both state remaining c = record c { state = state; remaining = remaining }

-- `d` is `c` but for the state and the time left.
abbrev pub SameFields : Process → Process → Type 0
SameFields c d = d ≡ with_both d.state d.remaining c

-- Every process is still there, with the same fields.
abbrev pub KeepsFields : Store → Store → Type 0
KeepsFields s t =
    (q : Ptr) (c : Process) → s q ≡ some c → (d : Process) × (t q ≡ some d) × SameFields c d

KeepsFields-update :
    (s : Store) (p : Ptr) (f : Process → Process)
    → ((c : Process) → SameFields c (f c))
    → KeepsFields s (update s p f)
unfolding update
KeepsFields-update s p f same q c h = elim (==-cases q p) [
  | inl e ↦ (f c, rw (e, h) refl, same c)
  | inr e ↦ (c, rw e h, refl)
]

KeepsFields-trans : (s t u : Store) → KeepsFields s t → KeepsFields t u → KeepsFields s u
KeepsFields-trans s t u first second q c h =
    let (d, hd, ed) = first q c h in
    let (e, he, ee) = second q d hd in (e, he, ee ∙ ap (with_both e.state e.remaining) ed)

KeepsFields-state :
    (state : ProcessState) (p : Ptr) (s : Store) → KeepsFields s (update s p (with_state state))
KeepsFields-state state p s = KeepsFields-update s p (with_state state) (λ c. refl)

KeepsFields-mark : (flags : ℕ) (p : Ptr) (s : Store) → KeepsFields s (mark flags p s)
KeepsFields-mark flags p s =
    if_intro (KeepsFields s) (p == null) _ _ (λ q c h. (c, h, refl))
      (if_intro (KeepsFields s) _ _ _ (KeepsFields-state blocked p s)
        (if_intro (KeepsFields s) _ _ _ (KeepsFields-state ready p s) (λ q c h. (c, h, refl))))

KeepsFields-start : (p : Ptr) (s : Store) → KeepsFields s (start p s)
KeepsFields-start p s =
    if_intro (KeepsFields s) (p == null) _ _ (λ q c h. (c, h, refl)) (KeepsFields-state running p s)

KeepsFields-Chosen :
    {sch sch1 : Scheduler} {s t : Store} {p : Ptr} → Chosen sch s p sch1 t → KeepsFields s t
KeepsFields-Chosen {s = s} {p = p} (from_high rest e ne e1 e2) =
    rw e2 (KeepsFields-update s p full_slice (λ c. refl))
KeepsFields-Chosen {s = s} {p = p} (from_low rest e e' ne e1 e2) =
    rw e2 (KeepsFields-update s p low_slice (λ c. refl))
KeepsFields-Chosen (idle e e' ne e1 e2) = rw e2 (λ q c h. (c, h, refl))

-- On a valid scheduler, `schedule_process` changes nothing of a process but its state and the time left.
pub schedule_process-KeepsFields :
    {sch : Scheduler} {s : Store} (flags : ℕ)
    → IsValid sch s
    → Returns (λ r. KeepsFields s r.1) (schedule_process sch flags s)
schedule_process-KeepsFields {sch} {s} flags v =
    let (p, sch1, t, chosen, e) = schedule_process-ok flags v in
    (
      (finish flags p sch sch1, finish_store flags p sch t),
      e,
      KeepsFields-trans s t (finish_store flags p sch t) (KeepsFields-Chosen chosen) (
          KeepsFields-trans t (mark flags sch.scheduled_proc t) (finish_store flags p sch t)
            (KeepsFields-mark flags sch.scheduled_proc t)
            (KeepsFields-start p (mark flags sch.scheduled_proc t))),
    )
