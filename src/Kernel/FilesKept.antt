-- ===== src/Kernel/FilesKept.antt =====
-- The scheduler does not change which files a process has open.
use ribabari.Prelude.{
  ℕ, ◌≡◌, refl, ◌∙◌, Option, some, none, List, [], ◌∷◌, arith, ℤ, Returns, subst, sym,
}
use ribabari.Process.{Ptr, Process, Store, ready, blocked, running, has_opened_file}
use ribabari.Process.Update.{update, map_some}
use ribabari.File.Active.{Counted}
use ribabari.File.{FileTable}
use ribabari.File.Openers.{opens, openers, IsActive}
use ribabari.Sched.{Scheduler, schedule_process}
use ribabari.Sched.Valid.{IsValid}
use ribabari.Sched.Choose.{
  Chosen, from_high, from_low, idle, mark, start, with_state, full_slice, low_slice,
}
use ribabari.Sched.Schedule.{schedule_process-ok, finish, finish_store}

module _ (f : Process → Process) (keep : (c : Process) → (f c).o_files ≡ c.o_files) (n : ℤ) where
  opens-map : (o : Option Process) → opens (map_some f o) n ≡ opens o n
  unfolding has_opened_file
  opens-map none = refl
  opens-map (some c) = rw (keep c) refl

  pub openers-update :
      (ps : List Ptr) (s : Store) (p : Ptr) → openers ps (update s p f) n ≡ openers ps s n
  unfolding update
  openers-update [] s p = refl
  openers-update (q ∷ ps) s p = ground (arith, opens-map (s q), openers-update ps s p)

-- The stores in which the processes have the same files open.
abbrev pub SameFiles : Store → Store → Type 0
SameFiles s t = (ps : List Ptr) (n : ℤ) → openers ps t n ≡ openers ps s n

start-SameFiles : (p : Ptr) (s : Store) → SameFiles s (start p s)
start-SameFiles p s ps n = ground (arith, openers-update (with_state running) (λ c. refl) n ps s p)

mark-SameFiles : (flags : ℕ) (p : Ptr) (s : Store) → SameFiles s (mark flags p s)
mark-SameFiles flags p s ps n = ground (
  arith,
  openers-update (with_state blocked) (λ c. refl) n ps s p,
  openers-update (with_state ready) (λ c. refl) n ps s p,
)

Chosen-SameFiles :
    {sch sch1 : Scheduler} {s t : Store} {p : Ptr} → Chosen sch s p sch1 t → SameFiles s t
Chosen-SameFiles {s = s} {p = p} (from_high rest e ne e1 e2) ps n =
    rw e2 (openers-update full_slice (λ c. refl) n ps s p)
Chosen-SameFiles {s = s} {p = p} (from_low rest e e' ne e1 e2) ps n =
    rw e2 (openers-update low_slice (λ c. refl) n ps s p)
Chosen-SameFiles (idle e e' ne e1 e2) ps n = rw e2 refl

pub schedule_process-SameFiles :
    {sch : Scheduler} {s : Store} (flags : ℕ)
    → IsValid sch s
    → Returns (λ r. SameFiles s r.1) (schedule_process sch flags s)
schedule_process-SameFiles {sch} {s} flags v =
    let (p, sch1, t, chosen, e) = schedule_process-ok flags v in
    (
      (finish flags p sch sch1, finish_store flags p sch t),
      e,
      λ ps n.
          start-SameFiles p (mark flags sch.scheduled_proc t) ps n
          ∙ mark-SameFiles flags sch.scheduled_proc t ps n
          ∙ Chosen-SameFiles chosen ps n,
    )

-- So the counts of the inodes stay right.
pub IsActive-SameFiles :
    (ps : List Ptr) {s t : Store} (files : FileTable)
    → SameFiles s t
    → IsActive ps s files
    → IsActive ps t files
IsActive-SameFiles ps files same active n =
    subst (λ j. Counted n j files) (sym (same ps n)) (active n)
