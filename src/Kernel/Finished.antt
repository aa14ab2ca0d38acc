-- ===== src/Kernel/Finished.antt =====
-- process_finish of process/process.c as a whole: the table, the CPU, the files, the segment and the
-- queues together.
use ribabari.Prelude.{
  ℕ, ◌+◌, ◌<◌, ◌≤◌, ◌≡◌, ◌≢◌, refl, sym, ◌∙◌, ap, subst, Option, none, some, List, [], ◌∷◌, arith,
  ◌==◌, ==_ne, ==_refl, ==-cases, inl, inr, true, false, Bool, if◌then◌else◌, ℤ, pos_part, ok,
  count, erase, remove_at, length, int_max, Returns, Returns-and,
}
use ribabari.Process.{Ptr, null, Process, Store, CString, write, Points, Points-load}
use ribabari.Log.{Libc}
use ribabari.Sched.{Scheduler, none_flag}
use ribabari.Sched.Valid.{IsValid, InBudget, Live, places, at_cpu}
use ribabari.Sched.Schedule.{schedule_process-keeps, schedule_process-places}
use ribabari.Sched.Dispatch.{schedule_process-blocked}
use ribabari.Sched.Fields.{SameFields, schedule_process-KeepsFields}
use ribabari.Sched.Unblock.{Found, absent, at, list_search-Found, proc_cmp-ok}
use ribabari.Memory.{Segment, segment_find, segment_drop, segment_free}
use ribabari.Memory.Space.{IsSpace, segment_free_cases}
use ribabari.File.Active.{Counted}
use ribabari.File.Openers.{openers, IsActive}
use ribabari.Kernel.State.{Kernel}
use ribabari.Kernel.Blocking.{process_interrupt}
use ribabari.Kernel.Finish.{process_finish}
use ribabari.Kernel.Files.{times, close_files-IsActive}
use ribabari.Kernel.FilesKept.{SameFiles, schedule_process-SameFiles, IsActive-SameFiles}
use ribabari.Kernel.Detached.{
  detach-ok, without-places, without-blocked, without-IsValid, write-none, Live-freed,
}

-- The scheduler and the processes once the process is off the CPU.
record OffCpu (p : Ptr) (c : Process) (k : Kernel) (r : Scheduler × Store) : Type 0 where
  valid : IsValid r.0 r.1
  off : at_cpu p r.0.scheduled_proc ≡ 0
  others : (q : Ptr) → p ≢ q → places q r.0 ≡ places q k.scheduler
  live : (q : Ptr) → Live k.procs q → Live r.1 q
  files : SameFiles k.procs r.1
  queue : r.0.blocked_queue.queue ≡ k.scheduler.blocked_queue.queue
  here : (d : Process) × Points r.1 p d × SameFields c d

process_interrupt-OffCpu :
    (p : Ptr) (c : Process) (k : Kernel)
    → IsValid k.scheduler k.procs
    → Points k.procs p c
    → (b : Bool) → (k.scheduler.scheduled_proc == p) ≡ b
    → (r : Scheduler × Store) × ((if b then process_interrupt none_flag k else ok k)
        ≡ ok (record k { scheduler = r.0; procs = r.1 }))
      × OffCpu p c k r
unfolding process_interrupt
process_interrupt-OffCpu p c k v here true e =
    let (r, eq, ((((kept, same), fields), files), blocked)) =
      Returns-and
        (Returns-and
          (Returns-and
            (Returns-and (schedule_process-keeps none_flag v) (schedule_process-places none_flag v))
            (schedule_process-KeepsFields none_flag v))
          (schedule_process-SameFiles none_flag v))
        (schedule_process-blocked none_flag v refl) in
    let (d, holds, fields_d) = fields p c here.holds in
    (
      r,
      rw eq refl,
      record {
        valid = kept.0;
        off = ground (arith, same p, v.once p, here.ne_null);
        others = λ q ne. ground (arith, same q);
        live = kept.1;
        files = files;
        queue = blocked;
        here = (d, record { ne_null = here.ne_null; holds = holds }, fields_d);
      },
    )
process_interrupt-OffCpu p c k v here false e = (
  (k.scheduler, k.procs),
  refl,
  record {
    valid = v;
    off = ground arith;
    others = λ q ne. refl;
    live = λ q l. l;
    files = λ ps n. refl;
    queue = refl;
    here = (c, here, refl);
  },
)

-- What a search found of a process that is listed.
found_at :
    (p : Ptr) (xs : List Ptr) (o : Option ℕ)
    → Found p xs o
    → 0 < count p xs
    → (i : ℕ) × (o ≡ some i) × (remove_at xs i ≡ erase p xs)
found_at p xs none (absent e) h = absurd (omega arith)
found_at p xs (some i) (at _ h' e) h = (i, refl, e)

-- A freed process has no file open, so it need not be listed.
openers-erase :
    (p : Ptr) (s : Store) (n : ℤ) (ps : List Ptr)
    → s p ≡ none
    → openers (erase p ps) s n ≡ openers ps s n
openers-erase p s n [] h = refl
openers-erase p s n (q ∷ ps) h = elim (==-cases q p) [
  | inl e ↦ ground arith
  | inr e ↦ ground (arith, openers-erase p s n ps h)
]

-- What finishing a process leaves of the kernel `k`.
pub record Finished (p : Ptr) (c : Process) (k k' : Kernel) : Type 0 where
  pub valid : IsValid k'.scheduler k'.procs
  pub freed : k'.procs p ≡ none
  pub nowhere : places p k'.scheduler ≡ 0
  pub others : (q : Ptr) → p ≢ q → places q k'.scheduler ≡ places q k.scheduler
  pub live : (q : Ptr) → p ≢ q → Live k.procs q → Live k'.procs q
  pub table : k'.proc_table ≡ erase p k.proc_table
  pub active : IsActive k'.proc_table k'.procs k'.file_table
  pub segments : k'.seg_table.seg_list ≡ segment_drop k.seg_table.seg_list c.seg_id
  pub asleep :
      (q : Ptr)
      → p ≢ q
      → count q k'.scheduler.blocked_queue.queue ≡ count q k.scheduler.blocked_queue.queue
  pub arm : k'.disk_scheduler ≡ k.disk_scheduler
  pub sems : k'.sem_table ≡ k.sem_table

module _ (libc : Libc) (k : Kernel) (p : Ptr) (c : Process) (names : List CString) (seg : Segment)
    (valid : IsValid k.scheduler k.procs) (here : Points k.procs p c) (budget : InBudget c)
    (busy : k.scheduler.scheduled_proc ≢ null)
    (all_live : (q : Ptr) → 0 < count q k.proc_table → Live k.procs q)
    (listed : count p k.proc_table ≡ 1) (few : length k.proc_table ≤ int_max)
    (active : IsActive k.proc_table k.procs k.file_table) (once : (n : ℤ) → times n c.o_files ≤ 1)
    (set : c.semaphores ≡ some names)
    (loaded : segment_find k.seg_table.seg_list c.seg_id ≡ some seg)
    (space : IsSpace k.seg_table.remaining)
    (sized : IsSpace seg.size
      × (pos_part k.seg_table.remaining + pos_part seg.size ≤ int_max)) where
  size_of :
      (found : Segment)
      → segment_find k.seg_table.seg_list c.seg_id ≡ some found
      → IsSpace found.size × (pos_part k.seg_table.remaining + pos_part found.size ≤ int_max)
  size_of found e =
      let same : seg ≡ found = cc in
      subst
        (λ (x : Segment).
          IsSpace x.size × (pos_part k.seg_table.remaining + pos_part x.size ≤ int_max))
        same sized

  released :
      Returns
        (λ t. t.seg_list ≡ segment_drop k.seg_table.seg_list c.seg_id)
        (segment_free k.seg_table c.seg_id)
  released = elim (segment_free_cases k.seg_table c.seg_id space (λ found e. size_of found e)) [
    | inl (e, _) ↦ cc
    | inr (t, e, (dropped, more, grown)) ↦ (t, e, dropped)
  ]

  -- Let the scheduler be valid and not idle, the process, its time within the budget, stand once in
  -- a process table of live processes that is no longer than INT_MAX, the inodes count exactly the
  -- processes of the table, the process have no file twice among its own and its semaphore names
  -- set, and its segment be in the segment table, with sizes that fit. Then process_finish returns,
  -- whether or not the process has the CPU. Its memory is freed, and neither the scheduler nor the
  -- table points to it any more; the scheduler is valid over the processes that are left, which stay
  -- alive and, each, at as many places as before; the inodes count exactly the processes that are
  -- left; and the segment is gone.
  pub process_finish-Finished : Returns (Finished p c k) (process_finish libc p k)
  unfolding process_finish
  process_finish-Finished =
      let table = erase p k.proc_table in
      let l : Live k.procs p = (c, here, budget) in
      let (o, e, found) = list_search-Found k.procs p k.proc_table valid.ids l all_live in
      let (i, e_o, cut) = found_at p k.proc_table o found (omega arith) in
      let curr_live = valid.live k.scheduler.scheduled_proc (ground (arith, busy)) in
      let cmp = proc_cmp-ok k.procs k.scheduler.scheduled_proc p valid.ids curr_live l in
      let (r, e1, gone) =
        process_interrupt-OffCpu p c (record k { proc_table = table }) valid here
          (k.scheduler.scheduled_proc == p) refl in
      let (d, here1, same) = gone.here in
      let l1 = gone.live p l in
      let ((files, h), e2, counted) =
        close_files-IsActive libc k.proc_table r.1 p d k.file_table k.host here1 listed few
          (subst (λ (fs : List ℤ). (n : ℤ) → times n fs ≤ 1)
            (sym (ap (λ (x : Process). x.o_files) same)) once)
          (IsActive-SameFiles k.proc_table k.file_table gone.files active) in
      let (t, e3, dropped) = released in
      let seg_id : d.seg_id ≡ c.seg_id = ap (λ (x : Process). x.seg_id) same in
      let semaphores : d.semaphores ≡ c.semaphores = ap (λ (x : Process). x.semaphores) same in
      rw
        (
          ==_ne p null here.ne_null,
          e ∙ ap ok e_o,
          cut,
          cmp,
          e1,
          Points-load here1,
          e2,
          ap (segment_free k.seg_table) seg_id ∙ e3,
          detach-ok p gone.valid l1,
          semaphores ∙ set,
        )
        (
          _,
          refl,
          record {
            valid = without-IsValid p gone.valid l1 gone.off;
            freed = write-none r.1 p;
            nowhere = rw (without-places p gone.valid l1 gone.off p, ==_refl p) refl;
            others = λ q ne.
                rw (without-places p gone.valid l1 gone.off q, ==_ne p q ne) (gone.others q ne);
            live = λ q ne lq. Live-freed r.1 p q ne (gone.live q lq);
            table = refl;
            active = λ n.
                subst (λ j. Counted n j files)
                  (sym (openers-erase p (write r.1 p none) n k.proc_table (write-none r.1 p)))
                  (counted n);
            segments = dropped;
            asleep = λ q ne. without-blocked p q r.0 ne ∙ ap (count q) gone.queue;
            arm = refl;
            sems = refl;
          },
        )
