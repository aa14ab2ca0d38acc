-- ===== src/Kernel/Created.antt =====
-- The creation of a process from the text of a synthetic program, from the file to the queue: process_create
-- of process/process.c with the calls that it makes.
use ribabari.Prelude.{
  ℕ, ◌+◌, ◌-◌, ◌*◌, ◌≤◌, ◌<◌, ◌≡◌, ◌≢◌, refl, some, none, List, arith, pos, Returns, All, length,
  inl, inr, ==-cases,
}
use ribabari.LinkedList.{list_add}
use ribabari.Process.{Ptr, null, Process, ready, Store, write, Points, Points-load}
use ribabari.Process.Update.{id_of}
use ribabari.Sched.Valid.{IsValid}
use ribabari.Sched.Choose.{with_state}
use ribabari.Text.{line_room}
use ribabari.Memory.{kilobyte, max_mem_size}
use ribabari.Memory.Space.{Loaded, mem_req_load-Loaded}
use ribabari.Program.Printed.{print_lines}
use ribabari.Program.Statements.{Statement, IsKnown}
use ribabari.Program.RoundTrip.{code_lines, code_of, length-code_of, read_code-print_lines}
use ribabari.Program.Joined.{register_all}
use ribabari.Program.Header.{
  Head, IsHead, semaphores_line, print_head, process_of, parse_synthetic_program-print_head,
}
use ribabari.Kernel.State.{Kernel}
use ribabari.Kernel.Create.{mem_load_finish, mem_load_req, process_create}
use ribabari.Kernel.Added.{Fresh, with_new, with_new-IsValid}

-- The process of a program, with the length of its code.
abbrev pub loaded_process : Head → List Statement → ℕ → Process
loaded_process src code id = record (process_of src id) { code_len = length code }

abbrev pub NumberedBelow : ℕ → Store → Type 0
NumberedBelow next s = (q : Ptr) (i : ℕ) → id_of s q ≡ some i → i < next

-- What the creation of a process at `p` makes of the kernel `k`, with `size` bytes of `r` taken.
pub record Created (p : Ptr) (src : Head) (code : List Statement) (size r : ℕ) (k k' : Kernel)
    : Type 0 where
  pub valid : IsValid k'.scheduler k'.procs
  pub numbered : NumberedBelow k'.next_proc_id k'.procs
  pub queued : k'.scheduler ≡ with_new p src.priority k.scheduler
  pub here : k'.procs p ≡ some (with_state ready (loaded_process src code k.next_proc_id))
  pub others : (q : Ptr) → p ≢ q → k'.procs q ≡ k.procs q
  pub semaphores : k'.sem_table ≡ register_all k.sem_table src.names
  pub listed : k'.proc_table ≡ list_add k.proc_table p
  pub arm : k'.disk_scheduler ≡ k.disk_scheduler
  pub files : k'.file_table ≡ k.file_table
  pub host : k'.host ≡ k.host
  pub loaded :
      Loaded
        (loaded_process src code k.next_proc_id)
        (code_of code)
        size
        (r - size)
        k.seg_table
        k'.seg_table

module _ (p : Ptr) (k : Kernel) (c : Process) (ne : p ≢ null) (free : k.procs p ≡ none)
    (below : NumberedBelow k.next_proc_id k.procs) (id_is : c.id ≡ k.next_proc_id) where
  abbrev first_store : Store
  first_store = write k.procs p (some c)

  abbrev last_store : Store
  last_store = write first_store p (some (with_state ready c))

  first_Points : Points first_store p c
  unfolding write
  first_Points = record { ne_null = ne; holds = ground arith }

  last-Fresh : Fresh k.procs p (with_state ready c) last_store
  unfolding write
  last-Fresh = record {
    ne_null = ne;
    free = free;
    now = ground arith;
    same = λ q other. ground arith;
    new_id = λ q i h e. absurd (omega (arith, below q i h, e, id_is));
  }

  last-NumberedBelow : NumberedBelow (k.next_proc_id + 1) last_store
  unfolding write
  last-NumberedBelow q i h = elim (==-cases q p) [
    | inl e ↦ ground (arith, id_is)
    | inr e ↦ ground (arith, below q i)
  ]

module _ (p : Ptr) (k : Kernel) (src : Head) (code : List Statement) (size r : ℕ)
    (good : IsValid k.scheduler k.procs) (ne : p ≢ null) (free : k.procs p ≡ none)
    (below : NumberedBelow k.next_proc_id k.procs) (head : IsHead src)
    (short : length (semaphores_line src.names) < line_room)
    (known : All (IsKnown (register_all k.sem_table src.names)) code)
    (asked : src.seg_size ≡ pos size) (left : k.seg_table.remaining ≡ pos r)
    (fits : size * kilobyte ≤ r) (bound : r ≤ max_mem_size) where
  -- A synthetic program that is printed into a file, in the format of the README, whose semaphores are among
  -- those of its own line or of the table, and whose segment fits in the free memory: process_create
  -- returns. At the address that it was given, which was free, stands the process of the program,
  -- ready, with the next id; it is last in the process table, and in the high queue if its priority
  -- is 1, in the low queue for every other priority; its semaphores are registered; its code is loaded;
  -- no other process changes, nor do the disk, the file table and the host; and the scheduler stays
  -- valid, with every id below the next one.
  pub process_create-Created :
      Returns
        (Created p src code (size * kilobyte) r k)
        (process_create (some (print_head src (print_lines (code_lines code)))) p k)
  unfolding process_create mem_load_req mem_load_finish
  process_create-Created =
      let c : Process = loaded_process src code k.next_proc_id in
      let table = register_all k.sem_table src.names in
      let (seg_table, e, loaded) =
        mem_req_load-Loaded c (code_of code) k.seg_table size r asked left fits bound
          (omega (arith, length-code_of code)) in
      let fresh = last-Fresh p k c ne free below refl in
      (
        record k {
          next_proc_id = k.next_proc_id + 1;
          sem_table = table;
          seg_table = seg_table;
          proc_table = list_add k.proc_table p;
          procs = last_store p k c ne free below refl;
          scheduler = with_new p src.priority k.scheduler;
        },
        rw (
          parse_synthetic_program-print_head src (print_lines (code_lines code)) k.next_proc_id
              k.sem_table head short,
          read_code-print_lines table code known,
          Points-load (first_Points p k c ne free below refl),
          e,
        ),
        record {
          valid = with_new-IsValid good fresh src.priority (omega arith, omega arith);
          numbered = last-NumberedBelow p k c ne free below refl;
          queued = refl;
          here = fresh.now;
          others = fresh.same;
          semaphores = refl;
          listed = refl;
          arm = refl;
          files = refl;
          host = refl;
          loaded = loaded;
        },
      )
