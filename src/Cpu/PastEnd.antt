-- ===== src/Cpu/PastEnd.antt =====
-- The inner loop of the CPU runs its body, if a second has passed, before it tests the program counter.
use ribabari.Prelude.{
  ℕ, true, arith, ◌<◌, ◌≤◌, ◌≡◌, refl, Bool, Option, some, List, inl, inr, fault, ==-cases,
  get_elem?, set, length, length-set, get_elem?-set_self, get_elem?-set_ne, get_elem?-lt,
}
use ribabari.Process.{Process, Points, Points-load}
use ribabari.Instruction.{Instr}
use ribabari.Log.{Libc}
use ribabari.Memory.{Page, Segment, segment_find, page_count_for, page_number}
use ribabari.Memory.Pages.{slot}
use ribabari.Memory.Load.{Holds, Unwritten}
use ribabari.Cpu.{Cpu, inner, fetch_instr, run_instruction, body, cpu}
use ribabari.Cpu.Fetch.{fetch-Unwritten}

-- The pages hold the code at its addresses, and nothing was written behind it; their used bits are free.
pub record HoldsCode (code : List (Option Instr)) (n : ℕ) (seg : Segment) : Type 0 where
  pub pages : length seg.page_table ≡ page_count_for n
  pub code_at : (i : ℕ) → i < n → slot seg.page_table i ≡ get_elem? code i
  pub beyond : (i : ℕ) → n ≤ i → Unwritten (slot seg.page_table i)

pub Holds-HoldsCode :
    {code : List (Option Instr)} {n : ℕ} {seg : Segment} → Holds code n seg → HoldsCode code n seg
Holds-HoldsCode h = record { pages = h.pages; code_at = h.code_at; beyond = h.beyond }

-- The used bit of a page does not change what its slots hold.
slot-used :
    (pages : List Page) (j : ℕ) (page : Page) (used : Option Bool) (i : ℕ)
    → get_elem? pages j ≡ some page
    → slot (set pages j (record page { used = used })) i ≡ slot pages i
slot-used pages j page used i h =
    let page' = record page { used = used } in
    elim (==-cases (page_number i) j) [
      | inl e ↦
          let same : page_number i ≡ j = ground arith in
          let there : get_elem? pages (page_number i) ≡ some page = rw same h in
          let now : get_elem? (set pages j page') (page_number i) ≡ some page' =
            rw same (get_elem?-set_self pages j page' (get_elem?-lt pages j page h)) in
          rw (there, now) refl
      | inr ne ↦ rw (get_elem?-set_ne pages j (page_number i) page' (λ e. ground arith)) refl
    ]

-- The CPU sets the used bit of each page that it fetches from, and the pages still hold the code.
pub HoldsCode-used :
    {code : List (Option Instr)} {n : ℕ} {seg : Segment} (j : ℕ) (page : Page) (used : Option Bool)
    → get_elem? seg.page_table j ≡ some page
    → HoldsCode code n seg
    → HoldsCode code n
        (record seg { page_table = set seg.page_table j (record page { used = used }) })
HoldsCode-used {seg = seg} j page used h holds = record {
  pages = rw (length-set seg.page_table j (record page { used = used })) holds.pages;
  code_at = λ i few. rw (slot-used seg.page_table j page used i h) (holds.code_at i few);
  beyond = λ i past. rw (slot-used seg.page_table j page used i h) (holds.beyond i past);
}

-- In the inner loop, a second after the last instruction, with a process on the CPU whose program counter
-- is at or behind the end of its code, and whose segment holds that code, its pages in use or not: the
-- turn is undefined behaviour, since the CPU fetches from a slot that was never written, instead of
-- finishing the process.
pub cpu-past_end :
    (libc : Libc) (m : Cpu) (c : Process) (code : List (Option Instr)) (seg : Segment)
    → m.phase ≡ inner
    → Points m.kernel.procs m.kernel.scheduler.scheduled_proc c
    → c.code_len ≤ c.pc
    → segment_find m.kernel.seg_table.seg_list c.seg_id ≡ some seg
    → HoldsCode code c.code_len seg
    → cpu libc true m ≡ fault
unfolding cpu body run_instruction fetch_instr
cpu-past_end libc m c code seg phase here past found holds =
    let gone =
      fetch-Unwritten m.kernel.seg_table.seg_list c.seg_id c.pc seg found
        (holds.beyond c.pc past) in
    rw (phase, Points-load here, gone)
