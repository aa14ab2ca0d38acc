-- ===== src/Tests/CpuTests.antt =====
-- The theorems about the CPU, applied, and a run of the whole simulator that ends past the code.
use ribabari.Prelude.{
  ℕ, ◌≡◌, refl, Returns, some, none, true, set, get_elem?, get_elem?-some, [], ◌∷◌, arith, pos,
  false, fault, if◌then◌else◌, ◌==◌,
}
use ribabari.Process.{Process, running}
use ribabari.Memory.{Page, Segment, mem_req_load, segment_find, fresh_page, segment_populate}
use ribabari.Memory.Load.{Holds, segment_populate-Holds}
use ribabari.Cpu.{Cpu, inner, cpu, fetch}
use ribabari.Cpu.Fetch.{Fetches, instr_at, fetch-mem_req_load}
use ribabari.Cpu.PastEnd.{Holds-HoldsCode, HoldsCode-used, cpu-past_end}
use ribabari.Tests.Data.{job, code, memory, libc, one_running, kernel_with}

fetch-mem_req_load_example :
    Returns
      (λ t'. (pc : ℕ) → Fetches (instr_at code 2 pc) (fetch t'.seg_list (pos 1) pc))
      (mem_req_load (job 1 running) code memory)
unfolding segment_find
fetch-mem_req_load_example =
    fetch-mem_req_load (job 1 running) code memory 4 8192 refl refl (omega arith) (omega arith)
      (omega arith) refl

abbrev fresh_segment : Segment
fresh_segment = record {
  id = pos 1;
  size = pos 4096;
  page_table = fresh_page ∷ [];
  page_count = 1;
  page_qtd = pos 1;
}

loaded :
    Returns
      (λ seg'. Holds code 2 seg' × (seg'.id ≡ pos 1) × (seg'.size ≡ pos 4096))
      (segment_populate fresh_segment code 2)
loaded = segment_populate-Holds fresh_segment code 2 refl (omega arith)

-- Its page is in use, as the fetches of its instructions left it.
first_page : (page : Page) × (get_elem? loaded.0.page_table 0 ≡ some page)
first_page =
    let (seg, e, (h, id, size)) = loaded in get_elem?-some seg.page_table 0 (omega (arith, h.pages))

abbrev executed_segment : Segment
executed_segment = record loaded.0 {
  page_table = set loaded.0.page_table 0 (record (first_page.0) { used = some true });
}

-- The only process has executed its two instructions, and is on the CPU once more.
abbrev ended : Process
ended = record (job 1 running) { pc = 2 }

abbrev resumed : Cpu
resumed = record {
  phase = inner;
  no_process = false;
  kernel = record (kernel_with one_running) {
    procs = λ q. if q == 1 then some ended else none;
    seg_table = record { seg_list = executed_segment ∷ []; seg_list_size = 1; remaining = pos 0 };
  };
}

found : segment_find (executed_segment ∷ []) (pos 1) ≡ some executed_segment
unfolding segment_find
found = let (seg, e, (h, id, size)) = loaded in ground arith

cpu-past_end_example : cpu libc true resumed ≡ fault
cpu-past_end_example =
    cpu-past_end libc resumed ended code executed_segment refl
      (record { ne_null = omega arith; holds = refl }) (omega arith) found
      (HoldsCode-used 0 (first_page.0) (some true) (first_page.1) (Holds-HoldsCode (loaded.2.0)))
