-- ===== src/Cpu/Fetch.antt =====
-- The fetch of the CPU against the program that was loaded.
use ribabari.Prelude.{
  ℕ, ◌*◌, ◌≤◌, ◌<◌, ◌≡◌, inl, inr, Bool, true, false, Option, none, some, List, [], ◌∷◌, arith, ℤ,
  pos, eq_ℤ, Run, ok, fault, Returns, get_elem?, set, length, Bool-cases, Option-cases,
  if◌then◌else◌, ltb,
}
use ribabari.Process.{Process}
use ribabari.Instruction.{Instr}
use ribabari.Memory.{
  Page, Segment, SegmentTable, page_number, kilobyte, max_mem_size, segment_find, mem_req_load,
}
use ribabari.Memory.Pages.{slot, flag}
use ribabari.Memory.Load.{Holds, Unwritten}
use ribabari.Memory.Space.{segment_find-mem_req_load}
use ribabari.Cpu.{read_page, fetch}

-- The result of a fetch of what a slot holds: its instruction, or a fault where nothing was written.
abbrev pub Fetches : Option (Option Instr) → Run (Instr × List Segment) → Type 0
Fetches none r = r ≡ fault
Fetches (some none) r = r ≡ fault
Fetches (some (some instr)) r = (segs : List Segment) × (r ≡ ok (instr, segs))

abbrev Reads : Option (Option Instr) → Run (Instr × List Page) → Type 0
Reads none r = r ≡ fault
Reads (some none) r = r ≡ fault
Reads (some (some instr)) r = (pages : List Page) × (r ≡ ok (instr, pages))

-- The pages behind a fetch.
abbrev touched : Bool → List Page → ℕ → Page → List Page
touched b pages pc page =
    if b then pages else set pages (page_number pc) (record page { used = some true })

read_page-written :
    (pages : List Page) (pc : ℕ) (b : Bool) (instr : Instr)
    → slot pages pc ≡ some (some instr)
    → flag pages (page_number pc) ≡ some (some b)
    → Reads (some (some instr)) (read_page pages pc)
unfolding read_page
read_page-written pages pc b instr e f = elim (Option-cases (get_elem? pages (page_number pc))) [
  | inl missing ↦ absurd (ground arith)
  | inr (page, here) ↦ (touched b pages pc page, ground arith)
]

read_page-Unwritten :
    (pages : List Page) (pc : ℕ) → Unwritten (slot pages pc) → read_page pages pc ≡ fault
unfolding read_page
read_page-Unwritten pages pc (inl e) = ground arith
read_page-Unwritten pages pc (inr e) = ground arith

fetch-written :
    (segs : List Segment) (sid : ℤ) (pc : ℕ) (b : Bool) (instr : Instr) (seg : Segment)
    → segment_find segs sid ≡ some seg
    → slot seg.page_table pc ≡ some (some instr)
    → flag seg.page_table (page_number pc) ≡ some (some b)
    → Fetches (some (some instr)) (fetch segs sid pc)
unfolding fetch segment_find
fetch-written [] sid pc b instr seg found e f = cc
fetch-written (it ∷ rest) sid pc b instr seg found e f = elim (Bool-cases (eq_ℤ it.id sid)) [
  | inl here ↦
      let same : it ≡ seg = ground arith in
      let (pages, e') = read_page-written it.page_table pc b instr (rw same e) (rw same f) in
      (record it { page_table = pages } ∷ rest, rw (here, e'))
  | inr further ↦
      let (segs, e') = fetch-written rest sid pc b instr seg (rw further at found) e f in
      (it ∷ segs, rw (further, e'))
]

pub fetch-Unwritten :
    (segs : List Segment) (sid : ℤ) (pc : ℕ) (seg : Segment)
    → segment_find segs sid ≡ some seg
    → Unwritten (slot seg.page_table pc)
    → fetch segs sid pc ≡ fault
unfolding fetch segment_find
fetch-Unwritten [] sid pc seg found u = cc
fetch-Unwritten (it ∷ rest) sid pc seg found u = elim (Bool-cases (eq_ℤ it.id sid)) [
  | inl here ↦
      let same : it ≡ seg = ground arith in
      rw (here, read_page-Unwritten it.page_table pc (rw same u))
  | inr further ↦ rw (further, fetch-Unwritten rest sid pc seg (rw further at found) u)
]

-- The instruction that a program of `n` instructions has at an address.
abbrev pub instr_at : List (Option Instr) → ℕ → ℕ → Option (Option Instr)
instr_at code n pc = if ltb pc n then get_elem? code pc else none

-- What `Fetches` says of a slot, from a segment that holds the code.
fetch-Holds :
    (segs : List Segment) (sid : ℤ) (code : List (Option Instr)) (n pc : ℕ) (seg : Segment)
    → segment_find segs sid ≡ some seg
    → Holds code n seg
    → Fetches (instr_at code n pc) (fetch segs sid pc)
fetch-Holds segs sid code n pc seg found h = elim (Bool-cases (ltb pc n)) [
  | inl inside ↦ rw inside (go (get_elem? code pc) (h.code_at pc (ground arith)) (ground arith))
  | inr outside ↦ rw outside (fetch-Unwritten segs sid pc seg found (h.beyond pc (ground arith)))
]
  where
    go :
        (o : Option (Option Instr))
        → slot seg.page_table pc ≡ o
        → pc < n
        → Fetches o (fetch segs sid pc)
    go none e lt = fetch-Unwritten segs sid pc seg found (inl e)
    go (some none) e lt = fetch-Unwritten segs sid pc seg found (inr e)
    go (some (some instr)) e lt =
        fetch-written segs sid pc false instr seg found e (h.unused (page_number pc) (omega arith))

module _ (proc : Process) (code : List (Option Instr)) (t : SegmentTable) (k r : ℕ)
    (asked : proc.seg_size ≡ pos k) (left : t.remaining ≡ pos r) (fits : k * kilobyte ≤ r)
    (bound : r ≤ max_mem_size) (room : proc.code_len ≤ length code)
    (new : segment_find t.seg_list proc.seg_id ≡ none) where
  -- After the load of a program that fits, under a fresh segment id, the CPU's fetch from that segment gives
  -- the instruction of the program at every address below its length, a fault where the program has
  -- none there, and a fault at every address from its length on.
  pub fetch-mem_req_load :
      Returns
        (λ t'.
          (pc : ℕ) → Fetches (instr_at code proc.code_len pc) (fetch t'.seg_list proc.seg_id pc))
        (mem_req_load proc code t)
  fetch-mem_req_load =
      let (t', e, (seg, found, holds)) =
        segment_find-mem_req_load proc code t k r asked left fits bound room new in
      (t', e, λ pc. fetch-Holds t'.seg_list proc.seg_id code proc.code_len pc seg found holds)
