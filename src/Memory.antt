-- ===== src/Memory.antt =====
-- memory/memory.c and memory/memory.h: pages, segments, the segment table, the load of a program into a
-- fresh segment, and the second-chance swap. Fresh memory has no value: `none`. A segment is referred
-- to by nothing but the list of the table, so the list holds the segments themselves.
pub mod Pages
pub mod Load
pub mod Swap
pub mod Space
use ribabari.Prelude.{
  ℕ, zero, suc, ◌+◌, ◌*◌, ◌/◌, ◌%◌, Bool, true, false, Option, none, some, List, [], ◌∷◌, ◌++◌,
  if◌then◌else◌, ℤ, pos, negsuc, ◌+ℤ◌, ◌-ℤ◌, ◌*ℤ◌, ltb_ℤ, leb_ℤ, eq_ℤ, int, max_int, min_int, sub_ℕ,
  Run, ok, exited, ◌>>=◌, or_fault, get_elem?, set, replicate,
}
use ribabari.LinkedList.{list_add}
use ribabari.Process.{Process}
use ribabari.Instruction.{Instr}

abbrev pub kilobyte : ℕ
kilobyte = 1024

abbrev pub max_mem_size : ℕ
max_mem_size = 1073741824

abbrev pub instructions_per_page : ℕ
instructions_per_page = 256

abbrev pub page_size : ℕ
page_size = 4096

abbrev pub page_number : ℕ → ℕ
page_number x = x / instructions_per_page

abbrev pub page_offset : ℕ → ℕ
page_offset x = x % instructions_per_page

pub record Page : Type 0 where
  pub code : List (Option Instr)
  pub used : Option Bool

pub record Segment : Type 0 where
  pub id : ℤ
  pub size : ℤ
  pub page_table : List Page
  pub page_count : ℕ
  pub page_qtd : ℤ

pub record SegmentTable : Type 0 where
  pub seg_list : List Segment
  pub seg_list_size : ℕ
  pub remaining : ℤ

-- Division of an `int` by a positive constant rounds towards 0.
abbrev pub div_int : ℤ → ℕ → ℤ
div_int (pos n) k = pos (n / k)
div_int (negsuc n) k = sub_ℕ 0 (suc n / k)

-- A page as `malloc` leaves it.
abbrev pub fresh_page : Page
fresh_page = record { code = replicate instructions_per_page none; used = none }

-- `ceil((double) code_len / INSTRUCTIONS_PER_PAGE)`, exact for every `int`.
abbrev pub page_count_for : ℕ → ℕ
page_count_for code_len = (code_len + 255) / instructions_per_page

unfoldable pub segment_create : Process → Run Segment
segment_create proc = do
  size ← int (proc.seg_size *ℤ pos kilobyte)
  ok (record {
    id = proc.seg_id;
    size = size;
    page_table = replicate (page_count_for proc.code_len) fresh_page;
    page_count = page_count_for proc.code_len;
    page_qtd = div_int size page_size;
  })

-- for (i = i; n rounds; i++) page_table[PAGE_NUMBER(i)].used = 0;
unfoldable pub clear_used : ℕ → ℕ → List Page → Run (List Page)
clear_used zero i pages = ok pages
clear_used (suc n) i pages = do
  page ← or_fault (get_elem? pages (page_number i))
  clear_used n (i + 1) (set pages (page_number i) (record page { used = some false }))

-- for (i = i; n rounds; i++) page_table[PAGE_NUMBER(i)].code[PAGE_OFFSET(i)] = code[i];
unfoldable pub copy_code : ℕ → ℕ → List (Option Instr) → List Page → Run (List Page)
copy_code zero i code pages = ok pages
copy_code (suc n) i code pages = do
  instr ← or_fault (get_elem? code i)
  page ← or_fault (get_elem? pages (page_number i))
  copy_code n (i + 1) code
      (set pages (page_number i) (record page { code = set page.code (page_offset i) instr }))

unfoldable pub segment_populate : Segment → List (Option Instr) → ℕ → Run Segment
segment_populate seg code code_len = do
  cleared ← clear_used code_len 0 seg.page_table
  copied ← copy_code code_len 0 code cleared
  ok (record seg { page_table = copied })

unfoldable pub segment_add : SegmentTable → Segment → SegmentTable
segment_add t seg = record t {
  seg_list = list_add t.seg_list seg;
  seg_list_size = t.seg_list_size + 1;
}

-- The inner loop of `memory_page_swap`, over the pages of one segment.
unfoldable pub swap_pages : ℤ → List Page → ℤ → Run (List Page × ℤ)
swap_pages size [] freed = ok ([], freed)
swap_pages size (page ∷ rest) freed = do
  used ← or_fault page.used
  more ← if used then ok freed else int (freed +ℤ pos page_size)
  let page' = if used then record page { used = some false } else page
  if leb_ℤ size more
      then ok (page' ∷ rest, more)
      else (do (rest', total) ← swap_pages size rest more; ok (page' ∷ rest', total))

-- The outer loop. The `break` of the inner one does not end it.
unfoldable pub memory_page_swap : ℤ → List Segment → ℤ → Run (List Segment × ℤ)
memory_page_swap size [] freed = ok ([], freed)
memory_page_swap size (it ∷ rest) freed = do
  (pages, more) ← swap_pages size it.page_table freed
  (rest', total) ← memory_page_swap size rest more
  ok (record it { page_table = pages } ∷ rest', total)

unfoldable pub segment_table_init : SegmentTable
segment_table_init = record { seg_list = []; seg_list_size = 0; remaining = pos max_mem_size }

-- The first segment with an id; `none` is NULL.
unfoldable pub segment_find : List Segment → ℤ → Option Segment
segment_find [] sid = none
segment_find (it ∷ rest) sid = if eq_ℤ it.id sid then some it else segment_find rest sid

-- The list without the first segment with an id.
unfoldable pub segment_drop : List Segment → ℤ → List Segment
segment_drop [] sid = []
segment_drop (it ∷ rest) sid = if eq_ℤ it.id sid then rest else it ∷ segment_drop rest sid

free_found : SegmentTable → ℤ → Option Segment → Run SegmentTable
free_found t sid none = exited
free_found t sid (some seg) = do
  sum ← int (t.remaining +ℤ seg.size)
  ok (record t {
    seg_list = segment_drop t.seg_list sid;
    remaining = min_int (pos max_mem_size) sum;
  })

unfoldable pub segment_free : SegmentTable → ℤ → Run SegmentTable
unfolding free_found
segment_free t sid = free_found t sid (segment_find t.seg_list sid)

-- The space is taken, and pages are swapped if it does not suffice.
unfoldable pub reserve : SegmentTable → ℤ → Run SegmentTable
reserve t size = do
  new_remaining ← int (t.remaining -ℤ size)
  let left = max_int (pos 0) new_remaining
  if ltb_ℤ new_remaining (pos 0)
      then (do
        (segs, freed) ← memory_page_swap size t.seg_list (pos 0)
        sum ← int (left +ℤ freed)
        ok (record t { seg_list = segs; remaining = sum }))
      else ok (record t { remaining = left })

unfoldable pub mem_req_load : Process → List (Option Instr) → SegmentTable → Run SegmentTable
mem_req_load proc code t = do
  seg ← segment_create proc
  t1 ← reserve t seg.size
  seg1 ← segment_populate seg code proc.code_len
  ok (segment_add t1 seg1)
