-- ===== src/Memory/Space.antt =====
-- The account of free memory: a load that fits takes its size, and a release gives it back.
use ribabari.Prelude.{
  ℕ, ◌+◌, ◌-◌, ◌*◌, ◌≤◌, ◌≡◌, refl, true, Option, none, some, List, [], ◌∷◌, ◌++◌, arith, ℤ, pos,
  ◌+ℤ◌, ◌-ℤ◌, ◌*ℤ◌, eq_ℤ, ok, exited, ◌>>=◌, Returns, length, replicate, int, min_int, ◌≤ℤ◌, ◌⊎◌,
  inl, inr, Option-cases, pos_part, int_max,
}
use ribabari.LinkedList.{list_add}
use ribabari.Process.{Process}
use ribabari.Instruction.{Instr}
use ribabari.Memory.{
  Segment, SegmentTable, kilobyte, max_mem_size, page_count_for, fresh_page, segment_create,
  segment_add, segment_find, segment_drop, segment_free, free_found, reserve, mem_req_load, div_int,
  page_size,
}
use ribabari.Memory.Load.{Holds, segment_populate-Holds}

eq_ℤ-refl : (a : ℤ) → eq_ℤ a a ≡ true
eq_ℤ-refl a = ground arith

segment_find-last :
    (segs : List Segment) (seg : Segment)
    → segment_find segs seg.id ≡ none
    → segment_find (segs ++ seg ∷ []) seg.id ≡ some seg
unfolding segment_find
segment_find-last [] seg h = rw (eq_ℤ-refl seg.id)
segment_find-last (it ∷ segs) seg h = ground (arith, segment_find-last segs seg)

segment_drop-last :
    (segs : List Segment) (seg : Segment)
    → segment_find segs seg.id ≡ none
    → segment_drop (segs ++ seg ∷ []) seg.id ≡ segs
unfolding segment_find segment_drop
segment_drop-last [] seg h = rw (eq_ℤ-refl seg.id)
segment_drop-last (it ∷ segs) seg h = ground (arith, segment_drop-last segs seg)

size_in_bytes :
    (k : ℕ) → k * kilobyte ≤ max_mem_size → int (pos k *ℤ pos kilobyte) ≡ ok (pos (k * kilobyte))
unfolding ◌*ℤ◌
size_in_bytes k h = ground arith

reserve-fits :
    (t : SegmentTable) (r size : ℕ)
    → t.remaining ≡ pos r
    → size ≤ r
    → r ≤ max_mem_size
    → reserve t (pos size) ≡ ok (record t { remaining = pos (r - size) })
unfolding reserve ◌-ℤ◌
reserve-fits t r size e fits bound = ground arith

-- The table after a load of `size` bytes that leaves `left` free.
abbrev pub Loaded :
    Process → List (Option Instr) → (size left : ℕ) → SegmentTable → SegmentTable → Type 0
Loaded proc code size left t t' =
    (seg : Segment) × (t' ≡ record t {
      seg_list = list_add t.seg_list seg;
      seg_list_size = t.seg_list_size + 1;
      remaining = pos left;
    })
    × (seg.id ≡ proc.seg_id)
    × (seg.size ≡ pos size)
    × Holds code proc.code_len seg

module _ (proc : Process) (code : List (Option Instr)) (t : SegmentTable) (k r : ℕ)
    (asked : proc.seg_size ≡ pos k) (left : t.remaining ≡ pos r) (fits : k * kilobyte ≤ r)
    (bound : r ≤ max_mem_size) (room : proc.code_len ≤ length code) where
  abbrev fresh_segment : Segment
  fresh_segment = record {
    id = proc.seg_id;
    size = pos (k * kilobyte);
    page_table = replicate (page_count_for proc.code_len) fresh_page;
    page_count = page_count_for proc.code_len;
    page_qtd = div_int (pos (k * kilobyte)) page_size;
  }

  segment_create-ok : segment_create proc ≡ ok fresh_segment
  unfolding segment_create
  segment_create-ok = rw (asked, size_in_bytes k (omega arith))

  -- A program whose segment of whole kilobytes fits in the free memory, at most a gigabyte, and
  -- whose code has as many slots as its length, is loaded: the table gets one more segment, at the
  -- end, with the id and the size of the process, holding the code at its addresses; the free
  -- memory shrinks by the size, and no page of another segment is touched.
  pub mem_req_load-Loaded :
      Returns (Loaded proc code (k * kilobyte) (r - k * kilobyte) t) (mem_req_load proc code t)
  unfolding mem_req_load segment_add
  mem_req_load-Loaded =
      let (seg, e, (holds, id, size)) =
        segment_populate-Holds fresh_segment code proc.code_len refl room in
      (
        segment_add (record t { remaining = pos (r - k * kilobyte) }) seg,
        rw (segment_create-ok, reserve-fits t r (k * kilobyte) left fits bound, e),
        (seg, refl, id, size, holds),
      )

  free-Loaded :
      (t' : SegmentTable)
      → Loaded proc code (k * kilobyte) (r - k * kilobyte) t t'
      → segment_find t.seg_list proc.seg_id ≡ none
      → segment_free t' proc.seg_id ≡ ok (record t { seg_list_size = t.seg_list_size + 1 })
  unfolding segment_free ◌+ℤ◌
  free-Loaded t' (seg, e, id, size, holds) new =
      let new' : segment_find t.seg_list seg.id ≡ none = rw id new in
      rw (e, ← id, segment_find-last t.seg_list seg new', size)
        (ground (arith, segment_drop-last t.seg_list seg new'))

  -- A load that fits, under an id that the table does not have, and then a release of that id: the table is
  -- as before, its free memory included, but for the field `seg_list_size`, which has grown by one.
  pub segment_free-mem_req_load :
      segment_find t.seg_list proc.seg_id ≡ none
      → (mem_req_load proc code t >>= λ t'. segment_free t' proc.seg_id)
        ≡ ok (record t { seg_list_size = t.seg_list_size + 1 })
  segment_free-mem_req_load new =
      let (t', e, loaded) = mem_req_load-Loaded in rw e (free-Loaded t' loaded new)

  find-Loaded :
      (t' : SegmentTable)
      → Loaded proc code (k * kilobyte) (r - k * kilobyte) t t'
      → segment_find t.seg_list proc.seg_id ≡ none
      → (seg : Segment) × (segment_find t'.seg_list proc.seg_id ≡ some seg)
        × Holds code proc.code_len seg
  find-Loaded t' (seg, e, id, size, holds) new =
      let new' : segment_find t.seg_list seg.id ≡ none = rw id new in
      (seg, rw (e, ← id) (segment_find-last t.seg_list seg new'), holds)

  -- After a load under a fresh id, the lookup of that id finds the segment that holds the code.
  pub segment_find-mem_req_load :
      segment_find t.seg_list proc.seg_id ≡ none
      → Returns
          (λ t'.
            (seg : Segment) × (segment_find t'.seg_list proc.seg_id ≡ some seg)
            × Holds code proc.code_len seg)
          (mem_req_load proc code t)
  segment_find-mem_req_load new =
      let (t', e, loaded) = mem_req_load-Loaded in (t', e, find-Loaded t' loaded new)

-- Free memory that is a number of bytes within the gigabyte.
abbrev pub IsSpace : ℤ → Type 0
IsSpace n = (pos 0 ≤ℤ n) × (n ≤ℤ pos max_mem_size)

-- If the free memory and the size of the segment are sizes within the gigabyte whose sum is an `int`: a
-- release ends the program if the id is unknown; otherwise it drops the first segment with that id,
-- and the free memory does not shrink and stays within the gigabyte.
pub segment_free_cases :
    (t : SegmentTable) (sid : ℤ)
    → IsSpace t.remaining
    → ((seg : Segment)
        → segment_find t.seg_list sid ≡ some seg
        → IsSpace seg.size × (pos_part t.remaining + pos_part seg.size ≤ int_max))
    → ((segment_find t.seg_list sid ≡ none) × (segment_free t sid ≡ exited))
      ⊎ Returns
          (λ t'.
            (t'.seg_list ≡ segment_drop t.seg_list sid)
            × IsSpace t'.remaining
            × (t.remaining ≤ℤ t'.remaining))
          (segment_free t sid)
unfolding segment_free ◌+ℤ◌
segment_free_cases t sid space sizes = elim (Option-cases (segment_find t.seg_list sid)) [
  | inl e ↦ inl (e, rw e)
  | inr (seg, e) ↦ inr (rw e (freed seg (sizes seg e)))
]
  where
    freed :
        (seg : Segment)
        → IsSpace seg.size × (pos_part t.remaining + pos_part seg.size ≤ int_max)
        → Returns
            (λ t'.
              (t'.seg_list ≡ segment_drop t.seg_list sid)
              × IsSpace t'.remaining
              × (t.remaining ≤ℤ t'.remaining))
            (free_found t sid (some seg))
    freed seg h = (
      record t {
        seg_list = segment_drop t.seg_list sid;
        remaining = min_int (pos max_mem_size) (t.remaining +ℤ seg.size);
      },
      ground arith,
      ground arith,
    )
