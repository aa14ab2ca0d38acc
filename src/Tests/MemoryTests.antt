-- ===== src/Tests/MemoryTests.antt =====
-- The theorems about memory, applied.
use ribabari.Prelude.{ℕ, ◌≡◌, refl, some, true, false, List, [], ◌∷◌, arith, pos, ok, ◌>>=◌}
use ribabari.Process.{running}
use ribabari.Memory.{
  Segment, SegmentTable, fresh_page, segment_find, segment_free, mem_req_load, memory_page_swap,
}
use ribabari.Memory.Space.{segment_free-mem_req_load}
use ribabari.Memory.Swap.{Swapped, memory_page_swap-Swapped}
use ribabari.Tests.Data.{job, code, memory}

abbrev fresh_segment : Segment
fresh_segment = record {
  id = pos 1;
  size = pos 4096;
  page_table = fresh_page ∷ [];
  page_count = 1;
  page_qtd = pos 1;
}

abbrev pub used_segment : Segment
used_segment = record fresh_segment {
  page_table =
      record fresh_page { used = some true } ∷ record fresh_page { used = some false } ∷ [];
}

segment_free-mem_req_load_example :
    (mem_req_load (job 1 running) code memory >>= λ t'. segment_free t' (pos 1))
    ≡ ok (record memory { seg_list_size = 1 })
unfolding segment_find
segment_free-mem_req_load_example =
    segment_free-mem_req_load (job 1 running) code memory 4 8192 refl refl (omega arith)
      (omega arith) (omega arith) refl

abbrev pub one_segment : SegmentTable
one_segment = record { seg_list = used_segment ∷ []; seg_list_size = 1; remaining = pos 8192 }

memory_page_swap-Swapped_example :
    (after : List Segment) × (g : ℕ) × (memory_page_swap (pos 5000) (used_segment ∷ []) (pos 0)
      ≡ ok (after, pos g))
    × Swapped (pos 5000) (used_segment ∷ []) after 0 g
memory_page_swap-Swapped_example =
    memory_page_swap-Swapped (pos 5000) (used_segment ∷ []) 0
      (((true, refl), ((false, refl), tt)), tt) (omega arith)
