-- ===== src/Tests/MemoryViewTests.antt =====
-- A round of the memory view over one segment, whose page is in use.
use ribabari.Prelude.{
  ℕ, ◌≡◌, ◌<◌, zero, suc, refl, true, Bool, some, [], ◌∷◌, arith, ℤ, pos, count, ok, Returns,
  get_elem?,
}
use ribabari.Process.{CString, load}
use ribabari.Memory.{Page, Segment, SegmentTable, fresh_page}
use ribabari.Text.{newline}
use ribabari.Text.Numbers.{print_int, decimal}
use ribabari.Terminal.{get_process_sid, max_seg_size, max_seg_from}
use ribabari.Terminal.Format.{codes, pad, pad_int}
use ribabari.Terminal.Titles.{shift_10}
use ribabari.Terminal.MemoryView.{
  any_used, page_inuse_index, pages_text, segment_line, refresh_memory_log,
}
use ribabari.Terminal.MemoryShown.{IsShowable, Written}
use ribabari.Terminal.MemoryLines.{refresh_memory_log-Lines}
use ribabari.Tests.Data.{jobs}

abbrev used_page : Page
used_page = record fresh_page { used = some true }

abbrev one_page : Segment
one_page = record {
  id = pos 1;
  size = pos 4096;
  page_table = used_page ∷ [];
  page_count = 1;
  page_qtd = pos 1;
}

abbrev one_segment : SegmentTable
one_segment = record { seg_list = one_page ∷ []; seg_list_size = 1; remaining = pos 1073737728 }

-- The process has not begun, or is past the first page.
abbrev half : ℕ → ℕ → ℤ → ℤ
half pc code_len page_qtd = pos 0

abbrev percent : ℤ → CString
percent remaining = codes "0.0"

one_page_line :
    segment_line half jobs (1 ∷ 2 ∷ []) one_page
    ≡ ok (codes "ID:  1, SegSize:       4 kb, Pages: using 1 of 1.\n")
unfolding segment_line page_inuse_index any_used get_process_sid load pages_text pad pad_int
    print_int decimal shift_10
one_page_line = refl

one_page-IsShowable : IsShowable half jobs (1 ∷ 2 ∷ []) one_page
unfolding get_process_sid load shift_10
one_page-IsShowable = record {
  id_fits = (omega arith, omega arith);
  size_fits = (omega arith, omega arith);
  qtd_fits = (omega arith, omega arith);
  flagged = flags;
  owned = (1, _, refl, record { ne_null = omega arith; holds = refl }, (omega arith, omega arith));
}
  where
    flags :
        (i : ℕ)
        → i < 1
        → (page : Page) × (used : Bool) × (get_elem? one_page.page_table i ≡ some page)
          × (page.used ≡ some used)
    flags zero h = (used_page, true, refl, refl)
    flags (suc i) h = absurd (omega (arith, h))

refresh_memory_log-Lines_example :
    Returns
      (λ r. Written half jobs (1 ∷ 2 ∷ []) (one_page ∷ []) (r.1) × (count newline (r.1) ≡ 1))
      (refresh_memory_log half 240 percent jobs (1 ∷ 2 ∷ []) one_segment)
unfolding max_seg_size max_seg_from shift_10
refresh_memory_log-Lines_example =
    refresh_memory_log-Lines half jobs (1 ∷ 2 ∷ []) 240 percent one_segment
      (one_page-IsShowable, tt) (omega arith, omega arith) (omega arith)
