-- ===== src/Terminal/MemoryView.antt =====
-- refresh_memory_log and page_inuse_index of terminal/terminal.c: a round of the memory view, which clears its
-- window and writes a line for each segment. The part of its pages that a process has passed is
-- computed in double, so it is an argument: for pc, code_len and page_qtd, the product, cut to an int.
use ribabari.Prelude.{
  ℕ, zero, suc, Bool, true, false, List, [], ◌∷◌, ◌++◌, if◌then◌else◌, ℤ, pos, negsuc, eq_ℤ,
  max_int, get_elem?, take, Run, ok, ◌>>=◌, or_fault,
}
use ribabari.Process.{CString, Store, Ptr, load}
use ribabari.Memory.{Page, Segment, SegmentTable}
use ribabari.Text.Numbers.{print_int}
use ribabari.Terminal.{get_process_sid}
use ribabari.Terminal.Format.{codes, joined, pad_int}
use ribabari.Terminal.Titles.{Title, shift_10, refresh_memory_window_title}

-- Whether one of the first pages is in use, from the last of them down.
unfoldable pub any_used : ℕ → List Page → Run Bool
any_used zero pages = ok false
any_used (suc i) pages = do
  page ← or_fault (get_elem? pages i)
  used ← or_fault page.used
  elim used [ true ↦ ok true | false ↦ any_used i pages ]

-- `snprintf` into a buffer of 100 bytes.
abbrev pub snprintf_100 : CString → CString
snprintf_100 text = take 99 text

unfoldable pub pages_text : ℤ → ℤ → CString
pages_text p_inuse_index page_qtd =
    if eq_ℤ p_inuse_index (negsuc 0)
    then print_int page_qtd ++ codes " available.\n"
    else joined (
        codes "using "
        ∷ print_int p_inuse_index
        ∷ codes " of "
        ∷ print_int page_qtd
        ∷ codes ".\n"
        ∷ [])

module _ (share : ℕ → ℕ → ℤ → ℤ) where
  unfoldable pub page_inuse_index : Store → List Ptr → Segment → Run ℤ
  unfolding any_used
  page_inuse_index procs proc_table segment = do
    used ← any_used segment.page_count segment.page_table
    elim used [
      | false ↦ ok (negsuc 0)
      | true ↦ get_process_sid procs proc_table segment.id >>= (λ p.
          load procs p
          >>= (λ proc. ok (max_int (pos 1) (share proc.pc proc.code_len segment.page_qtd))))
    ]

  unfoldable pub segment_line : Store → List Ptr → Segment → Run CString
  unfolding page_inuse_index pages_text
  segment_line procs proc_table it = do
    p_inuse_index ← page_inuse_index procs proc_table it
    ok (
        joined (
          codes "ID: "
          ∷ snprintf_100 (pad_int 2 it.id ++ codes ", ")
          ∷ codes "SegSize: "
          ∷ snprintf_100 (pad_int 7 (shift_10 it.size) ++ codes " kb, ")
          ∷ codes "Pages: "
          ∷ snprintf_100 (pages_text p_inuse_index it.page_qtd)
          ∷ []))

  unfoldable pub segment_lines : Store → List Ptr → List Segment → Run CString
  unfolding segment_line
  segment_lines procs proc_table [] = ok []
  segment_lines procs proc_table (it ∷ rest) = do
    line ← segment_line procs proc_table it
    lines ← segment_lines procs proc_table rest
    ok (line ++ lines)

  -- A round, behind sem_wait: the new title and the new text of the window.
  unfoldable pub refresh_memory_log :
      ℕ → (ℤ → CString) → Store → List Ptr → SegmentTable → Run (Title × CString)
  unfolding segment_lines
  refresh_memory_log cols use_of procs proc_table t = do
    title ← refresh_memory_window_title cols use_of t
    text ← segment_lines procs proc_table t.seg_list
    ok (title, text)
