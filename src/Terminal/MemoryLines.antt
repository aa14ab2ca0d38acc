-- ===== src/Terminal/MemoryLines.antt =====
-- A round of the memory view: its buffers are long enough, and it writes a line for each segment.
use ribabari.Prelude.{
  ℕ, zero, suc, ◌-◌, ◌≤◌, ◌≡◌, refl, Bool-cases, inl, inr, List, [], ◌∷◌, ◌++◌, arith, ==_ne, ℤ,
  pos, negsuc, Fits, eq_ℤ, max_int, All, count, count-append, length, length-append, replicate,
  take_all, Returns, Returns-and,
}
use ribabari.Process.{Ptr, CString, Store, Points-load}
use ribabari.Memory.{Segment, SegmentTable}
use ribabari.Text.{newline, space}
use ribabari.Text.Numbers.{print_int, IsWordByte, print_int-words, length-print_int}
use ribabari.Terminal.{max_seg_size}
use ribabari.Terminal.Format.{codes, joined, pad, pad_int, length-joined, count-joined}
use ribabari.Terminal.Titles.{shift_10, memory_use, refresh_memory_window_title}
use ribabari.Terminal.TitleRoom.{sprintf_rs-ok}
use ribabari.Terminal.MemoryShown.{
  IsShowable, Written, any_used-Flags, short_pad, segment_lines-Written,
}
use ribabari.Terminal.MemoryView.{
  page_inuse_index, pages_text, segment_line, segment_lines, refresh_memory_log,
}

no_newline : (s : CString) → All IsWordByte s → count newline s ≡ 0
no_newline [] h = refl
no_newline (c ∷ s) h = rw (==_ne c newline h.0.1) (omega (arith, no_newline s h.1))

count-print_int : (v : ℤ) → count newline (print_int v) ≡ 0
count-print_int v = no_newline (print_int v) (print_int-words v)

count-spaces : (n : ℕ) → count newline (replicate n space) ≡ 0
count-spaces zero = refl
count-spaces (suc n) = omega (arith, count-spaces n)

count-pad_int : (width : ℕ) (v : ℤ) → count newline (pad_int width v) ≡ 0
unfolding pad_int pad
count-pad_int width v = omega (
  arith,
  count-append newline (replicate (width - length (print_int v)) space) (print_int v),
  count-spaces (width - length (print_int v)),
  count-print_int v,
)

-- The last piece is shorter than the buffer, and ends in the only newline.
pages_text-Line :
    (index qtd : ℤ)
    → Fits index
    → Fits qtd
    → (length (pages_text index qtd) ≤ 34) × (count newline (pages_text index qtd) ≡ 1)
unfolding pages_text
pages_text-Line index qtd fi fq =
    let using =
      codes "using " ∷ print_int index ∷ codes " of " ∷ print_int qtd ∷ codes ".\n" ∷ [] in
    elim (Bool-cases (eq_ℤ index (negsuc 0))) [
      | inl e ↦ rw e (
        omega
            (arith, length-append (print_int qtd) (codes " available.\n"), length-print_int qtd fq),
        omega (
          arith,
          count-append newline (print_int qtd) (codes " available.\n"),
          count-print_int qtd,
        ),
      )
      | inr e ↦ rw e (
        omega (arith, length-joined using, length-print_int qtd fq, length-print_int index fi),
        omega (arith, count-joined newline using, count-print_int qtd, count-print_int index),
      )
    ]

length-memory_use :
    (use_text : CString) (t : SegmentTable)
    → Fits (shift_10 (max_seg_size t.seg_list))
    → length use_text ≤ 20
    → length (memory_use use_text t) ≤ 63
unfolding memory_use
length-memory_use use_text t largest few =
    rw (length-append (print_int (shift_10 (max_seg_size t.seg_list))), length-append use_text)
      (omega (arith, few, length-print_int (shift_10 (max_seg_size t.seg_list)) largest))

module _ (share : ℕ → ℕ → ℤ → ℤ) (procs : Store) (proc_table : List Ptr) where
  -- -1, or a page from the first on.
  page_inuse_index-Fits :
      (seg : Segment)
      → IsShowable share procs proc_table seg
      → Returns Fits (page_inuse_index share procs proc_table seg)
  unfolding page_inuse_index
  page_inuse_index-Fits seg s =
      let (used, e, flags) = any_used-Flags seg.page_count seg.page_table s.flagged in
      let (p, c, found, here, fits) = s.owned in
      rw e (elim (Bool-cases used) [
        | inl t ↦
            rw (t, found, Points-load here)
              (max_int (pos 1) (share c.pc c.code_len seg.page_qtd), refl, ground arith)
        | inr f ↦ rw f (negsuc 0, refl, (omega arith, omega arith))
      ])

  segment_line-Line :
      (seg : Segment)
      → IsShowable share procs proc_table seg
      → Returns (λ text. count newline text ≡ 1) (segment_line share procs proc_table seg)
  unfolding segment_line
  segment_line-Line seg s =
      let (index, e, fits) = page_inuse_index-Fits seg s in
      let id = short_pad 2 seg.id (codes ", ") (omega arith) (omega arith) s.id_fits in
      let size =
        short_pad 7 (shift_10 seg.size) (codes " kb, ") (omega arith) (omega arith) s.size_fits in
      let (short, ends) = pages_text-Line index seg.page_qtd fits s.qtd_fits in
      let id_piece = pad_int 2 seg.id ++ codes ", " in
      let size_piece = pad_int 7 (shift_10 seg.size) ++ codes " kb, " in
      let last = pages_text index seg.page_qtd in
      let pieces =
        codes "ID: " ∷ id_piece ∷ codes "SegSize: " ∷ size_piece ∷ codes "Pages: " ∷ last ∷ [] in
      rw (e, id, size, take_all 99 last (omega (arith, short)))
        (
          joined pieces,
          refl,
          omega (
            arith,
            ends,
            count-joined newline pieces,
            count-append newline (pad_int 2 seg.id) (codes ", "),
            count-append newline (pad_int 7 (shift_10 seg.size)) (codes " kb, "),
            count-pad_int 2 seg.id,
            count-pad_int 7 (shift_10 seg.size),
          ),
        )

  -- The view writes a line for each segment.
  segment_lines-Lines :
      (segs : List Segment)
      → All (IsShowable share procs proc_table) segs
      → Returns
          (λ text. count newline text ≡ length segs)
          (segment_lines share procs proc_table segs)
  unfolding segment_lines
  segment_lines-Lines [] h = ([], refl, refl)
  segment_lines-Lines (it ∷ rest) h =
      let (line, e, one) = segment_line-Line it h.0 in
      let (lines, e', more) = segment_lines-Lines rest h.1 in
      rw (e, e') (line ++ lines, refl, omega (arith, count-append newline line lines, one, more))

  -- Let every segment have values within the int, initialised pages, and a process of the table that owns it,
  -- let the largest size fit, and let the percentage take at most 20 bytes. Then a round of the memory
  -- view returns, without a write behind a buffer. Its text is a line for each segment, in order, and
  -- nothing else: the id in two columns, the size in kb in seven, and either the number of pages,
  -- when none of them is in use, or the page that the owner has come to, from 1 on, and their number.
  -- No piece has another newline, so there are as many lines as segments.
  pub refresh_memory_log-Lines :
      (cols : ℕ) (use_of : ℤ → CString) (t : SegmentTable)
      → All (IsShowable share procs proc_table) t.seg_list
      → Fits (shift_10 (max_seg_size t.seg_list))
      → length (use_of t.remaining) ≤ 20
      → Returns
          (λ r.
            Written share procs proc_table t.seg_list (r.1)
            × (count newline (r.1) ≡ length t.seg_list))
          (refresh_memory_log share cols use_of procs proc_table t)
  unfolding refresh_memory_log refresh_memory_window_title
  refresh_memory_log-Lines cols use_of t h largest few =
      let (text, e, both) =
        Returns-and (segment_lines-Written share procs proc_table t.seg_list h)
          (segment_lines-Lines t.seg_list h) in
      rw
        (
          sprintf_rs-ok (memory_use (use_of t.remaining) t)
              (length-memory_use (use_of t.remaining) t largest few),
          e,
        )
        (_, refl, both)
