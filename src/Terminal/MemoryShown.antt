-- ===== src/Terminal/MemoryShown.antt =====
-- What the memory view is to show of each segment, and that it does: the text of a round.
use mathlib.Core.List.{append_assoc, append-nil}
use ribabari.Prelude.{
  ℕ, zero, suc, ◌<◌, ◌≤◌, ◌≡◌, refl, sym, Bool, true, false, Bool-cases, inl, inr, ==-cases, subst,
  some, List, [], ◌∷◌, ◌++◌, arith, ℤ, pos, negsuc, Fits, eq_ℤ, max_int, All, length, length-append,
  get_elem?, take_all, ok, Returns,
}
use ribabari.Process.{Ptr, CString, Process, Store, Points, Points-load}
use ribabari.Memory.{Page, Segment}
use ribabari.Text.Numbers.{print_int, length-print_int}
use ribabari.Terminal.{get_process_sid}
use ribabari.Terminal.Format.{codes, pad_int, length-pad_int, length-joined}
use ribabari.Terminal.Titles.{shift_10}
use ribabari.Terminal.MemoryView.{
  any_used, page_inuse_index, snprintf_100, pages_text, segment_line, segment_lines,
}

-- What the view needs of a segment: values within the int, pages that have been initialised, and a process of
-- the table that owns it.
pub record IsShowable (share : ℕ → ℕ → ℤ → ℤ) (procs : Store) (proc_table : List Ptr)
    (seg : Segment) : Type 0 where
  pub id_fits : Fits seg.id
  pub size_fits : Fits (shift_10 seg.size)
  pub qtd_fits : Fits seg.page_qtd
  pub flagged :
      (i : ℕ)
      → i < seg.page_count
      → (page : Page) × (used : Bool) × (get_elem? seg.page_table i ≡ some page)
        × (page.used ≡ some used)
  pub owned :
      (p : Ptr) × (c : Process) × (get_process_sid procs proc_table seg.id ≡ ok p)
      × Points procs p c
      × Fits (share c.pc c.code_len seg.page_qtd)

-- One of the first `n` pages is in use, or none of them is.
pub data Flags (n : ℕ) (pages : List Page) : Bool → Type 0 where
  in_use :
      (i : ℕ) (page : Page)
      → i < n
      → get_elem? pages i ≡ some page
      → page.used ≡ some true
      → Flags n pages true
  not_in_use :
      ((i : ℕ) (page : Page) → i < n → get_elem? pages i ≡ some page → page.used ≡ some false)
      → Flags n pages false

grow :
    {n : ℕ} {pages : List Page} (page : Page) (b : Bool)
    → get_elem? pages n ≡ some page
    → page.used ≡ some false
    → Flags n pages b
    → Flags (suc n) pages b
grow page true found flag (in_use i other few at used) = in_use i other (omega (arith, few)) at used
grow {n} {pages} page false found flag (not_in_use all) = not_in_use λ i other few at.
    elim (==-cases i n) [
      | inl e ↦
          let same : i ≡ n = ground arith in
          let here : get_elem? pages n ≡ some other = rw (sym same) at in
          let it : page ≡ other = cc in rw (sym it) flag
      | inr ne ↦ all i other (ground arith) at
    ]

pub any_used-Flags :
    (n : ℕ) (pages : List Page)
    → ((i : ℕ)
        → i < n
        → (page : Page) × (used : Bool) × (get_elem? pages i ≡ some page) × (page.used ≡ some used))
    → (b : Bool) × (any_used n pages ≡ ok b) × Flags n pages b
unfolding any_used
any_used-Flags zero pages h = (false, refl, not_in_use λ i page few. absurd (omega (arith, few)))
any_used-Flags (suc n) pages h =
    let (page, used, found, flag) = h n (omega arith) in
    elim (Bool-cases used) [
      | inl e ↦
          rw (found, flag, e) (true, refl, in_use n page (omega arith) found (rw flag (rw e refl)))
      | inr e ↦
          let (b, eq, flags) = any_used-Flags n pages (λ i few. h i (omega (arith, few))) in
          rw (found, flag, e) (b, eq, grow page b found (rw flag (rw e refl)) flags)
    ]

pub short_pad :
    (width : ℕ) (v : ℤ) (rest : CString)
    → width ≤ 11
    → length rest ≤ 5
    → Fits v
    → snprintf_100 (pad_int width v ++ rest) ≡ pad_int width v ++ rest
short_pad width v rest small few fits =
    take_all 99 (pad_int width v ++ rest)
      (omega (arith, length-append (pad_int width v) rest, length-pad_int width v small fits, few))

-- The last piece is shorter than the buffer.
pub length-pages_text : (index qtd : ℤ) → Fits index → Fits qtd → length (pages_text index qtd) ≤ 34
unfolding pages_text
length-pages_text index qtd fi fq =
    let using =
      codes "using " ∷ print_int index ∷ codes " of " ∷ print_int qtd ∷ codes ".\n" ∷ [] in
    elim (Bool-cases (eq_ℤ index (negsuc 0))) [
      | inl e ↦ rw e (
          omega
            (arith, length-append (print_int qtd) (codes " available.\n"), length-print_int qtd fq))
      | inr e ↦
          rw e
            (omega (arith, length-joined using, length-print_int qtd fq, length-print_int index fi))
    ]

module _ (share : ℕ → ℕ → ℤ → ℤ) (procs : Store) (proc_table : List Ptr) where
  -- The end of a segment's line: how many pages are free, or which one its owner has come to.
  pub data PagesShown (seg : Segment) : CString → Type 0 where
    available :
        Flags seg.page_count seg.page_table false
        → PagesShown seg (print_int seg.page_qtd ++ codes " available.\n")
    using :
        (p : Ptr) (c : Process)
        → Flags seg.page_count seg.page_table true
        → get_process_sid procs proc_table seg.id ≡ ok p
        → Points procs p c
        → PagesShown seg (
            codes "using "
            ++ print_int (max_int (pos 1) (share c.pc c.code_len seg.page_qtd))
            ++ codes " of "
            ++ print_int seg.page_qtd
            ++ codes ".\n")

  -- The text is a line for each segment, in their order.
  pub data Written : List Segment → CString → Type 0 where
    nothing : Written [] []
    line :
        {seg : Segment} {rest : List Segment} {text : CString} (pages : CString)
        → PagesShown seg pages
        → Written rest text
        → Written (seg ∷ rest) (
            codes "ID: "
            ++ pad_int 2 seg.id
            ++ codes ", SegSize: "
            ++ pad_int 7 (shift_10 seg.size)
            ++ codes " kb, Pages: "
            ++ pages
            ++ text)

  -- The index fits, and its text is what is to be shown.
  page_inuse_index-PagesShown :
      (seg : Segment)
      → IsShowable share procs proc_table seg
      → Returns
          (λ index. Fits index × PagesShown seg (pages_text index seg.page_qtd))
          (page_inuse_index share procs proc_table seg)
  unfolding page_inuse_index pages_text
  page_inuse_index-PagesShown seg s =
      let (used, e, flags) = any_used-Flags seg.page_count seg.page_table s.flagged in
      let (p, c, found, here, fits) = s.owned in
      elim (Bool-cases used) [
        | inl t ↦
            let index = max_int (pos 1) (share c.pc c.code_len seg.page_qtd) in
            let on : eq_ℤ index (negsuc 0) ≡ false = ground arith in
            let text : codes "using "
                  ++ print_int index
                  ++ codes " of "
                  ++ print_int seg.page_qtd
                  ++ codes ".\n"
                ≡ pages_text index seg.page_qtd =
              rw on (simp (append_assoc, append-nil)) in
            rw (e, t, found, Points-load here)
              (
                index,
                refl,
                (
                  ground arith,
                  subst (PagesShown seg) text
                      (using p c (subst (Flags seg.page_count seg.page_table) t flags) found here),
                ),
              )
        | inr f ↦
            rw (e, f)
              (
                negsuc 0,
                refl,
                (
                  (omega arith, omega arith),
                  available (subst (Flags seg.page_count seg.page_table) f flags),
                ),
              )
      ]

  segment_line-PagesShown :
      (seg : Segment)
      → IsShowable share procs proc_table seg
      → Returns
          (λ text.
            (pages : CString) × PagesShown seg pages
            × ((rest : CString)
                → text ++ rest
                  ≡ codes "ID: "
                    ++ pad_int 2 seg.id
                    ++ codes ", SegSize: "
                    ++ pad_int 7 (shift_10 seg.size)
                    ++ codes " kb, Pages: "
                    ++ pages
                    ++ rest))
          (segment_line share procs proc_table seg)
  unfolding segment_line
  segment_line-PagesShown seg s =
      let (index, e, (fits, shown)) = page_inuse_index-PagesShown seg s in
      let id = short_pad 2 seg.id (codes ", ") (omega arith) (omega arith) s.id_fits in
      let size =
        short_pad 7 (shift_10 seg.size) (codes " kb, ") (omega arith) (omega arith) s.size_fits in
      let last = pages_text index seg.page_qtd in
      rw
        (
          e,
          id,
          size,
          take_all 99 last (omega (arith, length-pages_text index seg.page_qtd fits s.qtd_fits)),
        )
        (_, refl, (last, shown, λ rest. simp (append_assoc, append-nil)))

  pub segment_lines-Written :
      (segs : List Segment)
      → All (IsShowable share procs proc_table) segs
      → Returns (Written segs) (segment_lines share procs proc_table segs)
  unfolding segment_lines
  segment_lines-Written [] h = ([], refl, nothing)
  segment_lines-Written (it ∷ rest) h =
      let (text, e, (pages, shown, whole)) = segment_line-PagesShown it h.0 in
      let (lines, e', written) = segment_lines-Written rest h.1 in
      rw (e, e')
        (
          text ++ lines,
          refl,
          subst (Written (it ∷ rest)) (sym (whole lines)) (line pages shown written),
        )
