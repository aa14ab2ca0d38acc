-- ===== src/Memory/Pages.antt =====
-- The page table as one array of instructions: what is copied in at an address is read there.
use ribabari.Prelude.{
  ℕ, zero, suc, ◌+◌, ◌*◌, ◌≤◌, ◌<◌, ◌≡◌, ◌≢◌, refl, sym, ◌∙◌, Bool, false, Option, none, some, List,
  arith, ==-cases, inl, inr, Returns, get_elem?, set, length, length-set, get_elem?-set_cases,
  get_elem?-set_self, get_elem?-set_ne, get_elem?-lt, get_elem?-some,
}
use ribabari.Instruction.{Instr}
use ribabari.Memory.{Page, page_number, page_offset, instructions_per_page, copy_code, clear_used}

abbrev pub code_at : Option Page → ℕ → Option (Option Instr)
code_at none k = none
code_at (some page) k = get_elem? page.code k

-- The slot at an address; `some none` is a slot that was never written.
abbrev pub slot : List Page → ℕ → Option (Option Instr)
slot pages i = code_at (get_elem? pages (page_number i)) (page_offset i)

abbrev pub flag_of : Option Page → Option (Option Bool)
flag_of none = none
flag_of (some page) = some page.used

-- The used bit of a page of the table.
abbrev pub flag : List Page → ℕ → Option (Option Bool)
flag pages k = flag_of (get_elem? pages k)

-- Every page has room for 256 instructions.
abbrev pub IsSized : List Page → Type 0
IsSized pages =
    (k : ℕ) (page : Page) → get_elem? pages k ≡ some page → length page.code ≡ instructions_per_page

abbrev written : List Page → ℕ → Page → Option Instr → List Page
written pages i page v =
    set pages (page_number i) (record page { code = set page.code (page_offset i) v })

module _ (pages : List Page) (i : ℕ) (page : Page) (v : Option Instr) (sized : IsSized pages)
    (here : get_elem? pages (page_number i) ≡ some page) where
  written_self : slot (written pages i page v) i ≡ some v
  written_self =
      rw
        (get_elem?-set_self pages (page_number i)
          (record page { code = set page.code (page_offset i) v })
          (get_elem?-lt pages (page_number i) page here))
        (get_elem?-set_self page.code (page_offset i) v
          (omega (arith, sized (page_number i) page here)))

  written-ne : (j : ℕ) → i ≢ j → slot (written pages i page v) j ≡ slot pages j
  written-ne j ne = elim (==-cases (page_number i) (page_number j)) [
    | inl same ↦
        let e : page_number i ≡ page_number j = ground arith in
        let w =
          get_elem?-set_self pages (page_number i)
            (record page { code = set page.code (page_offset i) v })
            (get_elem?-lt pages (page_number i) page here) in
        rw (← e) (
          rw (w, here)
            (get_elem?-set_ne page.code (page_offset i) (page_offset j) v (λ e'. ne (omega arith))))
    | inr other ↦ rw (
        get_elem?-set_ne pages (page_number i) (page_number j)
          (record page { code = set page.code (page_offset i) v }) (λ e. ground arith))
  ]

  written-IsSized : IsSized (written pages i page v)
  written-IsSized k other at =
      elim (get_elem?-set_cases pages (page_number i) k
        (record page { code = set page.code (page_offset i) v }) other at) [
          | inl e ↦ rw e (length-set page.code (page_offset i) v ∙ sized (page_number i) page here)
          | inr old ↦ sized k other old
        ]

  written-flag : (k : ℕ) → flag (written pages i page v) k ≡ flag pages k
  written-flag k = elim (==-cases (page_number i) k) [
    | inl same ↦
        let e : page_number i ≡ k = ground arith in
        rw (← e) (
          rw (
            get_elem?-set_self pages (page_number i)
                (record page { code = set page.code (page_offset i) v })
                (get_elem?-lt pages (page_number i) page here),
            here,
          ))
    | inr other ↦ rw (
        get_elem?-set_ne pages (page_number i) k
          (record page { code = set page.code (page_offset i) v }) (λ e. ground arith))
  ]

-- The number of pages covers the addresses below `n`.
abbrev pub Covers : List Page → ℕ → Type 0
Covers pages n = n ≤ instructions_per_page * length pages

-- The pages after a copy of the code from address `i` to address `i + n`.
pub record Copied (code : List (Option Instr)) (i n : ℕ) (before after : List Page) : Type 0 where
  pub pages : length after ≡ length before
  pub sized : IsSized after
  pub below : (j : ℕ) → j < i → slot after j ≡ slot before j
  pub above : (j : ℕ) → i + n ≤ j → slot after j ≡ slot before j
  pub flags : (k : ℕ) → flag after k ≡ flag before k
  pub copied : (j : ℕ) → i ≤ j → j < i + n → slot after j ≡ get_elem? code j

pub copy_code-Copied :
    (n i : ℕ) (code : List (Option Instr)) (pages : List Page)
    → IsSized pages
    → Covers pages (i + n)
    → i + n ≤ length code
    → Returns (Copied code i n pages) (copy_code n i code pages)
unfolding copy_code
copy_code-Copied zero i code pages sized covers room = (
  pages,
  refl,
  record {
    pages = refl;
    sized = sized;
    below = λ j h. refl;
    above = λ j h. refl;
    flags = λ k. refl;
    copied = λ j h k. absurd (omega arith);
  },
)
copy_code-Copied (suc n) i code pages sized covers room =
    let (v, got) = get_elem?-some code i (omega arith) in
    let (page, here) = get_elem?-some pages (page_number i) (omega arith) in
    let next = written pages i page v in
    let same : length next ≡ length pages = length-set pages (page_number i) _ in
    let (after, e, c) =
      copy_code-Copied n (i + 1) code next (written-IsSized pages i page v sized here)
        (omega (arith, same)) (omega arith) in
    (
      after,
      rw (got, here) e,
      record {
        pages = c.pages ∙ same;
        sized = c.sized;
        below = λ j h.
            c.below j (omega arith) ∙ written-ne pages i page v sized here j (λ e'. omega arith);
        above = λ j h.
            c.above j (omega arith) ∙ written-ne pages i page v sized here j (λ e'. omega arith);
        flags = λ k. c.flags k ∙ written-flag pages i page v sized here k;
        copied = λ j h k. elim (==-cases i j) [
          | inl now ↦
              (let e' : i ≡ j = ground arith in
                rw (← e')
                  (c.below i (omega arith) ∙ written_self pages i page v sized here ∙ sym got))
          | inr later ↦ c.copied j (ground arith) (omega arith)
        ];
      },
    )

module _ (pages : List Page) (m : ℕ) (page : Page) (here : get_elem? pages m ≡ some page) where
  cleared_page : List Page
  cleared_page = set pages m (record page { used = some false })

  cleared_page_self : flag cleared_page m ≡ some (some false)
  unfolding cleared_page
  cleared_page_self = rw (
      get_elem?-set_self pages m (record page { used = some false })
        (get_elem?-lt pages m page here))

  cleared_page-IsSized : IsSized pages → IsSized cleared_page
  unfolding cleared_page
  cleared_page-IsSized sized k other at =
      elim (get_elem?-set_cases pages m k (record page { used = some false }) other at) [
        | inl e ↦ rw e (sized m page here)
        | inr old ↦ sized k other old
      ]

  cleared_page-slot : (j : ℕ) → slot cleared_page j ≡ slot pages j
  unfolding cleared_page
  cleared_page-slot j = elim (==-cases m (page_number j)) [
    | inl same ↦
        let e : m ≡ page_number j = ground arith in
        rw (← e) (
          rw (
            get_elem?-set_self pages m (record page { used = some false })
                (get_elem?-lt pages m page here),
            here,
          ))
    | inr other ↦ rw (
        get_elem?-set_ne pages m (page_number j) (record page { used = some false })
          (λ e. ground arith))
  ]

  cleared_page-keeps :
      (k : ℕ) → flag pages k ≡ some (some false) → flag cleared_page k ≡ some (some false)
  unfolding cleared_page
  cleared_page-keeps k h = elim (==-cases m k) [
    | inl same ↦ (let e : m ≡ k = ground arith in rw (← e) cleared_page_self)
    | inr other ↦
        rw (get_elem?-set_ne pages m k (record page { used = some false }) (λ e. ground arith)) h
  ]

-- The pages after the used bits were cleared for the addresses from `i` to `i + n`.
pub record Cleared (i n : ℕ) (before after : List Page) : Type 0 where
  pub pages : length after ≡ length before
  pub sized : IsSized after
  pub slots : (j : ℕ) → slot after j ≡ slot before j
  pub kept : (k : ℕ) → flag before k ≡ some (some false) → flag after k ≡ some (some false)
  pub cleared : (j : ℕ) → i ≤ j → j < i + n → flag after (page_number j) ≡ some (some false)

pub clear_used-Cleared :
    (n i : ℕ) (pages : List Page)
    → IsSized pages
    → Covers pages (i + n)
    → Returns (Cleared i n pages) (clear_used n i pages)
unfolding clear_used cleared_page
clear_used-Cleared zero i pages sized covers = (
  pages,
  refl,
  record {
    pages = refl;
    sized = sized;
    slots = λ j. refl;
    kept = λ k h. h;
    cleared = λ j h k. absurd (omega arith);
  },
)
clear_used-Cleared (suc n) i pages sized covers =
    let (page, here) = get_elem?-some pages (page_number i) (omega arith) in
    let next = set pages (page_number i) (record page { used = some false }) in
    let same : length next ≡ length pages = length-set pages (page_number i) _ in
    let (after, e, c) =
      clear_used-Cleared n (i + 1) next (cleared_page-IsSized pages (page_number i) page here sized)
        (omega (arith, same)) in
    (
      after,
      rw here e,
      record {
        pages = c.pages ∙ same;
        sized = c.sized;
        slots = λ j. c.slots j ∙ cleared_page-slot pages (page_number i) page here j;
        kept = λ k h. c.kept k (cleared_page-keeps pages (page_number i) page here k h);
        cleared = λ j h k. elim (==-cases i j) [
          | inl now ↦
              (let e' : i ≡ j = ground arith in
                rw (← e')
                  (c.kept (page_number i) (cleared_page_self pages (page_number i) page here)))
          | inr later ↦ c.cleared j (ground arith) (omega arith)
        ];
      },
    )
