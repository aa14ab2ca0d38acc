-- ===== src/Memory/Load.antt =====
-- The load of a program: every instruction is read back at its address, and no write leaves the table.
use ribabari.Prelude.{
  ℕ, suc, ◌*◌, ◌≤◌, ◌<◌, ◌≡◌, refl, ◌∙◌, ap, subst, false, Option, none, some, ◌⊎◌, inl, inr, zero,
  List, arith, Returns, get_elem?, length, length-replicate, get_elem?-replicate, replicate,
}
use ribabari.Instruction.{Instr}
use ribabari.Memory.{
  Page, Segment, page_number, page_offset, page_count_for, fresh_page, segment_populate,
  instructions_per_page,
}
use ribabari.Memory.Pages.{slot, flag, IsSized, code_at, copy_code-Copied, clear_used-Cleared}

-- Nothing was ever written there.
abbrev pub Unwritten : Option (Option Instr) → Type 0
Unwritten o = (o ≡ none) ⊎ (o ≡ some none)

-- The segment holds the code at its addresses, and every page of it has its used bit cleared.
pub record Holds (code : List (Option Instr)) (n : ℕ) (seg : Segment) : Type 0 where
  pub pages : length seg.page_table ≡ page_count_for n
  pub sized : IsSized seg.page_table
  pub code_at : (i : ℕ) → i < n → slot seg.page_table i ≡ get_elem? code i
  pub beyond : (i : ℕ) → n ≤ i → Unwritten (slot seg.page_table i)
  pub unused : (k : ℕ) → k < page_count_for n → flag seg.page_table k ≡ some (some false)

Unwritten-replicate : (n k : ℕ) → Unwritten (get_elem? (replicate {A = Option Instr} n none) k)
Unwritten-replicate zero k = inl refl
Unwritten-replicate (suc n) zero = inr refl
Unwritten-replicate (suc n) (suc k) = Unwritten-replicate n k

Unwritten-page :
    (k : ℕ) (o : Option Page)
    → ((page : Page) → o ≡ some page → page ≡ fresh_page)
    → Unwritten (code_at o k)
Unwritten-page k none h = inl refl
Unwritten-page k (some page) h = rw (h page refl) (Unwritten-replicate instructions_per_page k)

fresh-Unwritten : (n i : ℕ) → Unwritten (slot (replicate n fresh_page) i)
fresh-Unwritten n i =
    Unwritten-page (page_offset i) (get_elem? (replicate n fresh_page) (page_number i))
      (λ page. get_elem?-replicate n (page_number i) fresh_page page)

fresh-IsSized : (n : ℕ) → IsSized (replicate n fresh_page)
fresh-IsSized n k page at =
    let e = get_elem?-replicate n k fresh_page page at in
    rw e (length-replicate {A = Option Instr} instructions_per_page none)

first_address : (k : ℕ) → page_number (k * 256) ≡ k
first_address k = omega arith

-- A segment whose table is as `segment_create` makes it for `n` instructions can take any `n` of them: the
-- loops of `segment_populate` stay within the table and the code, the instruction at each address below
-- `n` is read back there, no other slot is written, and the used bit of every page is set to 0.
pub segment_populate-Holds :
    (seg : Segment) (code : List (Option Instr)) (n : ℕ)
    → seg.page_table ≡ replicate (page_count_for n) fresh_page
    → n ≤ length code
    → Returns
        (λ seg'. Holds code n seg' × (seg'.id ≡ seg.id) × (seg'.size ≡ seg.size))
        (segment_populate seg code n)
unfolding segment_populate
segment_populate-Holds seg code n e room =
    let size = ap length e ∙ length-replicate (page_count_for n) fresh_page in
    let sized : IsSized seg.page_table = rw e (fresh-IsSized (page_count_for n)) in
    let (cleared, e1, c) = clear_used-Cleared n 0 seg.page_table sized (omega arith) in
    let (copied, e2, d) =
      copy_code-Copied n 0 code cleared c.sized (omega (arith, c.pages)) (omega arith) in
    (
      record seg { page_table = copied },
      rw (e1, e2),
      (
        record {
          pages = d.pages ∙ c.pages ∙ size;
          sized = d.sized;
          code_at = λ i h. d.copied i (omega arith) (omega arith);
          beyond = λ i h.
              rw (d.above i (omega arith), c.slots i, e) (fresh-Unwritten (page_count_for n) i);
          unused = λ k h.
              d.flags k
              ∙ subst (λ m. flag cleared m ≡ some (some false)) (first_address k)
                  (c.cleared (k * 256) (omega arith) (omega arith));
        },
        refl,
        refl,
      ),
    )
