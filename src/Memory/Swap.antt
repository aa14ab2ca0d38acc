-- ===== src/Memory/Swap.antt =====
-- The second-chance swap: which used bits it clears and how much memory it reports as freed.
use ribabari.Prelude.{
  ℕ, ◌+◌, ◌*◌, ◌≤◌, ◌≡◌, refl, ap, Bool, true, false, Option, none, some, List, [], ◌∷◌, arith, ℤ,
  pos, ◌+ℤ◌, ◌≤ℤ◌, leb_ℤ, int, int_max, ok, length, All, map, ◌⊎◌, inl, inr, Bool-cases,
}
use ribabari.Memory.{Page, Segment, page_size, swap_pages, memory_page_swap}

abbrev unused_bit : Option Bool → ℕ
unused_bit none = 0
unused_bit (some true) = 0
unused_bit (some false) = 1

-- How many pages have their used bit cleared.
abbrev pub unused : List Page → ℕ
unused [] = 0
unused (page ∷ rest) = unused_bit page.used + unused rest

abbrev pub IsReady : List Page → Type 0
IsReady pages = All (λ page. (b : Bool) × (page.used ≡ some b)) pages

abbrev pub AllUnused : List Page → Type 0
AllUnused pages = All (λ page. page.used ≡ some false) pages

-- What a sweep over the pages of one segment does, from `f` bytes freed to `g`.
pub record Swept (size : ℤ) (before after : List Page) (f g : ℕ) : Type 0 where
  pub ready : IsReady after
  pub code : map (λ page. page.code) after ≡ map (λ page. page.code) before
  pub grows : f ≤ g
  pub bound : g ≤ f + page_size * unused before
  pub complete : (size ≤ℤ pos g) ⊎ (AllUnused after × (g ≡ f + page_size * unused before))

abbrev RunsTo : ℤ → List Page → ℕ → Type 0
RunsTo size pages f =
    (after : List Page) × (g : ℕ) × (swap_pages size pages (pos f) ≡ ok (after, pos g))
    × Swept size pages after f g

int-page :
    (f : ℕ) → f + page_size ≤ int_max → int (pos f +ℤ pos page_size) ≡ ok (pos (f + page_size))
unfolding ◌+ℤ◌
int-page f h = ground arith

pub swap_pages-Swept :
    (size : ℤ) (pages : List Page) (f : ℕ)
    → IsReady pages
    → f + page_size * length pages ≤ int_max
    → RunsTo size pages f
unfolding swap_pages
swap_pages-Swept size [] f r h = (
  [],
  f,
  refl,
  record {
    ready = tt;
    code = refl;
    grows = omega arith;
    bound = omega arith;
    complete = inr (tt, omega arith);
  },
)
swap_pages-Swept size (page ∷ rest) f ((true, e), r) h = elim (Bool-cases (leb_ℤ size (pos f))) [
  | inl stop ↦ (
    record page { used = some false } ∷ rest,
    f,
    rw (e, stop),
    record {
      ready = ((false, refl), r);
      code = refl;
      grows = omega arith;
      bound = omega arith;
      complete = inl (ground arith);
    },
  )
  | inr go ↦
      (let (after, g, e', s) = swap_pages-Swept size rest f r (omega arith) in
        (
          record page { used = some false } ∷ after,
          g,
          rw (e, go, e'),
          record {
            ready = ((false, refl), s.ready);
            code = ap (◌∷◌ page.code) s.code;
            grows = s.grows;
            bound = rw e (omega (arith, s.bound));
            complete = elim s.complete [
              | inl enough ↦ inl enough
              | inr (all, sum) ↦ inr ((refl, all), rw e (omega (arith, sum)))
            ];
          },
        ))
]
swap_pages-Swept size (page ∷ rest) f ((false, e), r) h =
    elim (Bool-cases (leb_ℤ size (pos (f + page_size)))) [
      | inl stop ↦ (
        page ∷ rest,
        f + page_size,
        rw (e, int-page f (omega arith), stop),
        record {
          ready = ((false, e), r);
          code = refl;
          grows = omega arith;
          bound = rw e (omega arith);
          complete = inl (ground arith);
        },
      )
      | inr go ↦
          (let (after, g, e', s) = swap_pages-Swept size rest (f + page_size) r (omega arith) in
            (
              page ∷ after,
              g,
              rw (e, int-page f (omega arith), go, e'),
              record {
                ready = ((false, e), s.ready);
                code = ap (◌∷◌ page.code) s.code;
                grows = omega (arith, s.grows);
                bound = rw e (omega (arith, s.bound));
                complete = elim s.complete [
                  | inl enough ↦ inl enough
                  | inr (all, sum) ↦ inr ((e, all), rw e (omega (arith, sum)))
                ];
              },
            ))
    ]

unused-le : (pages : List Page) → unused pages ≤ length pages
unused-le [] = omega arith
unused-le (page ∷ rest) = ground (arith, unused-le rest)

-- The pages of all segments.
abbrev pub total_pages : List Segment → ℕ
total_pages [] = 0
total_pages (it ∷ rest) = length it.page_table + total_pages rest

abbrev pub total_unused : List Segment → ℕ
total_unused [] = 0
total_unused (it ∷ rest) = unused it.page_table + total_unused rest

-- The same segments with the same code; only used bits may differ.
abbrev pub SameButFlags : List Segment → List Segment → Type 0
SameButFlags [] [] = Unit
SameButFlags [] (b ∷ bs) = ⊥
SameButFlags (a ∷ as') [] = ⊥
SameButFlags (a ∷ as') (b ∷ bs) =
    (b.id ≡ a.id)
    × (b.size ≡ a.size)
    × (map (λ page. page.code) b.page_table ≡ map (λ page. page.code) a.page_table)
    × SameButFlags as' bs

-- What the swap does to the segments, from `f` bytes freed to `g`, for a segment that needs `size`.
pub record Swapped (size : ℤ) (before after : List Segment) (f g : ℕ) : Type 0 where
  pub ready : All (λ it. IsReady it.page_table) after
  pub same : SameButFlags before after
  pub grows : f ≤ g
  pub bound : g ≤ f + page_size * total_unused before
  pub complete :
      (size ≤ℤ pos g)
      ⊎ (All (λ it. AllUnused it.page_table) after × (g ≡ f + page_size * total_unused before))

-- If every page has its used bit set or cleared, and no more pages are there than an `int` of bytes holds, the
-- swap returns. It keeps the segments and their code, and every used bit stays initialised. It reports a
-- whole page of freed memory for each of at most all the pages that were unused; and if that is less
-- than the size asked for, it has visited every page: all are unused then, and it has counted
-- every page that was.
pub memory_page_swap-Swapped :
    (size : ℤ) (segs : List Segment) (f : ℕ)
    → All (λ it. IsReady it.page_table) segs
    → f + page_size * total_pages segs ≤ int_max
    → (after : List Segment) × (g : ℕ) × (memory_page_swap size segs (pos f) ≡ ok (after, pos g))
      × Swapped size segs after f g
unfolding memory_page_swap
memory_page_swap-Swapped size [] f r h = (
  [],
  f,
  refl,
  record {
    ready = tt;
    same = tt;
    grows = omega arith;
    bound = omega arith;
    complete = inr (tt, omega arith);
  },
)
memory_page_swap-Swapped size (it ∷ rest) f (r, rs) h =
    let (pages, m, e, s) = swap_pages-Swept size it.page_table f r (omega arith) in
    let (after, g, e', t) =
      memory_page_swap-Swapped size rest m rs (omega (arith, s.bound, unused-le it.page_table)) in
    (
      record it { page_table = pages } ∷ after,
      g,
      rw (e, e'),
      record {
        ready = (s.ready, t.ready);
        same = (refl, refl, s.code, t.same);
        grows = omega (arith, s.grows, t.grows);
        bound = omega (arith, s.bound, t.bound);
        complete = elim t.complete [
          | inl enough ↦ inl enough
          | inr (all, sum) ↦ elim s.complete [
            | inl enough ↦ inl (omega (arith, t.grows))
            | inr (all', sum') ↦ inr ((all', all), omega (arith, sum, sum'))
          ]
        ];
      },
    )
