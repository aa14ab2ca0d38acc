-- ===== src/LinkedList/Walks.antt =====
-- The two loops of tools/list.c over the nodes, list_search and list_free, with enough fuel.
use ribabari.Prelude.{
  ℕ, zero, suc, ◌<◌, ◌≡◌, refl, ap, ◌∙◌, Bool, true, false, Option, none, some, [], ◌∷◌, arith,
  ==_ne, ==_iff, ==-cases, inl, inr, length, Run, ok, exited, hung, fault, ◌>>=◌, Returns,
}
use mathlib.Core.Option
use ribabari.LinkedList
use ribabari.LinkedList.Nodes.{
  Address, nil, Handle, Nodes, put, search_from, list_search, free_from, list_free,
}
use ribabari.LinkedList.Linked.{
  Cells, ◌∈◌, SameOutside, miss_of_out, first, Linked, IsList, contents,
}
use ribabari.LinkedList.Relink.{put-hit, put-miss, node_at-ok, frame-put}

module _ {A : Type 0} where
  abbrev address_of : Cells A → ℕ → Address
  address_of [] i = nil
  address_of ((p, a) ∷ xs) zero = p
  address_of ((p, a) ∷ xs) (suc i) = address_of xs i

  -- The node at a position, NULL for none.
  abbrev pub node_found : Cells A → Option ℕ → Address
  node_found xs none = nil
  node_found xs (some i) = address_of xs i

  node_found-suc :
      (c : Address × A) (xs : Cells A) (r : Run (Option ℕ))
      → (r >>= λ i. ok (node_found xs i))
        ≡ ((r >>= λ i. ok (Option.map suc i)) >>= λ i. ok (node_found (c ∷ xs) i))
  node_found-suc c xs (ok none) = refl
  node_found-suc c xs (ok (some i)) = refl
  node_found-suc c xs exited = refl
  node_found-suc c xs hung = refl
  node_found-suc c xs fault = refl

  -- One turn of the loop against one step along the sequence.
  turn :
      (p : Address) (a : A) (xs : Cells A) (hit : Run Bool) (walk : Run Address)
      (seek : Run (Option ℕ))
      → walk ≡ (seek >>= λ i. ok (node_found xs i))
      → (hit >>= λ b. elim b [ true ↦ ok p | false ↦ walk ]) ≡ (
          (hit >>= λ b. elim b [ true ↦ ok (some 0) | false ↦ seek >>= λ i. ok (Option.map suc i) ])
          >>= λ i. ok (node_found ((p, a) ∷ xs) i))
  turn p a xs (ok true) walk seek e = refl
  turn p a xs (ok false) walk seek e = e ∙ node_found-suc (p, a) xs seek
  turn p a xs exited walk seek e = refl
  turn p a xs hung walk seek e = refl
  turn p a xs fault walk seek e = refl

  search_from-search :
      (fuel : ℕ) (matcher : A → Run Bool) (h : Nodes A) (before : Address) (xs : Cells A)
      → Linked h before xs nil
      → length xs < fuel
      → search_from fuel matcher h (first xs nil)
        ≡ (LinkedList.list_search matcher (contents xs) >>= λ i. ok (node_found xs i))
  unfolding search_from LinkedList.list_search
  search_from-search zero matcher h before xs s enough = absurd (omega arith)
  search_from-search (suc fuel) matcher h before [] s enough = refl
  search_from-search (suc fuel) matcher h before ((p, a) ∷ xs) (e, out, s) enough =
      rw (==_ne p nil (e.0), node_at-ok h e)
        (turn p a xs (matcher a) _ _ (search_from-search fuel matcher h p xs s (omega arith)))

  -- For a list in the heap, and fuel for more turns than the list has nodes: `list_search` gives the
  -- node at the position that the sequence view finds, NULL if it finds none, and it exits, hangs or
  -- faults exactly when the matcher makes the sequence view do so.
  pub list_search-search :
      (fuel : ℕ) (matcher : A → Run Bool) (h : Nodes A) (l : Handle) (xs : Cells A)
      → IsList h l xs
      → length xs < fuel
      → list_search fuel matcher h l
        ≡ (LinkedList.list_search matcher (contents xs) >>= λ i. ok (node_found xs i))
  unfolding list_search
  list_search-search fuel matcher h l xs is enough =
      rw is.front (search_from-search fuel matcher h nil xs is.links enough)

  -- No node of the list is left, and every other node is as it was.
  abbrev pub Freed : Nodes A → Cells A → Nodes A → Type 0
  Freed h xs g = ((b : Address) → b ∈ xs → g b ≡ none) × SameOutside xs h g

  free_from-Freed :
      (fuel : ℕ) (h : Nodes A) (before : Address) (xs : Cells A)
      → Linked h before xs nil
      → length xs < fuel
      → Returns (Freed h xs) (free_from fuel h (first xs nil))
  unfolding free_from
  free_from-Freed zero h before xs s enough = absurd (omega arith)
  free_from-Freed (suc fuel) h before [] s enough = (h, refl, (λ b i. cc, λ b out. refl))
  free_from-Freed (suc fuel) h before ((p, a) ∷ xs) (e, out, s) enough =
      let h1 = put h p none in
      let (g, eq, (freed, same)) =
        free_from-Freed fuel h1 p xs (frame-put h p xs nil p none s out) (omega arith) in
      rw (==_ne p nil (e.0), node_at-ok h e)
        (
          g,
          eq,
          (
            λ b i. elim (==-cases b p) [
              | inl hit ↦ ap g ((==_iff b p).0 hit) ∙ same p out ∙ put-hit h p none
              | inr miss ↦ freed b (ground arith)
            ],
            λ b away.
                let (miss, left) = miss_of_out b p a xs away in
                same b left ∙ put-miss h p b none miss,
          ),
        )

  -- For a list in the heap, and fuel for more turns than the list has nodes: `list_free` returns, no
  -- node of the list is left, and every other node is as it was; so no node is read after it was
  -- freed, or freed twice.
  pub list_free-Freed :
      (fuel : ℕ) (h : Nodes A) (l : Handle) (xs : Cells A)
      → IsList h l xs
      → length xs < fuel
      → Returns (Freed h xs) (list_free fuel h (some l))
  unfolding list_free
  list_free-Freed fuel h l xs is enough =
      rw is.front (free_from-Freed fuel h nil xs is.links enough)
