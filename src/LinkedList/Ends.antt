-- ===== src/LinkedList/Ends.antt =====
-- list_remove_head and list_remove_tail of tools/list.c on the nodes, against the sequence of
-- the contents.
use ribabari.Prelude.{
  ℕ, suc, ◌<◌, ◌≡◌, refl, ap, ◌∙◌, false, some, [], ◌∷◌, ◌++◌, arith, ◌==◌, ==_ne, length, pos,
  ◌-ℤ◌, int, int_max, ok, Returns,
}
use ribabari.LinkedList.Nodes.{
  Address, nil, Handle, Nodes, put, clear_links, list_remove_head, list_remove_tail,
}
use ribabari.LinkedList.Linked.{
  Cells, SameOutside, out_split, miss_of_out, out_of_apart, last, last-append, Points, IsList,
  split, frame,
}
use ribabari.LinkedList.Added.{length-snoc}
use ribabari.LinkedList.Relink.{
  node_of, put-hit, put-miss, node_at-ok, set_next-ok, set_prev-ok, last-not_nil, redirect_next,
  redirect_prev,
}

pub one_less : (n : ℕ) → n < int_max → int (pos (suc n) -ℤ pos 1) ≡ ok (pos n)
unfolding ◌-ℤ◌
one_less n h = ground arith

module _ {A : Type 0} where
  -- The node is linked to nothing, and the others are as they were.
  abbrev pub Detached : Nodes A → Address → A → Nodes A → Type 0
  Detached h p a g =
      (g p ≡ some (node_of a nil nil)) × ((b : Address) → (b == p) ≡ false → g b ≡ h b)

  clear_links-Detached :
      (h : Nodes A) {p q before : Address} {a : A}
      → Points h p a q before
      → Returns (Detached h p a) (clear_links h p)
  unfolding clear_links
  clear_links-Detached h {p} {q} {before} {a} e =
      let h1 = put h p (some (node_of a nil before)) in
      let still : Points h1 p a nil before = (e.0, put-hit h p _) in
      rw (set_next-ok h e nil, set_prev-ok h1 still nil)
        (_, refl, (put-hit h1 p _, λ b miss. put-miss h1 p b _ miss ∙ put-miss h p b _ miss))

  -- What removing an end leaves: the node, detached, and the other cells.
  abbrev pub Removed :
      Nodes A → Cells A → Cells A → Address → A → Address × Nodes A × Handle → Type 0
  Removed h all rest p a (q, g, l) =
      (q ≡ p) × IsList g l rest × (g p ≡ some (node_of a nil nil)) × SameOutside all h g

  -- For a list in the heap with a first cell and fewer than 2^31 nodes: `list_remove_head` returns the
  -- first node, the nodes behind it are a list of their own with the right ends and size, the removed
  -- node keeps its content and is linked to nothing, and no node outside of the list has changed.
  pub list_remove_head-Removed :
      (h : Nodes A) (l : Handle) (p : Address) (a : A) (xs : Cells A)
      → IsList h l ((p, a) ∷ xs)
      → length xs < int_max
      → Returns (Removed h ((p, a) ∷ xs) xs p a) (list_remove_head h l)
  unfolding list_remove_head
  list_remove_head-Removed h l p a [] is room =
      let (e, out, s) = is.links in
      let (g, eq, (hit, miss)) = clear_links-Detached h e in
      rw
        (is.front, ==_ne p nil (e.0), node_at-ok h e, node_at-ok h e, eq, is.count, one_less 0 room)
        (
          _,
          refl,
          (
            refl,
            record { links = tt; front = refl; back = refl; count = refl },
            hit,
            λ c away. miss c ((miss_of_out c p a [] away).0),
          ),
        )
  list_remove_head-Removed h l p a ((q, b) ∷ xs) is room =
      let (e, out, s) = is.links in
      let (g, eq, (links, same)) = redirect_prev h p q b xs nil nil s in
      let e1 : Points g p a q nil = (e.0, same p out ∙ e.1) in
      let (g2, eq2, (hit, miss)) = clear_links-Detached g e1 in
      rw
        (
          is.front,
          ==_ne p nil (e.0),
          node_at-ok h e,
          ==_ne q nil (s.0.0),
          eq,
          node_at-ok g e1,
          eq2,
          is.count,
          one_less (suc (length xs)) room,
        )
        (
          _,
          refl,
          (
            refl,
            record {
              links = frame nil ((q, b) ∷ xs) nil links (λ c i. miss c (==_ne c p (λ e. cc)));
              front = refl;
              back = is.back;
              count = refl;
            },
            hit,
            λ c away.
                let (left, right) = miss_of_out c p a ((q, b) ∷ xs) away in
                miss c left ∙ same c right,
          ),
        )

  -- The same for `list_remove_tail` and the last cell.
  pub list_remove_tail-Removed :
      (h : Nodes A) (l : Handle) (p : Address) (a : A) (xs : Cells A)
      → IsList h l (xs ++ (p, a) ∷ [])
      → length xs < int_max
      → Returns (Removed h (xs ++ (p, a) ∷ []) xs p a) (list_remove_tail h l)
  unfolding list_remove_tail
  list_remove_tail-Removed h l p a [] is room =
      let (e, out, s) = is.links in
      let (g, eq, (hit, miss)) = clear_links-Detached h e in
      rw (is.back, ==_ne p nil (e.0), node_at-ok h e, node_at-ok h e, eq, is.count, one_less 0 room)
        (
          _,
          refl,
          (
            refl,
            record { links = tt; front = refl; back = refl; count = refl },
            hit,
            λ c away. miss c ((miss_of_out c p a [] away).0),
          ),
        )
  list_remove_tail-Removed h l p a ((q, b) ∷ xs) is room =
      let all = (q, b) ∷ xs in
      let (before, (e, none_behind, s), apart) = split h nil all ((p, a) ∷ []) nil is.links in
      let (g, eq, (links, same)) = redirect_next h nil q b xs p nil before in
      let out = out_of_apart p a all [] apart in
      let e1 : Points g p a nil (last q xs) = (e.0, same p out ∙ e.1) in
      let (g2, eq2, (hit, miss)) = clear_links-Detached g e1 in
      rw
        (
          is.back ∙ last-append nil all ((p, a) ∷ []),
          ==_ne p nil (e.0),
          node_at-ok h e,
          ==_ne (last q xs) nil (last-not_nil h nil q b xs p before),
          eq,
          node_at-ok g e1,
          eq2,
          is.count ∙ ap pos (length-snoc all (p, a)),
          one_less (length all) room,
        )
        (
          _,
          refl,
          (
            refl,
            record {
              links = frame nil all nil links (λ c i. miss c (==_ne c p (λ e. cc)));
              front = is.front;
              back = refl;
              count = refl;
            },
            hit,
            λ c away.
                let (left, right) = out_split c all ((p, a) ∷ []) away in
                miss c ((miss_of_out c p a [] right).0) ∙ same c left,
          ),
        )
