-- ===== src/LinkedList/Middle.antt =====
-- list_remove_node of tools/list.c on the nodes, at any node of the list, against the sequence of the
-- contents.
use ribabari.Prelude.{
  suc, ◌<◌, ◌≡◌, refl, ap, sym, ◌∙◌, some, [], ◌∷◌, ◌++◌, arith, ==_ne, ==_refl, length,
  length-append, remove_at, pos, int_max, ok, Returns,
}
use ribabari.LinkedList
use ribabari.LinkedList.Nodes.{
  Address, nil, Handle, Nodes, unlink_prev, unlink_next, list_remove_node,
}
use ribabari.LinkedList.Linked.{
  Cells, Apart, SameOutside, out_split, miss_of_out, out_of_apart, Apart-sym, first, first-append,
  last, last-append, Points, Linked, IsList, contents, join, split, frame,
}
use ribabari.LinkedList.Relink.{node_at-ok, last-not_nil, redirect_next, redirect_prev}
use ribabari.LinkedList.Ends.{one_less}

module _ {A : Type 0} where
  -- The cells before the node are linked to what follows it.
  record PrevUnlinked (h : Nodes A) (l : Handle) (ys : Cells A) (q : Address) (g : Nodes A)
      (m : Handle) : Type 0 where
    links : Linked g nil ys q
    same : SameOutside ys h g
    front : m.head ≡ first ys q
    back : m.tail ≡ l.tail
    count : m.size ≡ l.size

  unlink_prev-PrevUnlinked :
      (h : Nodes A) (l : Handle) (ys : Cells A) (p q : Address) (a : A)
      → Linked h nil ys p
      → Points h p a q (last nil ys)
      → l.head ≡ first ys p
      → Returns (λ (g, m). PrevUnlinked h l ys q g m) (unlink_prev h l p)
  unfolding unlink_prev
  unlink_prev-PrevUnlinked h l [] p q a s e front =
      rw (node_at-ok h e, front, ==_refl p)
        (
          _,
          refl,
          record { links = tt; same = λ b out. refl; front = refl; back = refl; count = refl },
        )
  unlink_prev-PrevUnlinked h l ((r, b) ∷ ys) p q a s e front =
      let (g, eq, (links, same)) = redirect_next h nil r b ys p q s in
      rw (node_at-ok h e, ==_ne (last r ys) nil (last-not_nil h nil r b ys p s), eq)
        (_, refl, record { links = links; same = same; front = front; back = refl; count = refl })

  -- The cells behind the node are linked to what precedes it.
  record NextUnlinked (h : Nodes A) (l : Handle) (zs : Cells A) (r : Address) (g : Nodes A)
      (m : Handle) : Type 0 where
    links : Linked g r zs nil
    same : SameOutside zs h g
    front : m.head ≡ l.head
    back : m.tail ≡ last r zs
    count : m.size ≡ l.size

  unlink_next-NextUnlinked :
      (h : Nodes A) (l : Handle) (zs : Cells A) (p r : Address) (a : A)
      → Linked h p zs nil
      → Points h p a (first zs nil) r
      → l.tail ≡ last p zs
      → Returns (λ (g, m). NextUnlinked h l zs r g m) (unlink_next h l p)
  unfolding unlink_next
  unlink_next-NextUnlinked h l [] p r a s e back =
      rw (node_at-ok h e, back, ==_refl p)
        (
          _,
          refl,
          record { links = tt; same = λ b out. refl; front = refl; back = refl; count = refl },
        )
  unlink_next-NextUnlinked h l ((q, b) ∷ zs) p r a s e back =
      let (g, eq, (links, same)) = redirect_prev h p q b zs nil r s in
      rw (node_at-ok h e, ==_ne q nil (s.0.0), eq)
        (_, refl, record { links = links; same = same; front = refl; back = back; count = refl })

  -- What removing a node leaves: the other cells, and every other node as it was, the removed one too.
  abbrev pub Cut : Nodes A → Cells A → Address → A → Cells A → Nodes A × Handle → Type 0
  Cut h ys p a zs (g, m) =
      IsList g m (ys ++ zs)
      × (LinkedList.list_remove_node (contents (ys ++ (p, a) ∷ zs)) (some (length ys))
          ≡ ok (contents (ys ++ zs)))
      × SameOutside (ys ++ zs) h g

  remove_at-contents :
      (ys zs : Cells A) (c : Address × A)
      → remove_at (contents (ys ++ c ∷ zs)) (length ys) ≡ contents (ys ++ zs)
  remove_at-contents [] zs c = refl
  remove_at-contents ((q, b) ∷ ys) zs c = ap (λ rest. b ∷ rest) (remove_at-contents ys zs c)

  length-middle :
      (ys zs : Cells A) (c : Address × A) → length (ys ++ c ∷ zs) ≡ suc (length (ys ++ zs))
  length-middle ys zs c = omega (arith, length-append ys (c ∷ zs), length-append ys zs)

  -- For a list in the heap with fewer than 2^31 nodes, and any node of it, first, last or between:
  -- `list_remove_node` returns, the other nodes are a list with the right links, ends and size, its
  -- contents are those that the sequence view gives for the position of the node, and no other node
  -- has changed, the removed one included.
  pub list_remove_node-Cut :
      (h : Nodes A) (l : Handle) (ys zs : Cells A) (p : Address) (a : A)
      → IsList h l (ys ++ (p, a) ∷ zs)
      → length (ys ++ zs) < int_max
      → Returns (Cut h ys p a zs) (list_remove_node h l p)
  unfolding list_remove_node
  list_remove_node-Cut h l ys zs p a is room =
      let (left, (e, out, right), apart) = split h nil ys ((p, a) ∷ zs) nil is.links in
      let sides : Apart ys zs = λ b i. (miss_of_out b p a zs (apart b i)).1 in
      let ((g, m), eq, u) =
        unlink_prev-PrevUnlinked h l ys p (first zs nil) a left e
          (is.front ∙ first-append ys ((p, a) ∷ zs) nil) in
      let ((g2, m2), eq2, v) =
        unlink_next-NextUnlinked g m zs p (last nil ys) a
          (frame p zs nil right (λ b i. u.same b (Apart-sym ys zs sides b i)))
          (e.0, u.same p (out_of_apart p a ys zs apart) ∙ e.1)
          (u.back ∙ is.back ∙ last-append nil ys ((p, a) ∷ zs)) in
      rw
        (
          eq,
          eq2,
          v.count ∙ u.count ∙ is.count ∙ ap pos (length-middle ys zs (p, a)),
          one_less (length (ys ++ zs)) room,
        )
        (
          _,
          refl,
          (
            record {
              links =
                  join g2 nil ys zs nil
                    (frame nil ys (first zs nil) u.links (λ b i. v.same b (sides b i))) v.links
                    sides;
              front = v.front ∙ u.front ∙ sym (first-append ys zs nil);
              back = v.back ∙ sym (last-append nil ys zs);
              count = refl;
            },
            ap ok (remove_at-contents ys zs (p, a)),
            λ c away.
                let (before, behind) = out_split c ys zs away in v.same c behind ∙ u.same c before,
          ),
        )
