-- ===== src/LinkedList/Added.antt =====
-- list_add of tools/list.c on the nodes, against the sequence of the contents.
use ribabari.Prelude.{
  ℕ, suc, ◌<◌, ◌≡◌, ◌≢◌, refl, ap, sym, ◌∙◌, none, some, [], ◌∷◌, ◌++◌, arith, ==_ne, length,
  length-append, ℤ, pos, ◌+ℤ◌, int, int_max, ok, Returns,
}
use ribabari.LinkedList
use ribabari.LinkedList.Nodes.{
  Address, nil, Handle, Nodes, put, list_node_create, link_last, list_add,
}
use ribabari.LinkedList.Linked.{
  Cells, ◌∉◌, Apart, SameOutside, out_split, miss_of_out, first, last, last-append, Points, Linked,
  IsList, contents, join,
}
use ribabari.LinkedList.Relink.{
  node_of, put-hit, put-miss, set_prev-ok, frame-put, last-not_nil, redirect_next,
}

pub one_more : (n : ℕ) → n < int_max → int (pos n +ℤ pos 1) ≡ ok (pos (suc n))
unfolding ◌+ℤ◌
one_more n h = ground arith

module _ {A : Type 0} where
  pub contents-append : (xs ys : Cells A) → contents (xs ++ ys) ≡ contents xs ++ contents ys
  contents-append [] ys = refl
  contents-append ((p, a) ∷ xs) ys = ap (λ rest. a ∷ rest) (contents-append xs ys)

  pub length-snoc : (xs : Cells A) (c : Address × A) → length (xs ++ c ∷ []) ≡ suc (length xs)
  length-snoc xs c = omega (arith, length-append xs (c ∷ []))

  pub not-mem_of_none :
      (h : Nodes A) (before : Address) (xs : Cells A) (stop p : Address)
      → Linked h before xs stop
      → h p ≡ none
      → p ∉ xs
  not-mem_of_none h before [] stop p s unused = refl
  not-mem_of_none h before ((q, a) ∷ xs) stop p (e, out, s) unused =
      rw (==_ne p q (λ same. ground (arith, ap h same)), not-mem_of_none h q xs stop p s unused)

  Apart-one : (p : Address) (a : A) (xs : Cells A) → p ∉ xs → Apart xs ((p, a) ∷ [])
  Apart-one p a xs out c i = rw (==_ne c p (λ e. cc))

  -- A node behind the last one.
  record Last (xs : Cells A) (p : Address) (a : A) (n : ℤ) (h g : Nodes A) (l : Handle)
      : Type 0 where
    links : Linked g nil (xs ++ (p, a) ∷ []) nil
    same : SameOutside (xs ++ (p, a) ∷ []) h g
    front : l.head ≡ first (xs ++ (p, a) ∷ []) nil
    kept : l.size ≡ n

  link_last-Last :
      (h : Nodes A) (l : Handle) (xs : Cells A) (p : Address) (a : A)
      → Linked h nil xs nil
      → l.head ≡ first xs nil
      → l.tail ≡ last nil xs
      → Points h p a nil nil
      → p ∉ xs
      → Returns (λ (g, m). Last xs p a l.size h g m) (link_last p h l)
  unfolding link_last
  link_last-Last h l [] p a s front back e out =
      rw back
        (_, refl, record { links = (e, refl, tt); same = λ b o. refl; front = refl; kept = refl })
  link_last-Last h l ((q, b) ∷ ys) p a s front back e out =
      let tail_p : last q ys ≢ nil = last-not_nil h nil q b ys nil s in
      let (g, eq, (links, same)) = redirect_next h nil q b ys nil p s in
      let e1 : Points g p a nil nil = (e.0, same p out ∙ e.1) in
      rw (back, ==_ne (last q ys) nil tail_p, eq, set_prev-ok g e1 (last q ys))
        (
          _,
          refl,
          record {
            links =
                join _ nil ((q, b) ∷ ys) ((p, a) ∷ []) nil
                  (frame-put g nil ((q, b) ∷ ys) p p _ links out) ((e.0, put-hit g p _), refl, tt)
                  (Apart-one p a ((q, b) ∷ ys) out);
            same = λ c away.
                let (left, right) = out_split c ((q, b) ∷ ys) ((p, a) ∷ []) away in
                put-miss g p c _ ((miss_of_out c p a [] right).0) ∙ same c left;
            front = front;
            kept = refl;
          },
        )

  created-ok :
      (h : Nodes A) (fresh : Address) (a : A)
      → fresh ≢ nil
      → list_node_create fresh a h ≡ (fresh, put h fresh (some (node_of a nil nil)))
  unfolding list_node_create
  created-ok h fresh a new = rw (==_ne fresh nil new)

  -- What `list_add` leaves: the list with a cell behind its last one, the other nodes as they were.
  abbrev pub Added : Nodes A → Cells A → Address → A → Nodes A × Handle → Type 0
  Added h xs p a (g, l) =
      IsList g l (xs ++ (p, a) ∷ [])
      × (contents (xs ++ (p, a) ∷ []) ≡ LinkedList.list_add (contents xs) a)
      × SameOutside (xs ++ (p, a) ∷ []) h g

  -- For a list in the heap with fewer than 2^31 - 1 nodes, and a fresh address that is not NULL:
  -- `list_add` returns, the nodes are again a list, with a new cell at the end, its contents are those
  -- that the sequence view gives, and no node outside of the list has changed.
  pub list_add-Added :
      (h : Nodes A) (l : Handle) (xs : Cells A) (fresh : Address) (a : A)
      → IsList h l xs
      → fresh ≢ nil
      → h fresh ≡ none
      → length xs < int_max
      → Returns (Added h xs fresh a) (list_add fresh a h l)
  unfolding list_add
  list_add-Added h l xs fresh a is new unused room =
      let h1 = put h fresh (some (node_of a nil nil)) in
      let out = not-mem_of_none h nil xs nil fresh is.links unused in
      let ((g, m), eq, linked) =
        link_last-Last h1 l xs fresh a (frame-put h nil xs nil fresh _ is.links out) is.front
          is.back (new, put-hit h fresh _) out in
      rw
        (
          created-ok h fresh a new,
          ==_ne fresh nil new,
          eq,
          linked.kept ∙ is.count,
          one_more (length xs) room,
        )
        (
          _,
          refl,
          (
            record {
              links = linked.links;
              front = linked.front;
              back = sym (last-append nil xs ((fresh, a) ∷ []));
              count = ap pos (omega (arith, length-append xs ((fresh, a) ∷ [])));
            },
            contents-append xs ((fresh, a) ∷ []),
            λ c away.
                let (left, right) = out_split c xs ((fresh, a) ∷ []) away in
                linked.same c away ∙ put-miss h fresh c _ ((miss_of_out c fresh a [] right).0),
          ),
        )

  -- Without memory, nothing changes.
  list_add-full : (h : Nodes A) (l : Handle) (a : A) → list_add nil a h l ≡ ok (h, l)
  unfolding list_add list_node_create
  list_add-full h l a = refl
