-- ===== src/LinkedList/Relink.antt =====
-- Changing one link of a list that is linked both ways.
use ribabari.Prelude.{
  ◌≡◌, ◌≢◌, refl, ◌∙◌, false, Option, some, [], ◌∷◌, arith, ◌==◌, ==_ne, ==_refl, ok, Returns,
}
use ribabari.LinkedList.Nodes.{Address, nil, ListNode, Nodes, put, node_at, set_next, set_prev}
use ribabari.LinkedList.Linked.{Cells, ◌∈◌, ◌∉◌, SameOutside, first, last, Points, Linked, frame}

module _ {A : Type 0} where
  abbrev pub node_of : A → Address → Address → ListNode A
  node_of a q before = record { content = a; next = q; prev = before }

  pub put-hit : (h : Nodes A) (p : Address) (c : Option (ListNode A)) → put h p c p ≡ c
  unfolding put
  put-hit h p c = rw (==_refl p)

  pub put-miss :
      (h : Nodes A) (p q : Address) (c : Option (ListNode A)) → (q == p) ≡ false → put h p c q ≡ h q
  unfolding put
  put-miss h p q c miss = rw miss

  -- A change at one cell is no change elsewhere.
  pub put-SameOutside :
      (h : Nodes A) (p : Address) (c : Option (ListNode A)) (xs : Cells A)
      → p ∈ xs
      → SameOutside xs h (put h p c)
  put-SameOutside h p c xs i b out = put-miss h p b c (==_ne b p (λ e. cc))

  module _ (h : Nodes A) {p q before : Address} {a : A} (e : Points h p a q before) where
    pub node_at-ok : node_at h p ≡ ok (node_of a q before)
    unfolding node_at
    node_at-ok = rw (==_ne p nil (e.0), e.1)

    pub set_next-ok : (r : Address) → set_next h p r ≡ ok (put h p (some (node_of a r before)))
    unfolding set_next
    set_next-ok r = rw node_at-ok

    pub set_prev-ok : (r : Address) → set_prev h p r ≡ ok (put h p (some (node_of a q r)))
    unfolding set_prev
    set_prev-ok r = rw node_at-ok

  pub frame-put :
      (h : Nodes A) (before : Address) (xs : Cells A) (stop p : Address) (c : Option (ListNode A))
      → Linked h before xs stop
      → p ∉ xs
      → Linked (put h p c) before xs stop
  frame-put h before xs stop p c s out =
      frame before xs stop s (λ b i. put-miss h p b c (==_ne b p (λ e. cc)))

  pub last-not_nil :
      (h : Nodes A) (before p : Address) (a : A) (xs : Cells A) (stop : Address)
      → Linked h before ((p, a) ∷ xs) stop
      → last p xs ≢ nil
  last-not_nil h before p a [] stop (e, out, s) = e.0
  last-not_nil h before p a ((q, b) ∷ xs) stop (e, out, s) = last-not_nil h p q b xs stop s

  -- The links after a change of the last cell's `next`, or of the first cell's `prev`.
  abbrev pub Relinked : Nodes A → Address → Cells A → Address → Nodes A → Type 0
  Relinked h before xs stop g = Linked g before xs stop × SameOutside xs h g

  pub redirect_next :
      (h : Nodes A) (before p : Address) (a : A) (xs : Cells A) (stop r : Address)
      → Linked h before ((p, a) ∷ xs) stop
      → Returns (Relinked h before ((p, a) ∷ xs) r) (set_next h (last p xs) r)
  redirect_next h before p a [] stop r (e, out, s) = (
    put h p (some (node_of a r before)),
    set_next-ok h e r,
    (((e.0, put-hit h p _), refl, tt), put-SameOutside h p _ ((p, a) ∷ []) (rw (==_refl p))),
  )
  redirect_next h before p a ((q, b) ∷ xs) stop r (e, out, s) =
      let (g, eq, (links, same)) = redirect_next h p q b xs stop r s in
      (g, eq, (((e.0, same p out ∙ e.1), out, links), λ c away. same c (ground arith)))

  pub redirect_prev :
      (h : Nodes A) (before p : Address) (a : A) (xs : Cells A) (stop r : Address)
      → Linked h before ((p, a) ∷ xs) stop
      → Returns (Relinked h r ((p, a) ∷ xs) stop) (set_prev h p r)
  redirect_prev h before p a xs stop r (e, out, s) = (
    put h p (some (node_of a (first xs stop) r)),
    set_prev-ok h e r,
    (
      ((e.0, put-hit h p _), out, frame-put h p xs stop p _ s out),
      put-SameOutside h p _ ((p, a) ∷ xs) (rw (==_refl p)),
    ),
  )
