-- ===== src/LinkedList/Linked.antt =====
-- What the nodes of tools/list.h stand for: the cells of a list, each an address with its content, that
-- are linked both ways in a heap.
use mathlib.Core.Bool.{or_assoc}
use ribabari.Prelude.{
  ◌≡◌, ◌≢◌, refl, sym, ◌∙◌, Bool, true, false, ◌||◌, some, List, [], ◌∷◌, ◌++◌, arith, ◌==◌,
  ==_refl, ==-cases, Bool-cases, inl, inr, pos, length, map,
}
use ribabari.LinkedList.Nodes.{Address, nil, Handle, Nodes}

or-false : (x y : Bool) → (x || y) ≡ false → (x ≡ false) × (y ≡ false)
or-false true y e = cc
or-false false y e = (refl, e)

absurd_of : {b : Bool} → b ≡ true → b ≡ false → ⊥
absurd_of i out = cc

abbrev pub Cells : Type 0 → Type 0
Cells A = List (Address × A)

module _ {A : Type 0} where
  abbrev pub has : Address → Cells A → Bool
  has a [] = false
  has a ((p, _) ∷ xs) = (a == p) || has a xs

  infix 40 ◌∈◌ ◌∉◌
  abbrev pub ◌∈◌ : Address → Cells A → Type 0
  a ∈ xs = has a xs ≡ true

  abbrev pub ◌∉◌ : Address → Cells A → Type 0
  a ∉ xs = has a xs ≡ false

  abbrev pub Apart : Cells A → Cells A → Type 0
  Apart xs ys = (a : Address) → a ∈ xs → a ∉ ys

  -- `g` differs from `h` at most at the addresses of `xs`.
  abbrev pub SameOutside : Cells A → Nodes A → Nodes A → Type 0
  SameOutside xs h g = (a : Address) → a ∉ xs → g a ≡ h a

  -- The address of the first cell, and of the last; the given one if there is none.
  abbrev pub first : Cells A → Address → Address
  first [] stop = stop
  first ((p, _) ∷ xs) stop = p

  abbrev pub last : Address → Cells A → Address
  last before [] = before
  last before ((p, _) ∷ xs) = last p xs

  abbrev pub Points : Nodes A → Address → A → Address → Address → Type 0
  Points h p a q before = (p ≢ nil) × (h p ≡ some (record { content = a; next = q; prev = before }))

  -- The cells are distinct nodes, linked to each other, from a node before them to one behind them.
  abbrev pub Linked : Nodes A → Address → Cells A → Address → Type 0
  Linked h before [] stop = Unit
  Linked h before ((p, a) ∷ xs) stop =
      Points h p a (first xs stop) before × (p ∉ xs) × Linked h p xs stop

  -- The whole list: the links, the two ends and the size.
  pub record IsList (h : Nodes A) (l : Handle) (xs : Cells A) : Type 0 where
    pub links : Linked h nil xs nil
    pub front : l.head ≡ first xs nil
    pub back : l.tail ≡ last nil xs
    pub count : l.size ≡ pos (length xs)

  abbrev pub contents : Cells A → List A
  contents = map (λ c. c.1)

  pub has-append : (a : Address) (xs ys : Cells A) → has a (xs ++ ys) ≡ (has a xs || has a ys)
  has-append a [] ys = refl
  has-append a (x ∷ xs) ys = rw (has-append a xs ys, or_assoc)

  -- Outside a list and outside its parts.
  pub out_split : (a : Address) (xs ys : Cells A) → a ∉ xs ++ ys → (a ∉ xs) × (a ∉ ys)
  out_split a xs ys out = or-false (has a xs) (has a ys) (sym (has-append a xs ys) ∙ out)

  pub out_join : (a : Address) (xs ys : Cells A) → a ∉ xs → a ∉ ys → a ∉ xs ++ ys
  out_join a xs ys left right = rw (has-append a xs ys, left) right

  pub miss_of_out :
      (a p : Address) (b : A) (xs : Cells A) → a ∉ ((p, b) ∷ xs) → ((a == p) ≡ false) × (a ∉ xs)
  miss_of_out a p b xs out = or-false (a == p) (has a xs) out

  pub first-append :
      (xs ys : Cells A) (stop : Address) → first (xs ++ ys) stop ≡ first xs (first ys stop)
  first-append [] ys stop = refl
  first-append (x ∷ xs) ys stop = refl

  pub last-append :
      (before : Address) (xs ys : Cells A) → last before (xs ++ ys) ≡ last (last before xs) ys
  last-append before [] ys = refl
  last-append before ((p, a) ∷ xs) ys = last-append p xs ys

  pub last-mem : (p : Address) (a : A) (xs : Cells A) → last p xs ∈ ((p, a) ∷ xs)
  last-mem p a [] = ground (arith, ==_refl p)
  last-mem p a ((q, b) ∷ xs) = ground (arith, last-mem q b xs)

  -- Links survive any change that spares their own cells.
  pub frame :
      {h g : Nodes A} (before : Address) (xs : Cells A) (stop : Address)
      → Linked h before xs stop
      → ((a : Address) → a ∈ xs → g a ≡ h a)
      → Linked g before xs stop
  frame before [] stop s same = s
  frame before ((p, a) ∷ xs) stop ((some_p, at), out, s) same = (
    (some_p, same p (ground (arith, ==_refl p)) ∙ at),
    out,
    frame p xs stop s (λ b i. same b (ground arith)),
  )

  pub join :
      (h : Nodes A) (before : Address) (xs ys : Cells A) (stop : Address)
      → Linked h before xs (first ys stop)
      → Linked h (last before xs) ys stop
      → Apart xs ys
      → Linked h before (xs ++ ys) stop
  join h before [] ys stop s t apart = t
  join h before ((p, a) ∷ xs) ys stop (e, out, s) t apart = (
    rw (first-append xs ys stop) e,
    rw (has-append p xs ys, out) (apart p (ground (arith, ==_refl p))),
    join h p xs ys stop s t (λ b i. apart b (ground arith)),
  )

  pub split :
      (h : Nodes A) (before : Address) (xs ys : Cells A) (stop : Address)
      → Linked h before (xs ++ ys) stop
      → Linked h before xs (first ys stop) × Linked h (last before xs) ys stop × Apart xs ys
  split h before [] ys stop s = (tt, s, λ a i. cc)
  split h before ((p, a) ∷ xs) ys stop (e, out, s) =
      let (left, right, apart) = split h p xs ys stop s in
      let outs : (has p xs || has p ys) ≡ false = sym (has-append p xs ys) ∙ out in
      (
        (rw (sym (first-append xs ys stop)) e, ground arith, left),
        right,
        λ b i. elim (==-cases b p) [ inl hit ↦ ground arith | inr miss ↦ apart b (ground arith) ],
      )

  pub out_of_apart : (p : Address) (a : A) (xs ys : Cells A) → Apart xs ((p, a) ∷ ys) → p ∉ xs
  out_of_apart p a xs ys apart = elim (Bool-cases (has p xs)) [
    | inl i ↦ ground (arith, ==_refl p, apart p i)
    | inr out ↦ out
  ]

  pub Apart-sym : (xs ys : Cells A) → Apart xs ys → Apart ys xs
  Apart-sym xs ys apart a i = elim (Bool-cases (has a xs)) [
    | inl left ↦ absurd (absurd_of i (apart a left))
    | inr out ↦ out
  ]
