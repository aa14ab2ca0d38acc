-- ===== src/LinkedList.antt =====
-- The sequence view of tools/list.c: what its functions do to the contents of a list, from the head to
-- the tail. A node is given by its position, and NULL by `none`.
pub mod Nodes
pub mod Linked
pub mod Relink
pub mod Added
pub mod Ends
pub mod Middle
pub mod Walks
use ribabari.Prelude.{
  ℕ, suc, Bool, true, false, Option, none, some, List, [], ◌∷◌, ◌++◌, remove_at, Run, ok, fault,
  ◌>>=◌,
}
use mathlib.Core.Option

module _ {ℓ} {A : Type ℓ} where
  -- Adds at the end.
  abbrev pub list_add : List A → A → List A
  list_add xs a = xs ++ a ∷ []

  abbrev pub list_empty : List A → Bool
  list_empty [] = true
  list_empty (x ∷ xs) = false

  -- `list_remove_head(list)->content`: on an empty list it reads through NULL.
  abbrev pub list_remove_head : List A → Run (A × List A)
  list_remove_head [] = fault
  list_remove_head (x ∷ xs) = ok (x, xs)

  -- The first node whose content is matched.
  unfoldable pub list_search : (A → Run Bool) → List A → Run (Option ℕ)
  list_search matcher [] = ok none
  list_search matcher (x ∷ xs) = do
    hit ← matcher x
    elim hit [ true ↦ ok (some 0) | false ↦ list_search matcher xs >>= λ i. ok (Option.map suc i) ]

  abbrev pub list_remove_node : List A → Option ℕ → Run (List A)
  list_remove_node xs none = fault
  list_remove_node xs (some i) = ok (remove_at xs i)
