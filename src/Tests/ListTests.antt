-- ===== src/Tests/ListTests.antt =====
-- The theorems about the nodes of the lists, applied to a list of three.
use ribabari.Prelude.{
  ℕ, ◌≡◌, refl, some, none, [], ◌∷◌, arith, ◌==◌, if◌then◌else◌, ok, ◌>>=◌, Returns, pos,
}
use ribabari.LinkedList
use ribabari.LinkedList.Nodes.{
  Nodes, ListNode, Handle, nil, put, list_add, list_search, list_remove_head, list_remove_tail,
  list_remove_node, list_free,
}
use ribabari.LinkedList.Linked.{Cells, contents, IsList}
use ribabari.LinkedList.Relink.{node_of}
use ribabari.LinkedList.Added.{Added, list_add-Added}
use ribabari.LinkedList.Middle.{Cut, list_remove_node-Cut}
use ribabari.LinkedList.Walks.{Freed, node_found, list_search-search, list_free-Freed}
use ribabari.LinkedList.Ends.{Removed, list_remove_head-Removed}

abbrev three : Cells ℕ
three = (10, 7) ∷ (20, 8) ∷ (30, 9) ∷ []

abbrev three_nodes : Nodes ℕ
three_nodes p =
    if p == 10
    then some (node_of 7 20 nil)
    else if p == 20
    then some (node_of 8 30 10)
    else if p == 30
    then some (node_of 9 nil 20)
    else none

abbrev three_list : Handle
three_list = record { head = 10; tail = 30; size = pos 3 }

three-IsList : IsList three_nodes three_list three
three-IsList = record {
  links =
      ((ground arith, refl), refl, ((ground arith, refl), refl, ((ground arith, refl), refl, tt)));
  front = refl;
  back = refl;
  count = refl;
}

list_add-Added_example :
    Returns (Added three_nodes three 40 6) (list_add 40 6 three_nodes three_list)
list_add-Added_example =
    list_add-Added three_nodes three_list three 40 6 three-IsList (ground arith) refl (omega arith)

list_remove_node-Cut_example :
    Returns
      (Cut three_nodes ((10, 7) ∷ []) 20 8 ((30, 9) ∷ []))
      (list_remove_node three_nodes three_list 20)
list_remove_node-Cut_example =
    list_remove_node-Cut three_nodes three_list ((10, 7) ∷ []) ((30, 9) ∷ []) 20 8 three-IsList
      (omega arith)

list_free-Freed_example :
    Returns (Freed three_nodes three) (list_free 4 three_nodes (some three_list))
list_free-Freed_example = list_free-Freed 4 three_nodes three_list three three-IsList (omega arith)

found_third : list_search 4 (λ a. ok (a == 9)) three_nodes three_list ≡ ok 30
unfolding list_search LinkedList.Nodes.search_from LinkedList.Nodes.node_at
found_third = refl

list_search-search_example :
    list_search 4 (λ a. ok (a == 9)) three_nodes three_list
    ≡ (LinkedList.list_search (λ a. ok (a == 9)) (contents three) >>= λ i. ok (node_found three i))
list_search-search_example =
    list_search-search 4 (λ a. ok (a == 9)) three_nodes three_list three three-IsList (omega arith)

list_remove_head-Removed_example :
    Returns
      (Removed three_nodes three ((20, 8) ∷ (30, 9) ∷ []) 10 7)
      (list_remove_head three_nodes three_list)
list_remove_head-Removed_example =
    list_remove_head-Removed three_nodes three_list 10 7 ((20, 8) ∷ (30, 9) ∷ []) three-IsList
      (omega arith)
