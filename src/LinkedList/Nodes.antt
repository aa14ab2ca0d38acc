-- ===== src/LinkedList/Nodes.antt =====
-- tools/list.c and tools/list.h as they are written: nodes in a heap, linked both ways, and the list that
-- holds the ends. A function takes the heap and the list, and returns both.
use ribabari.Prelude.{
  ℕ, zero, suc, Bool, true, false, Option, none, some, ◌==◌, if◌then◌else◌, ℤ, pos, ◌+ℤ◌, ◌-ℤ◌, int,
  Run, ok, fault, hung, ◌>>=◌, or_fault,
}

abbrev pub Address : Type 0
Address = ℕ

abbrev pub nil : Address
nil = 0

pub record ListNode (A : Type 0) : Type 0 where
  pub content : A
  pub next : Address
  pub prev : Address

pub record Handle : Type 0 where
  pub head : Address
  pub tail : Address
  pub size : ℤ

unfoldable pub list_init : Handle
list_init = record { head = nil; tail = nil; size = pos 0 }

unfoldable pub list_empty : Handle → Bool
list_empty l = l.head == nil

abbrev pub Nodes : Type 0 → Type 0
Nodes A = Address → Option (ListNode A)

module _ {A : Type 0} where
  unfoldable pub put : Nodes A → Address → Option (ListNode A) → Nodes A
  put h p c q = if q == p then c else h q

  -- `*p`, a fault at NULL and at an address that holds no node.
  unfoldable pub node_at : Nodes A → Address → Run (ListNode A)
  node_at h p = if p == nil then fault else or_fault (h p)

  -- `p->next = q` and `p->prev = q`.
  unfoldable pub set_next : Nodes A → Address → Address → Run (Nodes A)
  set_next h p q = do n ← node_at h p; ok (put h p (some (record n { next = q })))

  unfoldable pub set_prev : Nodes A → Address → Address → Run (Nodes A)
  set_prev h p q = do n ← node_at h p; ok (put h p (some (record n { prev = q })))

  -- `fresh` is what `malloc` gives, NULL if there is no memory.
  unfoldable pub list_node_create : Address → A → Nodes A → Address × Nodes A
  list_node_create fresh content h =
      if fresh == nil
      then (nil, h)
      else (fresh, put h fresh (some (record { content = content; next = nil; prev = nil })))

  unfoldable pub link_last : Address → Nodes A → Handle → Run (Nodes A × Handle)
  link_last node h l =
      if l.tail == nil
      then ok (h, record l { head = node })
      else (do h1 ← set_next h l.tail node; h2 ← set_prev h1 node l.tail; ok (h2, l))

  unfoldable pub list_add : Address → A → Nodes A → Handle → Run (Nodes A × Handle)
  list_add fresh content h l =
      let (node, h1) = list_node_create fresh content h in
      if node == nil then ok (h1, l) else (do
        (h2, l2) ← link_last node h1 l
        size ← int (l2.size +ℤ pos 1)
        ok (h2, record l2 { tail = node; size = size }))

  -- The loop of `list_search` from a node on; NULL if no node matches.
  unfoldable pub search_from : ℕ → (A → Run Bool) → Nodes A → Address → Run Address
  search_from zero matcher h p = hung
  search_from (suc fuel) matcher h p = if p == nil then ok nil else (do
    n ← node_at h p
    hit ← matcher n.content
    elim hit [ true ↦ ok p | false ↦ search_from fuel matcher h n.next ])

  unfoldable pub list_search : ℕ → (A → Run Bool) → Nodes A → Handle → Run Address
  list_search fuel matcher h l = search_from fuel matcher h l.head

  unfoldable pub clear_links : Nodes A → Address → Run (Nodes A)
  clear_links h p = do h1 ← set_next h p nil; set_prev h1 p nil

  -- The removed node, NULL if the list is empty.
  unfoldable pub list_remove_head : Nodes A → Handle → Run (Address × Nodes A × Handle)
  unfolding clear_links
  list_remove_head h l = if l.head == nil then ok (l.head, h, l) else (do
    n ← node_at h l.head
    h1 ← if n.next == nil then ok h else set_prev h n.next nil
    m ← node_at h1 l.head
    h2 ← clear_links h1 l.head
    size ← int (l.size -ℤ pos 1)
    ok (
      l.head,
      h2,
      record { head = m.next; tail = if n.next == nil then nil else l.tail; size = size },
    ))

  unfoldable pub list_remove_tail : Nodes A → Handle → Run (Address × Nodes A × Handle)
  unfolding clear_links
  list_remove_tail h l = if l.tail == nil then ok (l.tail, h, l) else (do
    n ← node_at h l.tail
    h1 ← if n.prev == nil then ok h else set_next h n.prev nil
    m ← node_at h1 l.tail
    h2 ← clear_links h1 l.tail
    size ← int (l.size -ℤ pos 1)
    ok (
      l.tail,
      h2,
      record { head = if n.prev == nil then nil else l.head; tail = m.prev; size = size },
    ))

  unfoldable pub unlink_prev : Nodes A → Handle → Address → Run (Nodes A × Handle)
  unlink_prev h l node = do
    n ← node_at h node
    if n.prev == nil
        then ok (h, if l.head == node then record l { head = n.next } else l)
        else (do h1 ← set_next h n.prev n.next; ok (h1, l))

  unfoldable pub unlink_next : Nodes A → Handle → Address → Run (Nodes A × Handle)
  unlink_next h l node = do
    n ← node_at h node
    if n.next == nil
        then ok (h, if l.tail == node then record l { tail = n.prev } else l)
        else (do h1 ← set_prev h n.next n.prev; ok (h1, l))

  -- The node keeps its links and its memory.
  unfoldable pub list_remove_node : Nodes A → Handle → Address → Run (Nodes A × Handle)
  unfolding unlink_prev unlink_next
  list_remove_node h l node = do
    (h1, l1) ← unlink_prev h l node
    (h2, l2) ← unlink_next h1 l1 node
    size ← int (l2.size -ℤ pos 1)
    ok (h2, record l2 { size = size })

  -- The loop of `list_free` from a node on.
  unfoldable pub free_from : ℕ → Nodes A → Address → Run (Nodes A)
  free_from zero h p = hung
  free_from (suc fuel) h p =
      if p == nil then ok h else (do n ← node_at h p; free_from fuel (put h p none) n.next)

  -- NULL is allowed. The list itself is a value here, so only its nodes are freed.
  unfoldable pub list_free : ℕ → Nodes A → Option Handle → Run (Nodes A)
  list_free fuel h none = ok h
  list_free fuel h (some l) = free_from fuel h l.head
