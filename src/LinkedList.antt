-- ===== src/LinkedList.antt =====
-- mylib/linked_list.c: doubly linked lists. A pointer is an address, 0 the null pointer, and an
-- item stands for the node in front of it. The memory of the nodes is a function; what mem_block.c
-- gives to and takes from the list does not change the links. A loop gets fuel, and `none` says
-- that it ran out. The sections that the calls enter they leave again.
pub mod Links
pub mod Change
pub mod Walk
pub mod Delete
mod Tests
use glu_ke.Base.{
  ℕ, zero, suc, ◌+◌, ◌-◌, Bool, true, false, not, ◌&&◌, Option, none, some, List, [], ◌∷◌, ltb,
  ◌==◌, if◌then◌else◌,
}
use glu_ke.Base.Int.{ℤ, pos, negsuc}

-- struct ll_node
pub record Node : Type 0 where
  pub prev : ℕ
  pub next : ℕ

abbrev pub Memory : Type 0
Memory = ℕ → Node

-- struct ll_info, with the memory that its pointers lead to.
pub record Info : Type 0 where
  pub head : ℕ
  pub tail : ℕ
  pub memory : Memory

unfoldable pub write : Memory → ℕ → Node → Memory
write m p n a = if a == p then n else m a

abbrev pub set_next : Memory → ℕ → ℕ → Memory
set_next m p q = write m p (record (m p) { next = q })

abbrev pub set_prev : Memory → ℕ → ℕ → Memory
set_prev m p q = write m p (record (m p) { prev = q })

-- ll_init
pub ll_init : Memory → Info
ll_init m = record { head = 0; tail = 0; memory = m }

-- The two writes to the neighbours of a node that is deleted.
unfoldable pub unlink : Memory → ℕ → Memory
unlink m node =
    let m' = if (m node).prev == 0 then m else set_next m (m node).prev (m node).next in
    if (m' node).next == 0 then m' else set_prev m' (m' node).next (m' node).prev

unfoldable pub ll_delete_node : ℕ → Info → Info
unfolding unlink
ll_delete_node node s =
    let m = unlink s.memory node in
    record {
      head = if node == s.head then (m node).next else s.head;
      tail = if node == s.tail then (m node).prev else s.tail;
      memory = m;
    }

-- The loop of ll_find_and_delete_node from `cur` on.
pub find_and_delete : ℕ → ℕ → ℕ → Info → Option Info
unfolding ll_delete_node
find_and_delete zero node cur s = none
find_and_delete (suc fuel) node cur s =
    let rest = find_and_delete fuel node (s.memory cur).next s in
    if cur == 0 then some s else if cur == node then some (ll_delete_node node s) else rest

pub ll_delete : ℕ → ℕ → Info → Option Info
unfolding find_and_delete
ll_delete fuel node s = find_and_delete fuel node s.head s

-- `node` is what `mb_alloc` returns.
pub ll_push_back : ℕ → Info → ℕ × Info
unfolding write
ll_push_back node s =
    if node == 0
    then (0, s)
    else if s.tail == 0
    then (
      node,
      record {
        head = node;
        tail = node;
        memory = write s.memory node (record { prev = 0; next = 0 });
      },
    )
    else (
      node,
      record s {
        tail = node;
        memory = write (set_next s.memory s.tail node) node (record { prev = s.tail; next = 0 });
      },
    )

pub ll_first : Info → ℕ
ll_first s = s.head

pub ll_next : Info → ℕ → ℕ
ll_next s p = (s.memory p).next

pub ll_next_loop : Info → ℕ → ℕ
unfolding ll_next ll_first
ll_next_loop s p = if ll_next s p == 0 then ll_first s else ll_next s p

-- On an empty list it reads through the null pointer.
pub ll_pop_back : Info → Option Info
unfolding ll_delete_node
ll_pop_back s = if s.tail == 0 then none else some (ll_delete_node s.tail s)

abbrev pub is_above : ℤ → Bool
is_above (pos n) = ltb 0 n
is_above (negsuc n) = false

abbrev pub is_below : ℤ → Bool
is_below (pos n) = false
is_below (negsuc n) = true

-- What a callback is told and keeps is a state of its own; it does not change the list.
module _ {S : Type 0} where
  -- One round of st_delete_p: the state of the callback, and the list with the item or without it.
  pub delete_round : ℕ → ℕ → Bool × S → Info → Option (S × Info)
  unfolding ll_delete
  delete_round fuel p (false, t) s = some (t, s)
  delete_round fuel p (true, t) s = elim (ll_delete fuel p s) [
    | none ↦ none
    | some s' ↦ some (t, s')
  ]

  -- st_delete_p from item `p` on, and its callers ll_delete_p and ll_delete_p_1arg. Each `ll_delete`
  -- gets the fuel `walk`.
  pub delete_p : ℕ → ℕ → (ℕ → S → Bool × S) → ℕ → S → Info → Option (S × Info)
  unfolding delete_round
  delete_p walk zero f p t s = none
  delete_p walk (suc fuel) f p t s =
      if p == 0 then some (t, s) else elim (delete_round walk p (f p t) s) [
        | none ↦ none
        | some (t', s') ↦ delete_p walk fuel f (s.memory p).next t' s'
      ]

  pub ll_delete_p : ℕ → (ℕ → S → Bool × S) → S → Info → Option (S × Info)
  unfolding delete_p ll_first
  ll_delete_p fuel f t s = delete_p fuel fuel f (ll_first s) t s

  -- st_map from item `p` on, and its callers ll_map and ll_map_1arg. Above 0 the callback's result
  -- ends the search at the item, below 0 without one.
  pub map_p : ℕ → (ℕ → S → ℤ × S) → ℕ → S → Info → Option (ℕ × S)
  unfolding ll_next
  map_p zero f p t s = none
  map_p (suc fuel) f p t s =
      let (r, t') = f p t in
      let rest = map_p fuel f (ll_next s p) t' s in
      if p == 0
      then some (0, t)
      else if is_above r
      then some (p, t')
      else if is_below r
      then some (0, t')
      else rest

  pub ll_map : ℕ → (ℕ → S → ℤ × S) → S → Info → Option (ℕ × S)
  unfolding map_p ll_first
  ll_map fuel f t s = map_p fuel f (ll_first s) t s
