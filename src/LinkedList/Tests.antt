-- ===== src/LinkedList/Tests.antt =====
-- A list of three nodes (mylib/linked_list.c).
use glu_ke.Base.{ℕ, ◌+◌, ◌≡◌, refl, Bool, some, [], ◌∷◌, ◌++◌, ◌==◌, ltb, if◌then◌else◌, arith}
use glu_ke.Base.Int.{ℤ, pos}
use glu_ke.LinkedList.{Info, ll_init, ll_push_back, ll_delete, ll_delete_p, ll_next_loop}
use glu_ke.LinkedList.Links.{IsList, first_or}
use glu_ke.LinkedList.Change.{ll_push_back-IsList}
use glu_ke.LinkedList.Walk.{found, ll_next_loop-round}
use glu_ke.LinkedList.Delete.{remove, kept, ll_delete-remove, ll_delete_p-kept}

abbrev empty : Info
unfolding ll_init
empty = ll_init (λ a. record { prev = 9; next = 9 })

empty-IsList : IsList empty []
unfolding empty
empty-IsList = record { links = tt; head_first = refl; tail_last = refl; distinct = tt }

abbrev one_node : Info
one_node = (ll_push_back 40 empty).1

one_node-IsList : IsList one_node (40 ∷ [])
one_node-IsList = (ll_push_back-IsList empty [] 40 empty-IsList (omega arith) refl).1

abbrev two_nodes : Info
two_nodes = (ll_push_back 80 one_node).1

two_nodes-IsList : IsList two_nodes (40 ∷ 80 ∷ [])
two_nodes-IsList = (ll_push_back-IsList one_node (40 ∷ []) 80 one_node-IsList (omega arith) refl).1

abbrev three_nodes : Info
three_nodes = (ll_push_back 60 two_nodes).1

three_nodes-IsList : IsList three_nodes (40 ∷ 80 ∷ 60 ∷ [])
three_nodes-IsList =
    (ll_push_back-IsList two_nodes (40 ∷ 80 ∷ []) 60 two_nodes-IsList (omega arith) refl).1

ll_push_back-IsList_example :
    ((ll_push_back 60 two_nodes).0 ≡ 60)
    × IsList (ll_push_back 60 two_nodes).1 ((40 ∷ 80 ∷ []) ++ (60 ∷ []))
ll_push_back-IsList_example =
    ll_push_back-IsList two_nodes (40 ∷ 80 ∷ []) 60 two_nodes-IsList (omega arith) refl

ll_delete-remove_example :
    (s' : Info) × (ll_delete 4 80 three_nodes ≡ some s') × IsList s' (remove 80 (40 ∷ 80 ∷ 60 ∷ []))
ll_delete-remove_example =
    ll_delete-remove 4 80 (40 ∷ 80 ∷ 60 ∷ []) three_nodes three_nodes-IsList (omega arith)

-- A callback that counts the items and picks the ones below 70.
abbrev pick : ℕ → ℕ → Bool × ℕ
pick x n = (ltb x 70, n + 1)

ll_delete_p-kept_example :
    (s' : Info) × (ll_delete_p 4 pick 0 three_nodes
      ≡ some ((kept pick (40 ∷ 80 ∷ 60 ∷ []) 0).1, s'))
    × IsList s' (kept pick (40 ∷ 80 ∷ 60 ∷ []) 0).0
ll_delete_p-kept_example =
    ll_delete_p-kept pick 4 (40 ∷ 80 ∷ 60 ∷ []) 0 three_nodes three_nodes-IsList (omega arith)

picked_two : kept pick (40 ∷ 80 ∷ 60 ∷ []) 0 ≡ (80 ∷ [], 3)
unfolding kept
picked_two = refl

-- A callback that counts the items and takes the one at 80.
abbrev take_80 : ℕ → ℕ → ℤ × ℕ
take_80 x n = (if x == 80 then pos 1 else pos 0, n + 1)

found_second : found take_80 (40 ∷ 80 ∷ 60 ∷ []) 0 ≡ (80, 2)
unfolding found
found_second = refl

ll_next_loop-round_example :
    ll_next_loop three_nodes 60 ≡ first_or [] (first_or ((40 ∷ 80 ∷ []) ++ (60 ∷ [])) 0)
ll_next_loop-round_example = ll_next_loop-round three_nodes (40 ∷ 80 ∷ []) 60 [] three_nodes-IsList
