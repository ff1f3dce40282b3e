-- ===== src/Transform/Bfs.antt =====
-- stack/transform.go: the breadth-first search over orders of the stack.
use specops.Base.{
  ℤ, pos, negsuc, ℕ, zero, suc, ◌+◌, ◌-◌, ◌^◌, Bool, true, false, Option, none, some, List, [], ◌∷◌,
  ◌++◌, ◌||◌, ltb, ◌==◌, if◌then◌else◌, length, Outcome, ok, err, out_of_fuel, ◌>>=◌, not_in_graph,
  not_reached, invalid_size,
}
use specops.Opcode.{pop_op, dup1, swap1, add_byte}
use specops.Transform.Node.{Node, node_from_indices, to_indices, root_node, apply, same_node}

-- A Go int counts in `deltas`.
abbrev pub increment : ℤ → ℤ
increment (pos n) = pos (suc n)
increment (negsuc zero) = pos 0
increment (negsuc (suc n)) = negsuc n

abbrev pub decrement : ℤ → ℤ
decrement (pos zero) = negsuc 0
decrement (pos (suc n)) = pos n
decrement (negsuc n) = negsuc (suc n)

-- `map[uint8]int`; a missing key reads as 0.
abbrev pub Deltas : Type 0
Deltas = ℕ → ℤ

unfoldable pub adjust : (ℤ → ℤ) → List ℕ → Deltas → Deltas
adjust f [] d = d
adjust f (i ∷ is) d = adjust f is (λ j. if i == j then f (d j) else d j)

-- `n.deltas(o)`, on the indices of both nodes.
unfoldable pub deltas : List ℕ → List ℕ → Deltas
unfolding adjust
deltas n o = adjust decrement o (adjust increment n (λ _. pos 0))

unfoldable pub index_of : ℕ → ℕ → List ℕ → Option ℕ
index_of idx i [] = none
index_of idx i (c ∷ cs) = if c == idx then some i else index_of idx (i + 1) cs

abbrev pub head_is : ℕ → List ℕ → Bool
head_is idx [] = false
head_is idx (c ∷ cs) = c == idx

abbrev pub forget : ℕ → Deltas → Deltas
forget idx d = λ j. if idx == j then pos 0 else d j

-- The loop over `allIndices`: a DUP for a value that is wanted more often, a POP for one that stands
-- on top and is wanted less often, at most one for each value.
unfoldable pub change_edges : Deltas → List ℕ → List ℕ → List ℕ
unfolding index_of
change_edges d curr [] = []
change_edges d curr (idx ∷ all) = elim (d idx) [
  | pos zero ↦ change_edges d curr all
  | pos (suc _) ↦ elim (index_of idx 0 curr) [
    | none ↦ change_edges d curr all
    | some i ↦ add_byte dup1 i ∷ change_edges (forget idx d) curr all
  ]
  | negsuc _ ↦ elim (head_is idx curr) [
    | true ↦ pop_op ∷ change_edges (forget idx d) curr all
    | false ↦ change_edges d curr all
  ]
]

-- SWAP1 to SWAP<n>.
unfoldable pub swap_edges : ℕ → ℕ → List ℕ
swap_edges i zero = []
swap_edges i (suc n) = add_byte swap1 i ∷ swap_edges (i + 1) n

unfoldable pub edges : Node → Node → Outcome (List ℕ)
unfolding change_edges swap_edges deltas to_indices
edges want curr = do
  w ← to_indices want
  c ← to_indices curr
  ok (change_edges (deltas w c) c (w ++ c) ++ swap_edges 0 (length curr - 1))

-- `transformationPaths`, a map from nodes to paths.
abbrev pub Graph : Type 0
Graph = List (Node × List ℕ)

unfoldable pub path_to : Node → Graph → Option (List ℕ)
unfolding same_node
path_to n [] = none
path_to n ((m, p) ∷ g) = if same_node m n then some p else path_to n g

pub data Round : Type 0 where
  reached : List ℕ → Round
  searching : Graph → List Node → Round

-- The loop over `edges`: `curr` lies at the end of `path`.
unfoldable pub follow : Node → Node → List ℕ → List ℕ → Graph → List Node → Outcome Round
unfolding apply path_to same_node
follow want curr path [] graph queue = ok (searching graph queue)
follow want curr path (op ∷ ops) graph queue = do
  next ← apply curr op
  elim (path_to next graph) [
    | some _ ↦ follow want curr path ops graph queue
    | none ↦ elim (same_node next want) [
      | true ↦ ok (reached (path ++ op ∷ []))
      | false ↦ follow want curr path ops ((next, path ++ op ∷ []) ∷ graph) (queue ++ next ∷ [])
    ]
  ]

-- The loop over the queue.
unfoldable pub search_loop : ℕ → Node → List Node → Graph → Outcome (List ℕ)
unfolding edges follow path_to
search_loop fuel want [] graph = err not_reached
search_loop zero want (curr ∷ queue) graph = out_of_fuel
search_loop (suc fuel) want (curr ∷ queue) graph = elim (path_to curr graph) [
  | none ↦ err not_in_graph
  | some path ↦ do
    ops ← edges want curr
    round ← follow want curr path ops graph queue
    elim round [ reached p ↦ ok p | searching graph' queue' ↦ search_loop fuel want queue' graph' ]
]

-- A round takes a node from the queue that was never there before, and the nodes whose rounds lead on
-- have at most 17 characters, so that no node in the queue has more than 18.
abbrev pub rounds : ℕ
rounds = 257 ^ 18

unfoldable pub bfs : List ℕ → ℕ → Outcome (List ℕ)
unfolding search_loop root_node node_from_indices same_node
bfs indices size = if size == 0 || ltb 16 size then err (invalid_size size) else do
  root ← root_node size
  want ← node_from_indices indices
  let found = search_loop rounds want (root ∷ []) ((root, []) ∷ [])
  if same_node want root then ok [] else found
