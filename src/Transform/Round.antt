-- ===== src/Transform/Round.antt =====
-- stack/transform.go: a round of the search, and what is done with its outcome.
use specops.Base.{
  ℕ, suc, ◌≡◌, refl, Option, none, some, List, ◌∷◌, Outcome, ok, err, ◌>>=◌, not_in_graph,
}
use specops.Transform.Node.{Node}
use specops.Transform.Bfs.{Graph, path_to, Round, reached, searching, follow, edges, search_loop}

-- What is done with the outcome of a round.
unfoldable pub onwards : Node → ℕ → Round → Outcome (List ℕ)
onwards want fuel r = elim r [ reached p ↦ ok p | searching g' q' ↦ search_loop fuel want q' g' ]

unfoldable pub step : Node → ℕ → Node → List Node → Graph → Option (List ℕ) → Outcome (List ℕ)
unfolding onwards
step want fuel curr queue g o = elim o [
  | none ↦ err not_in_graph
  | some path ↦ edges want curr >>= λ ops. follow want curr path ops g queue >>= onwards want fuel
]

pub search_loop-suc :
    (want : Node) (fuel : ℕ) (curr : Node) (queue : List Node) (g : Graph)
    → search_loop (suc fuel) want (curr ∷ queue) g ≡ step want fuel curr queue g (path_to curr g)
unfolding search_loop step
search_loop-suc want fuel curr queue g = refl
