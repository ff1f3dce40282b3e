-- ===== src/Transform/Limit.antt =====
-- stack/transform.go: how many indices the search can reach.
use specops.Base.{
  ℕ, zero, suc, ◌≤◌, ◌≡◌, refl, ap, sym, subst, ◌∙◌, Option, none, some, List, [], ◌∷◌, inl, inr,
  ◌==◌, ◌||◌, ltb, arith, length, ok, err, ◌>>=◌, >>=-eq-ok, Bool-cases, invalid_size,
}
use specops.Transform.Node.{Node, node_from_indices, root_node, same_node, count_from}
use specops.Transform.Bfs.{
  Graph, path_to, Round, reached, searching, follow, edges, search_loop, rounds, bfs,
}
use specops.Transform.Sound.{same_node-eq}
use specops.Transform.Search.{last, bfs-last}
use specops.Transform.Encoding.{IsBytes}
use specops.Transform.Short.{apply-Longer}
use specops.Transform.Rounds.{IsSearch, follow-IsSearch, round-short}
use specops.Transform.Turn.{Turn, follow-Turn, path_to-All}
use specops.Transform.Round.{onwards, step, search_loop-suc}
use specops.Transform.Ends.{node_from_indices-IsBytes, length-count_from, small_size}

-- A round that reaches the wanted node has added at most one value.
follow-near :
    (want curr : Node) (path ops : List ℕ) (g : Graph) (queue : List Node) (out : List ℕ)
    → IsBytes curr
    → follow want curr path ops g queue ≡ ok (reached out)
    → length want ≤ suc (length curr)
unfolding follow Turn
follow-near want curr path [] g queue out b w = absurd (cc)
follow-near want curr path (op ∷ ops) g queue out b w =
    let (next, a, t) = follow-Turn want curr path op ops g queue (reached out) w in
    elim t [
      | inl (p, e, v) ↦ follow-near want curr path ops g queue out b v
      | inr (inl (e, f, v)) ↦ follow-near want curr path ops _ _ out b v
      | inr (inr (e, _)) ↦
          subst (λ (n : Node). length n ≤ suc (length curr)) (same_node-eq next want e)
            (apply-Longer curr next op b a).1
    ]

module _ (want : Node) where
  Rest : ℕ → List ℕ → Type 0
  Rest fuel out =
      (queue : List Node) (g : Graph)
      → IsSearch g
      → search_loop fuel want queue g ≡ ok out
      → length want ≤ 19

  step-near :
      (fuel : ℕ) (curr : Node) (queue : List Node) (g : Graph) (out : List ℕ) (o : Option (List ℕ))
      → IsSearch g
      → Rest fuel out
      → path_to curr g ≡ o
      → step want fuel curr queue g o ≡ ok out
      → length want ≤ 19
  unfolding step onwards Rest
  step-near fuel curr queue g out none s rest e w = absurd (cc)
  step-near fuel curr queue g out (some path) s rest e w =
      let p =
        >>=-eq-ok (edges want curr) (λ ops. follow want curr path ops g queue >>= onwards want fuel)
          w in
      let q = >>=-eq-ok (follow want curr path p.0 g queue) (onwards want fuel) p.2 in
      by_round q.0 p.0 p.1 q.1 q.2
    where
      by_round :
          (r : Round) (ops : List ℕ)
          → edges want curr ≡ ok ops
          → follow want curr path ops g queue ≡ ok r
          → onwards want fuel r ≡ ok out
          → length want ≤ 19
      by_round (reached p) ops a f k = omega (
        arith,
        follow-near want curr path ops g queue p (path_to-All IsBytes curr g path s.bytes e) f,
        path_to-All (λ n. length n ≤ 18) curr g path s.short e,
      )
      by_round (searching g' queue') ops a f k =
          let l = round-short want curr path ops g queue g' queue' a f in
          let (t, m) =
            follow-IsSearch want curr path (path_to-All IsBytes curr g path s.bytes e) l ops g queue
              g' queue' s f in
          rest queue' g' t k

  search_loop-near :
      (fuel : ℕ) (queue : List Node) (g : Graph) (out : List ℕ)
      → IsSearch g
      → search_loop fuel want queue g ≡ ok out
      → length want ≤ 19
  unfolding search_loop Rest
  search_loop-near zero [] g out s w = absurd (cc)
  search_loop-near (suc fuel) [] g out s w = absurd (cc)
  search_loop-near zero (curr ∷ queue) g out s w = absurd (cc)
  search_loop-near (suc fuel) (curr ∷ queue) g out s w =
      step-near fuel curr queue g out (path_to curr g) s
        (λ q h x y. search_loop-near fuel q h out x y) refl
        (sym (search_loop-suc want fuel curr queue g) ∙ w)

sized : (is : List ℕ) (size : ℕ) (out : List ℕ) → bfs is size ≡ ok out → size ≤ 16
unfolding bfs
sized is size out h = elim (Bool-cases (size == 0 || ltb 16 size)) [
  | inl y ↦ let e : err (invalid_size size) ≡ ok out = rw y at h in absurd (cc)
  | inr n ↦ small_size size n
]

-- If bfs returns opcodes, then there are at most 19 indices: with more it never does.
pub bfs-limit : (is : List ℕ) (size : ℕ) (out : List ℕ) → bfs is size ≡ ok out → length is ≤ 19
unfolding root_node last
bfs-limit is size out h =
    let l = sized is size out h in
    let p =
      >>=-eq-ok (root_node size) (λ root. node_from_indices is >>= last is size root)
        (bfs-last is size out h) in
    let q = >>=-eq-ok (node_from_indices is) (last is size p.0) p.2 in
    let (b, k) = node_from_indices-IsBytes (count_from 0 size) p.0 p.1 in
    let (c, j) = node_from_indices-IsBytes is q.0 q.1 in
    let n = length-count_from 0 size in
    elim (Bool-cases (same_node q.0 p.0)) [
      | inl y ↦ omega (arith, ap (λ (x : Node). length x) (same_node-eq q.0 p.0 y))
      | inr x ↦
          let s : IsSearch ((p.0, []) ∷ []) = record {
            bytes = (b, tt);
            short = (omega arith, tt);
            once = ((λ o. o), tt);
          } in
          omega (arith, search_loop-near q.0 rounds (p.0 ∷ []) ((p.0, []) ∷ []) out s (rw x at q.2))
    ]
