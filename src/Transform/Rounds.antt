-- ===== src/Transform/Rounds.antt =====
-- stack/transform.go: a round of the breadth-first search.
use specops.Base.{
  ℕ, zero, suc, ◌+◌, ◌-◌, ◌≤◌, ◌≡◌, ◌⊎◌, refl, sym, subst, ◌∙◌, Bool, true, false, Option, none,
  some, List, [], ◌∷◌, ◌++◌, arith, length, length-append, ◌==◌, All, ok, ◌>>=◌, >>=-eq-ok,
  ok-injective, Bool-cases, inl, inr,
}
use specops.Opcode.{swap1, add_byte}
use specops.Transform.Node.{Node, apply, to_indices, same_node}
use specops.Transform.Bfs.{
  Graph, path_to, Round, searching, follow, swap_edges, change_edges, deltas, edges,
}
use specops.Transform.Correct.{NoTwice}
use specops.Transform.Encoding.{IsBytes, codes, new_code}
use specops.Transform.Short.{apply-Longer, no_swap17, found, visit, follow-cons}

pub record IsSearch (g : Graph) : Type 0 where
  pub bytes : All (λ e. IsBytes e.0) g
  pub short : All (λ e. length e.0 ≤ 18) g
  pub once : NoTwice (codes g)

module _ (want curr : Node) (path : List ℕ) where
  -- A turn that does not end the round has found an order that is known, or adds a new one.
  Goes : List ℕ → ℕ → Graph → List Node → Node → Round → Type 0
  Goes ops op g queue next r =
      (follow want curr path ops g queue ≡ ok r)
      ⊎ ((path_to next g ≡ none)
          × (follow want curr path ops ((next, path ++ op ∷ []) ∷ g) (queue ++ next ∷ []) ≡ ok r))

  found-Goes :
      (ops : List ℕ) (op : ℕ) (g : Graph) (queue : List Node) (next : Node) (b : Bool) (g' : Graph)
      (queue' : List Node)
      → path_to next g ≡ none
      → found want curr path ops op g queue next b ≡ ok (searching g' queue')
      → Goes ops op g queue next (searching g' queue')
  unfolding Goes
  found-Goes ops op g queue next true g' queue' e w = absurd (cc)
  found-Goes ops op g queue next false g' queue' e w = inr (e, w)

  visit-Goes :
      (ops : List ℕ) (op : ℕ) (g : Graph) (queue : List Node) (next : Node) (o : Option (List ℕ))
      (g' : Graph) (queue' : List Node)
      → path_to next g ≡ o
      → visit want curr path ops op g queue next o ≡ ok (searching g' queue')
      → Goes ops op g queue next (searching g' queue')
  unfolding Goes
  visit-Goes ops op g queue next none g' queue' e w =
      found-Goes ops op g queue next (same_node next want) g' queue' e w
  visit-Goes ops op g queue next (some p) g' queue' e w = inl w

  follow-Goes :
      (op : ℕ) (ops : List ℕ) (g : Graph) (queue : List Node) (g' : Graph) (queue' : List Node)
      → follow want curr path (op ∷ ops) g queue ≡ ok (searching g' queue')
      → (next : Node) × (apply curr op ≡ ok next) × Goes ops op g queue next (searching g' queue')
  follow-Goes op ops g queue g' queue' h =
      let p =
        >>=-eq-ok (apply curr op)
          (λ next. visit want curr path ops op g queue next (path_to next g))
          (sym (follow-cons want curr path op ops g queue) ∙ h) in
      (p.0, p.1, visit-Goes ops op g queue p.0 (path_to p.0 g) g' queue' refl p.2)

  -- The end of a list of opcodes is followed too.
  follow-behind :
      (xs ys : List ℕ) (g : Graph) (queue : List Node) (g' : Graph) (queue' : List Node)
      → follow want curr path (xs ++ ys) g queue ≡ ok (searching g' queue')
      → (h : Graph) × (q : List Node) × (follow want curr path ys h q ≡ ok (searching g' queue'))
  unfolding Goes
  follow-behind [] ys g queue g' queue' w = (g, queue, w)
  follow-behind (x ∷ xs) ys g queue g' queue' w =
      let (next, a, o) = follow-Goes x (xs ++ ys) g queue g' queue' w in
      elim o [
        | inl v ↦ follow-behind xs ys g queue g' queue' v
        | inr (e, v) ↦ follow-behind xs ys _ _ g' queue' v
      ]

  follow-swaps :
      (i n : ℕ) (g : Graph) (queue : List Node) (g' : Graph) (queue' : List Node)
      → i ≤ 16
      → follow want curr path (swap_edges i n) g queue ≡ ok (searching g' queue')
      → i + n ≤ 16
  unfolding Goes swap_edges
  follow-swaps i zero g queue g' queue' l w = omega arith
  follow-swaps i (suc n) g queue g' queue' l w =
      let (next, a, o) =
        follow-Goes (add_byte swap1 i) (swap_edges (i + 1) n) g queue g' queue' w in
      elim (Bool-cases (i == 16)) [
        | inl y ↦
            let e : add_byte swap1 i ≡ 0xa0 = ground arith in
            absurd (no_swap17 curr next (subst (λ k. apply curr k ≡ ok next) e a))
        | inr x ↦
            let l' : i + 1 ≤ 16 = ground arith in
            elim o [
              | inl v ↦ omega (arith, follow-swaps (i + 1) n g queue g' queue' l' v)
              | inr (e, v) ↦ omega (arith, follow-swaps (i + 1) n _ _ g' queue' l' v)
            ]
      ]

  module _ (b : IsBytes curr) (l : length curr ≤ 17) where
    pub follow-IsSearch :
        (ops : List ℕ) (g : Graph) (queue : List Node) (g' : Graph) (queue' : List Node)
        → IsSearch g
        → follow want curr path ops g queue ≡ ok (searching g' queue')
        → IsSearch g' × (length g' + length queue ≡ length g + length queue')
    unfolding Goes follow
    follow-IsSearch [] g queue g' queue' s w =
        let e : searching g queue ≡ searching g' queue' = ok-injective w in
        let x : g ≡ g' = cc in let y : queue ≡ queue' = cc in (subst IsSearch x s, rw (x, y) refl)
    follow-IsSearch (op ∷ ops) g queue g' queue' s w =
        let (next, a, o) = follow-Goes op ops g queue g' queue' w in
        let (c, k) = apply-Longer curr next op b a in
        elim o [
          | inl v ↦ follow-IsSearch ops g queue g' queue' s v
          | inr (e, v) ↦
              let (t, m) =
                follow-IsSearch ops ((next, path ++ op ∷ []) ∷ g) (queue ++ next ∷ []) g' queue'
                  (record {
                    bytes = (c, s.bytes);
                    short = (omega arith, s.short);
                    once = (new_code next g c s.bytes e, s.once);
                  })
                  v in
              (t, omega (arith, length-append queue (next ∷ [])))
        ]

-- The opcodes of a round end with the SWAPs.
edges-swaps :
    (want curr : Node) (ops : List ℕ)
    → edges want curr ≡ ok ops
    → (xs : List ℕ) × (ops ≡ xs ++ swap_edges 0 (length curr - 1))
unfolding edges
edges-swaps want curr ops h =
    let made = λ (w : List ℕ).
      λ (c : List ℕ). ok (change_edges (deltas w c) c (w ++ c) ++ swap_edges 0 (length curr - 1)) in
    let p = >>=-eq-ok (to_indices want) (λ w. to_indices curr >>= made w) h in
    let q = >>=-eq-ok (to_indices curr) (made p.0) p.2 in
    (change_edges (deltas p.0 q.0) q.0 (p.0 ++ q.0), sym (ok-injective q.2))

-- So a node whose round leads on has at most 17 characters.
pub round-short :
    (want curr : Node) (path ops : List ℕ) (g : Graph) (queue : List Node) (g' : Graph)
    (queue' : List Node)
    → edges want curr ≡ ok ops
    → follow want curr path ops g queue ≡ ok (searching g' queue')
    → length curr ≤ 17
round-short want curr path ops g queue g' queue' e w =
    let (xs, s) = edges-swaps want curr ops e in
    let w' : follow want curr path (xs ++ swap_edges 0 (length curr - 1)) g queue
        ≡ ok (searching g' queue') =
      subst (λ o. follow want curr path o g queue ≡ ok (searching g' queue')) s w in
    let (h, q, v) =
      follow-behind want curr path xs (swap_edges 0 (length curr - 1)) g queue g' queue' w' in
    omega (arith, follow-swaps want curr path 0 (length curr - 1) h q g' queue' (omega arith) v)
