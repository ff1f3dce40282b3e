-- ===== src/Transform/Turn.antt =====
-- stack/transform.go: a round of the search, in the parts that the proofs follow.
use specops.Base.{
  ℕ, ◌≡◌, refl, Bool, true, false, Option, none, some, List, [], ◌∷◌, ◌++◌, ok, All, subst,
  Bool-cases, ◌⊎◌, inl, inr, sym, ◌∙◌, >>=-eq-ok, ok-injective,
}
use specops.Transform.Node.{Node, apply, same_node}
use specops.Transform.Bfs.{Graph, path_to, Round, reached, follow}
use specops.Transform.Sound.{same_node-eq}
use specops.Transform.Short.{found, visit, follow-cons}

-- A property of all nodes of the graph is one of the nodes that it has a path to.
pub path_to-All :
    (P : Node → Type 0) (n : Node) (g : Graph) (p : List ℕ)
    → All (λ e. P e.0) g
    → path_to n g ≡ some p
    → P n
unfolding path_to
path_to-All P n [] p a h = absurd (cc)
path_to-All P n ((m, q) ∷ g) p (a, rest) h = elim (Bool-cases (same_node m n)) [
  | inl y ↦ subst P (same_node-eq m n y) a
  | inr x ↦ path_to-All P n g p rest (rw x at h)
]

module _ (want curr : Node) (path : List ℕ) where
  -- What a turn does with the node that the opcode leads to.
  unfoldable pub Turn : List ℕ → ℕ → Graph → List Node → Node → Round → Type 0
  Turn ops op g queue next r =
      ((p : List ℕ) × (path_to next g ≡ some p) × (follow want curr path ops g queue ≡ ok r))
      ⊎ ((path_to next g ≡ none)
          × (same_node next want ≡ false)
          × (follow want curr path ops ((next, path ++ op ∷ []) ∷ g) (queue ++ next ∷ []) ≡ ok r))
      ⊎ ((same_node next want ≡ true) × (reached (path ++ op ∷ []) ≡ r))

  found-Turn :
      (ops : List ℕ) (op : ℕ) (g : Graph) (queue : List Node) (next : Node) (b : Bool) (r : Round)
      → path_to next g ≡ none
      → same_node next want ≡ b
      → found want curr path ops op g queue next b ≡ ok r
      → Turn ops op g queue next r
  unfolding Turn
  found-Turn ops op g queue next true r e f w = inr (inr (f, ok-injective w))
  found-Turn ops op g queue next false r e f w = inr (inl (e, f, w))

  visit-Turn :
      (ops : List ℕ) (op : ℕ) (g : Graph) (queue : List Node) (next : Node) (o : Option (List ℕ))
      (r : Round)
      → path_to next g ≡ o
      → visit want curr path ops op g queue next o ≡ ok r
      → Turn ops op g queue next r
  unfolding Turn
  visit-Turn ops op g queue next none r e w =
      found-Turn ops op g queue next (same_node next want) r e refl w
  visit-Turn ops op g queue next (some p) r e w = inl (p, e, w)

  pub follow-Turn :
      (op : ℕ) (ops : List ℕ) (g : Graph) (queue : List Node) (r : Round)
      → follow want curr path (op ∷ ops) g queue ≡ ok r
      → (next : Node) × (apply curr op ≡ ok next) × Turn ops op g queue next r
  follow-Turn op ops g queue r h =
      let p =
        >>=-eq-ok (apply curr op)
          (λ next. visit want curr path ops op g queue next (path_to next g))
          (sym (follow-cons want curr path op ops g queue) ∙ h) in
      (p.0, p.1, visit-Turn ops op g queue p.0 (path_to p.0 g) r refl p.2)
