-- ===== src/Transform/Search.antt =====
-- stack/transform.go: the path that the breadth-first search returns.
use specops.Base.{
  ℕ, zero, suc, ◌≡◌, refl, ap, sym, subst, ◌∙◌, Bool, true, false, Option, none, some, List, [],
  ◌∷◌, ◌++◌, ltb, ◌==◌, if◌then◌else◌, ◌||◌, All, Outcome, ok, err, ◌>>=◌, >>=-eq-ok, ok-injective,
  Bool-cases, inl, inr, invalid_size,
}
use specops.Transform.Node.{Node, node_from_indices, root_node, apply, apply_all, same_node}
use specops.Transform.Bfs.{
  Graph, path_to, Round, reached, searching, follow, search_loop, rounds, bfs, edges,
}
use specops.Transform.Sound.{same_node-eq, Reaches}
use specops.Transform.Round.{onwards, step, search_loop-suc}

apply_all-snoc :
    (os : List ℕ) (o : ℕ) (n k m : Node)
    → apply_all n os ≡ ok k
    → apply k o ≡ ok m
    → apply_all n (os ++ o ∷ []) ≡ ok m
unfolding apply_all
apply_all-snoc [] o n k m h a =
    let e : n ≡ k = ok-injective h in
    ap (λ l. apply l o >>= λ q. ok q) e ∙ ap (λ r. r >>= λ q. ok q) a
apply_all-snoc (p ∷ os) o n k m h a =
    let q = >>=-eq-ok (apply n p) (λ l. apply_all l os) h in
    rw (q.1) (apply_all-snoc os o q.0 k m q.2 a)

-- Every node of the graph is reached by its path.
abbrev IsGraph : Node → Graph → Type 0
IsGraph root = All (λ e. apply_all root e.1 ≡ ok e.0)

path_to-reaches :
    (root n : Node) (g : Graph) (p : List ℕ)
    → IsGraph root g
    → path_to n g ≡ some p
    → apply_all root p ≡ ok n
unfolding path_to
path_to-reaches root n [] p i h = absurd (cc)
path_to-reaches root n ((m, q) ∷ g) p (i, is) h = elim (Bool-cases (same_node m n)) [
  | inl y ↦
      let h' : some q ≡ some p = rw y at h in
      let s : q ≡ p = cc in rw (← s) (i ∙ ap ok (same_node-eq m n y))
  | inr x ↦ path_to-reaches root n g p is (rw x at h)
]

-- A round keeps the graph, or has reached the node that is wanted.
abbrev Good : Node → Node → Round → Type 0
Good root want (reached p) = apply_all root p ≡ ok want
Good root want (searching g q) = IsGraph root g

module _ (root want curr : Node) (path : List ℕ) (at : apply_all root path ≡ ok curr) where
  follow-Good :
      (ops : List ℕ) (g : Graph) (queue : List Node) (r : Round)
      → IsGraph root g
      → follow want curr path ops g queue ≡ ok r
      → Good root want r
  unfolding follow
  follow-Good [] g queue r i h = subst (Good root want) (ok-injective h) i
  follow-Good (op ∷ ops) g queue r i h =
      let q = >>=-eq-ok (apply curr op) (λ next. visit next (path_to next g)) h in
      go (λ g' q' i' w. follow-Good ops g' q' r i' w) q.0 (path_to q.0 g)
        (apply_all-snoc path op root curr q.0 at q.1) q.2
    where
      found : Node → Bool → Outcome Round
      found next b = elim b [
        | true ↦ ok (reached (path ++ op ∷ []))
        | false ↦ follow want curr path ops ((next, path ++ op ∷ []) ∷ g) (queue ++ next ∷ [])
      ]

      visit : Node → Option (List ℕ) → Outcome Round
      visit next o = elim o [
        | some _ ↦ follow want curr path ops g queue
        | none ↦ found next (same_node next want)
      ]

      Rest : Type 0
      Rest =
          (g' : Graph) (q' : List Node)
          → IsGraph root g'
          → follow want curr path ops g' q' ≡ ok r
          → Good root want r

      hit :
          Rest
          → (next : Node) (b : Bool) → same_node next want ≡ b
          → apply_all root (path ++ op ∷ []) ≡ ok next
          → found next b ≡ ok r
          → Good root want r
      hit rest next true e a w =
          subst (Good root want) (ok-injective w) (a ∙ ap ok (same_node-eq next want e))
      hit rest next false e a w = rest ((next, path ++ op ∷ []) ∷ g) (queue ++ next ∷ []) (a, i) w

      go :
          Rest
          → (next : Node) (o : Option (List ℕ)) → apply_all root (path ++ op ∷ []) ≡ ok next
          → visit next o ≡ ok r
          → Good root want r
      go rest next (some _) a w = rest g queue i w
      go rest next none a w = hit rest next (same_node next want) refl a w

search_loop-reaches :
    (fuel : ℕ) (root want : Node) (queue : List Node) (g : Graph) (out : List ℕ)
    → IsGraph root g
    → search_loop fuel want queue g ≡ ok out
    → apply_all root out ≡ ok want
unfolding search_loop step onwards
search_loop-reaches zero root want [] g out i h = absurd (cc)
search_loop-reaches (suc fuel) root want [] g out i h = absurd (cc)
search_loop-reaches zero root want (curr ∷ queue) g out i h = absurd (cc)
search_loop-reaches (suc fuel) root want (curr ∷ queue) g out i h =
    go (λ g' q' k w. search_loop-reaches fuel root want q' g' out k w) (path_to curr g) refl
      (sym (search_loop-suc want fuel curr queue g) ∙ h)
  where
    Rest : Type 0
    Rest =
        (g' : Graph) (q' : List Node)
        → IsGraph root g'
        → search_loop fuel want q' g' ≡ ok out
        → apply_all root out ≡ ok want

    finish :
        Rest
        → (r : Round) → Good root want r
        → onwards want fuel r ≡ ok out
        → apply_all root out ≡ ok want
    finish rest (reached p) k w = subst (λ o. apply_all root o ≡ ok want) (ok-injective w) k
    finish rest (searching g' q') k w = rest g' q' k w

    go :
        Rest
        → (o : Option (List ℕ)) → path_to curr g ≡ o
        → step want fuel curr queue g o ≡ ok out
        → apply_all root out ≡ ok want
    go rest none e w = absurd (cc)
    go rest (some path) e w =
        let p =
          >>=-eq-ok (edges want curr)
            (λ ops. follow want curr path ops g queue >>= onwards want fuel) w in
        let q = >>=-eq-ok (follow want curr path p.0 g queue) (onwards want fuel) p.2 in
        finish rest q.0
          (follow-Good root want curr path (path_to-reaches root curr g path i e) p.0 g queue q.0 i
            q.1)
          q.2

module _ (is : List ℕ) (size : ℕ) where
  unfoldable pub last : Node → Node → Outcome (List ℕ)
  last root want =
      let found = search_loop rounds want (root ∷ []) ((root, []) ∷ []) in
      if same_node want root then ok [] else found

  last-reaches :
      (root want : Node) (out : List ℕ) → last root want ≡ ok out → apply_all root out ≡ ok want
  unfolding last apply_all
  last-reaches root want out h = elim (Bool-cases (same_node want root)) [
    | inl y ↦
        let e : ok [] ≡ ok out = rw y at h in
        let s : [] ≡ out = ok-injective e in rw (← s) (ap ok (sym (same_node-eq want root y)))
    | inr x ↦
        search_loop-reaches rounds root want (root ∷ []) ((root, []) ∷ []) out (refl, tt)
          (rw x at h)
  ]

  pub bfs-last :
      (out : List ℕ)
      → bfs is size ≡ ok out
      → (root_node size >>= λ root. node_from_indices is >>= last root) ≡ ok out
  unfolding bfs last
  bfs-last out h = elim (Bool-cases (size == 0 || ltb 16 size)) [
    | inl y ↦ let e : err (invalid_size size) ≡ ok out = rw y at h in absurd (cc)
    | inr n ↦ rw n at h
  ]

  -- The path that the search returns leads from the root to the node of the indices.
  pub bfs-Reaches : (out : List ℕ) → bfs is size ≡ ok out → Reaches size is out
  bfs-Reaches out h =
      let p =
        >>=-eq-ok (root_node size) (λ root. node_from_indices is >>= last root) (bfs-last out h) in
      let q = >>=-eq-ok (node_from_indices is) (last p.0) p.2 in
      (p.0, q.0, p.1, q.1, last-reaches p.0 q.0 out q.2)
