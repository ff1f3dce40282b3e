-- ===== src/Transform/Shortest.antt =====
-- stack/transform.go: the breadth-first search finds a shortest path.
use specops.Base.{
  ℕ, zero, suc, ◌+◌, ◌≤◌, ◌≡◌, refl, ap, sym, subst, ◌∙◌, false, Option, none, some, List, [], ◌∷◌,
  inl, inr, arith, length, Outcome, ok, ◌>>=◌, >>=-eq-ok, ok-injective, Bool-cases,
}
use specops.Transform.Node.{Node, node_from_indices, root_node, apply, same_node}
use specops.Transform.Bfs.{
  Graph, path_to, Round, reached, searching, follow, edges, search_loop, rounds, bfs,
}
use specops.Transform.Sound.{same_node-eq}
use specops.Transform.Search.{last, bfs-last}
use specops.Transform.Correct.{Occurs}
use specops.Transform.Round.{onwards, step, search_loop-suc}
use specops.Transform.Levels.{
  Among, Sorted, Sorted-higher, Sorted-least, Expanded, Levels, follow-reached, follow-Levels,
  path_to-new, path_to-old, path_to-other,
}
use specops.Transform.Encoding.{same_node_refl}

-- A walk of so many edges from a node to the wanted one.
pub data Walk (want : Node) : Node → ℕ → Type 0 where
  stop : {n : Node} → n ≡ want → Walk want n 0
  go :
      {n m : Node} {k : ℕ} (ops : List ℕ) (op : ℕ)
      → edges want n ≡ ok ops
      → Occurs op ops
      → apply n op ≡ ok m
      → Walk want m k
      → Walk want n (suc k)

module _ (root want : Node) where
  -- With no open node nearer than `k`, a walk to the wanted node is longer than `k`.
  Walk-long :
      (k : ℕ) (g : Graph) (queue open_nodes : List Node)
      → Levels root want k g queue open_nodes
      → ((n : Node) (p : List ℕ) → Among n open_nodes → path_to n g ≡ some p → k ≤ length p)
      → (n : Node) (p : List ℕ) (m j : ℕ) → path_to n g ≡ some p
      → length p ≤ j
      → Walk want n m
      → k + 1 ≤ j + m
  Walk-long k g queue open_nodes v far n p m j e l (stop w) =
      let z : path_to want g ≡ some p = subst (λ (x : Node). path_to x g ≡ some p) w e in
      let y : none ≡ some p = sym v.absent ∙ z in absurd (cc)
  Walk-long k g queue open_nodes v far n p m j e l (go {m = next} {k = i} ops op a o b w) =
      elim (v.split n p e) [
        | inr x ↦ omega (arith, far n p x e)
        | inl x ↦
            let (q, f, s) = x ops a op o next b in
            omega (arith, Walk-long k g queue open_nodes v far next q i (j + 1) f (omega arith) w)
      ]

  -- The head of the queue is taken out, and its round begins.
  Levels-begin :
      (d : ℕ) (g : Graph) (curr : Node) (queue : List Node) (path : List ℕ)
      → Levels root want d g (curr ∷ queue) (curr ∷ queue)
      → path_to curr g ≡ some path
      → Levels root want (length path) g queue (curr ∷ queue)
  Levels-begin d g curr queue path v e =
      let (p, h, a, b, s) = v.sorted in
      let y : some p ≡ some path = sym h ∙ e in
      let x : p ≡ path = cc in
      let l : length p ≡ length path = ap (λ (r : List ℕ). length r) x in
      record {
        bound = λ n q f. omega (arith, v.bound n q f);
        sorted =
            Sorted-higher g (length path) (d + 1) (length path + 1) queue (omega arith)
              (subst (λ (i : ℕ). Sorted g i (d + 1) queue) l s);
        split = v.split;
        start = v.start;
        absent = v.absent;
      }

  -- Its round is over.
  Levels-end :
      (g g' : Graph) (curr : Node) (queue : List Node) (path ops : List ℕ)
      → Levels root want (length path) g' queue (curr ∷ queue)
      → path_to curr g' ≡ some path
      → edges want curr ≡ ok ops
      → ((op : ℕ)
          → Occurs op ops
          → (m : Node) → apply curr op ≡ ok m
          → (q : List ℕ) × (path_to m g' ≡ some q))
      → Levels root want (length path) g' queue queue
  Levels-end g g' curr queue path ops v e a leads = record {
    bound = v.bound;
    sorted = v.sorted;
    split = λ n p h. elim (v.split n p h) [
      | inl x ↦ inl x
      | inr (inl x) ↦ inl (by_node n p x h)
      | inr (inr x) ↦ inr x
    ];
    start = v.start;
    absent = v.absent;
  }
    where
      expanded : Expanded root want g' curr path
      expanded ops' b op o m c =
          let y : ok ops' ≡ ok ops = sym b ∙ a in
          let (q, f) = leads op (subst (λ (l : List ℕ). Occurs op l) (ok-injective y) o) m c in
          (q, f, v.bound m q f)

      by_node :
          (n : Node) (p : List ℕ) → n ≡ curr → path_to n g' ≡ some p → Expanded root want g' n p
      by_node n p x h =
          let z : path_to curr g' ≡ some p = subst (λ (k : Node). path_to k g' ≡ some p) x h in
          let y : some path ≡ some p = sym e ∙ z in
          let w : path ≡ p = cc in
          subst (λ (k : Node). Expanded root want g' k p) (sym x)
            (subst (λ (q : List ℕ). Expanded root want g' curr q) w expanded)

  Rest : ℕ → List ℕ → Type 0
  Rest fuel out =
      (d : ℕ) (queue : List Node) (g : Graph)
      → Levels root want d g queue queue
      → search_loop fuel want queue g ≡ ok out
      → (m : ℕ) → Walk want root m
      → length out ≤ m

  step-shortest :
      (fuel d : ℕ) (curr : Node) (queue : List Node) (g : Graph) (out : List ℕ)
      (o : Option (List ℕ))
      → Levels root want d g (curr ∷ queue) (curr ∷ queue)
      → Rest fuel out
      → path_to curr g ≡ o
      → step want fuel curr queue g o ≡ ok out
      → (m : ℕ) → Walk want root m
      → length out ≤ m
  unfolding step onwards Rest
  step-shortest fuel d curr queue g out none v rest e w m walk = absurd (cc)
  step-shortest fuel d curr queue g out (some path) v rest e w m walk =
      let p =
        >>=-eq-ok (edges want curr) (λ ops. follow want curr path ops g queue >>= onwards want fuel)
          w in
      let q = >>=-eq-ok (follow want curr path p.0 g queue) (onwards want fuel) p.2 in
      by_round q.0 p.0 p.1 q.1 q.2
    where
      begun : Levels root want (length path) g queue (curr ∷ queue)
      begun = Levels-begin d g curr queue path v e

      far :
          (n : Node) (p : List ℕ)
          → Among n (curr ∷ queue)
          → path_to n g ≡ some p
          → length path ≤ length p
      far n p (inl x) h =
          let z : path_to curr g ≡ some p = subst (λ (k : Node). path_to k g ≡ some p) x h in
          let y : some path ≡ some p = sym e ∙ z in
          let s : path ≡ p = cc in omega (arith, ap (λ (r : List ℕ). length r) s)
      far n p (inr x) h = Sorted-least g (length path) (length path + 1) queue n p begun.sorted x h

      by_round :
          (r : Round) (ops : List ℕ)
          → edges want curr ≡ ok ops
          → follow want curr path ops g queue ≡ ok r
          → onwards want fuel r ≡ ok out
          → length out ≤ m
      by_round (reached p) ops a f k =
          let y : p ≡ out = ok-injective k in
          omega (
            arith,
            ap (λ (r : List ℕ). length r) y,
            follow-reached root want curr path (length path) refl ops g queue p f,
            Walk-long (length path) g queue (curr ∷ queue) begun far root [] m 0 v.start
                (omega arith) walk,
          )
      by_round (searching g' queue') ops a f k =
          let (z, x, l) =
            follow-Levels root want curr path (length path) refl ops g queue g' queue' begun f in
          rest (length path) queue' g' (Levels-end g g' curr queue' path ops z (x curr path e) a l)
            k m walk

  search_loop-shortest :
      (fuel d : ℕ) (queue : List Node) (g : Graph) (out : List ℕ)
      → Levels root want d g queue queue
      → search_loop fuel want queue g ≡ ok out
      → (m : ℕ) → Walk want root m
      → length out ≤ m
  unfolding search_loop Rest
  search_loop-shortest zero d [] g out v w = absurd (cc)
  search_loop-shortest (suc fuel) d [] g out v w = absurd (cc)
  search_loop-shortest zero d (curr ∷ queue) g out v w = absurd (cc)
  search_loop-shortest (suc fuel) d (curr ∷ queue) g out v w =
      step-shortest fuel d curr queue g out (path_to curr g) v
        (λ e q h x y. search_loop-shortest fuel e q h out x y) refl
        (sym (search_loop-suc want fuel curr queue g) ∙ w)

  first-Levels :
      same_node root want ≡ false → Levels root want 0 ((root, []) ∷ []) (root ∷ []) (root ∷ [])
  unfolding path_to
  first-Levels f = record {
    bound = λ n p h. elim (path_to-old n root [] p [] h) [
      | inl (_, y) ↦ omega (arith, ap (λ (x : List ℕ). length x) y)
      | inr x ↦ absurd (cc)
    ];
    sorted = ([], path_to-new root [] [], omega arith, omega arith, tt);
    split = λ n p h. elim (path_to-old n root [] p [] h) [
      | inl (x, _) ↦ inr (inl x)
      | inr x ↦ absurd (cc)
    ];
    start = path_to-new root [] [];
    absent = path_to-other want root [] [] f refl;
  }

  last-shortest :
      (is : List ℕ) (size : ℕ) (out : List ℕ)
      → last is size root want ≡ ok out
      → (m : ℕ) → Walk want root m
      → length out ≤ m
  unfolding last
  last-shortest is size out h m walk = elim (Bool-cases (same_node want root)) [
    | inl y ↦
        let e : ok [] ≡ ok out = rw y at h in
        omega (arith, ap (λ (x : List ℕ). length x) (ok-injective e))
    | inr n ↦
        search_loop-shortest rounds 0 (root ∷ []) ((root, []) ∷ []) out (first-Levels (other n))
          (rw n at h) m walk
  ]
    where
      other : same_node want root ≡ false → same_node root want ≡ false
      other n = elim (Bool-cases (same_node root want)) [
        | inl y ↦
            let z : same_node want want ≡ false =
              subst (λ (x : Node). same_node want x ≡ false) (same_node-eq root want y) n in
            let w = same_node_refl want in absurd (cc)
        | inr x ↦ x
      ]

-- If bfs returns opcodes, then no walk from the node of the given size to the node of the indices,
-- each step of which is one of the edges that the search considers at its node, is shorter.
pub bfs-shortest :
    (is : List ℕ) (size : ℕ) (out : List ℕ) (root want : Node) (m : ℕ)
    → bfs is size ≡ ok out
    → root_node size ≡ ok root
    → node_from_indices is ≡ ok want
    → Walk want root m
    → length out ≤ m
bfs-shortest is size out root want m h r w walk =
    let b : last is size root want ≡ ok out =
      ap (λ (o : Outcome Node). o >>= λ t. last is size root t) (sym w)
      ∙ ap (λ (o : Outcome Node). o >>= λ t. node_from_indices is >>= last is size t) (sym r)
      ∙ bfs-last is size out h in
    last-shortest root want is size out b m walk
