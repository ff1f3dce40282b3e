-- ===== src/Transform/Levels.antt =====
-- stack/transform.go: the lengths of the paths of the breadth-first search.
use specops.Base.{
  ℕ, ◌+◌, ◌≤◌, ◌≡◌, refl, ap, sym, subst, ◌∙◌, false, none, some, List, [], ◌∷◌, ◌++◌, ◌⊎◌, inl,
  inr, arith, length, length-append, ok, ok-injective, Bool-cases,
}
use specops.Transform.Node.{Node, apply, same_node}
use specops.Transform.Bfs.{Graph, path_to, reached, searching, follow, edges}
use specops.Transform.Sound.{same_node-eq}
use specops.Transform.Correct.{Occurs}
use specops.Transform.Encoding.{same_node_refl}
use specops.Transform.Turn.{Turn, follow-Turn}

path_to-keep :
    (n next : Node) (g : Graph) (p q : List ℕ)
    → path_to next g ≡ none
    → path_to n g ≡ some p
    → path_to n ((next, q) ∷ g) ≡ some p
unfolding path_to
path_to-keep n next g p q e h = elim (Bool-cases (same_node next n)) [
  | inl y ↦
      let z : path_to n g ≡ none =
        subst (λ (m : Node). path_to m g ≡ none) (same_node-eq next n y) e in
      absurd (cc)
  | inr x ↦ rw x h
]

pub path_to-new : (next : Node) (g : Graph) (q : List ℕ) → path_to next ((next, q) ∷ g) ≡ some q
unfolding path_to
path_to-new next g q = rw (same_node_refl next) refl

pub path_to-old :
    (n next : Node) (g : Graph) (p q : List ℕ)
    → path_to n ((next, q) ∷ g) ≡ some p
    → ((n ≡ next) × (p ≡ q)) ⊎ (path_to n g ≡ some p)
unfolding path_to
path_to-old n next g p q h = elim (Bool-cases (same_node next n)) [
  | inl y ↦ let e : some q ≡ some p = rw y at h in inl (sym (same_node-eq next n y), cc)
  | inr x ↦ inr (rw x at h)
]

pub path_to-other :
    (n next : Node) (g : Graph) (q : List ℕ)
    → same_node next n ≡ false
    → path_to n g ≡ none
    → path_to n ((next, q) ∷ g) ≡ none
unfolding path_to
path_to-other n next g q e h = rw e h

abbrev pub Among : Node → List Node → Type 0
Among n [] = ⊥
Among n (m ∷ q) = (n ≡ m) ⊎ Among n q

pub Among-append : (n m : Node) (q : List Node) → Among n q → Among n (q ++ m ∷ [])
Among-append n m [] a = elim a [ ]
Among-append n m (l ∷ q) (inl e) = inl e
Among-append n m (l ∷ q) (inr a) = inr (Among-append n m q a)

pub Among-last : (n : Node) (q : List Node) → Among n (q ++ n ∷ [])
Among-last n [] = inl refl
Among-last n (m ∷ q) = inr (Among-last n q)

-- The graph knows what another one knows.
abbrev pub Extends : Graph → Graph → Type 0
Extends g g' = (n : Node) (p : List ℕ) → path_to n g ≡ some p → path_to n g' ≡ some p

-- The paths to the nodes of the queue are no shorter than one before, and not longer than `hi`.
abbrev pub Sorted : Graph → ℕ → ℕ → List Node → Type 0
Sorted g lo hi [] = Unit
Sorted g lo hi (n ∷ q) =
    (p : List ℕ) × (path_to n g ≡ some p)
    × (lo ≤ length p)
    × (length p ≤ hi)
    × Sorted g (length p) hi q

Sorted-Extends :
    (g g' : Graph) (lo hi : ℕ) (q : List Node) → Extends g g' → Sorted g lo hi q → Sorted g' lo hi q
Sorted-Extends g g' lo hi [] e s = tt
Sorted-Extends g g' lo hi (n ∷ q) e (p, k, a, b, s) =
    (p, e n p k, a, b, Sorted-Extends g g' (length p) hi q e s)

pub Sorted-higher :
    (g : Graph) (lo hi hi' : ℕ) (q : List Node) → hi ≤ hi' → Sorted g lo hi q → Sorted g lo hi' q
Sorted-higher g lo hi hi' [] l s = tt
Sorted-higher g lo hi hi' (n ∷ q) l (p, k, a, b, s) =
    (p, k, a, omega arith, Sorted-higher g (length p) hi hi' q l s)

Sorted-append :
    (g : Graph) (lo hi : ℕ) (q : List Node) (n : Node) (p : List ℕ)
    → lo ≤ hi
    → path_to n g ≡ some p
    → length p ≡ hi
    → Sorted g lo hi q
    → Sorted g lo hi (q ++ n ∷ [])
Sorted-append g lo hi [] n p l k e s = (p, k, omega arith, omega arith, tt)
Sorted-append g lo hi (m ∷ q) n p l k e (r, j, a, b, s) =
    (r, j, a, b, Sorted-append g (length r) hi q n p b k e s)

pub Sorted-least :
    (g : Graph) (lo hi : ℕ) (q : List Node) (n : Node) (p : List ℕ)
    → Sorted g lo hi q
    → Among n q
    → path_to n g ≡ some p
    → lo ≤ length p
Sorted-least g lo hi [] n p s i k = elim i [ ]
Sorted-least g lo hi (m ∷ q) n p (r, j, a, b, s) (inl e) k =
    let z : path_to m g ≡ some p = subst (λ (x : Node). path_to x g ≡ some p) e k in
    let y : some r ≡ some p = sym j ∙ z in let w : r ≡ p = cc in rw (← w) a
Sorted-least g lo hi (m ∷ q) n p (r, j, a, b, s) (inr i) k =
    omega (arith, Sorted-least g (length r) hi q n p s i k)

module _ (root want : Node) where
  -- What the edges of a node lead to is known, by paths that are at most one longer.
  abbrev pub Expanded : Graph → Node → List ℕ → Type 0
  Expanded g n p =
      (ops : List ℕ)
      → edges want n ≡ ok ops
      → (op : ℕ) → Occurs op ops
      → (m : Node) → apply n op ≡ ok m
      → (q : List ℕ) × (path_to m g ≡ some q) × (length q ≤ length p + 1)

  -- `open` are the nodes whose round is not over.
  pub record Levels (k : ℕ) (g : Graph) (queue open_nodes : List Node) : Type 0 where
    pub bound : (n : Node) (p : List ℕ) → path_to n g ≡ some p → length p ≤ k + 1
    pub sorted : Sorted g k (k + 1) queue
    pub split : (n : Node) (p : List ℕ) → path_to n g ≡ some p → Expanded g n p ⊎ Among n open_nodes
    pub start : path_to root g ≡ some []
    pub absent : path_to want g ≡ none

  Expanded-Extends :
      (g g' : Graph) (n : Node) (p : List ℕ) → Extends g g' → Expanded g n p → Expanded g' n p
  Expanded-Extends g g' n p e x ops a op o m b = let (q, k, l) = x ops a op o m b in (q, e m q k, l)

  -- A node that is met for the first time, in the round of `curr`.
  Levels-new :
      (k : ℕ) (g : Graph) (queue : List Node) (next curr : Node) (p : List ℕ)
      → Levels k g queue (curr ∷ queue)
      → path_to next g ≡ none
      → same_node next want ≡ false
      → length p ≡ k + 1
      → Levels k ((next, p) ∷ g) (queue ++ next ∷ []) (curr ∷ (queue ++ next ∷ []))
  Levels-new k g queue next curr p v e f l = record {
    bound = λ n q h. elim (path_to-old n next g q p h) [
      | inl (_, y) ↦ omega (arith, ap (λ (x : List ℕ). length x) y)
      | inr x ↦ v.bound n q x
    ];
    sorted =
        Sorted-append ((next, p) ∷ g) k (k + 1) queue next p (omega arith) (path_to-new next g p) l
          (Sorted-Extends g ((next, p) ∷ g) k (k + 1) queue keep v.sorted);
    split = λ n q h. elim (path_to-old n next g q p h) [
      | inl (x, _) ↦
          inr (
            inr
              (subst (λ (m : Node). Among m (queue ++ next ∷ [])) (sym x) (Among-last next queue)))
      | inr x ↦ elim (v.split n q x) [
        | inl y ↦ inl (Expanded-Extends g ((next, p) ∷ g) n q keep y)
        | inr (inl y) ↦ inr (inl y)
        | inr (inr y) ↦ inr (inr (Among-append n next queue y))
      ]
    ];
    start = keep root [] v.start;
    absent = unknown;
  }
    where
      keep : Extends g ((next, p) ∷ g)
      keep n q h = path_to-keep n next g q p e h

      unknown : path_to want ((next, p) ∷ g) ≡ none
      unknown = path_to-other want next g p f v.absent

  module _ (curr : Node) (path : List ℕ) (k : ℕ) (at : length path ≡ k) where
    pub follow-reached :
        (ops : List ℕ) (g : Graph) (queue : List Node) (out : List ℕ)
        → follow want curr path ops g queue ≡ ok (reached out)
        → length out ≡ k + 1
    unfolding follow Turn
    follow-reached [] g queue out w = absurd (cc)
    follow-reached (op ∷ ops) g queue out w =
        let (next, a, t) = follow-Turn want curr path op ops g queue (reached out) w in
        elim t [
          | inl (p, e, v) ↦ follow-reached ops g queue out v
          | inr (inl (e, f, v)) ↦ follow-reached ops _ _ out v
          | inr (inr (_, e)) ↦
              let y : path ++ op ∷ [] ≡ out = cc in
              omega (arith, length-append path (op ∷ []), ap (λ (x : List ℕ). length x) y)
        ]

    -- What the opcodes lead to is known.
    abbrev Leads : List ℕ → Graph → Type 0
    Leads ops g =
        (op : ℕ)
        → Occurs op ops
        → (m : Node) → apply curr op ≡ ok m
        → (q : List ℕ) × (path_to m g ≡ some q)

    Leads-cons :
        (op : ℕ) (ops : List ℕ) (g : Graph) (next : Node) (q : List ℕ)
        → apply curr op ≡ ok next
        → path_to next g ≡ some q
        → Leads ops g
        → Leads (op ∷ ops) g
    Leads-cons op ops g next q a e l o (inl x) m b =
        let y : ok next ≡ ok m = sym a ∙ ap (apply curr) (sym x) ∙ b in
        (q, subst (λ (n : Node). path_to n g ≡ some q) (ok-injective y) e)
    Leads-cons op ops g next q a e l o (inr x) m b = l o x m b

    -- A round keeps the levels, and the edges of its node lead to what is known then.
    pub follow-Levels :
        (ops : List ℕ) (g : Graph) (queue : List Node) (g' : Graph) (queue' : List Node)
        → Levels k g queue (curr ∷ queue)
        → follow want curr path ops g queue ≡ ok (searching g' queue')
        → Levels k g' queue' (curr ∷ queue') × Extends g g' × Leads ops g'
    unfolding follow Turn
    follow-Levels [] g queue g' queue' v w =
        let e : searching g queue ≡ searching g' queue' = ok-injective w in
        let x : g ≡ g' = cc in
        let y : queue ≡ queue' = cc in
        (
          subst (λ (h : Graph). Levels k h queue' (curr ∷ queue')) x
              (subst (λ (q : List Node). Levels k g q (curr ∷ q)) y v),
          (λ n p h. subst (λ (h : Graph). path_to n h ≡ some p) x h),
          λ op o. elim o [ ],
        )
    follow-Levels (op ∷ ops) g queue g' queue' v w =
        let (next, a, t) = follow-Turn want curr path op ops g queue (searching g' queue') w in
        elim t [
          | inl (p, e, u) ↦
              let (z, x, l) = follow-Levels ops g queue g' queue' v u in
              (z, x, Leads-cons op ops g' next p a (x next p e) l)
          | inr (inl (e, f, u)) ↦
              let new = path ++ op ∷ [] in
              let n : length new ≡ k + 1 = omega (arith, length-append path (op ∷ [])) in
              let (z, x, l) =
                follow-Levels ops ((next, new) ∷ g) (queue ++ next ∷ []) g' queue'
                  (Levels-new k g queue next curr new v e f n) u in
              (
                z,
                (λ m p h. x m p (path_to-keep m next g p new e h)),
                Leads-cons op ops g' next new a (x next new (path_to-new next g new)) l,
              )
          | inr (inr (_, e)) ↦ absurd (cc)
        ]
