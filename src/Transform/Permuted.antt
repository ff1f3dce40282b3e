-- ===== src/Transform/Permuted.antt =====
-- stack/transform.go: the breadth-first search for a permutation.
use specops.Base.{
  ℕ, zero, suc, ◌≡◌, refl, ap, sym, subst, ◌∙◌, Option, none, some, List, [], ◌∷◌, length, inl, inr,
  Bool-cases, if◌then◌else◌, All, Outcome, ok, ◌>>=◌, >>=-eq-ok, ok-injective, ◌-◌, ◌==◌, arith,
}
use specops.Transform.Node.{Node, node_from_indices, root_node, count_from, same_node}
use specops.Transform.Round.{onwards, step}
use specops.Transform.Bfs.{
  Graph, path_to, Round, reached, searching, follow, edges, search_loop, rounds, bfs,
}
use specops.Transform.Sound.{values-node_from_indices, same_node-eq}
use specops.Transform.Search.{last, bfs-last}
use specops.Transform.Correct.{IsPermutation, permutation_size-IsPermutation}
use specops.Transform.Counts.{count, count-IsPermutation}
use specops.Transform.Swaps.{IsSwap, Same, IsSwapGraph, Good, edges-Same, follow-Good}
use specops.Transform.{Transformation, permute, permutation_size, overriden, transform_bytecode}

path_to-IsSwap :
    (want n : Node) (g : Graph) (p : List ℕ)
    → IsSwapGraph want g
    → path_to n g ≡ some p
    → All IsSwap p × Same want n
unfolding path_to
path_to-IsSwap want n [] p i h = absurd (cc)
path_to-IsSwap want n ((m, q) ∷ g) p ((i, s), is) h = elim (Bool-cases (same_node m n)) [
  | inl y ↦
      let h' : some q ≡ some p = rw y at h in
      let e : q ≡ p = cc in (subst (All IsSwap) e i, subst (Same want) (same_node-eq m n y) s)
  | inr x ↦ path_to-IsSwap want n g p is (rw x at h)
]

module _ (want : Node) where
  Rest : ℕ → List ℕ → Type 0
  Rest fuel out =
      (queue : List Node) (g : Graph)
      → IsSwapGraph want g
      → search_loop fuel want queue g ≡ ok out
      → All IsSwap out

  finish :
      (fuel : ℕ) (out : List ℕ) (r : Round)
      → Rest fuel out
      → Good want r
      → onwards want fuel r ≡ ok out
      → All IsSwap out
  unfolding onwards Rest Good
  finish fuel out (reached p) k g w = subst (All IsSwap) (ok-injective w) g
  finish fuel out (searching g' q') k g w = k q' g' g w

  step-IsSwap :
      (fuel : ℕ) (curr : Node) (queue : List Node) (g : Graph) (out : List ℕ) (o : Option (List ℕ))
      → IsSwapGraph want g
      → Rest fuel out
      → path_to curr g ≡ o
      → step want fuel curr queue g o ≡ ok out
      → All IsSwap out
  unfolding step
  step-IsSwap fuel curr queue g out none i k e w = absurd (cc)
  step-IsSwap fuel curr queue g out (some path) i k e w =
      let (ps, s) = path_to-IsSwap want curr g path i e in
      let p =
        >>=-eq-ok (edges want curr) (λ ops. follow want curr path ops g queue >>= onwards want fuel)
          w in
      let q = >>=-eq-ok (follow want curr path p.0 g queue) (onwards want fuel) p.2 in
      let x = edges-Same want curr p.0 s p.1 in
      finish fuel out q.0 k
        (follow-Good want curr path ps s 0 (length curr - 1) g queue q.0 (omega arith) i
          (subst (λ o. follow want curr path o g queue ≡ ok q.0) x q.1))
        q.2

  search_loop-IsSwap :
      (fuel : ℕ) (queue : List Node) (g : Graph) (out : List ℕ)
      → IsSwapGraph want g
      → search_loop fuel want queue g ≡ ok out
      → All IsSwap out
  unfolding search_loop step onwards Rest
  search_loop-IsSwap zero [] g out i h = absurd (cc)
  search_loop-IsSwap (suc fuel) [] g out i h = absurd (cc)
  search_loop-IsSwap zero (curr ∷ queue) g out i h = absurd (cc)
  search_loop-IsSwap (suc fuel) (curr ∷ queue) g out i h =
      step-IsSwap fuel curr queue g out (path_to curr g) i
        (λ q' g' i' w. search_loop-IsSwap fuel q' g' out i' w) refl h

pub root-Same :
    (is : List ℕ) (root want : Node)
    → IsPermutation is
    → root_node (length is) ≡ ok root
    → node_from_indices is ≡ ok want
    → Same want root
unfolding root_node Same
root-Same is root want p r w = λ j.
    ap (count j) (values-node_from_indices is want w)
    ∙ count-IsPermutation is j p
    ∙ sym (ap (count j) (values-node_from_indices (count_from 0 (length is)) root r))

last-IsSwap :
    (is : List ℕ) (root want : Node) (out : List ℕ)
    → Same want root
    → last is (length is) root want ≡ ok out
    → All IsSwap out
unfolding last
last-IsSwap is root want out s h = elim (Bool-cases (same_node want root)) [
  | inl y ↦ let e : ok [] ≡ ok out = rw y at h in subst (All IsSwap) (ok-injective e) tt
  | inr x ↦
      search_loop-IsSwap want rounds (root ∷ []) ((root, []) ∷ []) out ((tt, s), tt) (rw x at h)
]

bfs-IsSwap : (is out : List ℕ) → IsPermutation is → bfs is (length is) ≡ ok out → All IsSwap out
bfs-IsSwap is out p h =
    let q =
      >>=-eq-ok (root_node (length is)) (λ root. node_from_indices is >>= last is (length is) root)
        (bfs-last is (length is) out h) in
    let r = >>=-eq-ok (node_from_indices is) (last is (length is) q.0) q.2 in
    last-IsSwap is q.0 r.0 out (root-Same is q.0 r.0 p q.1 r.1) r.2

-- If Permute compiles without overriding ops, each of its opcodes is one of SWAP1 to SWAP16.
pub permute-IsSwap : (is out : List ℕ) → transform_bytecode (permute is) ≡ ok out → All IsSwap out
unfolding transform_bytecode
permute-IsSwap is out h =
    let found : Transformation × ℕ → Outcome (List ℕ) =
      λ r. if length r.0.override == 0 then bfs r.0.indices r.1 else overriden r.0 in
    let q = >>=-eq-ok (permutation_size (permute is)) found h in
    let (n, t, p) = permutation_size-IsPermutation (permute is) q.0.0 q.0.1 q.1 in
    bfs-IsSwap is out p (rw (t, n) at q.2)
