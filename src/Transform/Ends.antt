-- ===== src/Transform/Ends.antt =====
-- stack/transform.go: `Transformation.Bytecode`, in all its steps that can end or not.
use specops.Base.{
  ℕ, zero, suc, ◌+◌, ◌≤◌, ◌<◌, ◌≡◌, ◌≢◌, refl, ap, subst, Bool, true, false, List, [], ◌∷◌, arith,
  length, ◌==◌, ◌||◌, ltb, leb, if◌then◌else◌, Outcome, ok, err, out_of_fuel, ◌>>=◌, >>=-eq-ok,
  ok-injective, Bool-cases, inl, inr, invalid_size, invalid_type,
}
use specops.Transform.Node.{
  Node, node_from_indices, root_node, count_from, same_node, apply, apply_all,
}
use specops.Transform.Sound.{hex_char}
use specops.Transform.Bfs.{search_loop, rounds, bfs}
use specops.Transform.Encoding.{IsBytes}
use specops.Transform.Fuel.{Ends->>=, ok_ends, apply_ends, node_from_indices_ends, search_loop_ends}
use specops.Transform.{
  Transformation, XFormType, permutation, general, unknown_xform, is_set, distinct, contiguous,
  permutation_size, check_indices, general_size, overriden, transform_bytecode,
}

hex_char-lt : (i c : ℕ) → hex_char i ≡ ok c → c < 256
hex_char-lt i c h = ground arith

pub node_from_indices-IsBytes :
    (is : List ℕ) (n : Node) → node_from_indices is ≡ ok n → IsBytes n × (length n ≡ length is)
unfolding node_from_indices
node_from_indices-IsBytes [] n h =
    subst (λ (m : Node). IsBytes m × (length m ≡ 0)) (ok-injective h) (tt, refl)
node_from_indices-IsBytes (i ∷ is) n h =
    let p = >>=-eq-ok (hex_char i) (λ c. node_from_indices is >>= λ m. ok (c ∷ m)) h in
    let q = >>=-eq-ok (node_from_indices is) (λ m. ok (p.0 ∷ m)) p.2 in
    let (b, l) = node_from_indices-IsBytes is q.0 q.1 in
    subst (λ (m : Node). IsBytes m × (length m ≡ suc (length is))) (ok-injective q.2)
      ((hex_char-lt i p.0 p.1, b), ap suc l)

pub length-count_from : (i n : ℕ) → length (count_from i n) ≡ n
unfolding count_from
length-count_from i zero = refl
length-count_from i (suc n) = ap suc (length-count_from (i + 1) n)

either_ends :
    {A : Type 0} (b : Bool) (m n : Outcome A)
    → m ≢ out_of_fuel
    → n ≢ out_of_fuel
    → (if b then m else n) ≢ out_of_fuel
either_ends true m n p q = p
either_ends false m n p q = q

search_ends :
    (size : ℕ) (root want : Node)
    → size ≤ 16
    → root_node size ≡ ok root
    → search_loop rounds want (root ∷ []) ((root, []) ∷ []) ≢ out_of_fuel
unfolding root_node
search_ends size root want l h =
    let (b, k) = node_from_indices-IsBytes (count_from 0 size) root h in
    search_loop_ends want rounds (root ∷ []) ((root, []) ∷ [])
      (record {
        bytes = (b, tt);
        short = (omega (arith, length-count_from 0 size), tt);
        once = ((λ o. o), tt);
      })
      (omega arith)

pub small_size : (size : ℕ) → (size == 0 || ltb 16 size) ≡ false → size ≤ 16
small_size size h = ground arith

bfs_ends : (is : List ℕ) (size : ℕ) → bfs is size ≢ out_of_fuel
unfolding bfs
bfs_ends is size h = elim (Bool-cases (size == 0 || ltb 16 size)) [
  | inl y ↦ let e : err (invalid_size size) ≡ out_of_fuel = rw y at h in absurd (cc)
  | inr n ↦
      let l = small_size size n in
      Ends->>= (root_node size)
        (λ root. node_from_indices is >>= λ want.
          if same_node want root
          then ok []
          else search_loop rounds want (root ∷ []) ((root, []) ∷ []))
        (node_from_indices_ends (count_from 0 size))
        (λ root r. Ends->>= (node_from_indices is) _ (node_from_indices_ends is) (λ want w.
          either_ends (same_node want root) _ _ (ok_ends []) (search_ends size root want l r)))
        (rw n at h)
]

apply_all_ends : (os : List ℕ) (n : Node) → apply_all n os ≢ out_of_fuel
unfolding apply_all
apply_all_ends [] n = ok_ends n
apply_all_ends (o ∷ os) n = Ends->>= (apply n o) _ (apply_ends n o) (λ m _. apply_all_ends os m)

overriden_ends : (t : Transformation) → overriden t ≢ out_of_fuel
unfolding overriden root_node
overriden_ends t =
    Ends->>= (root_node t.depth) _ (node_from_indices_ends (count_from 0 t.depth)) (λ root _.
      Ends->>= (apply_all root t.override) _ (apply_all_ends t.override root) (λ got _.
        Ends->>= (node_from_indices t.indices) _ (node_from_indices_ends t.indices)
          (λ want _. either_ends (same_node got want) _ _ (ok_ends _) (λ w. absurd (cc)))))

distinct_ends : (is set : List ℕ) → distinct is set ≢ out_of_fuel
unfolding distinct
distinct_ends [] set = ok_ends set
distinct_ends (i ∷ is) set =
    either_ends (is_set i set) _ _ (λ w. absurd (cc)) (distinct_ends is (i ∷ set))

contiguous_ends : (is set : List ℕ) → contiguous is set ≢ out_of_fuel
unfolding contiguous
contiguous_ends [] set = ok_ends tt
contiguous_ends (i ∷ is) set =
    either_ends (is_set i set) _ _ (contiguous_ends is set) (λ w. absurd (cc))

check_indices_ends : (d : ℕ) (is : List ℕ) → check_indices d is ≢ out_of_fuel
unfolding check_indices
check_indices_ends d [] = ok_ends tt
check_indices_ends d (i ∷ is) =
    either_ends (leb d i) _ _ (λ w. absurd (cc)) (check_indices_ends d is)

sizes_end :
    (k : XFormType) (t : Transformation)
    → elim k as (λ _. Outcome (Transformation × ℕ)) [
      | permutation ↦ permutation_size t
      | general ↦ general_size t
      | unknown_xform ↦ err invalid_type
    ]
      ≢ out_of_fuel
unfolding permutation_size general_size
sizes_end permutation t =
    either_ends (ltb 16 (length t.indices)) _ _ (λ w. absurd (cc))
      (Ends->>= (distinct t.indices []) _ (distinct_ends t.indices []) (λ set _.
        Ends->>= (contiguous (count_from 0 (length t.indices)) set) _
          (contiguous_ends (count_from 0 (length t.indices)) set) (λ _ _. ok_ends _)))
sizes_end general t =
    either_ends (ltb 16 t.depth) _ _ (λ w. absurd (cc))
      (Ends->>= (check_indices t.depth t.indices) _ (check_indices_ends t.depth t.indices)
        (λ _ _. ok_ends _))
sizes_end unknown_xform t = λ w. absurd (cc)

-- For every Transformation, whatever its indices and ops, `Bytecode` ends with a result, an error
-- or a panic: the fuel of the breadth-first search is enough.
pub transform_bytecode_ends : (t : Transformation) → transform_bytecode t ≢ out_of_fuel
unfolding transform_bytecode
transform_bytecode_ends t = Ends->>= _ _ (sizes_end t.typ t) (λ r _.
    either_ends (length r.0.override == 0) _ _ (bfs_ends r.0.indices r.1) (overriden_ends r.0))
