-- ===== src/Transform/Fuel.antt =====
-- stack/transform.go: the fuel of the breadth-first search.
use specops.Base.{
  ℕ, zero, suc, ◌+◌, ◌^◌, ◌≤◌, ◌<◌, ◌≡◌, ◌≢◌, refl, sym, ◌∙◌, Bool, true, false, Option, none, some,
  List, [], ◌∷◌, arith, length, length-map, ◌==◌, ltb, leb, ◌&&◌, if◌then◌else◌, get_elem?, set,
  All, Outcome, ok, err, panic, out_of_fuel, ◌>>=◌, Bool-cases, inl, inr,
  unsupported_transformation,
}
use specops.Opcode.{pop_op, dup1, swap1, upper_nibble, add_byte, sub_byte}
use specops.Transform.Node.{
  Node, apply, to_indices, node_from_indices, same_node, swap_elems, tail_of,
}
use specops.Transform.Turn.{path_to-All}
use specops.Transform.Round.{onwards, step, search_loop-suc}
use specops.Transform.Bfs.{
  Graph, path_to, Round, reached, searching, follow, edges, search_loop, rounds,
}
use specops.Transform.Pigeonhole.{pigeonhole}
use specops.Transform.Encoding.{IsBytes, encode, codes, encode-bounds}
use specops.Transform.Short.{found, visit}
use specops.Transform.Rounds.{IsSearch, follow-IsSearch, round-short}

-- A step that ends, followed by steps that end, ends.
pub Ends->>= :
    {A B : Type 0} (m : Outcome A) (f : A → Outcome B)
    → m ≢ out_of_fuel
    → ((a : A) → m ≡ ok a → f a ≢ out_of_fuel)
    → (m >>= f) ≢ out_of_fuel
Ends->>= (ok a) f h k = k a refl
Ends->>= (err e) f h k = λ w. absurd (cc)
Ends->>= panic f h k = λ w. absurd (cc)
Ends->>= out_of_fuel f h k = λ w. h refl

pub ok_ends : {A : Type 0} (a : A) → ok a ≢ out_of_fuel
ok_ends a w = absurd (cc)

found_ends :
    (o : Option ℕ) → elim o as (λ _. Outcome ℕ) [ none ↦ panic | some a ↦ ok a ] ≢ out_of_fuel
found_ends none w = absurd (cc)
found_ends (some a) w = absurd (cc)

copied_ends :
    (n : Node) (o : Option ℕ)
    → elim o as (λ _. Outcome Node) [ none ↦ panic | some c ↦ ok (set (0 ∷ n) 0 c) ] ≢ out_of_fuel
copied_ends n none w = absurd (cc)
copied_ends n (some a) w = absurd (cc)

swap_ends : (n : Node) (i : ℕ) → swap_elems n i ≢ out_of_fuel
swap_ends n i =
    Ends->>= _ _ (found_ends (get_elem? n 0))
      (λ a _. Ends->>= _ _ (found_ends (get_elem? n i)) (λ b _. ok_ends _))

tail_ends : (n : Node) → tail_of n ≢ out_of_fuel
tail_ends [] w = absurd (cc)
tail_ends (c ∷ n) w = absurd (cc)

pub apply_ends : (n : Node) (o : ℕ) → apply n o ≢ out_of_fuel
unfolding apply
apply_ends n o h = elim (Bool-cases (o == pop_op)) [
  | inl y ↦ tail_ends n (rw y at h)
  | inr x ↦ elim (Bool-cases (upper_nibble o == swap1)) [
    | inl y ↦ swap_ends n (add_byte (sub_byte o swap1) 1) (rw (x, y) at h)
    | inr z ↦ elim (Bool-cases (upper_nibble o == dup1)) [
      | inl y ↦ copied_ends n (get_elem? (0 ∷ n) (add_byte (sub_byte o dup1) 1)) (rw (x, z, y) at h)
      | inr w ↦
          let k : err (unsupported_transformation o) ≡ out_of_fuel = rw (x, z, w) at h in
          absurd (cc)
    ]
  ]
]

char_ends : (a b : Bool) (c d : ℕ) → (if a then ok c else if b then ok d else panic) ≢ out_of_fuel
char_ends true b c d w = absurd (cc)
char_ends false true c d w = absurd (cc)
char_ends false false c d w = absurd (cc)

to_indices_ends : (n : Node) → to_indices n ≢ out_of_fuel
unfolding to_indices
to_indices_ends [] = ok_ends []
to_indices_ends (c ∷ n) =
    Ends->>= _ _ (char_ends (leb b'0' c && leb c b'9') (leb b'a' c && leb c b'f') _ _)
      (λ i _. Ends->>= _ _ (to_indices_ends n) (λ is _. ok_ends _))

pub node_from_indices_ends : (is : List ℕ) → node_from_indices is ≢ out_of_fuel
unfolding node_from_indices
node_from_indices_ends [] = ok_ends []
node_from_indices_ends (i ∷ is) =
    Ends->>= _ _ (char_ends (ltb i 10) (ltb i 16) _ _)
      (λ c _. Ends->>= _ _ (node_from_indices_ends is) (λ n _. ok_ends _))

edges_ends : (want curr : Node) → edges want curr ≢ out_of_fuel
unfolding edges
edges_ends want curr =
    Ends->>= _ _ (to_indices_ends want)
      (λ w _. Ends->>= _ _ (to_indices_ends curr) (λ c _. ok_ends _))

module _ (want curr : Node) (path : List ℕ) where
  found_turn_ends :
      (ops : List ℕ) (op : ℕ) (g : Graph) (queue : List Node) (next : Node)
      → ((h : Graph) (q : List Node) → follow want curr path ops h q ≢ out_of_fuel)
      → (b : Bool) → found want curr path ops op g queue next b ≢ out_of_fuel
  found_turn_ends ops op g queue next r true w = absurd (cc)
  found_turn_ends ops op g queue next r false w = r _ _ w

  visit_ends :
      (ops : List ℕ) (op : ℕ) (g : Graph) (queue : List Node) (next : Node)
      → ((h : Graph) (q : List Node) → follow want curr path ops h q ≢ out_of_fuel)
      → (o : Option (List ℕ)) → visit want curr path ops op g queue next o ≢ out_of_fuel
  visit_ends ops op g queue next r none w =
      found_turn_ends ops op g queue next r (same_node next want) w
  visit_ends ops op g queue next r (some p) w = r g queue w

  follow_ends :
      (ops : List ℕ) (g : Graph) (queue : List Node)
      → follow want curr path ops g queue ≢ out_of_fuel
  unfolding follow
  follow_ends [] g queue = ok_ends _
  follow_ends (op ∷ ops) g queue =
      Ends->>= _ _ (apply_ends curr op)
        (λ next _. visit_ends ops op g queue next (λ h q. follow_ends ops h q) (path_to next g))

codes-lt :
    (g : Graph)
    → All (λ e. IsBytes e.0) g
    → All (λ e. length e.0 ≤ 18) g
    → All (λ x. x < 257 ^ 18) (codes g)
codes-lt [] b s = tt
codes-lt ((n, p) ∷ g) (b, bs) (s, ss) = (encode-bounds n b s, codes-lt g bs ss)

-- A graph has no more nodes than there are short ones.
length-IsSearch : (g : Graph) → IsSearch g → length g ≤ rounds
length-IsSearch g s = omega (
  arith,
  pigeonhole rounds (codes g) s.once (codes-lt g s.bytes s.short),
  length-map {A = Node × List ℕ} (λ e. encode e.0) g,
)

module _ (want : Node) where
  module _ (fuel : ℕ) (curr : Node) (queue : List Node) (g : Graph) (s : IsSearch g)
      (rest : (q' : List Node) (g' : Graph)
        → IsSearch g'
        → length g' + length queue ≡ length g + length q'
        → search_loop fuel want q' g' ≢ out_of_fuel) where
    onwards_ends :
        (path ops : List ℕ) (r : Round)
        → IsBytes curr
        → edges want curr ≡ ok ops
        → follow want curr path ops g queue ≡ ok r
        → onwards want fuel r ≢ out_of_fuel
    unfolding onwards
    onwards_ends path ops (reached p) b e w = ok_ends p
    onwards_ends path ops (searching g' q') b e w =
        let l = round-short want curr path ops g queue g' q' e w in
        let (t, m) = follow-IsSearch want curr path b l ops g queue g' q' s w in rest q' g' t m

    step_ends :
        (o : Option (List ℕ)) → path_to curr g ≡ o → step want fuel curr queue g o ≢ out_of_fuel
    unfolding step
    step_ends none e w = absurd (cc)
    step_ends (some path) e w =
        let b = path_to-All IsBytes curr g path s.bytes e in
        Ends->>= (edges want curr) _ (edges_ends want curr)
          (λ ops x.
            Ends->>= (follow want curr path ops g queue) _ (follow_ends want curr path ops g queue)
              (λ r y. onwards_ends path ops r b x y))
          w

  -- The fuel that is left covers the nodes that are still to be met.
  pub search_loop_ends :
      (fuel : ℕ) (queue : List Node) (g : Graph)
      → IsSearch g
      → rounds + length queue ≤ fuel + length g
      → search_loop fuel want queue g ≢ out_of_fuel
  unfolding search_loop
  search_loop_ends zero [] g s l w = absurd (cc)
  search_loop_ends (suc fuel) [] g s l w = absurd (cc)
  search_loop_ends zero (curr ∷ queue) g s l w = absurd (omega (arith, length-IsSearch g s))
  search_loop_ends (suc fuel) (curr ∷ queue) g s l w =
      step_ends fuel curr queue g s (λ q' g' t m. search_loop_ends fuel q' g' t (omega arith))
        (path_to curr g) refl (sym (search_loop-suc want fuel curr queue g) ∙ w)
