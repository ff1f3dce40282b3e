-- ===== src/Transform/Sound.antt =====
-- stack/transform.go: nodes as stacks of values, and the overriding ops.
use specops.Base.{
  ℕ, ◌+◌, ◌-◌, ◌≡◌, refl, ap, sym, subst, ◌∙◌, true, some, List, [], ◌∷◌, ◌++◌, map, arith, ltb,
  if◌then◌else◌, Outcome, ok, err, panic, ◌>>=◌, >>=-eq-ok, ok-injective, Bool-cases, inl, inr,
  override_mismatch,
}
use specops.Opcode.{add_byte, sub_byte}
use specops.Transform.Node.{Node, node_from_indices, root_node, count_from, apply_all, same_node}
use specops.Transform.Stack.{run_all, apply_all-run_all}
use specops.Transform.{Transformation, overriden}

-- The index that a character of a node stands for.
abbrev pub hex_value : ℕ → ℕ
hex_value c = if ltb c b'a' then c - b'0' else c - b'a' + 10

abbrev pub hex_char : ℕ → Outcome ℕ
hex_char i =
    if ltb i 10
    then ok (add_byte b'0' i)
    else if ltb i 16
    then ok (sub_byte (add_byte b'a' i) 10)
    else panic

hex_value-char : (i c : ℕ) → hex_char i ≡ ok c → hex_value c ≡ i
hex_value-char i c h = ground arith

-- Reading a node gives the indices that it was made from.
pub values-node_from_indices :
    (is : List ℕ) (n : Node) → node_from_indices is ≡ ok n → map hex_value n ≡ is
unfolding node_from_indices
values-node_from_indices [] n h = let e : [] ≡ n = ok-injective h in rw (← e) refl
values-node_from_indices (i ∷ is) n h =
    let p = >>=-eq-ok (hex_char i) (λ c. node_from_indices is >>= λ m. ok (c ∷ m)) h in
    let q = >>=-eq-ok (node_from_indices is) (λ m. ok (p.0 ∷ m)) p.2 in
    let e : p.0 ∷ q.0 ≡ n = ok-injective q.2 in
    rw (← e) (λ k. hex_value-char i p.0 p.1 k ∷ values-node_from_indices is q.0 q.1 k)

map-map :
    {A : Type 0} (g : ℕ → A) (n : Node) → map (λ c. g (hex_value c)) n ≡ map g (map hex_value n)
map-map g [] = refl
map-map g (c ∷ n) = ap (◌∷◌ (g (hex_value c))) (map-map g n)

values_of :
    {A : Type 0} (g : ℕ → A) (is : List ℕ) (n : Node)
    → node_from_indices is ≡ ok n
    → map (λ c. g (hex_value c)) n ≡ map g is
values_of g is n h = map-map g n ∙ ap (map g) (values-node_from_indices is n h)

pub same_node-eq : (m n : Node) → same_node m n ≡ true → m ≡ n
unfolding same_node
same_node-eq [] [] h = refl
same_node-eq [] (b ∷ n) h = absurd (cc)
same_node-eq (a ∷ m) [] h = absurd (cc)
same_node-eq (a ∷ m) (b ∷ n) h =
    let e : a ≡ b = ground arith in
    let t : same_node m n ≡ true = ground arith in λ i. e i ∷ same_node-eq m n t i

-- The opcodes take the node of `size` values in order to the node of the indices.
abbrev pub Reaches : ℕ → List ℕ → List ℕ → Type 0
Reaches size is ops =
    (root : Node) × (want : Node) × (root_node size ≡ ok root)
    × (node_from_indices is ≡ ok want)
    × (apply_all root ops ≡ ok want)

-- The opcodes take any stack with at least `size` values to the values at the indices, followed by
-- what lay below.
abbrev pub Transforms : ℕ → List ℕ → List ℕ → Type 1
Transforms size is ops =
    (A : Type 0) (g : ℕ → A) (rest : List A)
    → run_all ops (map g (count_from 0 size) ++ rest) ≡ some (map g is ++ rest)

pub Reaches-Transforms : (size : ℕ) (is ops : List ℕ) → Reaches size is ops → Transforms size is ops
unfolding root_node
Reaches-Transforms size is ops (root, want, r, w, p) A g rest =
    let e = apply_all-run_all (λ c. g (hex_value c)) rest ops root want p in
    ap (λ l. run_all ops (l ++ rest)) (sym (values_of g (count_from 0 size) root r))
    ∙ e
    ∙ ap (λ l. some (l ++ rest)) (values_of g is want w)

pub overriden-Reaches :
    (t : Transformation) (ops : List ℕ)
    → overriden t ≡ ok ops
    → (ops ≡ t.override) × Reaches t.depth t.indices ops
unfolding overriden
overriden-Reaches t ops h =
    let p =
      >>=-eq-ok (root_node t.depth)
        (λ root. apply_all root t.override >>= λ got. node_from_indices t.indices >>= λ want.
          if same_node got want then ok t.override else err override_mismatch)
        h in
    let q =
      >>=-eq-ok (apply_all p.0 t.override)
        (λ got. node_from_indices t.indices >>= λ want.
          if same_node got want then ok t.override else err override_mismatch)
        p.2 in
    let r =
      >>=-eq-ok (node_from_indices t.indices)
        (λ want. if same_node q.0 want then ok t.override else err override_mismatch) q.2 in
    elim (Bool-cases (same_node q.0 r.0)) [
      | inl y ↦
          let e : ok t.override ≡ ok ops = rw y at r.2 in
          let s : t.override ≡ ops = ok-injective e in
          let w : q.0 ≡ r.0 = same_node-eq q.0 r.0 y in
          (sym s, (p.0, r.0, p.1, r.1, subst (λ o. apply_all p.0 o ≡ ok r.0) s (q.1 ∙ ap ok w)))
      | inr n ↦ let e : err override_mismatch ≡ ok ops = rw n at r.2 in absurd (cc)
    ]
