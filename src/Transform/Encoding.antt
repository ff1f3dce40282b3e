-- ===== src/Transform/Encoding.antt =====
-- stack/transform.go: nodes as numbers.
use native.Mathlib.Nat.{pow-suc, pow-le-pow_right}
use specops.Base.{
  ℕ, ◌+◌, ◌*◌, ◌^◌, ◌≤◌, ◌<◌, ◌≡◌, refl, true, none, some, List, [], ◌∷◌, map, inl, inr, arith,
  length, All, Bool-cases,
}
use specops.Transform.Node.{Node, same_node}
use specops.Transform.Bfs.{Graph, path_to}
use specops.Transform.Correct.{Occurs}

unfoldable pub encode : Node → ℕ
encode [] = 0
encode (c ∷ n) = c + 1 + 257 * encode n

abbrev pub IsBytes : Node → Type 0
IsBytes = All (λ c. c < 256)

encode-lt : (n : Node) → IsBytes n → encode n < 257 ^ length n
unfolding encode
encode-lt [] h = omega arith
encode-lt (c ∷ n) (h, hs) = grind (arith, pow-suc, encode-lt n hs)

-- Of a node with at most 18 characters.
pub encode-bounds : (n : Node) → IsBytes n → length n ≤ 18 → encode n < 257 ^ 18
encode-bounds n h l =
    omega (arith, encode-lt n h, pow-le-pow_right {n = 257} (omega arith) {i = length n} {j = 18} l)

encode-injective : (m n : Node) → IsBytes m → IsBytes n → encode m ≡ encode n → m ≡ n
unfolding encode
encode-injective [] [] h k e = refl
encode-injective [] (d ∷ n) h k e = absurd (omega arith)
encode-injective (c ∷ m) [] h k e = absurd (omega arith)
encode-injective (c ∷ m) (d ∷ n) (h, hs) (k, ks) e =
    let heads : c ≡ d = omega arith in
    let tails : m ≡ n = encode-injective m n hs ks (omega arith) in λ i. heads i ∷ tails i

pub same_node_refl : (n : Node) → same_node n n ≡ true
unfolding same_node
same_node_refl [] = refl
same_node_refl (c ∷ n) = ground (arith, same_node_refl n)

-- The numbers of the nodes of a graph.
abbrev pub codes : Graph → List ℕ
codes = map (λ e. encode e.0)

-- A node that the graph lacks has a number that it lacks.
pub new_code :
    (n : Node) (g : Graph)
    → IsBytes n
    → All (λ e. IsBytes e.0) g
    → path_to n g ≡ none
    → Occurs (encode n) (codes g)
    → ⊥
unfolding path_to
new_code n [] h k e o = o
new_code n ((m, p) ∷ g) h (k, ks) e o = elim (Bool-cases (same_node m n)) [
  | inl y ↦ let z : some p ≡ none = rw y at e in absurd (cc)
  | inr x ↦ elim o [
    | inl s ↦
        let same : n ≡ m = encode-injective n m h k s in
        let z : same_node m n ≡ true = rw same (same_node_refl m) in absurd (cc)
    | inr r ↦ new_code n g h ks (rw x at e) r
  ]
]
