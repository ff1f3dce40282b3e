-- ===== src/Transform/Short.antt =====
-- stack/transform.go: the lengths of nodes in the breadth-first search.
use specops.Base.{
  length-set, ℕ, zero, suc, ◌≤◌, ◌<◌, ◌≡◌, refl, subst, Bool, true, false, Option, none, some, List,
  [], ◌∷◌, ◌++◌, arith, length, get_elem?, set, ◌==◌, Outcome, ok, err, panic, ◌>>=◌, ok-injective,
  Bool-cases, inl, inr, unsupported_transformation,
}
use specops.Opcode.{pop_op, dup1, swap1, upper_nibble, add_byte, sub_byte}
use specops.Transform.Node.{Node, apply, swap_elems, tail_of, same_node}
use specops.Transform.Bfs.{Graph, path_to, Round, reached, follow}
use specops.Transform.Encoding.{IsBytes}

IsBytes-set : (n : Node) (i v : ℕ) → IsBytes n → v < 256 → IsBytes (set n i v)
IsBytes-set [] i v h b = tt
IsBytes-set (c ∷ n) zero v (h, hs) b = (b, hs)
IsBytes-set (c ∷ n) (suc i) v (h, hs) b = (h, IsBytes-set n i v hs b)

IsBytes-get : (n : Node) (i v : ℕ) → IsBytes n → get_elem? n i ≡ some v → v < 256
IsBytes-get [] i v h e = absurd (cc)
IsBytes-get (c ∷ n) zero v (h, hs) e = let z : c ≡ v = cc in omega arith
IsBytes-get (c ∷ n) (suc i) v (h, hs) e = IsBytes-get n i v hs e

-- At most one character more.
abbrev pub Longer : Node → Node → Type 0
Longer n m = IsBytes m × (length m ≤ suc (length n))

tail-Longer : (n m : Node) → IsBytes n → tail_of n ≡ ok m → Longer n m
tail-Longer [] m h e = absurd (cc)
tail-Longer (c ∷ n) m (h, hs) e =
    subst (λ (k : Node). IsBytes k × (length k ≤ suc (suc (length n)))) (ok-injective e)
      (hs, omega arith)

got : Option ℕ → Outcome ℕ
got none = panic
got (some a) = ok a

swap-Longer : (n m : Node) (i : ℕ) → IsBytes n → swap_elems n i ≡ ok m → Longer n m
swap-Longer n m i h e = go (get_elem? n 0) (get_elem? n i) refl refl e
  where
    go :
        (p q : Option ℕ)
        → get_elem? n 0 ≡ p
        → get_elem? n i ≡ q
        → (elim p as (λ _. Outcome ℕ) [ none ↦ panic | some a ↦ ok a ] >>= λ a.
            elim q as (λ _. Outcome ℕ) [ none ↦ panic | some b ↦ ok b ] >>= λ b.
            ok (set (set n 0 b) i a))
          ≡ ok m
        → Longer n m
    go none q x y w = absurd (cc)
    go (some a) none x y w = absurd (cc)
    go (some a) (some b) x y w = subst (Longer n) (ok-injective w) (
      IsBytes-set (set n 0 b) i a (IsBytes-set n 0 b h (IsBytes-get n i b h y))
          (IsBytes-get n 0 a h x),
      omega (arith, length-set (set n 0 b) i a, length-set n 0 b),
    )

abbrev pub copied : Node → ℕ → Outcome Node
copied n i = elim (get_elem? (0 ∷ n) i) [ none ↦ panic | some c ↦ ok (set (0 ∷ n) 0 c) ]

dup-Longer : (n m : Node) (i : ℕ) → IsBytes n → copied n i ≡ ok m → Longer n m
dup-Longer n m i h e = go (get_elem? (0 ∷ n) i) refl e
  where
    go :
        (p : Option ℕ)
        → get_elem? (0 ∷ n) i ≡ p
        → elim p as (λ _. Outcome Node) [ none ↦ panic | some c ↦ ok (set (0 ∷ n) 0 c) ] ≡ ok m
        → Longer n m
    go none x w = absurd (cc)
    go (some c) x w =
        subst (Longer n) (ok-injective w)
          ((IsBytes-get (0 ∷ n) i c (omega arith, h) x, h), omega arith)

pub apply-Longer : (n m : Node) (o : ℕ) → IsBytes n → apply n o ≡ ok m → Longer n m
unfolding apply
apply-Longer n m o b h = elim (Bool-cases (o == pop_op)) [
  | inl y ↦ tail-Longer n m b (rw y at h)
  | inr x ↦ elim (Bool-cases (upper_nibble o == swap1)) [
    | inl y ↦ swap-Longer n m (add_byte (sub_byte o swap1) 1) b (rw (x, y) at h)
    | inr z ↦ elim (Bool-cases (upper_nibble o == dup1)) [
      | inl y ↦ dup-Longer n m (add_byte (sub_byte o dup1) 1) b (rw (x, z, y) at h)
      | inr w ↦ let k : err (unsupported_transformation o) ≡ ok m = rw (x, z, w) at h in absurd (cc)
    ]
  ]
]

-- SWAP17 is none: 0xa0 is refused.
pub no_swap17 : (n m : Node) → apply n 0xa0 ≡ ok m → ⊥
unfolding apply
no_swap17 n m h = absurd (cc)

module _ (want curr : Node) (path : List ℕ) where
  -- The turn of an opcode in a round.
  abbrev pub found : List ℕ → ℕ → Graph → List Node → Node → Bool → Outcome Round
  found ops op g queue next b = elim b [
    | true ↦ ok (reached (path ++ op ∷ []))
    | false ↦ follow want curr path ops ((next, path ++ op ∷ []) ∷ g) (queue ++ next ∷ [])
  ]

  abbrev pub visit : List ℕ → ℕ → Graph → List Node → Node → Option (List ℕ) → Outcome Round
  visit ops op g queue next o = elim o [
    | some _ ↦ follow want curr path ops g queue
    | none ↦ found ops op g queue next (same_node next want)
  ]

  pub follow-cons :
      (op : ℕ) (ops : List ℕ) (g : Graph) (queue : List Node)
      → follow want curr path (op ∷ ops) g queue
        ≡ (apply curr op >>= λ next. visit ops op g queue next (path_to next g))
  unfolding follow
  follow-cons op ops g queue = refl
