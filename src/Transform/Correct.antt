-- ===== src/Transform/Correct.antt =====
-- stack/transform.go: `Bytecode`, with the checks of the indices.
use specops.Base.{
  ℕ, zero, suc, ◌+◌, ◌≤◌, ◌<◌, ◌≡◌, refl, ap, sym, subst, ◌∙◌, true, List, [], ◌∷◌, ◌⊎◌, inl, inr,
  ◌==◌, ltb, leb, if◌then◌else◌, arith, length, All, Outcome, ok, err, ◌>>=◌, >>=-eq-ok,
  ok-injective, Bool-cases, ltb→le, permutes_too_many, missing_index, duplicate_index,
  transforms_too_deep, index_beyond_depth, invalid_type,
}
use specops.Transform.Node.{count_from}
use specops.Transform.Bfs.{bfs}
use specops.Transform.Sound.{Reaches, Transforms, Reaches-Transforms, overriden-Reaches}
use specops.Transform.Search.{bfs-Reaches}
use specops.Transform.{
  Transformation, XFormType, permutation, general, unknown_xform, is_set, distinct, contiguous,
  permutation_size, check_indices, general_size, overriden, transform_bytecode,
}

abbrev pub Occurs : ℕ → List ℕ → Type 0
Occurs i [] = ⊥
Occurs i (j ∷ is) = (i ≡ j) ⊎ Occurs i is

abbrev pub NoTwice : List ℕ → Type 0
NoTwice [] = Unit
NoTwice (i ∷ is) = (Occurs i is → ⊥) × NoTwice is

is_set-Occurs : (i : ℕ) (is : List ℕ) → is_set i is ≡ true → Occurs i is
unfolding is_set
is_set-Occurs i [] h = absurd (cc)
is_set-Occurs i (j ∷ is) h = elim (Bool-cases (j == i)) [
  | inl y ↦ inl (ground arith)
  | inr n ↦ inr (is_set-Occurs i is (rw n at h))
]

Occurs-is_set : (i : ℕ) (is : List ℕ) → Occurs i is → is_set i is ≡ true
unfolding is_set
Occurs-is_set i [] h = absurd h
Occurs-is_set i (j ∷ is) (inl e) = ground arith
Occurs-is_set i (j ∷ is) (inr h) = ground (arith, Occurs-is_set i is h)

-- The set that the first loop builds holds what was there and the indices.
distinct-set :
    (is set out : List ℕ)
    → distinct is set ≡ ok out
    → NoTwice is
      × ((i : ℕ) → Occurs i set → Occurs i is → ⊥)
      × ((i : ℕ) → Occurs i out → Occurs i set ⊎ Occurs i is)
unfolding distinct
distinct-set [] set out h =
    (tt, (λ i s o. o), λ i o. inl (subst (Occurs i) (sym (ok-injective h)) o))
distinct-set (j ∷ is) set out h = elim (Bool-cases (is_set j set)) [
  | inl y ↦ let e : err (duplicate_index j) ≡ ok out = rw y at h in absurd (cc)
  | inr n ↦
      let (once, apart, back) = distinct-set is (j ∷ set) out (rw n at h) in
      (
        ((λ o. apart j (inl refl) o), once),
        (λ i s o. elim o [
          | inl e ↦ let y = Occurs-is_set j set (subst (λ k. Occurs k set) e s) in absurd (cc)
          | inr r ↦ apart i (inr s) r
        ]),
        λ i o. elim (back i o) [
          | inl (inl e) ↦ inr (inl e)
          | inl (inr s) ↦ inl s
          | inr r ↦ inr (inr r)
        ],
      )
]

contiguous-Occurs :
    (n i : ℕ) (set : List ℕ)
    → contiguous (count_from i n) set ≡ ok tt
    → (k : ℕ) → i ≤ k
    → k < i + n
    → Occurs k set
unfolding contiguous count_from
contiguous-Occurs zero i set h k l u = absurd (omega arith)
contiguous-Occurs (suc n) i set h k l u = elim (Bool-cases (is_set i set)) [
  | inr x ↦ let e : err (missing_index i) ≡ ok tt = rw x at h in absurd (cc)
  | inl y ↦ elim (Bool-cases (i == k)) [
    | inl e ↦ let e' : i ≡ k = ground arith in subst (λ j. Occurs j set) e' (is_set-Occurs i set y)
    | inr d ↦ contiguous-Occurs n (i + 1) set (rw y at h) k (ground arith) (omega arith)
  ]
]

-- The indices are a permutation of 0, …, n - 1, for n up to 16.
pub record IsPermutation (is : List ℕ) : Type 0 where
  pub size : length is ≤ 16
  pub once : NoTwice is
  pub all : (k : ℕ) → k < length is → Occurs k is

pub permutation_size-IsPermutation :
    (t t' : Transformation) (n : ℕ)
    → permutation_size t ≡ ok (t', n)
    → (n ≡ length t.indices)
      × (t' ≡ record t { depth = length t.indices })
      × IsPermutation t.indices
unfolding permutation_size
permutation_size-IsPermutation t t' n h = elim (Bool-cases (ltb 16 (length t.indices))) [
  | inl y ↦
      let e : err (permutes_too_many (length t.indices)) ≡ ok (t', n) = rw y at h in absurd (cc)
  | inr x ↦
      let made : Transformation × ℕ = (record t { depth = length t.indices }, length t.indices) in
      let h' : (distinct t.indices [] >>= λ set.
      contiguous (count_from 0 (length t.indices)) set >>= λ _. ok made)
          ≡ ok (t', n) =
        rw x at h in
      let p =
        >>=-eq-ok (distinct t.indices [])
          (λ set. contiguous (count_from 0 (length t.indices)) set >>= λ _. ok made) h' in
      let q = >>=-eq-ok (contiguous (count_from 0 (length t.indices)) p.0) (λ _. ok made) p.2 in
      let e : made ≡ (t', n) = ok-injective q.2 in
      let (once, _, back) = distinct-set t.indices [] p.0 p.1 in
      (
        sym (ap (λ r. r.1) e),
        sym (ap (λ r. r.0) e),
        record {
          size = ltb→le 16 (length t.indices) x;
          once = once;
          all = λ k u.
              elim (back k
                (contiguous-Occurs (length t.indices) 0 p.0 q.1 k (omega arith) (omega arith))) [
                  | inl s ↦ absurd s
                  | inr o ↦ o
                ];
        },
      )
]

pub check_indices-All : (d : ℕ) (is : List ℕ) → check_indices d is ≡ ok tt → All (λ i. i < d) is
unfolding check_indices
check_indices-All d [] h = tt
check_indices-All d (i ∷ is) h = elim (Bool-cases (leb d i)) [
  | inl y ↦ let e : err (index_beyond_depth i d) ≡ ok tt = rw y at h in absurd (cc)
  | inr n ↦ (ground arith, check_indices-All d is (rw n at h))
]

pub general_size-eq :
    (t t' : Transformation) (n : ℕ)
    → general_size t ≡ ok (t', n)
    → (n ≡ t.depth) × (t' ≡ t) × (t.depth ≤ 16) × All (λ i. i < t.depth) t.indices
unfolding general_size
general_size-eq t t' n h = elim (Bool-cases (ltb 16 t.depth)) [
  | inl y ↦ let e : err (transforms_too_deep t.depth) ≡ ok (t', n) = rw y at h in absurd (cc)
  | inr x ↦
      let made : Transformation × ℕ = (t, t.depth) in
      let h' : (check_indices t.depth t.indices >>= λ _. ok made) ≡ ok (t', n) = rw x at h in
      let q = >>=-eq-ok (check_indices t.depth t.indices) (λ _. ok made) h' in
      let e : made ≡ (t', n) = ok-injective q.2 in
      (
        sym (ap (λ r. r.1) e),
        sym (ap (λ r. r.0) e),
        ltb→le 16 t.depth x,
        check_indices-All t.depth t.indices q.1,
      )
]

-- The checks that a Transformation's indices have passed, and the number of values it is about.
abbrev pub size_of : XFormType → Transformation → ℕ
size_of permutation t = length t.indices
size_of general t = t.depth
size_of unknown_xform t = 0

abbrev pub IsValid : XFormType → Transformation → Type 0
IsValid permutation t = IsPermutation t.indices
IsValid general t = (t.depth ≤ 16) × All (λ i. i < t.depth) t.indices
IsValid unknown_xform t = ⊥

-- The ops are the overriding ones, or those that the search finds.
abbrev produce : Transformation × ℕ → Outcome (List ℕ)
produce (t, size) = if length t.override == 0 then bfs t.indices size else overriden t

produce-Reaches :
    (t : Transformation) (size : ℕ) (ops : List ℕ)
    → size ≡ t.depth
    → produce (t, size) ≡ ok ops
    → Reaches size t.indices ops
produce-Reaches t size ops e h = elim (Bool-cases (length t.override == 0)) [
  | inl y ↦ bfs-Reaches t.indices size ops (rw y at h)
  | inr n ↦ subst (λ d. Reaches d t.indices ops) (sym e) (overriden-Reaches t ops (rw n at h)).1
]

abbrev sized : XFormType → Transformation → Outcome (Transformation × ℕ)
sized k t = elim k [
  | permutation ↦ permutation_size t
  | general ↦ general_size t
  | unknown_xform ↦ err invalid_type
]

sized-IsValid :
    (k : XFormType) (t t' : Transformation) (n : ℕ)
    → sized k t ≡ ok (t', n)
    → IsValid k t × (n ≡ size_of k t) × (n ≡ t'.depth) × (t'.indices ≡ t.indices)
sized-IsValid permutation t t' n h =
    let (e, f, v) = permutation_size-IsPermutation t t' n h in
    (v, e, e ∙ sym (ap (λ u. u.depth) f), ap (λ u. u.indices) f)
sized-IsValid general t t' n h =
    let (e, f, d, a) = general_size-eq t t' n h in
    ((d, a), e, e ∙ sym (ap (λ u. u.depth) f), ap (λ u. u.indices) f)
sized-IsValid unknown_xform t t' n h = absurd (cc)

-- If a Transformation compiles, its indices are valid (for Permute a permutation of 0, …, n - 1
-- with n up to 16, for Transform all below a depth of up to 16), and executing its opcodes on any
-- stack takes the values g 0, g 1, … on its top to the values of g at the indices, and leaves what
-- is below as it was.
pub transform_bytecode-Transforms :
    (t : Transformation) (ops : List ℕ)
    → transform_bytecode t ≡ ok ops
    → IsValid t.typ t × Transforms (size_of t.typ t) t.indices ops
unfolding transform_bytecode
transform_bytecode-Transforms t ops h =
    let p = >>=-eq-ok (sized t.typ t) produce h in
    let (v, e, f, same) = sized-IsValid t.typ t p.0.0 p.0.1 p.1 in
    let r = produce-Reaches p.0.0 p.0.1 ops f p.2 in
    (
      v,
      Reaches-Transforms (size_of t.typ t) t.indices ops (
          subst (λ is. Reaches (size_of t.typ t) is ops) same
            (subst (λ k. Reaches k p.0.0.indices ops) e r)),
    )
