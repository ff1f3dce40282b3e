-- ===== src/Transform/Pigeonhole.antt =====
-- Distinct numbers below a bound, for the nodes of the search in stack/transform.go.
use specops.Base.{
  ℕ, zero, suc, ◌≤◌, ◌<◌, ◌≡◌, List, [], ◌∷◌, inl, inr, ◌==◌, if◌then◌else◌, arith, length, All,
  Bool-cases, subst,
}
use specops.Transform.Correct.{Occurs, NoTwice}

-- A list without the first occurrence of a number.
unfoldable pub without : ℕ → List ℕ → List ℕ
without k [] = []
without k (x ∷ xs) = if x == k then xs else x ∷ without k xs

Occurs-without : (i k : ℕ) (xs : List ℕ) → Occurs i (without k xs) → Occurs i xs
unfolding without
Occurs-without i k [] h = h
Occurs-without i k (x ∷ xs) h = elim (Bool-cases (x == k)) [
  | inl y ↦ inr (rw y at h)
  | inr n ↦
      let h' : Occurs i (x ∷ without k xs) = rw n at h in
      elim h' [ inl e ↦ inl e | inr r ↦ inr (Occurs-without i k xs r) ]
]

NoTwice-without : (k : ℕ) (xs : List ℕ) → NoTwice xs → NoTwice (without k xs)
unfolding without
NoTwice-without k [] h = tt
NoTwice-without k (x ∷ xs) (o, h) = elim (Bool-cases (x == k)) [
  | inl y ↦ rw y h
  | inr n ↦ rw n ((λ r. o (Occurs-without x k xs r)), NoTwice-without k xs h)
]

below : (k : ℕ) (xs : List ℕ) → All (λ x. x < suc k) xs → (Occurs k xs → ⊥) → All (λ x. x < k) xs
below k [] h o = tt
below k (x ∷ xs) (h, hs) o = elim (Bool-cases (k == x)) [
  | inl y ↦ absurd (o (inl (ground arith)))
  | inr n ↦ (ground arith, below k xs hs (λ r. o (inr r)))
]

All-without :
    (k : ℕ) (xs : List ℕ) → NoTwice xs → All (λ x. x < suc k) xs → All (λ x. x < k) (without k xs)
unfolding without
All-without k [] o h = tt
All-without k (x ∷ xs) (o, os) (h, hs) = elim (Bool-cases (x == k)) [
  | inl y ↦ let e : x ≡ k = ground arith in rw y (below k xs hs (subst (λ j. Occurs j xs → ⊥) e o))
  | inr n ↦ rw n (ground arith, All-without k xs os hs)
]

length-without : (k : ℕ) (xs : List ℕ) → length xs ≤ suc (length (without k xs))
unfolding without
length-without k [] = omega arith
length-without k (x ∷ xs) = ground (arith, length-without k xs)

pub pigeonhole : (n : ℕ) (xs : List ℕ) → NoTwice xs → All (λ x. x < n) xs → length xs ≤ n
pigeonhole n [] o h = omega arith
pigeonhole zero (x ∷ xs) o (h, hs) = absurd (omega arith)
pigeonhole (suc n) (x ∷ xs) o h = omega (
  arith,
  length-without n (x ∷ xs),
  pigeonhole n (without n (x ∷ xs)) (NoTwice-without n (x ∷ xs) o) (All-without n (x ∷ xs) o h),
)
