-- ===== src/Transform/Counts.antt =====
-- stack/transform.go: how often a value occurs: in a permutation, for `deltas`, and after a SWAP.
use specops.Base.{
  ℤ, pos, negsuc, ℕ, zero, suc, ◌+◌, ◌≤◌, ◌<◌, ◌≡◌, refl, ap, sym, subst, ◌∙◌, true, false, some,
  List, [], ◌∷◌, map, inl, inr, ◌==◌, if◌then◌else◌, arith, length, get_elem?, set, Bool-cases, ltb,
  leb, ◌&&◌, ◌⊎◌, ltb→lt, ltb→le,
}
use specops.Transform.Node.{Node, count_from}
use specops.Transform.Bfs.{increment, decrement, adjust, deltas, Deltas}
use specops.Transform.Pigeonhole.{without}
use specops.Transform.Correct.{Occurs, NoTwice, IsPermutation}

unfoldable pub count : ℕ → List ℕ → ℕ
count i [] = 0
count i (j ∷ is) = if j == i then suc (count i is) else count i is

count_absent : (i : ℕ) (is : List ℕ) → (Occurs i is → ⊥) → count i is ≡ 0
unfolding count
count_absent i [] h = refl
count_absent i (j ∷ is) h = elim (Bool-cases (j == i)) [
  | inl y ↦ absurd (h (inl (ground arith)))
  | inr n ↦ rw n (count_absent i is (λ o. h (inr o)))
]

count_once : (i : ℕ) (is : List ℕ) → NoTwice is → Occurs i is → count i is ≡ 1
unfolding count
count_once i [] h o = absurd o
count_once i (j ∷ is) (h, hs) o = elim (Bool-cases (j == i)) [
  | inl y ↦
      let e : j ≡ i = ground arith in
      rw y (ap suc (count_absent i is (subst (λ k. Occurs k is → ⊥) e h)))
  | inr n ↦ rw n (count_once i is hs (elim o [ inl e ↦ absurd (ground arith) | inr r ↦ r ]))
]

suc-length-without : (k : ℕ) (xs : List ℕ) → Occurs k xs → suc (length (without k xs)) ≡ length xs
unfolding without
suc-length-without k [] o = absurd o
suc-length-without k (x ∷ xs) o = elim (Bool-cases (x == k)) [
  | inl y ↦ rw y refl
  | inr n ↦
      rw n (ap suc (suc-length-without k xs (elim o [ inl e ↦ absurd (ground arith) | inr r ↦ r ])))
]

Occurs-without_other :
    (i k : ℕ) (xs : List ℕ) → (i == k) ≡ false → Occurs i xs → Occurs i (without k xs)
unfolding without
Occurs-without_other i k [] d o = o
Occurs-without_other i k (x ∷ xs) d o = elim (Bool-cases (x == k)) [
  | inl y ↦ rw y (elim o [ inl e ↦ absurd (ground arith) | inr r ↦ r ])
  | inr n ↦ rw n (elim o [ inl e ↦ inl e | inr r ↦ inr (Occurs-without_other i k xs d r) ])
]

-- A list with all numbers below `n` has `n` of them.
all_below : (n : ℕ) (xs : List ℕ) → ((k : ℕ) → k < n → Occurs k xs) → n ≤ length xs
all_below zero xs h = omega arith
all_below (suc n) xs h = omega (
  arith,
  suc-length-without n xs (h n (omega arith)),
  all_below n (without n xs)
      (λ k l. Occurs-without_other k n xs (ground arith) (h k (omega arith))),
)

within : (is : List ℕ) (j : ℕ) → IsPermutation is → Occurs j is → j < length is
within is j p o = by_order (Bool-cases (ltb j (length is)))
  where
    by_order : (ltb j (length is) ≡ true) ⊎ (ltb j (length is) ≡ false) → j < length is
    by_order (inl y) = ltb→lt j (length is) y
    by_order (inr n) =
        let l = ltb→le j (length is) n in
        absurd (
          omega (
            arith,
            suc-length-without j is o,
            all_below (length is) (without j is)
                (λ k u. Occurs-without_other k j is (ground arith) (p.all k u)),
          ))

count-count_from :
    (j i n : ℕ) → count j (count_from i n) ≡ (if leb i j && ltb j (i + n) then 1 else 0)
unfolding count count_from
count-count_from j i zero = ground arith
count-count_from j i (suc n) = ground (arith, count-count_from j (i + 1) n)

-- A permutation has every number as often as the numbers in order have it.
pub count-IsPermutation :
    (is : List ℕ) (j : ℕ) → IsPermutation is → count j is ≡ count j (count_from 0 (length is))
count-IsPermutation is j p = by_order (Bool-cases (ltb j (length is)))
  where
    by_order :
        (ltb j (length is) ≡ true) ⊎ (ltb j (length is) ≡ false)
        → count j is ≡ count j (count_from 0 (length is))
    by_order (inl y) =
        let l = ltb→lt j (length is) y in
        count_once j is p.once (p.all j l) ∙ sym (count-count_from j 0 (length is) ∙ ground arith)
    by_order (inr n) =
        let l = ltb→le j (length is) n in
        count_absent j is (λ o. absurd (omega (arith, within is j p o)))
        ∙ sym (count-count_from j 0 (length is) ∙ ground arith)

-- `z` is the difference of two numbers.
IsDiff : ℤ → ℕ → ℕ → Type 0
IsDiff (pos n) a b = a ≡ b + n
IsDiff (negsuc n) a b = b ≡ a + suc n

increment-IsDiff : (z : ℤ) (a b : ℕ) → IsDiff z a b → IsDiff (increment z) (suc a) b
unfolding IsDiff
increment-IsDiff (pos n) a b h = omega arith
increment-IsDiff (negsuc zero) a b h = omega arith
increment-IsDiff (negsuc (suc n)) a b h = omega arith

decrement-IsDiff : (z : ℤ) (a b : ℕ) → IsDiff z a b → IsDiff (decrement z) a (suc b)
unfolding IsDiff
decrement-IsDiff (pos zero) a b h = omega arith
decrement-IsDiff (pos (suc n)) a b h = omega arith
decrement-IsDiff (negsuc n) a b h = omega arith

-- Counting a list up, and counting it down.
incremented :
    (is : List ℕ) (d : Deltas) (j a b : ℕ)
    → IsDiff (d j) a b
    → IsDiff (adjust increment is d j) (a + count j is) b
unfolding adjust count
incremented [] d j a b h = let e : a ≡ a + 0 = omega arith in subst (λ k. IsDiff (d j) k b) e h
incremented (i ∷ is) d j a b h = elim (Bool-cases (i == j)) [
  | inl y ↦
      let e : suc a + count j is ≡ a + suc (count j is) = omega arith in
      rw y (
        subst
          (λ k.
            IsDiff (adjust increment is (λ k'. if i == k' then increment (d k') else d k') j) k b)
          e
          (incremented is (λ k. if i == k then increment (d k) else d k) j (suc a) b
            (rw y (increment-IsDiff (d j) a b h))))
  | inr n ↦ rw n (incremented is (λ k. if i == k then increment (d k) else d k) j a b (rw n h))
]

decremented :
    (is : List ℕ) (d : Deltas) (j a b : ℕ)
    → IsDiff (d j) a b
    → IsDiff (adjust decrement is d j) a (b + count j is)
unfolding adjust count
decremented [] d j a b h = let e : b ≡ b + 0 = omega arith in subst (λ k. IsDiff (d j) a k) e h
decremented (i ∷ is) d j a b h = elim (Bool-cases (i == j)) [
  | inl y ↦
      let e : suc b + count j is ≡ b + suc (count j is) = omega arith in
      rw y (
        subst
          (λ k.
            IsDiff (adjust decrement is (λ k'. if i == k' then decrement (d k') else d k') j) a k)
          e
          (decremented is (λ k. if i == k then decrement (d k) else d k) j a (suc b)
            (rw y (decrement-IsDiff (d j) a b h))))
  | inr n ↦ rw n (decremented is (λ k. if i == k then decrement (d k) else d k) j a b (rw n h))
]

no_diff : (z : ℤ) (a : ℕ) → IsDiff z a a → z ≡ pos 0
unfolding IsDiff
no_diff (pos n) a h = ap pos (omega arith)
no_diff (negsuc n) a h = absurd (omega arith)

-- Lists with the same counts have no deltas.
pub deltas-zero : (n o : List ℕ) (j : ℕ) → count j n ≡ count j o → deltas n o j ≡ pos 0
unfolding deltas IsDiff
deltas-zero n o j h =
    let up = incremented n (λ _. pos 0) j 0 0 (omega arith) in
    let down = decremented o (adjust increment n (λ _. pos 0)) j (0 + count j n) 0 up in
    no_diff _ (count j o) (
      subst (λ k. IsDiff (deltas n o j) k (count j o)) (h' n o j h)
        (subst (IsDiff (deltas n o j) (0 + count j n)) (zero_plus (count j o)) down))
  where
    zero_plus : (k : ℕ) → 0 + k ≡ k
    zero_plus k = omega arith

    h' : (n o : List ℕ) (j : ℕ) → count j n ≡ count j o → 0 + count j n ≡ count j o
    h' n o j e = omega arith

-- A SWAP changes no count, whatever is read off the characters.
pub count-swap :
    (f : ℕ → ℕ) (j c b : ℕ) (xs : Node) (k : ℕ)
    → get_elem? xs k ≡ some b
    → count j (map f (b ∷ set xs k c)) ≡ count j (map f (c ∷ xs))
unfolding count
count-swap f j c b [] k h = absurd (cc)
count-swap f j c b (x ∷ xs) zero h = let e : x ≡ b = cc in rw e (ground arith)
count-swap f j c b (x ∷ xs) (suc k) h = ground (arith, count-swap f j c b xs k h)
