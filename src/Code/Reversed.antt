-- ===== src/Code/Reversed.antt =====
-- specops.go: `Fn`, place by place.
use specops.Base.{
  length-set, ℕ, zero, suc, ◌+◌, ◌-◌, ◌/◌, ◌<◌, ◌≡◌, refl, ap, ◌∙◌, Option, none, some, List, [],
  ◌∷◌, arith, length, get_elem?, set, if◌then◌else◌, ◌==◌, ltb, leb, Bool, ◌&&◌, ◌||◌,
}
use specops.Code.{Bytecoder, code, from_list, fn, fn_loop, swap_at}

get_elem?-set {ℓ} :
    {A : Type ℓ} (c : List A) (i : ℕ) (v : A) (j : ℕ)
    → i < length c
    → get_elem? (set c i v) j ≡ (if i == j then some v else get_elem? c j)
get_elem?-set [] i v j h = absurd (omega arith)
get_elem?-set (x ∷ c) zero v zero h = refl
get_elem?-set (x ∷ c) zero v (suc j) h = ground arith
get_elem?-set (x ∷ c) (suc i) v zero h = ground arith
get_elem?-set (x ∷ c) (suc i) v (suc j) h = ground (arith, get_elem?-set c i v j (omega arith))

get_elem?-some {ℓ} :
    {A : Type ℓ} (c : List A) (i : ℕ) → i < length c → (a : A) × (get_elem? c i ≡ some a)
get_elem?-some [] i h = absurd (omega arith)
get_elem?-some (x ∷ c) zero h = (x, refl)
get_elem?-some (x ∷ c) (suc i) h = get_elem?-some c i (omega arith)

swapped {ℓ} :
    {A : Type ℓ} (c : List A) (i j : ℕ) (a b : A) (o p : Option A)
    → o ≡ some a
    → p ≡ some b
    → elim o as (λ _. List A) [
      | none ↦ c
      | some x ↦ elim p [ none ↦ c | some y ↦ set (set c i y) j x ]
    ]
      ≡ set (set c i b) j a
swapped c i j a b none p e f = absurd (cc)
swapped c i j a b (some x) none e f = absurd (cc)
swapped c i j a b (some x) (some y) e f = cc

-- A swap within bounds.
swap_at-eq {ℓ} :
    {A : Type ℓ} (c : List A) (i j : ℕ)
    → i < length c
    → j < length c
    → (a : A) × (b : A) × (get_elem? c i ≡ some a)
      × (get_elem? c j ≡ some b)
      × (swap_at c i j ≡ set (set c i b) j a)
swap_at-eq c i j p q =
    let (a, e) = get_elem?-some c i p in
    let (b, f) = get_elem?-some c j q in
    (a, b, e, f, swapped c i j a b (get_elem? c i) (get_elem? c j) e f)

length-swap_at {ℓ} :
    {A : Type ℓ} (c : List A) (i j : ℕ)
    → i < length c
    → j < length c
    → length (swap_at c i j) ≡ length c
length-swap_at c i j p q =
    let (a, b, e, f, s) = swap_at-eq c i j p q in
    ap length s ∙ length-set (set c i b) j a ∙ length-set c i b

get_elem?-swap_at {ℓ} :
    {A : Type ℓ} (c : List A) (i j k : ℕ)
    → i < length c
    → j < length c
    → get_elem? (swap_at c i j) k
      ≡ (if j == k then get_elem? c i else if i == k then get_elem? c j else get_elem? c k)
get_elem?-swap_at c i j k p q =
    let (a, b, e, f, s) = swap_at-eq c i j p q in
    let l = length-set c i b in
    ap (λ d. get_elem? d k) s
    ∙ get_elem?-set (set c i b) j a k (omega arith)
    ∙ rw (get_elem?-set c i b k p, e, f) refl

abbrev within : ℕ → ℕ → ℕ → Bool
within lo hi j = leb lo j && ltb j hi

-- The rounds from `i` on exchange the places from `i` on with those that mirror them.
get_elem?-fn_loop :
    {A : Type 0} (k i n : ℕ) (c : List A) (j : ℕ)
    → length c ≡ n
    → i + k ≡ n / 2
    → j < n
    → get_elem? (fn_loop k i n c) j ≡ (
        if within i (i + k) j || within (n - i - k) (n - i) j
        then get_elem? c (n - j - 1)
        else get_elem? c j)
unfolding fn_loop
get_elem?-fn_loop zero i n c j l s h = ground arith
get_elem?-fn_loop (suc k) i n c j l s h =
    let c' = swap_at c i (n - i - 1) in
    let l' = length-swap_at c i (n - i - 1) (omega arith) (omega arith) in
    get_elem?-fn_loop k (i + 1) n c' j (l' ∙ l) (omega arith) h
    ∙ rw
        (
          get_elem?-swap_at c i (n - i - 1) j (omega arith) (omega arith),
          get_elem?-swap_at c i (n - i - 1) (n - j - 1) (omega arith) (omega arith),
        )
        (ground arith)

length-fn_loop {ℓ} :
    {A : Type ℓ} (k i n : ℕ) (c : List A)
    → length c ≡ n
    → i + k ≡ n / 2
    → length (fn_loop k i n c) ≡ n
unfolding fn_loop
length-fn_loop zero i n c l s = l
length-fn_loop (suc k) i n c l s =
    length-fn_loop k (i + 1) n (swap_at c i (n - i - 1))
      (length-swap_at c i (n - i - 1) (omega arith) (omega arith) ∙ l) (omega arith)

middle :
    {A : Type 0} (c : List A) (j n : ℕ)
    → j < n
    → (if within 0 (0 + n / 2) j || within (n - 0 - n / 2) (n - 0) j
        then get_elem? c (n - j - 1)
        else get_elem? c j)
      ≡ get_elem? c (n - j - 1)
middle c j n h = ground arith

-- Fn holds as many Bytecoders as it is given, and its j-th from the front is the j-th from the back
-- of what it is given.
pub fn_lem :
    (bcs : List Bytecoder)
    → (out : List Bytecoder) × (fn bcs ≡ code (from_list out))
      × (length out ≡ length bcs)
      × ((j : ℕ) → j < length bcs → get_elem? out j ≡ get_elem? bcs (length bcs - j - 1))
unfolding fn
fn_lem bcs = (
  fn_loop (length bcs / 2) 0 (length bcs) bcs,
  refl,
  length-fn_loop (length bcs / 2) 0 (length bcs) bcs refl (omega arith),
  λ j h.
      get_elem?-fn_loop (length bcs / 2) 0 (length bcs) bcs j refl (omega arith) h
      ∙ middle bcs j (length bcs) h,
)
