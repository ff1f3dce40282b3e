-- ===== src/Types/Push.antt =====
-- types/types.go: executing the bytes of `pusher.Bytecode`.
use native.Mathlib.Nat.{pow-suc, pow-le-pow_right}
use native.Mathlib.Decide.{dec_lt}
use mathlib.Core.Logic.{◌⊎◌, inl, inr}
use specops.Base.{
  ℕ, zero, suc, ◌+◌, ◌-◌, ◌*◌, ◌^◌, ◌≤◌, ◌<◌, ◌≡◌, refl, ap, ◌&&◌, List, [], ◌∷◌, ◌++◌, Option,
  none, some, arith, length, take, drop, take-append, drop-append, length-append, leb, ltb, ◌==◌,
  if◌then◌else◌, ◌||◌, ok, err, ok-injective, sym, push_length, Bool-cases, ==_iff, All, ◌∙◌,
}
use specops.Opcode.{push0, is_push, add_byte}
use specops.Types.{significant, pusher_bytecode}

-- The number that a big-endian string of bytes stands for, behind the digits of `acc`.
unfoldable pub be_value : ℕ → List ℕ → ℕ
be_value acc [] = acc
be_value acc (b ∷ bs) = be_value (acc * 256 + b) bs

-- The EVM at a PUSH: the value pushed and the code that follows, or `none` at anything else.
unfoldable pub run_push : List ℕ → Option (ℕ × List ℕ)
unfolding be_value
run_push [] = none
run_push (o ∷ code) =
    if is_push o && leb (o - push0) (length code)
    then some (be_value 0 (take (o - push0) code), drop (o - push0) code)
    else none

-- The bytes behind the leading zeros.
unfoldable pub strip : List ℕ → List ℕ
strip [] = []
strip (b ∷ bs) = if b == 0 then strip bs else b ∷ bs

pub length-strip-le : (bs : List ℕ) → length (strip bs) ≤ length bs
unfolding strip
length-strip-le [] = omega arith
length-strip-le (b ∷ bs) = ground (arith, length-strip-le bs)

significant-eq : (bs : List ℕ) → significant bs (length bs) ≡ length (strip bs)
unfolding significant strip
significant-eq [] = refl
significant-eq (b ∷ bs) =
    let e : suc (length bs) - 1 ≡ length bs = omega arith in
    elim (Bool-cases (b == 0)) [ inl z ↦ rw (z, e) (significant-eq bs) | inr p ↦ rw p refl ]

drop-eq-strip : (bs : List ℕ) → drop (length bs - length (strip bs)) bs ≡ strip bs
unfolding strip
drop-eq-strip [] = refl
drop-eq-strip (b ∷ bs) = elim (Bool-cases (b == 0)) [
  | inl z ↦
      let e : suc (length bs) - length (strip bs) ≡ suc (length bs - length (strip bs)) =
        omega (arith, length-strip-le bs) in
      rw (z, e) (drop-eq-strip bs)
  | inr p ↦ let e : suc (length bs) - suc (length bs) ≡ 0 = omega arith in rw (p, e) refl
]

be_value-strip : (bs : List ℕ) → be_value 0 (strip bs) ≡ be_value 0 bs
unfolding be_value strip
be_value-strip [] = refl
be_value-strip (b ∷ bs) = elim (Bool-cases (b == 0)) [
  | inl z ↦ rw (z, (==_iff b 0).0 z) (be_value-strip bs)
  | inr p ↦ rw p refl
]

-- The code that pushes a stripped string.
unfoldable pub push_code : List ℕ → List ℕ
push_code s = (push0 + length s) ∷ s

assemble :
    (n : ℕ) (s : List ℕ)
    → 0 < n
    → n ≤ 32
    → length s ≤ n
    → (if n == 0 || ltb 32 n
        then err (push_length n)
        else if length s == 0
        then ok (push0 ∷ [])
        else ok (add_byte push0 (length s) ∷ s))
      ≡ ok (push_code s)
unfolding push_code
assemble n [] l u h = ground arith
assemble n (x ∷ s) l u h = ground arith

pub pusher_bytecode-eq :
    (bs : List ℕ) → 0 < length bs → length bs ≤ 32 → pusher_bytecode bs ≡ ok (push_code (strip bs))
unfolding pusher_bytecode
pusher_bytecode-eq bs l u =
    rw (significant-eq bs)
      (rw (drop-eq-strip bs) (assemble (length bs) (strip bs) l u (length-strip-le bs)))

run_push-push_code :
    (s rest : List ℕ) → length s ≤ 32 → run_push (push_code s ++ rest) ≡ some (be_value 0 s, rest)
unfolding run_push push_code
run_push-push_code s rest h =
    let e : push0 + length s - push0 ≡ length s = omega arith in
    rw (e, take-append s rest, drop-append s rest, length-append s rest) (ground arith)

-- A string of 1 to 32 bytes compiles, and executing the code at the head of any other code pushes
-- the number that the string stands for and goes on with that code.
pub run_push-pusher_bytecode :
    (bs rest : List ℕ)
    → 0 < length bs
    → length bs ≤ 32
    → (out : List ℕ) × (pusher_bytecode bs ≡ ok out)
      × (run_push (out ++ rest) ≡ some (be_value 0 bs, rest))
run_push-pusher_bytecode bs rest l u = (
  push_code (strip bs),
  pusher_bytecode-eq bs l u,
  run_push-push_code (strip bs) rest (omega (arith, length-strip-le bs))
      ∙ ap (λ v. some (v, rest)) (be_value-strip bs),
)

shift_bound : (a b p : ℕ) → b < 256 → (a * 256 + b + 1) * p ≤ (a + 1) * (p * 256)
shift_bound a b p h = grind arith

pub be_value-lt :
    (acc : ℕ) (bs : List ℕ) → All (λ b. b < 256) bs → be_value acc bs < (acc + 1) * 256 ^ length bs
unfolding be_value
be_value-lt acc [] h = omega arith
be_value-lt acc (b ∷ bs) h =
    rw (pow-suc 256 (length bs))
      (omega (arith, be_value-lt (acc * 256 + b) bs h.1, shift_bound acc b (256 ^ length bs) h.0))

le-be_value : (acc : ℕ) (bs : List ℕ) → acc * 256 ^ length bs ≤ be_value acc bs
unfolding be_value
le-be_value acc [] = omega arith
le-be_value acc (b ∷ bs) =
    rw (pow-suc 256 (length bs)) (grind (arith, le-be_value (acc * 256 + b) bs))

lt_of_pow : (m n : ℕ) → 256 ^ m < 256 ^ n → m < n
lt_of_pow m n h = elim (dec_lt m n) [
  | yes p ↦ p
  | no q ↦
      absurd (omega (arith, pow-le-pow_right {n = 256} (omega arith) {i = n} {j = m} (omega arith)))
]

-- A string of bytes that starts with no zero.
pow-le-be_value : (b : ℕ) (bs : List ℕ) → 0 < b → 256 ^ length bs ≤ be_value 0 (b ∷ bs)
unfolding be_value
pow-le-be_value b bs h = grind (arith, le-be_value b bs)

take_all : (k : ℕ) (xs : List ℕ) → k ≤ length xs → drop k xs ≡ [] → take k xs ≡ xs
take_all zero [] h e = refl
take_all zero (x ∷ xs) h e = cc
take_all (suc k) [] h e = refl
take_all (suc k) (x ∷ xs) h e = ap (◌∷◌ x) (take_all k xs (omega arith) e)

run_push-inv : (o v : ℕ) (imm : List ℕ) → run_push (o ∷ imm) ≡ some (v, []) → be_value 0 imm ≡ v
unfolding run_push
run_push-inv o v imm h = ground (arith, take_all (o - push0) imm)

strip-cases :
    (bs : List ℕ) → (strip bs ≡ []) ⊎ ((b : ℕ) × (t : List ℕ) × (strip bs ≡ b ∷ t) × (0 < b))
unfolding strip
strip-cases [] = inl refl
strip-cases (b ∷ bs) = elim (Bool-cases (b == 0)) [
  | inl z ↦ rw z (strip-cases bs)
  | inr p ↦ rw p (inr (b, bs, refl, ground arith))
]

-- No PUSH instruction, with immediates that are bytes, that pushes the number of a string of 1 to
-- 32 bytes is shorter than the code that the string compiles to.
pub pusher_bytecode_shortest :
    (bs : List ℕ) (o : ℕ) (imm out : List ℕ)
    → 0 < length bs
    → length bs ≤ 32
    → All (λ b. b < 256) imm
    → pusher_bytecode bs ≡ ok out
    → run_push (o ∷ imm) ≡ some (be_value 0 bs, [])
    → length out ≤ length (o ∷ imm)
unfolding push_code
pusher_bytecode_shortest bs o imm out l u h p r =
    let v = run_push-inv o (be_value 0 bs) imm r in
    let e = pusher_bytecode-eq bs l u in
    let c : out ≡ push_code (strip bs) = ground arith in
    elim (strip-cases bs) [
      | inl z ↦ rw (c, z) (omega arith)
      | inr (b, t, z, pos) ↦
          let low = pow-le-be_value b t pos in
          let top = be_value-lt 0 imm h in
          let same : be_value 0 (b ∷ t) ≡ be_value 0 bs = rw (← z) (be_value-strip bs) in
          rw (c, z) (omega (arith, lt_of_pow (length t) (length imm) (omega arith)))
    ]

-- Only a string of 1 to 32 bytes compiles.
pub pusher_bytecode-inv :
    (bs out : List ℕ)
    → pusher_bytecode bs ≡ ok out
    → (0 < length bs) × (length bs ≤ 32) × (out ≡ push_code (strip bs))
unfolding pusher_bytecode
pusher_bytecode-inv bs out h =
    let l : 0 < length bs = ground arith in
    let u : length bs ≤ 32 = ground arith in
    (l, u, ok-injective (sym h ∙ pusher_bytecode-eq bs l u))
