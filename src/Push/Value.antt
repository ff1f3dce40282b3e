-- ===== src/Push/Value.antt =====
-- specops.go: the numbers that `PUSH` pushes.
use specops.Base.{
  Bool, pos, negsuc, if◌then◌else◌, ℕ, zero, suc, ◌+◌, ◌-◌, ◌*◌, ◌/◌, ◌%◌, ◌^◌, ◌≤◌, ◌<◌, ◌≡◌, refl,
  ap, subst, ◌∙◌, false, List, [], ◌∷◌, ◌++◌, arith, length, length-append, length-drop, drop, some,
  inl, inr, ◌==◌, if◌then◌else◌, Bool-cases, Outcome, ok,
}
use native.Mathlib.Nat.{pow-suc, pow-le-pow_right}
use specops.Types.Push.{be_value, run_push, run_push-pusher_bytecode}
use specops.Concat.{big_endian}
use specops.Code.{Bytecoder, bytecode, pusher}
use specops.Push.{
  Pushable, int, uint64, one_byte, byte_slice, address, hash, word, text, jumpdest_tag, label_tag,
  texts, jumpdest_tags, label_tags, leading_zero_bits, uint64_to_push, push,
}

be_value-snoc :
    (acc : ℕ) (bs : List ℕ) (b : ℕ) → be_value acc (bs ++ b ∷ []) ≡ be_value acc bs * 256 + b
unfolding be_value
be_value-snoc acc [] b = refl
be_value-snoc acc (c ∷ bs) b = be_value-snoc (acc * 256 + c) bs b

length-big_endian : (n x : ℕ) → length (big_endian n x) ≡ n
unfolding big_endian
length-big_endian zero x = refl
length-big_endian (suc n) x =
    omega
      (arith, length-append (big_endian n (x / 256)) (x % 256 ∷ []), length-big_endian n (x / 256))

div_lt : (x p : ℕ) → x < p * 256 → x / 256 < p
div_lt x p h = omega arith

-- The low bytes of a number that fits into them are the number.
be_value-big_endian : (n x : ℕ) → x < 256 ^ n → be_value 0 (big_endian n x) ≡ x
unfolding be_value big_endian
be_value-big_endian zero x h = omega arith
be_value-big_endian (suc n) x h =
    let l : x / 256 < 256 ^ n = div_lt x (256 ^ n) (grind (arith, pow-suc)) in
    let e = be_value-big_endian n (x / 256) l in
    be_value-snoc 0 (big_endian n (x / 256)) (x % 256) ∙ omega arith

drop-short : (k : ℕ) (bs cs : List ℕ) → k ≤ length bs → drop k (bs ++ cs) ≡ drop k bs ++ cs
drop-short zero bs cs h = refl
drop-short (suc k) [] cs h = absurd (omega arith)
drop-short (suc k) (b ∷ bs) cs h = drop-short k bs cs (omega arith)

drop_all : (bs : List ℕ) (k : ℕ) → length bs ≤ k → drop k bs ≡ []
drop_all [] zero h = refl
drop_all [] (suc k) h = refl
drop_all (b ∷ bs) zero h = absurd (omega arith)
drop_all (b ∷ bs) (suc k) h = drop_all bs k (omega arith)

-- Dropping bytes from the front leaves the low bytes.
drop-big_endian : (k n x : ℕ) → drop k (big_endian (k + n) x) ≡ big_endian n x
unfolding big_endian
drop-big_endian k zero x =
    drop_all (big_endian (k + 0) x) k (omega (arith, length-big_endian (k + 0) x))
drop-big_endian k (suc n) x =
    let e : k + suc n ≡ suc (k + n) = omega arith in
    ap (λ m. drop k (big_endian m x)) e
    ∙ drop-short k (big_endian (k + n) (x / 256)) (x % 256 ∷ [])
        (omega (arith, length-big_endian (k + n) (x / 256)))
    ∙ ap (λ l. l ++ x % 256 ∷ []) (drop-big_endian k n (x / 256))

leading_zero_bits-le : (n x : ℕ) → leading_zero_bits n x ≤ n
unfolding leading_zero_bits
leading_zero_bits-le zero x = omega arith
leading_zero_bits-le (suc n) x = ground (arith, leading_zero_bits-le n (x / 2))

half_lt : (x p : ℕ) → x / 2 < p → x < p * 2
half_lt x p h = omega arith

halved : (x p : ℕ) → x < p * 2 → x / 2 < p
halved x p h = omega arith

-- A number of `n` bits fits into the bits below its leading zeros.
lt-leading_zero_bits : (n x : ℕ) → x < 2 ^ n → x < 2 ^ (n - leading_zero_bits n x)
unfolding leading_zero_bits
lt-leading_zero_bits zero x h = omega arith
lt-leading_zero_bits (suc n) x h = elim (Bool-cases (x == 0)) [
  | inl y ↦ let e : suc n - suc n ≡ 0 = omega arith in rw y (rw e (ground arith))
  | inr z ↦
      let l = lt-leading_zero_bits n (x / 2) (halved x (2 ^ n) (grind (arith, pow-suc))) in
      let e : suc n - leading_zero_bits n (x / 2) ≡ suc (n - leading_zero_bits n (x / 2)) =
        omega (arith, leading_zero_bits-le n (x / 2)) in
      rw z (rw e (grind (arith, pow-suc, half_lt x (2 ^ (n - leading_zero_bits n (x / 2))) l)))
]

pow_bytes : (n : ℕ) → 2 ^ (n * 8) ≡ 256 ^ n
pow_bytes zero = omega arith
pow_bytes (suc n) =
    let e : suc n * 8 ≡ suc (suc (suc (suc (suc (suc (suc (suc (n * 8)))))))) = omega arith in
    rw e (grind (arith, pow-suc, pow_bytes n))

-- The bytes that are left stand for the number.
kept : (z v : ℕ) → z ≤ 64 → v < 2 ^ (64 - z) → be_value 0 (drop (z / 8) (big_endian 8 v)) ≡ v
kept z v l h =
    let n = 8 - z / 8 in
    let e : 8 ≡ z / 8 + n = omega arith in
    let m = pow-le-pow_right {n = 2} (omega arith) {i = 64 - z} {j = n * 8} (omega arith) in
    ap (λ k. be_value 0 (drop (z / 8) (big_endian k v))) e
    ∙ ap (be_value 0) (drop-big_endian (z / 8) n v)
    ∙ be_value-big_endian n v (omega (arith, pow_bytes n))

below_64 : (z v : ℕ) → z ≤ 64 → v < 2 ^ (64 - z) → (v == 0) ≡ false → z < 64
below_64 z v l h n = elim (Bool-cases (z == 64)) [
  | inl y ↦
      let e : 64 - z ≡ 0 = ground arith in
      let h' : v < 2 ^ 0 = subst (λ k. v < 2 ^ k) e h in absurd (ground arith)
  | inr x ↦ ground arith
]

length-kept : (z : ℕ) (v : ℕ) → length (drop (z / 8) (big_endian 8 v)) ≡ 8 - z / 8
length-kept z v = omega (arith, length-drop (z / 8) (big_endian 8 v), length-big_endian 8 v)

otherwise {ℓ} : {A : Type ℓ} (b : Bool) (x y : A) → b ≡ false → (if b then x else y) ≡ y
otherwise b x y e = rw e refl

uint64_to_push-pos :
    (v : ℕ)
    → (v == 0) ≡ false
    → uint64_to_push v ≡ drop (leading_zero_bits 64 v / 8) (big_endian 8 v)
unfolding uint64_to_push
uint64_to_push-pos v n =
    otherwise (v == 0) (0 ∷ []) (drop (leading_zero_bits 64 v / 8) (big_endian 8 v)) n

zero_pushed : uint64_to_push 0 ≡ 0 ∷ []
unfolding uint64_to_push
zero_pushed = refl

uint64_to_push-value :
    (v : ℕ)
    → v < 2 ^ 64
    → (be_value 0 (uint64_to_push v) ≡ v)
      × (0 < length (uint64_to_push v))
      × (length (uint64_to_push v) ≤ 32)
unfolding be_value
uint64_to_push-value v h = elim (Bool-cases (v == 0)) [
  | inl y ↦ let e : v ≡ 0 = ground arith in rw e (rw zero_pushed (refl, omega arith, omega arith))
  | inr n ↦
      let z = leading_zero_bits 64 v in
      let l = leading_zero_bits-le 64 v in
      let u = lt-leading_zero_bits 64 v h in
      rw (uint64_to_push-pos v n) (
        kept z v l u,
        omega (arith, length-kept z v, below_64 z v l u n),
        omega (arith, length-kept z v),
      )
]

-- The number that a value of a type stands for; no tag does, and no `uint256.Int`, whose bytes are
-- the concern of its own package.
abbrev pub Means : Pushable → ℕ → Type 0
Means (int (pos n)) v = (n ≡ v) × (n < 2 ^ 63)
Means (uint64 n) v = (n ≡ v) × (n < 2 ^ 64)
Means (one_byte b) v = b ≡ v
Means (byte_slice bs) v = (be_value 0 bs ≡ v) × (0 < length bs) × (length bs ≤ 32)
Means (address bs) v = (be_value 0 bs ≡ v) × (length bs ≡ 20)
Means (hash bs) v = (be_value 0 bs ≡ v) × (length bs ≡ 32)
Means _ v = ⊥

-- It compiles, and the code pushes the number that the bytes stand for.
abbrev Pushes : Outcome Bytecoder → ℕ → List ℕ → Type 0
Pushes r v rest =
    (b : Bytecoder) × (out : List ℕ) × (r ≡ ok b)
    × (bytecode b ≡ ok out)
    × (run_push (out ++ rest) ≡ some (v, rest))

pusher-Pushes :
    (bs rest : List ℕ) (v : ℕ)
    → be_value 0 bs ≡ v
    → 0 < length bs
    → length bs ≤ 32
    → Pushes (ok (pusher bs)) v rest
unfolding bytecode
pusher-Pushes bs rest v e l u =
    let (out, w, r) = run_push-pusher_bytecode bs rest l u in
    (pusher bs, out, refl, w, r ∙ ap (λ x. some (x, rest)) e)

-- PUSH of an int that is not negative, a uint64, a byte, a slice of 1 to 32 bytes, an address or a
-- hash gives a Bytecoder that compiles, and executing the code at the head of any other code pushes
-- the number that the value stands for and goes on with that code.
pub push-Pushes :
    (word_bytes : ℕ → List ℕ) (p : Pushable) (v : ℕ) (rest : List ℕ)
    → Means p v
    → (b : Bytecoder) × (out : List ℕ) × (push word_bytes p ≡ ok b)
      × (bytecode b ≡ ok out)
      × (run_push (out ++ rest) ≡ some (v, rest))
unfolding push be_value
push-Pushes wb (int (pos n)) v rest (e, l) =
    let (a, b, c) = uint64_to_push-value n (omega arith) in pusher-Pushes _ rest v (a ∙ e) b c
push-Pushes wb (int (negsuc n)) v rest h = absurd h
push-Pushes wb (uint64 n) v rest (e, l) =
    let (a, b, c) = uint64_to_push-value n l in pusher-Pushes _ rest v (a ∙ e) b c
push-Pushes wb (one_byte b) v rest e =
    pusher-Pushes (b ∷ []) rest v (omega arith) (omega arith) (omega arith)
push-Pushes wb (byte_slice []) v rest (e, l, u) = absurd (omega arith)
push-Pushes wb (byte_slice (b ∷ bs)) v rest (e, l, u) = pusher-Pushes (b ∷ bs) rest v e l u
push-Pushes wb (address bs) v rest (e, l) = pusher-Pushes bs rest v e (omega arith) (omega arith)
push-Pushes wb (hash bs) v rest (e, l) = pusher-Pushes bs rest v e (omega arith) (omega arith)
push-Pushes wb (word x) v rest h = absurd h
push-Pushes wb (text t) v rest h = absurd h
push-Pushes wb (jumpdest_tag t) v rest h = absurd h
push-Pushes wb (label_tag t) v rest h = absurd h
push-Pushes wb (texts t) v rest h = absurd h
push-Pushes wb (jumpdest_tags t) v rest h = absurd h
push-Pushes wb (label_tags t) v rest h = absurd h
