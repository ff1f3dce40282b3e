-- ===== src/Concat/Oversized.antt =====
-- compile.go: `spliceConcat.expand` at a PUSHSize between its tags, where the estimate of one is moved
-- and that of the other is still to be.
use specops.Base.{
  ℕ, ◌+◌, ◌-◌, ◌/◌, ◌%◌, ◌≤◌, ◌<◌, ◌≡◌, refl, ap, subst, ◌∙◌, false, Option, some, List, [], ◌∷◌,
  String, arith, Bool-cases, inl, inr, ltb, length, ok, ok-injective, if◌then◌else◌,
}
use specops.Splice.{push_size, Splice, offset_of, abs_diff, extra_bytes_needed}
use specops.Types.{pusher_bytecode}
use specops.Splice.Need.{splice, size_need, extra_bytes_needed-eq}
use specops.Types.Push.{strip, push_code, length-strip-le, pusher_bytecode-inv}
use specops.Concat.{expand_splice, op_bytes, push_diff}

far : (x y : ℕ) → 256 ≤ abs_diff x y → size_need (some x) (some y) ≡ 3
unfolding abs_diff
far x y h = ground arith

near :
    (x y : ℕ) (code : List ℕ)
    → abs_diff x y < 256
    → push_diff (some x) (some y) ≡ ok code
    → length code ≤ 2
unfolding push_diff push_code strip
near x y code h w =
    let big : ltb 65535 (abs_diff x y) ≡ false = ground arith in
    let w' : pusher_bytecode (abs_diff x y / 256 % 256 ∷ abs_diff x y % 256 ∷ []) ≡ ok code =
      rw big at w in
    let zero_byte : abs_diff x y / 256 % 256 ≡ 0 = omega arith in
    let (_, _, e) = pusher_bytecode-inv (0 ∷ abs_diff x y % 256 ∷ []) code (rw zero_byte at w') in
    let s = length-strip-le (abs_diff x y % 256 ∷ []) in rw e (omega (arith, s))

-- Three bytes are too many for a PUSHSize whose tags are near.
oversized :
    (later : List Splice) (b : List ℕ) (o : Option ℕ) (k l r : ℕ) (t u : String) (x y : ℕ)
    (code : List ℕ)
    → 3 ≤ r
    → offset_of later k ≡ some x
    → offset_of later l ≡ some y
    → abs_diff x y < 256
    → op_bytes later (splice b (some (push_size t u)) o (k ∷ l ∷ []) r) ≡ ok code
    → length code < r
unfolding op_bytes
oversized later b o k l r t u x y code m p q n w =
    let w' : push_diff (some x) (some y) ≡ ok code = rw (p, q) at w in
    omega (arith, near x y code n w')

-- If a pass of `expand` meets a PUSHSize while the estimates of its tags are 256 or more apart, as
-- can be when the first has been moved and the second has not, and its tags are then located less
-- than 256 apart, then the PUSH that is written is shorter than what is reserved for it.
pub size_overshoots :
    (all later : List Splice) (b : List ℕ) (o : Option ℕ) (k l r e : ℕ) (t u : String) (sp : Splice)
    (e' x y x' y' : ℕ) (code : List ℕ)
    → offset_of all k ≡ some x
    → offset_of all l ≡ some y
    → 256 ≤ abs_diff x y
    → expand_splice all (splice b (some (push_size t u)) o (k ∷ l ∷ []) r) e ≡ ok (sp, e')
    → offset_of later k ≡ some x'
    → offset_of later l ≡ some y'
    → abs_diff x' y' < 256
    → op_bytes later sp ≡ ok code
    → length code < sp.reserved
unfolding expand_splice
size_overshoots all later b o k l r e t u sp e' x y x' y' code p q f h p' q' n w =
    let before = splice b (some (push_size t u)) o (k ∷ l ∷ []) r in
    let needed : size_need (offset_of all k) (offset_of all l) ≡ 3 = rw (p, q) (far x y f) in
    let needs : extra_bytes_needed all before ≡ ok 3 =
      extra_bytes_needed-eq all before (k, l, refl) ∙ ap ok needed in
    let raised : Splice × ℕ = (record before { reserved = 3 }, e + (3 - r)) in
    let kept : Splice × ℕ = (before, e) in
    let result : Splice × ℕ = (sp, e') in
    let grown : (if ltb r 3 then raised else kept) ≡ result = ok-injective (rw needs at h) in
    let short : Splice → Type 0 = λ s. op_bytes later s ≡ ok code → length code < s.reserved in
    elim (Bool-cases (ltb r 3)) [
      | inl few ↦
          let g : raised ≡ result = rw few at grown in
          subst short (ap (λ (z : Splice × ℕ). z.0) g)
            (oversized later b o k l 3 t u x' y' code (omega arith) p' q' n) w
      | inr many ↦
          let g : kept ≡ result = rw many at grown in
          subst short (ap (λ (z : Splice × ℕ). z.0) g)
            (oversized later b o k l r t u x' y' code (ground arith) p' q' n) w
    ]
