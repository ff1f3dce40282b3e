-- ===== src/Concat/Encode.antt =====
-- compile.go: the table of offsets that `spliceConcat.bytes` writes for a PUSH of tags.
use Prim.Native.Nat.add
use specops.Base.{
  ℕ, zero, suc, ◌+◌, ◌-◌, ◌*◌, ◌/◌, ◌%◌, ◌^◌, ◌<◌, ◌≡◌, refl, ap, sym, ◌∙◌, true, false, Option,
  some, List, [], ◌∷◌, ◌++◌, map, inl, inr, arith, ltb, ◌==◌, length, drop, replicate, All,
  append_assoc, ok, Bool-cases, length-append, length-replicate, length-map, take-append, le→ltb,
  ◌⊎◌,
}
use specops.Splice.{any_large, zeroes_of_one, zeroes_of_two}
use specops.Splice.Need.{tag_bytes, tags_need}
use specops.Types.Push.{be_value, strip}
use specops.Concat.{big_endian, copy_offsets, overwrite}

-- The `n` bytes that are copied for an offset.
abbrev pub offset_bytes : ℕ → ℕ → List ℕ
offset_bytes n x = drop (8 - n) (big_endian 8 x)

one_byte : (x : ℕ) → offset_bytes 1 x ≡ x % 256 ∷ []
unfolding big_endian
one_byte x = refl

two_bytes : (x : ℕ) → offset_bytes 2 x ≡ x / 256 % 256 ∷ x % 256 ∷ []
unfolding big_endian
two_bytes x = refl

-- The bytes of all offsets, one behind the other.
unfoldable pub table : ℕ → List ℕ → List ℕ
table n [] = []
table n (x ∷ xs) = offset_bytes n x ++ table n xs

drop_past :
    (xs : List ℕ) (n m : ℕ) → drop (length xs + n) (xs ++ replicate (n + m) 0) ≡ replicate m 0
drop_past [] zero m = rw add.zero refl
drop_past [] (suc n) m = rw (add.zero, add.suc) (rw add.zero at (drop_past [] n m))
drop_past (x ∷ xs) n m = rw add.suc (drop_past xs n m)

overwrite-eq :
    (pre b : List ℕ) (n m : ℕ)
    → length b ≡ n
    → overwrite (pre ++ replicate (n + m) 0) (length pre) b ≡ (pre ++ b) ++ replicate m 0
overwrite-eq pre b n m h = rw (h, take-append, drop_past, append_assoc) refl

module _ (n : ℕ) (sized : (x : ℕ) → length (offset_bytes n x) ≡ n) where
  copy-step :
      (x : ℕ) (os : List (Option ℕ)) (pre : List ℕ) (i m : ℕ)
      → length pre ≡ i * n
      → copy_offsets n (pre ++ replicate (n + m) 0) i (some x ∷ os)
        ≡ copy_offsets n ((pre ++ offset_bytes n x) ++ replicate m 0) (i + 1) os
  unfolding copy_offsets
  copy-step x os pre i m h =
      let full = pre ++ replicate (n + m) 0 in
      let fits : ltb (length full) ((i + 1) * n) ≡ false = le→ltb _ _ (
        omega (
          arith,
          length-append pre (replicate (n + m) 0),
          length-replicate (n + m) (let z : ℕ = 0 in z),
        )) in
      rw fits (
        ap (λ f. copy_offsets n f (i + 1) os)
          (ap (λ at. overwrite full at (offset_bytes n x)) (sym h)
            ∙ overwrite-eq pre (offset_bytes n x) n m (sized x)))

  pub copy-eq :
      (xs pre : List ℕ) (i : ℕ)
      → length pre ≡ i * n
      → copy_offsets n (pre ++ replicate (length xs * n) 0) i (map some xs) ≡ ok (pre ++ table n xs)
  unfolding copy_offsets table
  copy-eq [] pre i h = let e : 0 * n ≡ 0 = omega arith in rw e refl
  copy-eq (x ∷ xs) pre i h =
      let e : suc (length xs) * n ≡ n + length xs * n = omega arith in
      rw e (
        copy-step x (map some xs) pre i (length xs * n) h
        ∙ copy-eq xs (pre ++ offset_bytes n x) (i + 1)
            (omega (arith, length-append pre (offset_bytes n x), sized x))
        ∙ ap ok (append_assoc pre (offset_bytes n x) (table n xs)))

  pub length-table : (xs : List ℕ) → length (table n xs) ≡ length xs * n
  unfolding table
  length-table [] = omega arith
  length-table (x ∷ xs) =
      omega (arith, length-append (offset_bytes n x) (table n xs), sized x, length-table xs)

length-one : (x : ℕ) → length (offset_bytes 1 x) ≡ 1
length-one x = ap length (one_byte x)

length-two : (x : ℕ) → length (offset_bytes 2 x) ≡ 2
length-two x = ap length (two_bytes x)

tag_bytes-cases :
    (os : List (Option ℕ))
    → (any_large os ≡ true) × (tag_bytes os ≡ 2) ⊎ (any_large os ≡ false) × (tag_bytes os ≡ 1)
tag_bytes-cases os = elim (Bool-cases (any_large os)) [
  | inl y ↦ inl (y, rw y refl)
  | inr n ↦ inr (n, rw n refl)
]

pub sized_tags :
    (os : List (Option ℕ)) (x : ℕ) → length (offset_bytes (tag_bytes os) x) ≡ tag_bytes os
sized_tags os x = elim (tag_bytes-cases os) [
  | inl (_, e) ↦ rw e (length-two x)
  | inr (_, e) ↦ rw e (length-one x)
]

-- The number that a table stands for: each offset behind the ones before it.
pub join : ℕ → ℕ → List ℕ → ℕ
join n acc [] = acc
join n acc (x ∷ xs) = join n (acc * 256 ^ n + x) xs

pub join_one : (n x : ℕ) → join n 0 (x ∷ []) ≡ x
unfolding join
join_one n x = omega arith

-- Without a large offset the zeroes that `leadingZeroes` counts are those that are stripped.
strip_one :
    (xs : List ℕ) (n : ℕ)
    → any_large (map some xs) ≡ false
    → length (strip (table 1 xs)) + zeroes_of_one (map some xs) n ≡ length xs + n
unfolding strip table any_large zeroes_of_one
strip_one [] n h = refl
strip_one (x ∷ xs) n h =
    rw (one_byte x) (ground (arith, strip_one xs (n + 1), length-table 1 length-one xs))

strip_low : (hi lo : ℕ) (bs : List ℕ) → hi ≡ 0 → 0 < lo → strip (hi ∷ lo ∷ bs) ≡ lo ∷ bs
unfolding strip
strip_low hi lo bs h p = ground arith

strip_high : (hi : ℕ) (bs : List ℕ) → 0 < hi → strip (hi ∷ bs) ≡ hi ∷ bs
unfolding strip
strip_high hi bs p = ground arith

-- With one they are too, unless the first offset is 0.
strip_two :
    (x : ℕ) (xs : List ℕ)
    → 0 < x
    → x < 65536
    → length (strip (table 2 (x ∷ xs))) + zeroes_of_two (map some (x ∷ xs)) 0 ≡ 2 * suc (length xs)
unfolding strip table zeroes_of_two
strip_two x xs p q = elim (Bool-cases (ltb x 256)) [
  | inl y ↦ rw (two_bytes x) (
      rw (strip_low (x / 256 % 256) (x % 256) (table 2 xs) (ground arith) (ground arith))
        (rw y (omega (arith, length-table 2 length-two xs))))
  | inr n ↦
      let z : (x == 0) ≡ false = ground arith in
      rw (two_bytes x) (
        rw (strip_high (x / 256 % 256) (x % 256 ∷ table 2 xs) (ground arith))
          (rw (n, z) (omega (arith, length-table 2 length-two xs))))
]

abbrev pub HeadNotZero : List ℕ → Type 0
HeadNotZero [] = Unit
HeadNotZero (x ∷ xs) = 0 < x

-- The conditions under which `leadingZeroes` counts what is stripped: an offset fits into two bytes,
-- and where one does not fit into one byte, the first is not 0.
abbrev pub Fits : List ℕ → Type 0
Fits xs = All (λ x. x < 65536) xs × (any_large (map some xs) ≡ true → HeadNotZero xs)

large_table :
    (x : ℕ) (xs : List ℕ)
    → Fits (x ∷ xs)
    → any_large (map some (x ∷ xs)) ≡ true
    → 1 + length (strip (table (tag_bytes (map some (x ∷ xs))) (x ∷ xs)))
      ≡ tags_need (map some (x ∷ xs))
large_table x xs f l = rw l (omega (arith, strip_two x xs (f.1 l) f.0.0, length-map some xs))

small_table :
    (xs : List ℕ)
    → any_large (map some xs) ≡ false
    → 1 + length (strip (table (tag_bytes (map some xs)) xs)) ≡ tags_need (map some xs)
small_table xs s = rw s (omega (arith, strip_one xs 0 s, length-map some xs))

-- The bytes that are reserved for a PUSH of tags are those that it is compiled to.
pub length-strip-table :
    (xs : List ℕ)
    → Fits xs
    → 1 + length (strip (table (tag_bytes (map some xs)) xs)) ≡ tags_need (map some xs)
unfolding any_large zeroes_of_one table strip
length-strip-table [] f = refl
length-strip-table (x ∷ xs) f = elim (Bool-cases (any_large (map some (x ∷ xs)))) [
  | inl l ↦ large_table x xs f l
  | inr s ↦ small_table (x ∷ xs) s
]

be_value-append :
    (acc : ℕ) (bs cs : List ℕ) → be_value acc (bs ++ cs) ≡ be_value (be_value acc bs) cs
unfolding be_value
be_value-append acc [] cs = refl
be_value-append acc (b ∷ bs) cs = be_value-append (acc * 256 + b) bs cs

be_value-offset :
    (os : List (Option ℕ)) (acc x : ℕ)
    → x < 256 ^ tag_bytes os
    → be_value acc (offset_bytes (tag_bytes os) x) ≡ acc * 256 ^ tag_bytes os + x
unfolding be_value
be_value-offset os acc x h = elim (Bool-cases (any_large os)) [
  | inl y ↦ let b : x < 65536 = rw y at h in rw y (rw (two_bytes x) (omega arith))
  | inr n ↦ let b : x < 256 = rw n at h in rw n (rw (one_byte x) (omega arith))
]

pub be_value-table :
    (os : List (Option ℕ)) (acc : ℕ) (xs : List ℕ)
    → All (λ x. x < 256 ^ tag_bytes os) xs
    → be_value acc (table (tag_bytes os) xs) ≡ join (tag_bytes os) acc xs
unfolding be_value table join
be_value-table os acc [] h = refl
be_value-table os acc (x ∷ xs) (h, hs) =
    be_value-append acc (offset_bytes (tag_bytes os) x) (table (tag_bytes os) xs)
    ∙ ap (λ a. be_value a (table (tag_bytes os) xs)) (be_value-offset os acc x h)
    ∙ be_value-table os (acc * 256 ^ tag_bytes os + x) xs hs

not_large : (xs : List ℕ) → any_large (map some xs) ≡ false → All (λ x. x < 256) xs
unfolding any_large
not_large [] h = tt
not_large (x ∷ xs) h = (ground arith, not_large xs (ground arith))

pub small_tags :
    (xs : List ℕ) → All (λ x. x < 65536) xs → All (λ x. x < 256 ^ tag_bytes (map some xs)) xs
small_tags xs h = elim (Bool-cases (any_large (map some xs))) [
  | inl y ↦ rw y h
  | inr n ↦ rw n (not_large xs n)
]
