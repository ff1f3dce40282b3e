-- ===== src/Splice/Need.antt =====
-- compile.go: `splice.extraBytesNeeded` as a function of the offsets of the tags.
use specops.Base.{
  ℕ, ◌+◌, ◌-◌, ◌*◌, ◌≤◌, ◌≡◌, refl, Bool, true, false, Option, none, some, List, [], ◌∷◌, arith,
  leb, ◌==◌, if◌then◌else◌, length, length-map, ok, ◌>>=◌,
}
use specops.Splice.{
  LazyLocator, jumpdest, label, push_tag, push_tags, push_size, Splice, offset_of, offsets,
  any_large, abs_diff, bytes_per_tag, size_bytes, size_zeroes, zeroes_of_one, zeroes_of_two,
  leading_zeroes, extra_bytes_needed,
}

-- The number of tags that an op of each type is given by `setTags`.
abbrev pub IsTagged : Option LazyLocator → List ℕ → Type 0
IsTagged none ks = ks ≡ []
IsTagged (some (jumpdest t)) ks = ks ≡ []
IsTagged (some (label t)) ks = ks ≡ []
IsTagged (some (push_tag t)) ks = length ks ≡ 1
IsTagged (some (push_tags ts)) ks = length ks ≡ length ts
IsTagged (some (push_size t u)) ks = (k : ℕ) × (l : ℕ) × (ks ≡ k ∷ l ∷ [])

abbrev pub tag_bytes : List (Option ℕ) → ℕ
tag_bytes os = if any_large os then 2 else 1

abbrev pub tag_zeroes : List (Option ℕ) → ℕ
tag_zeroes os = if any_large os then zeroes_of_two os 0 else zeroes_of_one os 0

abbrev pub is_tags : LazyLocator → Bool
is_tags (jumpdest t) = true
is_tags (push_tag t) = true
is_tags (push_tags ts) = true
is_tags (label t) = false
is_tags (push_size t u) = false

abbrev pub tags_need : List (Option ℕ) → ℕ
tags_need os = 1 + length os * tag_bytes os - tag_zeroes os

abbrev pub size_need : Option ℕ → Option ℕ → ℕ
size_need (some x) (some y) = if x == y then 1 else if leb 256 (abs_diff x y) then 3 else 2
size_need _ _ = 1

abbrev pub pair_need : List (Option ℕ) → ℕ
pair_need (a ∷ b ∷ []) = size_need a b
pair_need _ = 0

abbrev pub need : Option LazyLocator → List (Option ℕ) → ℕ
need none os = 0
need (some (label t)) os = 0
need (some (push_size t u)) os = pair_need os
need (some (jumpdest t)) os = tags_need os
need (some (push_tag t)) os = tags_need os
need (some (push_tags ts)) os = tags_need os

size_case :
    (a b : Option ℕ)
    → (size_zeroes (size_bytes a b) a b >>= λ z. ok (1 + size_bytes a b - z)) ≡ ok (size_need a b)
size_case (some x) (some y) = ground arith
size_case (some x) none = refl
size_case none b = refl

-- The loops count no more zeroes than there are bytes.
pub zeroes_of_one-le : (os : List (Option ℕ)) (n : ℕ) → zeroes_of_one os n ≤ n + length os
unfolding zeroes_of_one
zeroes_of_one-le [] n = omega arith
zeroes_of_one-le (none ∷ os) n = omega arith
zeroes_of_one-le (some x ∷ os) n = ground (arith, zeroes_of_one-le os (n + 1))

pub zeroes_of_two-le : (os : List (Option ℕ)) (n : ℕ) → zeroes_of_two os n ≤ n + 2 * length os
unfolding zeroes_of_two
zeroes_of_two-le [] n = omega arith
zeroes_of_two-le (none ∷ os) n = omega arith
zeroes_of_two-le (some x ∷ os) n = ground (arith, zeroes_of_two-le os (n + 2))

pub tag_zeroes-le : (os : List (Option ℕ)) → tag_zeroes os ≤ length os * tag_bytes os
tag_zeroes-le os = ground (arith, zeroes_of_one-le os 0, zeroes_of_two-le os 0)

tags_need-le : (all : List Splice) (ks : List ℕ) → tags_need (offsets all ks) ≤ 1 + 2 * length ks
tags_need-le all ks = ground (arith, length-map (offset_of all) ks)

size_need-le : (a b : Option ℕ) → size_need a b ≤ 3
size_need-le (some x) (some y) = ground arith
size_need-le (some x) none = omega arith
size_need-le none b = omega arith

pub need-le :
    (op : Option LazyLocator) (all : List Splice) (ks : List ℕ)
    → IsTagged op ks
    → need op (offsets all ks) ≤ 1 + 2 * length ks
need-le none all ks h = omega arith
need-le (some (label t)) all ks h = omega arith
need-le (some (push_size t u)) all ks (k, l, e) =
    rw e (omega (arith, size_need-le (offset_of all k) (offset_of all l)))
need-le (some (jumpdest t)) all ks h = tags_need-le all ks
need-le (some (push_tag t)) all ks h = tags_need-le all ks
need-le (some (push_tags ts)) all ks h = tags_need-le all ks

-- A splice, by its fields.
abbrev pub splice : List ℕ → Option LazyLocator → Option ℕ → List ℕ → ℕ → Splice
splice b op o ks r = record { buf = b; op = op; offset = o; tags = ks; reserved = r }

module _ (all : List Splice) (b : List ℕ) (o : Option ℕ) (r : ℕ) where
  pub needed_by_tags :
      (op : LazyLocator) (ks : List ℕ)
      → is_tags op ≡ true
      → IsTagged (some op) ks
      → extra_bytes_needed all (splice b (some op) o ks r) ≡ ok (tags_need (offsets all ks))
  unfolding extra_bytes_needed
  needed_by_tags (push_tag t) [] e h = refl
  needed_by_tags (push_tag t) (k ∷ ks) e h = ground (arith, length-map (offset_of all) ks)
  needed_by_tags (push_tags t) [] e h = refl
  needed_by_tags (push_tags t) (k ∷ ks) e h = ground (arith, length-map (offset_of all) ks)
  needed_by_tags (jumpdest t) [] e h = refl
  needed_by_tags (jumpdest t) (k ∷ ks) e h = cc
  needed_by_tags (label t) ks e h = cc
  needed_by_tags (push_size t u) ks e h = cc

  needed_by :
      (op : Option LazyLocator) (ks : List ℕ)
      → IsTagged op ks
      → extra_bytes_needed all (splice b op o ks r) ≡ ok (need op (offsets all ks))
  unfolding extra_bytes_needed
  needed_by none ks h = refl
  needed_by (some (label t)) ks h = refl
  needed_by (some (jumpdest t)) ks h = needed_by_tags (jumpdest t) ks refl h
  needed_by (some (push_tag t)) ks h = needed_by_tags (push_tag t) ks refl h
  needed_by (some (push_tags t)) ks h = needed_by_tags (push_tags t) ks refl h
  needed_by (some (push_size t u)) ks (k, l, e) =
      rw e (size_case (offset_of all k) (offset_of all l))

pub extra_bytes_needed-eq :
    (all : List Splice) (sp : Splice)
    → IsTagged sp.op sp.tags
    → extra_bytes_needed all sp ≡ ok (need sp.op (offsets all sp.tags))
extra_bytes_needed-eq all sp h = needed_by all sp.buf sp.offset sp.reserved sp.op sp.tags h

module _ (all : List Splice) (b : List ℕ) (o : Option ℕ) (r : ℕ) where
  pub zeroes_by_tags :
      (op : LazyLocator) (ks : List ℕ)
      → is_tags op ≡ true
      → leading_zeroes all (splice b (some op) o ks r) ≡ ok (tag_zeroes (offsets all ks))
  unfolding leading_zeroes any_large
  zeroes_by_tags (push_tag t) [] e = refl
  zeroes_by_tags (push_tag t) (k ∷ ks) e = ground arith
  zeroes_by_tags (push_tags t) [] e = refl
  zeroes_by_tags (push_tags t) (k ∷ ks) e = ground arith
  zeroes_by_tags (jumpdest t) [] e = refl
  zeroes_by_tags (jumpdest t) (k ∷ ks) e = ground arith
  zeroes_by_tags (label t) ks e = cc
  zeroes_by_tags (push_size t u) ks e = cc

  pub bytes_by_tags :
      (op : LazyLocator) (ks : List ℕ)
      → is_tags op ≡ true
      → bytes_per_tag all (splice b (some op) o ks r) ≡ ok (tag_bytes (offsets all ks))
  unfolding bytes_per_tag
  bytes_by_tags (push_tag t) ks e = refl
  bytes_by_tags (push_tags t) ks e = refl
  bytes_by_tags (jumpdest t) ks e = refl
  bytes_by_tags (label t) ks e = cc
  bytes_by_tags (push_size t u) ks e = cc
