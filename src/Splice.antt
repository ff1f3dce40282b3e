-- ===== src/Splice.antt =====
-- compile.go, tags.go: a splice, a run of bytecode followed by an op whose location or size is found
-- lazily. The splices of a program are kept in a list, and a pointer `*splice` is an index of it.
pub mod Need
pub mod Growth
use Prim.Native.Nat.{min}
use specops.Base.{
  ℕ, suc, ◌+◌, ◌-◌, ◌*◌, Bool, true, false, Option, none, some, List, [], ◌∷◌, ◌++◌, map, String,
  ltb, leb, ◌==◌, if◌then◌else◌, same_text, length, get_elem?, Outcome, ok, err, panic, ◌>>=◌, ◌>>◌,
  unknown_tag, tag_count, unsupported_op,
}

-- The five types of tags.go that implement `lazyLocator`, under the source's names.
pub data LazyLocator : Type 0 where
  jumpdest : String → LazyLocator
  label : String → LazyLocator
  push_tag : String → LazyLocator
  push_tags : List String → LazyLocator
  push_size : String → String → LazyLocator

-- `op.(tagged)`: the tag of a JUMPDEST or Label, `none` for the other types.
abbrev pub tagged : LazyLocator → Option String
tagged (jumpdest t) = some t
tagged (label t) = some t
tagged (push_tag t) = none
tagged (push_tags ts) = none
tagged (push_size t u) = none

-- `op` is `none` for a nil interface, and `offset` for a nil pointer.
pub record Splice : Type 0 where
  pub buf : List ℕ
  pub op : Option LazyLocator
  pub offset : Option ℕ
  pub tags : List ℕ
  pub reserved : ℕ

-- `new(splice)`.
abbrev pub new_splice : Splice
new_splice = record { buf = []; op = none; offset = none; tags = []; reserved = 0 }

-- `allTags`, a map from tags to splices.
abbrev pub TagMap : Type 0
TagMap = List (String × ℕ)

unfoldable pub known_tag : String → TagMap → Option ℕ
known_tag t [] = none
known_tag t ((u, k) ∷ m) = if same_text u t then some k else known_tag t m

-- The number of tags that `setTags` demands.
abbrev pub want_tags : Option LazyLocator → ℕ → Option ℕ
want_tags (some (push_tag t)) n = some 1
want_tags (some (push_tags ts)) n = some n
want_tags (some (push_size t u)) n = some 2
want_tags _ n = none

-- The loop of `setTags`.
unfoldable pub resolve : TagMap → List String → Outcome (List ℕ)
unfolding known_tag
resolve known [] = ok []
resolve known (t ∷ ts) = elim (known_tag t known) [
  | none ↦ err (unknown_tag t)
  | some k ↦ do ks ← resolve known ts; ok (k ∷ ks)
]

unfoldable pub set_tags : Splice → TagMap → List String → Outcome Splice
unfolding resolve
set_tags s known tags = elim (want_tags s.op (length tags)) [
  | none ↦ err unsupported_op
  | some n ↦
      if length tags == n
      then (do ks ← resolve known tags; ok (record s { tags = ks }))
      else err (tag_count (length tags) n)
]

-- `t.offset` for each of the pointers `s.tags`, read through the list of all splices.
abbrev pub offset_of : List Splice → ℕ → Option ℕ
offset_of all k = elim (get_elem? all k) [ none ↦ none | some t ↦ t.offset ]

abbrev pub offsets : List Splice → List ℕ → List (Option ℕ)
offsets all ks = map (offset_of all) ks

-- Is some estimate at or beyond the 256th byte?
unfoldable pub any_large : List (Option ℕ) → Bool
any_large [] = false
any_large (none ∷ os) = any_large os
any_large (some x ∷ os) = if leb 256 x then true else any_large os

unfoldable pub abs_diff : ℕ → ℕ → ℕ
abs_diff i j = if ltb i j then j - i else i - j

unfoldable pub bytes_per_tag : List Splice → Splice → Outcome ℕ
unfolding any_large
bytes_per_tag all s = elim s.op [
  | some (push_size t u) ↦ panic
  | _ ↦ ok (if any_large (offsets all s.tags) then 2 else 1)
]

abbrev pub size_bytes : Option ℕ → Option ℕ → ℕ
size_bytes (some x) (some y) = if leb 256 (abs_diff x y) then 2 else 1
size_bytes _ _ = 1

-- The two tags of a `pushSize`; any other number is a panic.
abbrev pub two_offsets : List (Option ℕ) → Outcome (Option ℕ × Option ℕ)
two_offsets (a ∷ b ∷ []) = ok (a, b)
two_offsets _ = panic

unfoldable pub bytes_for_size : List Splice → Splice → Outcome ℕ
bytes_for_size all s = elim s.op [
  | some (push_size t u) ↦ do (a, b) ← two_offsets (offsets all s.tags); ok (size_bytes a b)
  | _ ↦ panic
]

-- The three loops and the switch of `leadingZeroes`.
abbrev pub size_zeroes : ℕ → Option ℕ → Option ℕ → Outcome ℕ
size_zeroes n (some x) (some y) =
    if x == y
    then ok n
    else if n == 1
    then ok 0
    else if n == 2
    then ok (if ltb (abs_diff x y) 256 then 1 else 0)
    else panic
size_zeroes n _ _ = ok n

unfoldable pub zeroes_of_one : List (Option ℕ) → ℕ → ℕ
zeroes_of_one [] n = n
zeroes_of_one (none ∷ os) n = n
zeroes_of_one (some x ∷ os) n = if x == 0 then zeroes_of_one os (n + 1) else n

unfoldable pub zeroes_of_two : List (Option ℕ) → ℕ → ℕ
zeroes_of_two [] n = n
zeroes_of_two (none ∷ os) n = n + 1
zeroes_of_two (some x ∷ os) n =
    if ltb x 256 then n + 1 else if x == 0 then zeroes_of_two os (n + 2) else n

abbrev pub is_push_size : Option LazyLocator → Bool
is_push_size (some (push_size t u)) = true
is_push_size _ = false

unfoldable pub leading_zeroes : List Splice → Splice → Outcome ℕ
unfolding bytes_for_size bytes_per_tag zeroes_of_one zeroes_of_two
leading_zeroes all s =
    if length s.tags == 0
    then ok 0
    else if is_push_size s.op
    then (do n ← bytes_for_size all s; (a, b) ← two_offsets (offsets all s.tags); size_zeroes n a b)
    else do
      n ← bytes_per_tag all s
      let os = offsets all s.tags
      ok (if n == 1 then zeroes_of_one os 0 else zeroes_of_two os 0)

unfoldable pub extra_bytes_needed : List Splice → Splice → Outcome ℕ
unfolding leading_zeroes
extra_bytes_needed all s = elim s.op [
  | none ↦ ok 0
  | some (label t) ↦ ok 0
  | some (push_size t u) ↦ do n ← bytes_for_size all s; z ← leading_zeroes all s; ok (1 + n - z)
  | _ ↦ do n ← bytes_per_tag all s; z ← leading_zeroes all s; ok (1 + length s.tags * n - z)
]
