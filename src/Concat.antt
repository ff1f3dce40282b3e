-- ===== src/Concat.antt =====
-- compile.go: `spliceConcat`, the sequence of splices that makes up a program, and the three passes
-- that fix the locations of its tags and produce its bytes.
mod Tests
pub mod Pass
pub mod Moved
pub mod Expand
pub mod Reserve
pub mod Tight
pub mod Prepare
pub mod Locate
pub mod Encode
pub mod Emit
pub mod Names
pub mod Linked
pub mod Link
pub mod Grow
pub mod Returns
pub mod Shorter
pub mod Oversized
pub mod Fit
use specops.Base.{
  ℕ, zero, suc, ◌+◌, ◌-◌, ◌*◌, ◌/◌, ◌%◌, Bool, true, false, Option, none, some, List, [], ◌∷◌, ◌++◌,
  String, ltb, ◌==◌, if◌then◌else◌, length, take, drop, replicate, Outcome, ok, err, panic,
  out_of_fuel, ◌>>=◌, duplicate_tag, nil_op_not_last, size_too_large,
}
use specops.Opcode.{jumpdest_op}
use specops.Types.{pusher_bytecode, significant}
use specops.Splice.{
  LazyLocator, jumpdest, label, push_tag, push_tags, push_size, tagged, Splice, new_splice, TagMap,
  known_tag, set_tags, offset_of, offsets, two_offsets, bytes_per_tag, leading_zeroes, abs_diff,
  extra_bytes_needed,
}

pub record SpliceConcat : Type 0 where
  pub splices : List Splice
  pub all_tags : TagMap

-- The value that `Compile` starts from.
abbrev pub new_concat : SpliceConcat
new_concat = record { splices = new_splice ∷ []; all_tags = [] }

-- A write through `curr()`, the pointer to the last splice.
unfoldable pub modify_curr : (Splice → Splice) → List Splice → List Splice
modify_curr f [] = []
modify_curr f (x ∷ []) = f x ∷ []
modify_curr f (x ∷ y ∷ r) = x ∷ modify_curr f (y ∷ r)

-- `buf.Write(code)`, where `buf` is the buffer of the last splice.
unfoldable pub write : List ℕ → SpliceConcat → SpliceConcat
unfolding modify_curr
write code s = record s {
  splices = modify_curr (λ sp. record sp { buf = sp.buf ++ code }) s.splices;
}

unfoldable pub push_splice : LazyLocator → TagMap → SpliceConcat → SpliceConcat
unfolding modify_curr
push_splice op tags s = record {
  splices = modify_curr (λ sp. record sp { op = some op }) s.splices ++ new_splice ∷ [];
  all_tags = tags;
}

unfoldable pub new_splice_buffer : LazyLocator → SpliceConcat → Outcome SpliceConcat
unfolding push_splice known_tag
new_splice_buffer op s = elim s.splices [
  | [] ↦ panic
  | _ ∷ before ↦ elim (tagged op) [
    | none ↦ ok (push_splice op s.all_tags s)
    | some t ↦ elim (known_tag t s.all_tags) [
      | some _ ↦ err (duplicate_tag t)
      | none ↦ ok (push_splice op ((t, length before) ∷ s.all_tags) s)
    ]
  ]
]

-- The switch of `reserve`, once `pc` stands behind the splice's buffer.
unfoldable pub reserve_op : TagMap → Bool → ℕ → Splice → Outcome Splice
unfolding set_tags
reserve_op known last pc sp = elim sp.op [
  | none ↦ if last then ok sp else err nil_op_not_last
  | some (jumpdest t) ↦ ok (record sp { offset = some pc })
  | some (label t) ↦ ok (record sp { offset = some pc })
  | some (push_tag t) ↦ set_tags sp known (t ∷ [])
  | some (push_tags ts) ↦ set_tags sp known ts
  | some (push_size t u) ↦ set_tags sp known (t ∷ u ∷ [])
]

abbrev pub is_nil {ℓ} : {A : Type ℓ} → List A → Bool
is_nil [] = true
is_nil (_ ∷ _) = false

-- The loop of `reserve`: the splices that it has passed, and those still to come.
unfoldable pub reserve_loop : TagMap → List Splice → List Splice → ℕ → Outcome (List Splice)
unfolding reserve_op extra_bytes_needed
reserve_loop known past [] pc = ok past
reserve_loop known past (sp ∷ rest) pc = do
  sp' ← reserve_op known (is_nil rest) (pc + length sp.buf) sp
  n ← extra_bytes_needed (past ++ sp' ∷ rest) sp'
  reserve_loop known (past ++ record sp' { reserved = n } ∷ []) rest (pc + length sp.buf + n)

unfoldable pub reserve : SpliceConcat → Outcome SpliceConcat
unfolding reserve_loop
reserve s = do sps ← reserve_loop s.all_tags [] s.splices 0; ok (record s { splices = sps })

-- One splice in a pass of `expand`, with the bytes by which the pass has expanded the code so far.
unfoldable pub expand_splice : List Splice → Splice → ℕ → Outcome (Splice × ℕ)
unfolding extra_bytes_needed
expand_splice all sp e = elim sp.op [
  | none ↦ ok (sp, e)
  | some op ↦ elim (tagged op) [
    | some t ↦ elim sp.offset [
      | none ↦ panic
      | some x ↦ ok (record sp { offset = some (x + e) }, e)
    ]
    | none ↦ do
      need ← extra_bytes_needed all sp
      ok (
          if ltb sp.reserved need
          then (record sp { reserved = need }, e + (need - sp.reserved))
          else (sp, e))
  ]
]

unfoldable pub expand_pass : List Splice → List Splice → ℕ → Outcome (List Splice × ℕ)
unfolding expand_splice
expand_pass past [] e = ok (past, e)
expand_pass past (sp ∷ rest) e = do
  (sp', e') ← expand_splice (past ++ sp ∷ rest) sp e
  expand_pass (past ++ sp' ∷ []) rest e'

-- `for { … if expand == 0 { return nil } }`.
unfoldable pub expand_loop : ℕ → List Splice → Outcome (List Splice)
unfolding expand_pass
expand_loop zero sps = out_of_fuel
expand_loop (suc fuel) sps = do
  (sps', e) ← expand_pass [] sps 0
  let again = expand_loop fuel sps'
  if e == 0 then ok sps' else again

-- The passes that are enough: a pass that does not end the loop reserves a byte more, and no splice
-- reserves more than its PUSH with two bytes for each of its tags.
unfoldable pub most_bytes : List Splice → ℕ
most_bytes [] = 0
most_bytes (sp ∷ sps) = 1 + 2 * length sp.tags + most_bytes sps

unfoldable pub expand : SpliceConcat → Outcome SpliceConcat
unfolding expand_loop most_bytes
expand s = do
  sps ← expand_loop (most_bytes s.splices + 1) s.splices
  ok (record s { splices = sps })

-- `binary.BigEndian.PutUint64`: the low `n` bytes of a number, the highest first.
unfoldable pub big_endian : ℕ → ℕ → List ℕ
big_endian zero x = []
big_endian (suc n) x = big_endian n (x / 256) ++ x % 256 ∷ []

abbrev pub overwrite : List ℕ → ℕ → List ℕ → List ℕ
overwrite full at b = take at full ++ (b ++ drop (at + length b) full)

-- The loop that copies `n` bytes of each tag's offset into place. A slice out of range and a nil
-- offset panic.
unfoldable pub copy_offsets : ℕ → List ℕ → ℕ → List (Option ℕ) → Outcome (List ℕ)
copy_offsets n full i [] = ok full
copy_offsets n full i (none ∷ os) = panic
copy_offsets n full i (some x ∷ os) =
    if ltb (length full) ((i + 1) * n)
    then panic
    else copy_offsets n (overwrite full (i * n) (drop (8 - n) (big_endian 8 x))) (i + 1) os

unfoldable pub push_diff : Option ℕ → Option ℕ → Outcome (List ℕ)
unfolding abs_diff pusher_bytecode significant
push_diff (some x) (some y) =
    let diff = abs_diff x y in
    if ltb 65535 diff
    then err (size_too_large diff)
    else pusher_bytecode (diff / 256 % 256 ∷ diff % 256 ∷ [])
push_diff _ _ = panic

-- What `bytes` writes for the op of a splice, behind the splice's buffer.
unfoldable pub op_bytes : List Splice → Splice → Outcome (List ℕ)
unfolding extra_bytes_needed copy_offsets push_diff big_endian
op_bytes all sp = elim sp.op [
  | some (jumpdest t) ↦ ok (jumpdest_op ∷ [])
  | some (label t) ↦ ok []
  | none ↦ ok []
  | some (push_size t u) ↦ do (a, b) ← two_offsets (offsets all sp.tags); push_diff a b
  | _ ↦ do
    m ← extra_bytes_needed all sp
    z ← leading_zeroes all sp
    n ← bytes_per_tag all sp
    full ← copy_offsets n (replicate (m + z - 1) 0) 0 (offsets all sp.tags)
    pusher_bytecode full
]

unfoldable pub bytes_loop : List Splice → List Splice → Outcome (List ℕ)
unfolding op_bytes
bytes_loop all [] = ok []
bytes_loop all (sp ∷ sps) = do
  code ← op_bytes all sp
  rest ← bytes_loop all sps
  ok (sp.buf ++ (code ++ rest))

unfoldable pub bytes : SpliceConcat → Outcome (List ℕ)
unfolding bytes_loop
bytes s = bytes_loop s.splices s.splices
