-- ===== src/Concat/Tests.antt =====
-- The splices of a program with a jump, before and after the passes.
use specops.Base.{
  ℕ, arith, ◌≡◌, refl, none, some, List, [], ◌∷◌, map, ok, ◌>>=◌, All, true, length, ◌<◌,
}
use specops.Concat.Shorter.{op_bytes_shorter}
use specops.Concat.Oversized.{size_overshoots}
use specops.Splice.{push_size}
use specops.Concat.{expand_splice}
use specops.Splice.{
  abs_diff, push_tag, jumpdest, label, push_tags, Splice, resolve, any_large, extra_bytes_needed,
}
use specops.Splice.Need.{splice}
use specops.Concat.{SpliceConcat, reserve, expand, op_bytes}
use specops.Concat.Pass.{content}
use specops.Concat.Reserve.{IsKnown}
use specops.Concat.Locate.{Located, locates}

abbrev jump_splices : SpliceConcat
jump_splices = record {
  splices =
      splice [] (some (push_tag "end")) none [] 0
      ∷ splice (0x56 ∷ []) (some (jumpdest "end")) none [] 0
      ∷ splice [] none none [] 0
      ∷ [];
  all_tags = ("end", 1) ∷ [];
}

names-IsKnown : All (IsKnown jump_splices.all_tags) jump_splices.splices
unfolding resolve
names-IsKnown = ((1 ∷ [], refl), (([], refl), (([], refl), tt)))

locates_example :
    (out : List Splice) × ((reserve jump_splices >>= expand)
      ≡ ok (record jump_splices { splices = out }))
    × Located jump_splices.all_tags (map content jump_splices.splices) out
locates_example =
    locates jump_splices
      (
        record { no_tags = refl; no_offset = refl; no_bytes = refl },
        (
          record { no_tags = refl; no_offset = refl; no_bytes = refl },
          (record { no_tags = refl; no_offset = refl; no_bytes = refl }, tt),
        ),
      )
      (tt, (tt, (refl, tt))) names-IsKnown

-- A table of a tag at 0 and one at 300.
abbrev placed : List Splice
placed =
    splice [] (some (label "start")) (some 0) [] 0
    ∷ splice [] (some (label "large")) (some 300) [] 0
    ∷ []

abbrev table_splice : Splice
table_splice = splice [] (some (push_tags ("start" ∷ "large" ∷ []))) none (0 ∷ 1 ∷ []) 4

table_written : op_bytes placed table_splice ≡ ok (0x61 ∷ 1 ∷ 44 ∷ [])
unfolding op_bytes
table_written = refl

table_large : any_large (map some (0 ∷ 300 ∷ [])) ≡ true
unfolding any_large
table_large = refl

op_bytes_shorter_example :
    (n : ℕ) × (extra_bytes_needed placed table_splice ≡ ok n)
    × (length {A = ℕ} (0x61 ∷ 1 ∷ 44 ∷ []) < n)
op_bytes_shorter_example =
    op_bytes_shorter placed [] none (0 ∷ 1 ∷ []) 4 ("start" ∷ "large" ∷ []) (300 ∷ [])
      (0x61 ∷ 1 ∷ 44 ∷ []) refl refl table_large table_written

-- A PUSHSize between its tags, when the first has been moved by 272, and when both have been located.
abbrev half_moved : List Splice
half_moved =
    splice [] (some (label "a")) (some 561) [] 0 ∷ splice [] (some (label "b")) (some 290) [] 0 ∷ []

abbrev both_moved : List Splice
both_moved =
    splice [] (some (label "a")) (some 561) [] 0 ∷ splice [] (some (label "b")) (some 564) [] 0 ∷ []

abbrev size_splice : ℕ → Splice
size_splice r = splice [] (some (push_size "a" "b")) none (0 ∷ 1 ∷ []) r

size_expanded : expand_splice half_moved (size_splice 1) 272 ≡ ok (size_splice 3, 274)
unfolding expand_splice abs_diff
size_expanded = refl

abbrev size_code : List ℕ
size_code = 0x60 ∷ 3 ∷ []

size_written : op_bytes both_moved (size_splice 3) ≡ ok size_code
unfolding op_bytes abs_diff
size_written = refl

size_overshoots_example : length size_code < (size_splice 3).reserved
unfolding abs_diff
size_overshoots_example =
    size_overshoots half_moved both_moved [] none 0 1 1 272 "a" "b" (size_splice 3) 274 561 290 561
      564 size_code refl refl (omega arith) size_expanded refl refl (omega arith) size_written
