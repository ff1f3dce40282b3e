-- ===== src/Concat/Linked.antt =====
-- compile.go: linked code, described without splices: for each run of bytes, the op that follows it,
-- written with the locations of tags that `loc` gives.
use specops.Base.{ℕ, ◌+◌, ◌≡◌, Option, none, some, List, [], ◌∷◌, ◌++◌, map, String, length}
use specops.Opcode.{jumpdest_op}
use specops.Splice.{LazyLocator, jumpdest, label, push_tag, push_tags, push_size, abs_diff}
use specops.Types.Push.{run_push}
use specops.Splice.Need.{tag_bytes}
use specops.Concat.Encode.{join}
use specops.Concat.Names.{Contents}

-- `code` is what stands at the byte `at` for an op: nothing for a Label, which is located there; a
-- JUMPDEST for a JUMPDEST, which is located there; and for the others an instruction that pushes
-- the location of its tag, the locations of its tags in one or two bytes each, or the distance of
-- its two tags.
abbrev pub Writes : (String → Option ℕ) → ℕ → Option LazyLocator → List ℕ → Type 0
Writes loc at none code = code ≡ []
Writes loc at (some (label t)) code = (code ≡ []) × (loc t ≡ some at)
Writes loc at (some (jumpdest t)) code = (code ≡ jumpdest_op ∷ []) × (loc t ≡ some at)
Writes loc at (some (push_tag t)) code = (x : ℕ) × (loc t ≡ some x) × (run_push code ≡ some (x, []))
Writes loc at (some (push_tags ts)) code =
    (xs : List ℕ) × (map loc ts ≡ map some xs)
    × (run_push code ≡ some (join (tag_bytes (map some xs)) 0 xs, []))
Writes loc at (some (push_size t u)) code =
    (x : ℕ) × (y : ℕ) × (loc t ≡ some x)
    × (loc u ≡ some y)
    × (run_push code ≡ some (abs_diff x y, []))

-- `out` consists, from the byte `at`, of the given runs of bytes with the code of their ops.
abbrev pub IsLinked : (String → Option ℕ) → ℕ → Contents → List ℕ → Type 0
IsLinked loc at [] out = out ≡ []
IsLinked loc at ((b, op) ∷ cs) out =
    (code : List ℕ) × (rest : List ℕ) × (out ≡ b ++ (code ++ rest))
    × Writes loc (at + length b) op code
    × IsLinked loc (at + length b + length code) cs rest
