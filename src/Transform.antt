-- ===== src/Transform.antt =====
-- stack/transform.go: transformations of the stack, with the checks of their indices.
mod Tests
pub mod Node
pub mod Bfs
pub mod Stack
pub mod Sound
pub mod Search
pub mod Correct
pub mod Pigeonhole
pub mod Encoding
pub mod Short
pub mod Round
pub mod Turn
pub mod Levels
pub mod Shortest
pub mod Rounds
pub mod Fuel
pub mod Ends
pub mod Counts
pub mod Swaps
pub mod Permuted
pub mod Fewest
pub mod Limit
use specops.Base.{
  ℕ, ◌+◌, Bool, true, false, List, [], ◌∷◌, ◌||◌, ltb, leb, ◌==◌, if◌then◌else◌, length, Outcome,
  ok, err, ◌>>=◌, permutes_too_many, duplicate_index, missing_index, transforms_too_deep,
  index_beyond_depth, invalid_type, override_mismatch,
}
use specops.Transform.Node.{node_from_indices, root_node, apply_all, same_node, count_from}
use specops.Transform.Bfs.{bfs}

pub data XFormType : Type 0 where
  unknown_xform permutation general : XFormType

pub record Transformation : Type 0 where
  pub typ : XFormType
  pub depth : ℕ
  pub indices : List ℕ
  pub override : List ℕ

abbrev pub permute : List ℕ → Transformation
permute indices = record { typ = permutation; depth = 0; indices = indices; override = [] }

abbrev pub transform : ℕ → List ℕ → Transformation
transform depth indices = record { typ = general; depth = depth; indices = indices; override = [] }

abbrev pub with_ops : Transformation → List ℕ → Transformation
with_ops t ops = record t { override = ops }

-- `set[idx]`, for a `map[uint8]bool` that holds true for the indices of a list.
unfoldable pub is_set : ℕ → List ℕ → Bool
is_set idx [] = false
is_set idx (i ∷ set) = i == idx || is_set idx set

-- The first loop of `permutationSize`.
unfoldable pub distinct : List ℕ → List ℕ → Outcome (List ℕ)
unfolding is_set
distinct [] set = ok set
distinct (idx ∷ is) set =
    if is_set idx set then err (duplicate_index idx) else distinct is (idx ∷ set)

-- Its second loop.
unfoldable pub contiguous : List ℕ → List ℕ → Outcome (Unit {0})
unfolding is_set
contiguous [] set = ok tt
contiguous (i ∷ is) set = if is_set i set then contiguous is set else err (missing_index i)

-- The transformation with its new depth, and the size.
unfoldable pub permutation_size : Transformation → Outcome (Transformation × ℕ)
unfolding distinct contiguous count_from
permutation_size t =
    let n = length t.indices in
    if ltb 16 n then err (permutes_too_many n) else do
      set ← distinct t.indices []
      _ ← contiguous (count_from 0 n) set
      ok (record t { depth = n }, n)

unfoldable pub check_indices : ℕ → List ℕ → Outcome (Unit {0})
check_indices depth [] = ok tt
check_indices depth (idx ∷ is) =
    if leb depth idx then err (index_beyond_depth idx depth) else check_indices depth is

unfoldable pub general_size : Transformation → Outcome (Transformation × ℕ)
unfolding check_indices
general_size t =
    if ltb 16 t.depth
    then err (transforms_too_deep t.depth)
    else do _ ← check_indices t.depth t.indices; ok (t, t.depth)

unfoldable pub overriden : Transformation → Outcome (List ℕ)
unfolding root_node apply_all node_from_indices same_node
overriden t = do
  root ← root_node t.depth
  got ← apply_all root t.override
  want ← node_from_indices t.indices
  if same_node got want then ok t.override else err override_mismatch

-- `t.Bytecode`.
unfoldable pub transform_bytecode : Transformation → Outcome (List ℕ)
unfolding permutation_size general_size overriden bfs
transform_bytecode t = do
  (t', size) ← elim t.typ [
    | permutation ↦ permutation_size t
    | general ↦ general_size t
    | unknown_xform ↦ err invalid_type
  ]
  if length t'.override == 0 then bfs t'.indices size else overriden t'
