-- ===== src/Transform/Tests.antt =====
-- Transformations compiled by the model, from the tests of the source.
use specops.Base.{
  ◌≡◌, refl, [], ◌∷◌, ok, err, override_mismatch, ◌≢◌, out_of_fuel, All, ◌≤◌, length, inl, inr,
  unsupported_transformation, arith, List, ℕ,
}
use specops.Transform.Swaps.{IsSwap}
use specops.Transform.Node.{node_from_indices, root_node, apply, apply_all}
use specops.Transform.Bfs.{bfs, edges}
use specops.Transform.Shortest.{Walk, stop, go, bfs-shortest}
use specops.Transform.Limit.{bfs-limit}
use specops.Transform.Fewest.{permute-fewest}
use specops.Transform.Ends.{transform_bytecode_ends}
use specops.Transform.{Transformation, permute, transform, with_ops, transform_bytecode}
use specops.Transform.Correct.{IsValid, size_of, transform_bytecode-Transforms}
use specops.Transform.Sound.{Transforms}

-- Transform(4)(3, 0, 0): SWAP2, POP, POP, DUP1, SWAP2.
abbrev grown : Transformation
grown = transform 4 (3 ∷ 0 ∷ 0 ∷ [])

rotated : transform_bytecode (permute (2 ∷ 0 ∷ 1 ∷ [])) ≡ ok (0x90 ∷ 0x91 ∷ [])
unfolding transform_bytecode
rotated = refl

grown_bytes : transform_bytecode grown ≡ ok (145 ∷ 80 ∷ 80 ∷ 128 ∷ 145 ∷ [])
unfolding transform_bytecode
grown_bytes = refl

wrong_ops : transform_bytecode (with_ops (permute (1 ∷ 0 ∷ [])) (0x80 ∷ [])) ≡ err override_mismatch
unfolding transform_bytecode
wrong_ops = refl

transform_bytecode-Transforms_example :
    IsValid grown.typ grown
    × Transforms (size_of grown.typ grown) grown.indices (145 ∷ 80 ∷ 80 ∷ 128 ∷ 145 ∷ [])
transform_bytecode-Transforms_example =
    transform_bytecode-Transforms grown (145 ∷ 80 ∷ 80 ∷ 128 ∷ 145 ∷ []) grown_bytes

transform_bytecode_ends_example : transform_bytecode grown ≢ out_of_fuel
transform_bytecode_ends_example = transform_bytecode_ends grown

-- What is found for the rotation, and a longer way.
abbrev two_swaps : List ℕ
two_swaps = 0x90 ∷ 0x91 ∷ []

abbrev four_swaps : List ℕ
four_swaps = 0x90 ∷ 0x90 ∷ 0x90 ∷ 0x91 ∷ []

permute-fewest_example : All IsSwap two_swaps × (length two_swaps ≤ length four_swaps)
unfolding node_from_indices root_node apply_all
permute-fewest_example =
    permute-fewest (2 ∷ 0 ∷ 1 ∷ []) two_swaps four_swaps rotated (omega arith)
      (b'0' ∷ b'1' ∷ b'2' ∷ [], b'2' ∷ b'0' ∷ b'1' ∷ [], refl, refl, refl)

found : bfs (2 ∷ 0 ∷ 1 ∷ []) 3 ≡ ok (0x90 ∷ 0x91 ∷ [])
unfolding bfs
found = refl

walk : Walk (b'2' ∷ b'0' ∷ b'1' ∷ []) (b'0' ∷ b'1' ∷ b'2' ∷ []) 2
unfolding edges apply
walk =
    go (0x90 ∷ 0x91 ∷ []) 0x90 refl (inl refl) refl
      (go (0x90 ∷ 0x91 ∷ []) 0x91 refl (inr (inl refl)) refl (stop refl))

bfs-shortest_example : length two_swaps ≤ 2
unfolding node_from_indices root_node
bfs-shortest_example =
    bfs-shortest (2 ∷ 0 ∷ 1 ∷ []) 3 (0x90 ∷ 0x91 ∷ []) (b'0' ∷ b'1' ∷ b'2' ∷ [])
      (b'2' ∷ b'0' ∷ b'1' ∷ []) 2 found refl refl walk

repeated :
    transform_bytecode (transform 16 (0 ∷ 0 ∷ 0 ∷ [])) ≡ err (unsupported_transformation 0xa0)
unfolding transform_bytecode
repeated = refl

bfs-limit_example : length {A = ℕ} (2 ∷ 0 ∷ 1 ∷ []) ≤ 19
bfs-limit_example = bfs-limit (2 ∷ 0 ∷ 1 ∷ []) 3 two_swaps found
