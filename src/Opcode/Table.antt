-- ===== src/Opcode/Table.antt =====
-- opcodes.gen.go: the table `stackDeltas`, as (opcode, popped, pushed), in the file's order.
use specops.Base.{ℕ, Option, none, some, List, [], ◌∷◌, ◌==◌, if◌then◌else◌}

-- `stackDelta` of stack.go: how many values an opcode pops and pushes.
pub record StackDelta : Type 0 where
  pub pop : ℕ
  pub push : ℕ

unfoldable pub stack_deltas : List (ℕ × ℕ × ℕ)
stack_deltas =
    (0x0, 0, 0)
    ∷ (0x1, 2, 1)
    ∷ (0x2, 2, 1)
    ∷ (0x3, 2, 1)
    ∷ (0x4, 2, 1)
    ∷ (0x5, 2, 1)
    ∷ (0x6, 2, 1)
    ∷ (0x7, 2, 1)
    ∷ (0x8, 3, 1)
    ∷ (0x9, 3, 1)
    ∷ (0xa, 2, 1)
    ∷ (0xb, 2, 1)
    ∷ (0x10, 2, 1)
    ∷ (0x11, 2, 1)
    ∷ (0x12, 2, 1)
    ∷ (0x13, 2, 1)
    ∷ (0x14, 2, 1)
    ∷ (0x15, 1, 1)
    ∷ (0x16, 2, 1)
    ∷ (0x17, 2, 1)
    ∷ (0x18, 2, 1)
    ∷ (0x19, 1, 1)
    ∷ (0x1a, 2, 1)
    ∷ (0x1b, 2, 1)
    ∷ (0x1c, 2, 1)
    ∷ (0x1d, 2, 1)
    ∷ (0x20, 2, 1)
    ∷ (0x30, 0, 1)
    ∷ (0x31, 1, 1)
    ∷ (0x32, 0, 1)
    ∷ (0x33, 0, 1)
    ∷ (0x34, 0, 1)
    ∷ (0x35, 1, 1)
    ∷ (0x36, 0, 1)
    ∷ (0x37, 3, 0)
    ∷ (0x38, 0, 1)
    ∷ (0x39, 3, 0)
    ∷ (0x3a, 0, 1)
    ∷ (0x3b, 1, 1)
    ∷ (0x3c, 4, 0)
    ∷ (0x3d, 0, 1)
    ∷ (0x3e, 3, 0)
    ∷ (0x3f, 1, 1)
    ∷ (0x40, 1, 1)
    ∷ (0x41, 0, 1)
    ∷ (0x42, 0, 1)
    ∷ (0x43, 0, 1)
    ∷ (0x44, 0, 1)
    ∷ (0x45, 0, 1)
    ∷ (0x46, 0, 1)
    ∷ (0x47, 0, 1)
    ∷ (0x48, 0, 1)
    ∷ (0x49, 1, 1)
    ∷ (0x4a, 0, 1)
    ∷ (0x50, 1, 0)
    ∷ (0x51, 1, 1)
    ∷ (0x52, 2, 0)
    ∷ (0x53, 2, 0)
    ∷ (0x54, 1, 1)
    ∷ (0x55, 2, 0)
    ∷ (0x56, 1, 0)
    ∷ (0x57, 2, 0)
    ∷ (0x58, 0, 1)
    ∷ (0x59, 0, 1)
    ∷ (0x5a, 0, 1)
    ∷ (0x5b, 0, 0)
    ∷ (0x5c, 1, 1)
    ∷ (0x5d, 2, 0)
    ∷ (0x5e, 3, 0)
    ∷ (0x5f, 0, 1)
    ∷ (0x60, 0, 1)
    ∷ (0x61, 0, 1)
    ∷ (0x62, 0, 1)
    ∷ (0x63, 0, 1)
    ∷ (0x64, 0, 1)
    ∷ (0x65, 0, 1)
    ∷ (0x66, 0, 1)
    ∷ (0x67, 0, 1)
    ∷ (0x68, 0, 1)
    ∷ (0x69, 0, 1)
    ∷ (0x6a, 0, 1)
    ∷ (0x6b, 0, 1)
    ∷ (0x6c, 0, 1)
    ∷ (0x6d, 0, 1)
    ∷ (0x6e, 0, 1)
    ∷ (0x6f, 0, 1)
    ∷ (0x70, 0, 1)
    ∷ (0x71, 0, 1)
    ∷ (0x72, 0, 1)
    ∷ (0x73, 0, 1)
    ∷ (0x74, 0, 1)
    ∷ (0x75, 0, 1)
    ∷ (0x76, 0, 1)
    ∷ (0x77, 0, 1)
    ∷ (0x78, 0, 1)
    ∷ (0x79, 0, 1)
    ∷ (0x7a, 0, 1)
    ∷ (0x7b, 0, 1)
    ∷ (0x7c, 0, 1)
    ∷ (0x7d, 0, 1)
    ∷ (0x7e, 0, 1)
    ∷ (0x7f, 0, 1)
    ∷ (0x80, 1, 2)
    ∷ (0x81, 1, 2)
    ∷ (0x82, 1, 2)
    ∷ (0x83, 1, 2)
    ∷ (0x84, 1, 2)
    ∷ (0x85, 1, 2)
    ∷ (0x86, 1, 2)
    ∷ (0x87, 1, 2)
    ∷ (0x88, 1, 2)
    ∷ (0x89, 1, 2)
    ∷ (0x8a, 1, 2)
    ∷ (0x8b, 1, 2)
    ∷ (0x8c, 1, 2)
    ∷ (0x8d, 1, 2)
    ∷ (0x8e, 1, 2)
    ∷ (0x8f, 1, 2)
    ∷ (0x90, 1, 1)
    ∷ (0x91, 1, 1)
    ∷ (0x92, 1, 1)
    ∷ (0x93, 1, 1)
    ∷ (0x94, 1, 1)
    ∷ (0x95, 1, 1)
    ∷ (0x96, 1, 1)
    ∷ (0x97, 1, 1)
    ∷ (0x98, 1, 1)
    ∷ (0x99, 1, 1)
    ∷ (0x9a, 1, 1)
    ∷ (0x9b, 1, 1)
    ∷ (0x9c, 1, 1)
    ∷ (0x9d, 1, 1)
    ∷ (0x9e, 1, 1)
    ∷ (0x9f, 1, 1)
    ∷ (0xa0, 2, 0)
    ∷ (0xa1, 3, 0)
    ∷ (0xa2, 4, 0)
    ∷ (0xa3, 5, 0)
    ∷ (0xa4, 6, 0)
    ∷ (0xf0, 3, 1)
    ∷ (0xf1, 7, 1)
    ∷ (0xf2, 7, 1)
    ∷ (0xf3, 2, 0)
    ∷ (0xf4, 6, 1)
    ∷ (0xf5, 4, 1)
    ∷ (0xfa, 6, 1)
    ∷ (0xfd, 2, 0)
    ∷ (0xfe, 0, 0)
    ∷ (0xff, 1, 0)
    ∷ []

unfoldable pub find_delta : List (ℕ × ℕ × ℕ) → ℕ → Option StackDelta
find_delta [] o = none
find_delta ((k, a, b) ∷ t) o =
    if k == o then some (record { pop = a; push = b }) else find_delta t o

-- `stackDeltas[op]`; `none` is an opcode that the table lacks.
unfoldable pub stack_delta : ℕ → Option StackDelta
unfolding stack_deltas find_delta
stack_delta o = find_delta stack_deltas o
