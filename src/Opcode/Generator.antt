-- ===== src/Opcode/Generator.antt =====
-- internal/opcopy/main.go: the program that prints opcodes.gen.go. The names of the opcodes and the
-- text around the rows are left out.
use specops.Base.{
  ℕ, zero, suc, ◌+◌, ◌-◌, ◌%◌, ◌^◌, Bool, not, ◌&&◌, ◌||◌, ◌==◌, List, [], ◌∷◌, if◌then◌else◌, map,
}
use specops.Opcode.{push0, jumpdest_op, dup1, swap1, is_push, upper_nibble}

pub record OpParams : Type 0 where
  pub op : ℕ
  pub pop : ℕ
  pub push : ℕ
  pub special : Bool

-- The loop over the opcodes from `i` on, with the number of rounds left. `valid` says whether the name
-- of an opcode stands for it.
unfoldable pub collect : (ℕ → Bool) → ℕ → ℕ → List OpParams
collect valid zero i = []
collect valid (suc rounds) i =
    let rest = collect valid rounds (i + 1) in
    let found : OpParams = record {
      op = i;
      pop = 0;
      push = 0;
      special = (is_push i && not (i == push0)) || i == jumpdest_op;
    } in
    if valid i then found ∷ rest else rest

-- The body of the loop over the valid opcodes, with `minStack` and `maxStack`; unsigned numbers wrap.
unfoldable pub set_delta : ℕ × ℕ → OpParams → OpParams
set_delta (min_stack, max_stack) o =
    if upper_nibble o.op == dup1
    then record o { pop = 1; push = 2 }
    else if upper_nibble o.op == swap1
    then record o { pop = 1; push = 1 }
    else record o { pop = min_stack; push = (1024 + min_stack + 2 ^ 64 - max_stack) % 2 ^ 64 }

-- `jump_table` is what LookupInstructionSet gives for Cancun, by the method Stack.
unfoldable pub generate : (ℕ → Bool) → (ℕ → ℕ × ℕ) → List OpParams
unfolding collect set_delta
generate valid jump_table = map (λ o. set_delta (jump_table o.op) o) (collect valid 256 0)

-- The two ranges of the template: the constants, and the rows of `stackDeltas`.
unfoldable pub alias_range : List OpParams → List ℕ
alias_range [] = []
alias_range (o ∷ os) = if not o.special then o.op ∷ alias_range os else alias_range os

unfoldable pub delta_range : List OpParams → List (ℕ × ℕ × ℕ)
delta_range [] = []
delta_range (o ∷ os) = (o.op, o.pop, o.push) ∷ delta_range os
