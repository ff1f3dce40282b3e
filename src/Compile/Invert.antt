-- ===== src/Compile/Invert.antt =====
-- compile.go: `Inverted` DUPs and SWAPs, as `Compile` turns them into ones that count from the top.
use Prim.Native.Nat.{min}
use specops.Base.{
  ℕ, ◌+◌, ◌-◌, ◌≤◌, ◌<◌, ◌≡◌, arith, Outcome, ok, err, panic, not_dup_or_swap, inverted_too_deep,
  ltb, if◌then◌else◌,
}
use specops.Compile.{invert}

-- The DUP or SWAP that is meant, for a depth that is not 0: DUP1 from the bottom copies the lowest
-- of the (at most 16) values that a DUP can reach, and SWAP1 from the bottom swaps with it.
abbrev pub from_bottom : ℕ → ℕ → Outcome ℕ
from_bottom op depth =
    let reach = min 16 depth in
    if ltb op 0x80
    then err (not_dup_or_swap op)
    else if ltb op 0x90
    then (if ltb (op - 0x80) reach
        then ok (0x80 + (reach - 1 - (op - 0x80)))
        else err (inverted_too_deep op reach))
    else if ltb op 0xa0
    then (if ltb (op - 0x90) (reach - 1)
        then ok (0x90 + (reach - 2 - (op - 0x90)))
        else err (inverted_too_deep op (reach - 1)))
    else err (not_dup_or_swap op)

nibble_cases : (op : ℕ) → op < 256 → (q : ℕ) × (k : ℕ) × (op ≡ q + k)
nibble_cases op h = (op, 0, omega arith)

-- For an opcode below 256 and a depth that is not 0, an Inverted opcode is the DUP or SWAP that
-- counts from the lowest of the at most 16 values in reach, the error that it counts too deep, or
-- the error that it is neither DUP nor SWAP.
pub invert_lem : (op depth : ℕ) → op < 256 → 0 < depth → invert op depth ≡ from_bottom op depth
unfolding invert
invert_lem op depth h p = ground arith

-- At depth 0 every inverted SWAP makes Compile panic.
pub invert_panics : (op : ℕ) → 0x90 ≤ op → op < 0xa0 → invert op 0 ≡ panic
unfolding invert
invert_panics op h k = ground arith
