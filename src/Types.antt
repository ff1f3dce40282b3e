-- ===== src/Types.antt =====
-- types/types.go: the Bytecoder that pushes a `StackPusher`'s bytes.
mod Tests
pub mod Push
use specops.Base.{
  ℕ, ◌+◌, ◌-◌, List, [], ◌∷◌, ◌||◌, ltb, ◌==◌, if◌then◌else◌, length, drop, Outcome, ok, err, Error,
  push_length,
}
use specops.Opcode.{push0, add_byte}

-- The bytes left by the loop of `pusher.Bytecode` that counts `size` down over leading zeros.
unfoldable pub significant : List ℕ → ℕ → ℕ
significant [] size = size
significant (b ∷ bs) size = if b == 0 then significant bs (size - 1) else size

-- `pusher.Bytecode`, given what `ToPush` returned.
unfoldable pub pusher_bytecode : List ℕ → Outcome (List ℕ)
unfolding significant
pusher_bytecode buf =
    let n = length buf in
    let size = significant buf n in
    if n == 0 || ltb 32 n
    then err (push_length n)
    else if size == 0
    then ok (push0 ∷ [])
    else ok (add_byte push0 size ∷ drop (n - size) buf)
