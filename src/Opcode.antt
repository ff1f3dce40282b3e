-- ===== src/Opcode.antt =====
-- stack.go and opcodes.gen.go: the opcodes that the compiler names, and the table `stackDeltas`.
-- An opcode is a byte; the values are those of the EVM, which go-ethereum's package vm carries.
pub mod Table
pub mod Aliases
pub mod Generator
pub mod Generated
mod Tests
use specops.Base.{ℕ, ◌+◌, ◌-◌, ◌*◌, ◌/◌, ◌%◌, Bool, ◌&&◌, leb}

abbrev pub pop_op : ℕ
pop_op = 0x50

abbrev pub jumpdest_op : ℕ
jumpdest_op = 0x5b

abbrev pub push0 : ℕ
push0 = 0x5f

abbrev pub push32 : ℕ
push32 = 0x7f

abbrev pub dup1 : ℕ
dup1 = 0x80

abbrev pub swap1 : ℕ
swap1 = 0x90

-- `op.IsPush()` of package vm.
abbrev pub is_push : ℕ → Bool
is_push o = leb push0 o && leb o push32

-- `o & 0xf0`, for a byte.
abbrev pub upper_nibble : ℕ → ℕ
upper_nibble o = o / 16 * 16

-- Addition and subtraction of bytes wrap around.
abbrev pub add_byte : ℕ → ℕ → ℕ
add_byte a b = (a + b) % 256

abbrev pub sub_byte : ℕ → ℕ → ℕ
sub_byte a b = (a + 256 - b) % 256
