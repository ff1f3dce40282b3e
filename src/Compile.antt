-- ===== src/Compile.antt =====
-- compile.go: `Code.Compile`.
mod Tests
pub mod Reading
pub mod Unique
pub mod Invert
pub mod Depth
pub mod Executed
pub mod Linking
pub mod Correct
pub mod Total
use Prim.Native.Nat.{min}
use specops.Base.{
  ℕ, zero, suc, ◌+◌, ◌-◌, ◌%◌, ◌^◌, Bool, true, false, Option, none, some, List, [], ◌∷◌, ◌++◌,
  ◌||◌, ◌&&◌, not, ltb, leb, ◌==◌, if◌then◌else◌, Outcome, ok, err, panic, ◌>>=◌, ◌>>◌, wrong_depth,
  not_dup_or_swap, inverted_too_deep, set_depth_required, invalid_opcode, stack_underflow,
}
use specops.Opcode.{push0, dup1, swap1, is_push, upper_nibble, add_byte, sub_byte}
use specops.Opcode.Table.{StackDelta, stack_delta}
use specops.Splice.{LazyLocator, jumpdest, label, push_tag, push_tags, push_size, tagged}
use specops.Concat.{SpliceConcat, new_concat, write, new_splice_buffer, reserve, expand, bytes}
use specops.Code.{
  Bytecoder, op_code, raw, pusher, inverted, lazy_locator, set_depth, expect_depth, transformation,
  external, code, Code, bytecode, flatten, flatten_one,
}

-- The variables of the loop. A depth is a Go uint, of 64 bits.
pub record Compiling : Type 0 where
  pub splices : SpliceConcat
  pub stack_depth : ℕ
  pub require_stack_depth_setting : Bool

abbrev pub start : Compiling
start = record { splices = new_concat; stack_depth = 0; require_stack_depth_setting = false }

abbrev pub uint_mod : ℕ
uint_mod = 2 ^ 64

-- The opcode that an `Inverted` one stands for at a depth of the stack. `panic` is the check of the
-- result that the source calls a bug.
unfoldable pub invert : ℕ → ℕ → Outcome ℕ
invert op depth =
    let base = upper_nibble op in
    let offset = sub_byte op base in
    let top = min 16 depth in
    let last = if base == swap1 then sub_byte top 1 else top in
    let use_op = sub_byte (sub_byte (add_byte base last) offset) 1 in
    if not (base == dup1) && not (base == swap1)
    then err (not_dup_or_swap op)
    else if leb last offset
    then err (inverted_too_deep op last)
    else if upper_nibble use_op == base
    then ok use_op
    else panic

-- stackDepth += d.push - d.pop
abbrev pub add_delta : ℕ → StackDelta → ℕ
add_delta depth d = (depth + (d.push + uint_mod - d.pop)) % uint_mod

-- The loop over the bytes that `Bytecode` returned; `skip` counts the immediates of a PUSH that are
-- still to be passed over.
unfoldable pub scan : List ℕ → ℕ → ℕ → Outcome ℕ
unfolding stack_delta
scan [] skip depth = ok depth
scan (op ∷ bs) (suc skip) depth = scan bs skip depth
scan (op ∷ bs) zero depth = elim (stack_delta op) [
  | none ↦ err (invalid_opcode op)
  | some d ↦
      if ltb depth d.pop
      then err (stack_underflow depth d.pop)
      else scan bs (if is_push op then op - push0 else 0) (add_delta depth d)
]

abbrev pub check_setting : Compiling → Outcome (Unit {0})
check_setting c = if c.require_stack_depth_setting then err set_depth_required else ok tt

abbrev pub with_code : Compiling → List ℕ → ℕ → Compiling
with_code c bs depth = record c { splices = write bs c.splices; stack_depth = depth }

-- The default case of the second switch: check the bytes and write them.
unfoldable pub append_checked : Outcome (List ℕ) → Compiling → Outcome Compiling
unfolding scan write
append_checked returned c = do
  check_setting c
  bs ← returned
  depth ← scan bs 0 c.stack_depth
  ok (with_code c bs depth)

abbrev pub is_tagged : LazyLocator → Bool
is_tagged l = elim (tagged l) [ none ↦ false | some _ ↦ true ]

abbrev pub is_jumpdest : LazyLocator → Bool
is_jumpdest (jumpdest t) = true
is_jumpdest _ = false

abbrev pub with_lazy : LazyLocator → Compiling → SpliceConcat → Compiling
with_lazy l c s = record {
  splices = s;
  stack_depth = if is_tagged l then c.stack_depth else (c.stack_depth + 1) % uint_mod;
  require_stack_depth_setting = is_jumpdest l;
}

unfoldable pub append_lazy : LazyLocator → Compiling → Outcome Compiling
unfolding new_splice_buffer
append_lazy l c = do s ← new_splice_buffer l c.splices; check_setting c; ok (with_lazy l c s)

-- The body of the loop.
unfoldable pub compile_one : Bytecoder → Compiling → Outcome Compiling
unfolding invert append_checked append_lazy write bytecode
compile_one (set_depth d) c = ok (record c { stack_depth = d; require_stack_depth_setting = false })
compile_one (expect_depth d) c =
    if c.stack_depth == d then ok c else err (wrong_depth c.stack_depth d)
compile_one (inverted op) c = do
  use_op ← invert op c.stack_depth
  append_checked (ok (use_op ∷ [])) c
compile_one (lazy_locator l) c = append_lazy l c
compile_one (raw bs) c = do check_setting c; ok (record c { splices = write bs c.splices })
compile_one b c = append_checked (bytecode b) c

unfoldable pub compile_loop : List Bytecoder → Compiling → Outcome Compiling
unfolding compile_one
compile_loop [] c = ok c
compile_loop (b ∷ bs) c = do c' ← compile_one b c; compile_loop bs c'

unfoldable pub compile : Code → Outcome (List ℕ)
unfolding compile_loop flatten flatten_one reserve expand bytes
compile c = do
  done ← compile_loop (flatten c) start
  reserved ← reserve done.splices
  expanded ← expand reserved
  bytes expanded
