-- ===== src/Code.antt =====
-- specops.go, types/types.go, tags.go, stack/stack.go, stack.go: the Bytecoders that a program
-- consists of, `Fn`, and `Code.flatten`.
mod Tests
pub mod Flat
pub mod Reversed
use specops.Base.{
  ℕ, zero, suc, ◌+◌, ◌-◌, ◌/◌, Option, none, some, List, [], ◌∷◌, ◌++◌, length, get_elem?, set,
  Outcome, ok, err, direct_call,
}
use specops.Types.{pusher_bytecode}
use specops.Splice.{LazyLocator}
use specops.Transform.{Transformation, transform_bytecode}

-- One constructor for each type of the module that implements `types.Bytecoder`. A `pusher` holds
-- what its `ToPush` returns. `external` is a Bytecoder of another module, by what its `Bytecode`
-- returns. `code` is a `BytecodeHolder`, a nested `Code` among them.
mutual
  pub data Bytecoder : Type 0 where
    op_code : ℕ → Bytecoder
    raw : List ℕ → Bytecoder
    pusher : List ℕ → Bytecoder
    inverted : ℕ → Bytecoder
    lazy_locator : LazyLocator → Bytecoder
    set_depth : ℕ → Bytecoder
    expect_depth : ℕ → Bytecoder
    transformation : Transformation → Bytecoder
    external : Outcome (List ℕ) → Bytecoder
    code : Code → Bytecoder

  -- `type Code []types.Bytecoder`.
  pub data Code : Type 0 where
    nil : Code
    cons : Bytecoder → Code → Code

abbrev pub from_list : List Bytecoder → Code
from_list [] = nil
from_list (b ∷ bs) = cons b (from_list bs)

unfoldable pub bytecode : Bytecoder → Outcome (List ℕ)
unfolding pusher_bytecode transform_bytecode
bytecode (op_code o) = ok (o ∷ [])
bytecode (raw bs) = ok bs
bytecode (pusher buf) = pusher_bytecode buf
bytecode (transformation t) = transform_bytecode t
bytecode (external r) = r
bytecode (inverted o) = err direct_call
bytecode (lazy_locator l) = err direct_call
bytecode (set_depth d) = err direct_call
bytecode (expect_depth d) = err direct_call
bytecode (code c) = err direct_call

-- `Code.flatten`: a holder stands for its parts, and any other Bytecoder for itself.
unfoldable mutual
  pub flatten : Code → List Bytecoder
  flatten nil = []
  flatten (cons b c) = flatten_one b ++ flatten c

  pub flatten_one : Bytecoder → List Bytecoder
  flatten_one (code c) = flatten c
  flatten_one b = b ∷ []

-- c[i], c[j] = c[j], c[i]
abbrev pub swap_at {ℓ} : {A : Type ℓ} → List A → ℕ → ℕ → List A
swap_at c i j = elim (get_elem? c i) [
  | none ↦ c
  | some a ↦ elim (get_elem? c j) [ none ↦ c | some b ↦ set (set c i b) j a ]
]

-- The loop of `Fn`, for the rounds that are left.
unfoldable pub fn_loop {ℓ} : {A : Type ℓ} → ℕ → ℕ → ℕ → List A → List A
fn_loop zero i n c = c
fn_loop (suc k) i n c = fn_loop k (i + 1) n (swap_at c i (n - i - 1))

unfoldable pub fn : List Bytecoder → Bytecoder
unfolding fn_loop
fn bcs = code (from_list (fn_loop (length bcs / 2) 0 (length bcs) bcs))
