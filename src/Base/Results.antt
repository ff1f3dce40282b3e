-- ===== src/Base/Results.antt =====
-- What a Go function that returns `(T, error)` can do: return a value, return an error, panic.
-- `out_of_fuel` is no behaviour of the program: loops without a structural bound take fuel.
use Prim.Native.Nat.{ℕ}
use Prim.Native.String.{String}
use mathlib.Core.Path.{◌≡◌, refl}

-- One constructor for each error that the source returns; the formatted text is left out.
pub data Error : Type 0 where
  direct_call : Error
  push_length : ℕ → Error
  invalid_opcode : ℕ → Error
  stack_underflow : ℕ → ℕ → Error
  wrong_depth : ℕ → ℕ → Error
  not_dup_or_swap : ℕ → Error
  inverted_too_deep : ℕ → ℕ → Error
  set_depth_required : Error
  duplicate_tag : String → Error
  unknown_tag : String → Error
  tag_count : ℕ → ℕ → Error
  unsupported_op : Error
  nil_op_not_last : Error
  size_too_large : ℕ → Error
  permutes_too_many : ℕ → Error
  duplicate_index : ℕ → Error
  missing_index : ℕ → Error
  transforms_too_deep : ℕ → Error
  index_beyond_depth : ℕ → ℕ → Error
  invalid_type : Error
  invalid_size : ℕ → Error
  unsupported_transformation : ℕ → Error
  override_mismatch : Error
  not_in_graph : Error
  not_reached : Error
  code_preset : Error
  external : ℕ → Error

pub data Outcome {ℓ} (A : Type ℓ) : Type ℓ where
  ok : A → Outcome A
  err : Error → Outcome A
  panic : Outcome A
  out_of_fuel : Outcome A

infixl 5 ◌>>=◌ ◌>>◌
-- A step that does not return ends the function with what it did.
abbrev pub ◌>>=◌ {ℓ κ} : {A : Type ℓ} {B : Type κ} → Outcome A → (A → Outcome B) → Outcome B
out_of_fuel >>= next = out_of_fuel
panic >>= next = panic
err e >>= next = err e
ok a >>= next = next a

abbrev pub ◌>>◌ {ℓ} : {B : Type ℓ} → Outcome (Unit {0}) → Outcome B → Outcome B
first >> next = first >>= λ _. next

pub ok-injective {ℓ} : {A : Type ℓ} {a b : A} → ok a ≡ ok b → a ≡ b
ok-injective e = cc

-- If two steps in a row return, then so does each of them.
module _ {ℓ κ} {A : Type ℓ} {B : Type κ} where
  pub >>=-eq-ok :
      (first : Outcome A) (next : A → Outcome B) {b : B}
      → (first >>= next) ≡ ok b
      → (a : A) × (first ≡ ok a) × (next a ≡ ok b)
  >>=-eq-ok out_of_fuel next h = absurd (cc)
  >>=-eq-ok panic next h = absurd (cc)
  >>=-eq-ok (err e) next h = absurd (cc)
  >>=-eq-ok (ok a) next h = (a, refl, h)
