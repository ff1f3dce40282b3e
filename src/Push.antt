-- ===== src/Push.antt =====
-- specops.go: `PUSH` for each type of its argument, with the StackPushers, and `PUSHSelector`.
mod Tests
pub mod Value
use specops.Base.{
  ℤ, pos, negsuc, ℕ, zero, suc, ◌+◌, ◌-◌, ◌*◌, ◌/◌, Bool, true, false, Option, none, some, List, [],
  ◌∷◌, String, ltb, ◌==◌, if◌then◌else◌, take, drop, Outcome, ok, err, panic,
}
use specops.Splice.{LazyLocator, push_tag, push_tags}
use specops.Concat.{big_endian}
use specops.Code.{Bytecoder, raw, pusher, lazy_locator}

-- A value of a type that `PUSH` takes. An address has 20 bytes and a hash 32. A `uint256.Int` is its
-- number.
pub data Pushable : Type 0 where
  int : ℤ → Pushable
  uint64 : ℕ → Pushable
  one_byte : ℕ → Pushable
  byte_slice : List ℕ → Pushable
  address : List ℕ → Pushable
  hash : List ℕ → Pushable
  word : ℕ → Pushable
  text : String → Pushable
  jumpdest_tag : String → Pushable
  label_tag : String → Pushable
  texts : List String → Pushable
  jumpdest_tags : List String → Pushable
  label_tags : List String → Pushable

-- `bits.LeadingZeros64`: the bits above the highest one that is set; `n` bits are looked at.
unfoldable pub leading_zero_bits : ℕ → ℕ → ℕ
leading_zero_bits zero x = 0
leading_zero_bits (suc n) x = if x == 0 then suc n else leading_zero_bits n (x / 2)

unfoldable pub uint64_to_push : ℕ → List ℕ
unfolding big_endian leading_zero_bits
uint64_to_push p = if p == 0 then 0 ∷ [] else drop (leading_zero_bits 64 p / 8) (big_endian 8 p)

-- `PUSHBytes`.
abbrev pub push_bytes : List ℕ → Bytecoder
push_bytes bs = pusher bs

-- `word_bytes` is the `Bytes` method of uint256.Int.
module _ (word_bytes : ℕ → List ℕ) where
  abbrev pub word_to_push : ℕ → List ℕ
  word_to_push x = if x == 0 then 0 ∷ [] else word_bytes x

  abbrev pub many_tags : List String → Bytecoder
  many_tags [] = raw []
  many_tags (t ∷ ts) = lazy_locator (push_tags (t ∷ ts))

  abbrev pub many_bytes : List ℕ → Bytecoder
  many_bytes [] = raw []
  many_bytes (b ∷ bs) = push_bytes (b ∷ bs)

  -- An empty slice of any type gives `Raw{}`.
  unfoldable pub push : Pushable → Outcome Bytecoder
  unfolding uint64_to_push
  push (int (pos n)) = ok (pusher (uint64_to_push n))
  push (int (negsuc n)) = panic
  push (uint64 n) = ok (pusher (uint64_to_push n))
  push (one_byte b) = ok (push_bytes (b ∷ []))
  push (byte_slice bs) = ok (many_bytes bs)
  push (address bs) = ok (pusher bs)
  push (hash bs) = ok (pusher bs)
  push (word x) = ok (pusher (word_to_push x))
  push (text t) = ok (lazy_locator (push_tag t))
  push (jumpdest_tag t) = ok (lazy_locator (push_tag t))
  push (label_tag t) = ok (lazy_locator (push_tag t))
  push (texts ts) = ok (many_tags ts)
  push (jumpdest_tags ts) = ok (many_tags ts)
  push (label_tags ts) = ok (many_tags ts)

-- `keccak` is `crypto.Keccak256`.
abbrev pub push_selector : (List ℕ → List ℕ) → List ℕ → Bytecoder
push_selector keccak sig = push_bytes (take 4 (keccak sig))
