-- ===== src/Transform/Node.antt =====
-- stack/transform.go: `node`, an order of stack values as a string of hex characters, and what an
-- opcode does to it. A string is the list of its bytes.
use specops.Base.{
  ℕ, zero, suc, ◌+◌, none, some, List, [], ◌∷◌, ◌&&◌, ltb, leb, ◌==◌, if◌then◌else◌, Bool, true,
  false, get_elem?, set, Outcome, ok, err, panic, ◌>>=◌, unsupported_transformation,
}
use specops.Opcode.{pop_op, dup1, swap1, upper_nibble, add_byte, sub_byte}

abbrev pub Node : Type 0
Node = List ℕ

unfoldable pub node_from_indices : List ℕ → Outcome Node
node_from_indices [] = ok []
node_from_indices (i ∷ is) = do
  c ←
      if ltb i 10
      then ok (add_byte b'0' i)
      else if ltb i 16
      then ok (sub_byte (add_byte b'a' i) 10)
      else panic
  n ← node_from_indices is
  ok (c ∷ n)

unfoldable pub to_indices : Node → Outcome (List ℕ)
to_indices [] = ok []
to_indices (c ∷ n) = do
  i ←
      if leb b'0' c && leb c b'9'
      then ok (sub_byte c b'0')
      else if leb b'a' c && leb c b'f'
      then ok (add_byte (sub_byte c b'a') 10)
      else panic
  is ← to_indices n
  ok (i ∷ is)

-- i, i + 1, …: `n` numbers.
unfoldable pub count_from : ℕ → ℕ → List ℕ
count_from i zero = []
count_from i (suc n) = i ∷ count_from (i + 1) n

unfoldable pub root_node : ℕ → Outcome Node
unfolding node_from_indices count_from
root_node size = node_from_indices (count_from 0 size)

-- out[0], out[i] = out[i], out[0]
abbrev pub swap_elems : Node → ℕ → Outcome Node
swap_elems out i = do
  a ← elim (get_elem? out 0) [ none ↦ panic | some a ↦ ok a ]
  b ← elim (get_elem? out i) [ none ↦ panic | some b ↦ ok b ]
  ok (set (set out 0 b) i a)

-- n[1:]
abbrev pub tail_of : Node → Outcome Node
tail_of [] = panic
tail_of (c ∷ n) = ok n

unfoldable pub apply : Node → ℕ → Outcome Node
apply n o =
    if o == pop_op
    then tail_of n
    else if upper_nibble o == swap1
    then swap_elems n (add_byte (sub_byte o swap1) 1)
    else if upper_nibble o == dup1
    then (let out = 0 ∷ n in
        elim (get_elem? out (add_byte (sub_byte o dup1) 1)) [
          | none ↦ panic
          | some c ↦ ok (set out 0 c)
        ])
    else err (unsupported_transformation o)

-- Applying the opcodes of a path in order.
unfoldable pub apply_all : Node → List ℕ → Outcome Node
unfolding apply
apply_all n [] = ok n
apply_all n (o ∷ os) = do m ← apply n o; apply_all m os

unfoldable pub same_node : Node → Node → Bool
same_node [] [] = true
same_node (a ∷ m) (b ∷ n) = a == b && same_node m n
same_node _ _ = false
