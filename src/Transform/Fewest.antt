-- ===== src/Transform/Fewest.antt =====
-- stack/transform.go: Permute takes as few SWAPs as possible.
use specops.Base.{
  ℕ, zero, suc, ◌+◌, ◌-◌, ◌<◌, ◌≤◌, ◌≡◌, refl, ap, sym, subst, ◌∙◌, Bool, true, false, Option, none,
  some, List, [], ◌∷◌, ◌++◌, inl, inr, ◌==◌, ◌&&◌, ◌||◌, leb, arith, length, get_elem?, set, All,
  Outcome, ok, panic, ◌>>=◌, >>=-eq-ok, ok-injective, Bool-cases, if◌then◌else◌,
}
use specops.Opcode.{pop_op, swap1, upper_nibble, add_byte, sub_byte}
use specops.Transform.Node.{
  Node, node_from_indices, root_node, apply, apply_all, swap_elems, to_indices, count_from,
}
use specops.Transform.Bfs.{edges, swap_edges, change_edges, deltas, bfs}
use specops.Transform.Sound.{hex_char, Reaches}
use specops.Transform.Correct.{Occurs, permutation_size-IsPermutation}
use specops.Transform.Swaps.{IsSwap, Same, edges-Same, apply-Same}
use specops.Transform.Permuted.{root-Same, permute-IsSwap}
use specops.Transform.Shortest.{Walk, stop, go, bfs-shortest}
use specops.Transform.{Transformation, permute, permutation_size, overriden, transform_bytecode}

-- A character that stands for an index.
abbrev is_hex : ℕ → Bool
is_hex c = (leb b'0' c && leb c b'9') || (leb b'a' c && leb c b'f')

abbrev IsHex : Node → Type 0
IsHex = All (λ c. is_hex c ≡ true)

IsHex-set : (n : Node) (i v : ℕ) → IsHex n → is_hex v ≡ true → IsHex (set n i v)
IsHex-set [] i v h e = tt
IsHex-set (c ∷ n) zero v (h, hs) e = (e, hs)
IsHex-set (c ∷ n) (suc i) v (h, hs) e = (h, IsHex-set n i v hs e)

IsHex-get : (n : Node) (i v : ℕ) → IsHex n → get_elem? n i ≡ some v → is_hex v ≡ true
IsHex-get [] i v h e = absurd (cc)
IsHex-get (c ∷ n) zero v (h, hs) e = let z : c ≡ v = cc in subst (λ (x : ℕ). is_hex x ≡ true) z h
IsHex-get (c ∷ n) (suc i) v (h, hs) e = IsHex-get n i v hs e

get-length : (n : Node) (i v : ℕ) → get_elem? n i ≡ some v → i < length n
get-length [] i v e = absurd (cc)
get-length (c ∷ n) zero v e = omega arith
get-length (c ∷ n) (suc i) v e = omega (arith, get-length n i v e)

hex_char-hex : (i c : ℕ) → hex_char i ≡ ok c → is_hex c ≡ true
hex_char-hex i c h = ground arith

node_from_indices-IsHex : (is : List ℕ) (n : Node) → node_from_indices is ≡ ok n → IsHex n
unfolding node_from_indices
node_from_indices-IsHex [] n h = subst IsHex (ok-injective h) tt
node_from_indices-IsHex (i ∷ is) n h =
    let p = >>=-eq-ok (hex_char i) (λ c. node_from_indices is >>= λ m. ok (c ∷ m)) h in
    let q = >>=-eq-ok (node_from_indices is) (λ m. ok (p.0 ∷ m)) p.2 in
    subst IsHex (ok-injective q.2) (hex_char-hex i p.0 p.1, node_from_indices-IsHex is q.0 q.1)

index_char : ℕ → Outcome ℕ
index_char c =
    if leb b'0' c && leb c b'9'
    then ok (sub_byte c b'0')
    else if leb b'a' c && leb c b'f'
    then ok (add_byte (sub_byte c b'a') 10)
    else panic

index_char-ok : (c : ℕ) → is_hex c ≡ true → (i : ℕ) × (index_char c ≡ ok i)
unfolding index_char
index_char-ok c h = elim (Bool-cases (leb b'0' c && leb c b'9')) [
  | inl y ↦ (sub_byte c b'0', rw y refl)
  | inr n ↦ (
    add_byte (sub_byte c b'a') 10,
    let e : (leb b'a' c && leb c b'f') ≡ true = rw n at h in rw n (rw e refl),
  )
]

to_indices-ok : (n : Node) → IsHex n → (is : List ℕ) × (to_indices n ≡ ok is)
unfolding to_indices index_char
to_indices-ok [] h = ([], refl)
to_indices-ok (c ∷ n) (h, hs) =
    let (i, e) = index_char-ok c h in
    let (is, f) = to_indices-ok n hs in
    (
      i ∷ is,
      ap (λ (o : Outcome ℕ). o >>= λ x. to_indices n >>= λ xs. ok (x ∷ xs)) e
          ∙ ap (λ (o : Outcome (List ℕ)). o >>= λ xs. ok (i ∷ xs)) f,
    )

edges-ok :
    (want curr : Node) → IsHex want → IsHex curr → (ops : List ℕ) × (edges want curr ≡ ok ops)
unfolding edges
edges-ok want curr w c =
    let (a, e) = to_indices-ok want w in
    let (b, f) = to_indices-ok curr c in
    (change_edges (deltas a b) b (a ++ b) ++ swap_edges 0 (length curr - 1), rw e (rw f refl))

Occurs-swap_edges : (i j n : ℕ) → j ≤ i → i < j + n → Occurs (add_byte swap1 i) (swap_edges j n)
unfolding swap_edges
Occurs-swap_edges i j zero l u = absurd (omega arith)
Occurs-swap_edges i j (suc n) l u = elim (Bool-cases (i == j)) [
  | inl y ↦ let e : i ≡ j = ground arith in inl (ap (add_byte swap1) e)
  | inr x ↦ inr (Occurs-swap_edges i (j + 1) n (ground arith) (omega arith))
]

-- What a SWAP needs, and that it keeps the characters.
Swapped : Node → ℕ → Node → Type 0
Swapped n i m = (suc i < length n) × IsHex m

swap_elems-Swapped : (n m : Node) (i : ℕ) → IsHex n → swap_elems n (suc i) ≡ ok m → Swapped n i m
unfolding Swapped
swap_elems-Swapped [] m i h e = absurd (cc)
swap_elems-Swapped (c ∷ n) m i h e = by_get (get_elem? n i) refl e
  where
    by_get :
        (o : Option ℕ)
        → get_elem? n i ≡ o
        → (elim o as (λ _. Outcome ℕ) [ none ↦ panic | some b ↦ ok b ] >>= λ b. ok (b ∷ set n i c))
          ≡ ok m
        → (suc i < suc (length n)) × IsHex m
    by_get none a w = absurd (cc)
    by_get (some b) a w = (
      omega (arith, get-length n i b a),
      subst IsHex (ok-injective w) (IsHex-get n i b h.1 a, IsHex-set n i c h.1 h.0),
    )

apply-Swapped :
    (n m : Node) (i : ℕ) → i < 16 → IsHex n → apply n (add_byte swap1 i) ≡ ok m → Swapped n i m
unfolding apply
apply-Swapped n m i l x h =
    let a : (add_byte swap1 i == pop_op) ≡ false = ground arith in
    let b : (upper_nibble (add_byte swap1 i) == swap1) ≡ true = ground arith in
    let e : add_byte (sub_byte (add_byte swap1 i) swap1) 1 ≡ suc i = ground arith in
    let h' : swap_elems n (add_byte (sub_byte (add_byte swap1 i) swap1) 1) ≡ ok m =
      rw (a, b) at h in
    swap_elems-Swapped n m i x (subst (λ k. swap_elems n k ≡ ok m) e h')

-- SWAPs that lead to the wanted node walk along the edges of the search.
Walk-swaps :
    (want n : Node) (swaps : List ℕ)
    → IsHex want
    → IsHex n
    → Same want n
    → All IsSwap swaps
    → apply_all n swaps ≡ ok want
    → Walk want n (length swaps)
unfolding apply_all Swapped
Walk-swaps want n [] w h s a e = stop (ok-injective e)
Walk-swaps want n (o ∷ os) w h s (a, later) e =
    let p = >>=-eq-ok (apply n o) (λ m. apply_all m os) e in
    let i = o - 0x90 in
    let l : i < 16 = omega arith in
    let z : o ≡ add_byte swap1 i = omega arith in
    let f : apply n (add_byte swap1 i) ≡ ok p.0 = subst (λ (k : ℕ). apply n k ≡ ok p.0) z p.1 in
    let (u, v) = apply-Swapped n p.0 i l h f in
    let (ops, g) = edges-ok want n w h in
    let c : ops ≡ swap_edges 0 (length n - 1) = edges-Same want n ops s g in
    let d : Occurs (add_byte swap1 i) ops =
      subst (λ (x : List ℕ). Occurs (add_byte swap1 i) x) (sym c)
        (Occurs-swap_edges i 0 (length n - 1) (omega arith) (omega arith)) in
    go ops (add_byte swap1 i) g d f
      (Walk-swaps want p.0 os w v (apply-Same want n p.0 i l f s) later p.2)

-- If Permute compiles without overriding ops, then its opcodes are all SWAP1 to SWAP16, and no list
-- of these that takes the node in order to the node of the indices is shorter.
pub permute-fewest :
    (is out swaps : List ℕ)
    → transform_bytecode (permute is) ≡ ok out
    → All IsSwap swaps
    → Reaches (length is) is swaps
    → All IsSwap out × (length out ≤ length swaps)
unfolding transform_bytecode root_node
permute-fewest is out swaps h a (root, want, r, w, e) =
    let found : Transformation × ℕ → Outcome (List ℕ) =
      λ t. if length t.0.override == 0 then bfs t.0.indices t.1 else overriden t.0 in
    let q = >>=-eq-ok (permutation_size (permute is)) found h in
    let (n, t, p) = permutation_size-IsPermutation (permute is) q.0.0 q.0.1 q.1 in
    let b : bfs is (length is) ≡ ok out = rw (t, n) at q.2 in
    (
      permute-IsSwap is out h,
      bfs-shortest is (length is) out root want (length swaps) b r w (
          Walk-swaps want root swaps (node_from_indices-IsHex is want w)
            (node_from_indices-IsHex (count_from 0 (length is)) root r)
            (root-Same is root want p r w) a e),
    )
