-- ===== src/Transform/Swaps.antt =====
-- stack/transform.go: the edges of the search between nodes with the same values.
use specops.Base.{
  ℤ, pos, negsuc, ℕ, zero, suc, ◌+◌, ◌-◌, ◌≤◌, ◌<◌, ◌≡◌, refl, ap, sym, subst, ◌∙◌, Bool, true,
  false, Option, some, none, List, [], ◌∷◌, ◌++◌, map, inl, inr, ◌==◌, ◌&&◌, if◌then◌else◌, arith,
  length, leb, get_elem?, set, Bool-cases, All, All-append, Outcome, ok, panic, ◌>>=◌, >>=-eq-ok,
  ok-injective,
}
use specops.Opcode.{pop_op, dup1, swap1, upper_nibble, add_byte, sub_byte}
use specops.Transform.Node.{Node, apply, to_indices, swap_elems, same_node}
use specops.Transform.Bfs.{
  Graph, path_to, Round, reached, searching, follow, edges, change_edges, swap_edges, deltas,
  Deltas, index_of, head_is, forget,
}
use specops.Transform.Sound.{hex_value}
use specops.Transform.Counts.{count, deltas-zero, count-swap}
use specops.Transform.Short.{found, visit, follow-cons, no_swap17}

abbrev pub IsSwap : ℕ → Type 0
IsSwap o = (0x90 ≤ o) × (o < 0xa0)

-- The same values, as often.
unfoldable pub Same : Node → Node → Type 0
Same m n = (j : ℕ) → count j (map hex_value m) ≡ count j (map hex_value n)

index_char : ℕ → Outcome ℕ
index_char c =
    if leb b'0' c && leb c b'9'
    then ok (sub_byte c b'0')
    else if leb b'a' c && leb c b'f'
    then ok (add_byte (sub_byte c b'a') 10)
    else panic

index_char-value : (c i : ℕ) → index_char c ≡ ok i → hex_value c ≡ i
unfolding index_char
index_char-value c i h = ground arith

to_indices-values : (n : Node) (is : List ℕ) → to_indices n ≡ ok is → map hex_value n ≡ is
unfolding to_indices index_char
to_indices-values [] is h = ok-injective h
to_indices-values (c ∷ n) is h =
    let p = >>=-eq-ok (index_char c) (λ i. to_indices n >>= λ js. ok (i ∷ js)) h in
    let q = >>=-eq-ok (to_indices n) (λ js. ok (p.0 ∷ js)) p.2 in
    let e : p.0 ∷ q.0 ≡ is = ok-injective q.2 in
    rw (← e) (λ k. index_char-value c p.0 p.1 k ∷ to_indices-values n q.0 q.1 k)

change : ℤ → Deltas → List ℕ → ℕ → List ℕ → List ℕ
change z d curr idx all = elim z [
  | pos zero ↦ change_edges d curr all
  | pos (suc _) ↦ elim (index_of idx 0 curr) [
    | none ↦ change_edges d curr all
    | some i ↦ add_byte dup1 i ∷ change_edges (forget idx d) curr all
  ]
  | negsuc _ ↦ elim (head_is idx curr) [
    | true ↦ pop_op ∷ change_edges (forget idx d) curr all
    | false ↦ change_edges d curr all
  ]
]

unchanged :
    (z : ℤ) (d : Deltas) (curr : List ℕ) (idx : ℕ) (all : List ℕ)
    → z ≡ pos 0
    → change z d curr idx all ≡ change_edges d curr all
unfolding change
unchanged (pos zero) d curr idx all e = refl
unchanged (pos (suc n)) d curr idx all e = absurd (cc)
unchanged (negsuc n) d curr idx all e = absurd (cc)

change_edges-none :
    (d : Deltas) (curr all : List ℕ) → ((j : ℕ) → d j ≡ pos 0) → change_edges d curr all ≡ []
unfolding change_edges change
change_edges-none d curr [] h = refl
change_edges-none d curr (idx ∷ all) h =
    unchanged (d idx) d curr idx all (h idx) ∙ change_edges-none d curr all h

pub edges-Same :
    (want curr : Node) (ops : List ℕ)
    → Same want curr
    → edges want curr ≡ ok ops
    → ops ≡ swap_edges 0 (length curr - 1)
unfolding edges Same
edges-Same want curr ops s h =
    let made : List ℕ → List ℕ → Outcome (List ℕ) =
      λ w c. ok (change_edges (deltas w c) c (w ++ c) ++ swap_edges 0 (length curr - 1)) in
    let p = >>=-eq-ok (to_indices want) (λ w. to_indices curr >>= made w) h in
    let q = >>=-eq-ok (to_indices curr) (made p.0) p.2 in
    let vw = to_indices-values want p.0 p.1 in
    let vc = to_indices-values curr q.0 q.1 in
    let zeros : (j : ℕ) → deltas p.0 q.0 j ≡ pos 0 =
      λ j. deltas-zero p.0 q.0 j (ap (count j) (sym vw) ∙ s j ∙ ap (count j) vc) in
    sym (ok-injective q.2)
    ∙ ap (λ l. l ++ swap_edges 0 (length curr - 1))
        (change_edges-none (deltas p.0 q.0) q.0 (p.0 ++ q.0) zeros)

swapped_Same :
    (want : Node) (c : ℕ) (n m : Node) (k : ℕ) (o : Option ℕ)
    → get_elem? n k ≡ o
    → (elim o as (λ _. Outcome ℕ) [ none ↦ panic | some b ↦ ok b ] >>= λ b. ok (b ∷ set n k c))
      ≡ ok m
    → Same want (c ∷ n)
    → Same want m
unfolding Same
swapped_Same want c n m k none e h s = absurd (cc)
swapped_Same want c n m k (some b) e h s = λ j.
    s j
    ∙ sym (count-swap hex_value j c b n k e)
    ∙ ap (λ (l : Node). count j (map hex_value l)) (ok-injective h)

swap-Same : (want n m : Node) (k : ℕ) → swap_elems n (suc k) ≡ ok m → Same want n → Same want m
swap-Same want [] m k h s = absurd (cc)
swap-Same want (c ∷ n) m k h s = swapped_Same want c n m k (get_elem? n k) refl h s

pub apply-Same :
    (want n m : Node) (i : ℕ)
    → i < 16
    → apply n (add_byte swap1 i) ≡ ok m
    → Same want n
    → Same want m
unfolding apply
apply-Same want n m i l h s =
    let a : (add_byte swap1 i == pop_op) ≡ false = ground arith in
    let b : (upper_nibble (add_byte swap1 i) == swap1) ≡ true = ground arith in
    let e : add_byte (sub_byte (add_byte swap1 i) swap1) 1 ≡ suc i = ground arith in
    let h' : swap_elems n (add_byte (sub_byte (add_byte swap1 i) swap1) 1) ≡ ok m =
      rw (a, b) at h in
    swap-Same want n m i (subst (λ k. swap_elems n k ≡ ok m) e h') s

-- Every node of the graph has the values that are wanted and a path of SWAPs.
abbrev pub IsSwapGraph : Node → Graph → Type 0
IsSwapGraph want = All (λ e. All IsSwap e.1 × Same want e.0)

unfoldable pub Good : Node → Round → Type 0
Good want (reached p) = All IsSwap p
Good want (searching g q) = IsSwapGraph want g

module _ (want curr : Node) (path : List ℕ) (ps : All IsSwap path) (s : Same want curr) where
  Rest : List ℕ → Round → Type 0
  Rest ops r =
      (g : Graph) (queue : List Node)
      → IsSwapGraph want g
      → follow want curr path ops g queue ≡ ok r
      → Good want r

  found-Good :
      (ops : List ℕ) (op : ℕ) (g : Graph) (queue : List Node) (next : Node) (r : Round) (b : Bool)
      → IsSwap op
      → Same want next
      → IsSwapGraph want g
      → Rest ops r
      → found want curr path ops op g queue next b ≡ ok r
      → Good want r
  unfolding Rest Good
  found-Good ops op g queue next r true o t i k w =
      subst (Good want) (ok-injective w) (All-append IsSwap path (op ∷ []) ps (o, tt))
  found-Good ops op g queue next r false o t i k w =
      k _ _ ((All-append IsSwap path (op ∷ []) ps (o, tt), t), i) w

  visit-Good :
      (ops : List ℕ) (op : ℕ) (g : Graph) (queue : List Node) (next : Node) (r : Round)
      (p : Option (List ℕ))
      → IsSwap op
      → Same want next
      → IsSwapGraph want g
      → Rest ops r
      → visit want curr path ops op g queue next p ≡ ok r
      → Good want r
  unfolding Rest
  visit-Good ops op g queue next r none o t i k w =
      found-Good ops op g queue next r (same_node next want) o t i k w
  visit-Good ops op g queue next r (some p) o t i k w = k g queue i w

  pub follow-Good :
      (i n : ℕ) (g : Graph) (queue : List Node) (r : Round)
      → i ≤ 16
      → IsSwapGraph want g
      → follow want curr path (swap_edges i n) g queue ≡ ok r
      → Good want r
  unfolding follow swap_edges Rest Good
  follow-Good i zero g queue r l h w = subst (Good want) (ok-injective w) h
  follow-Good i (suc n) g queue r l h w =
      let op = add_byte swap1 i in
      let p =
        >>=-eq-ok (apply curr op)
          (λ next. visit want curr path (swap_edges (i + 1) n) op g queue next (path_to next g))
          (sym (follow-cons want curr path op (swap_edges (i + 1) n) g queue) ∙ w) in
      elim (Bool-cases (i == 16)) [
        | inl y ↦
            let e : add_byte swap1 i ≡ 0xa0 = ground arith in
            absurd (no_swap17 curr p.0 (subst (λ k. apply curr k ≡ ok p.0) e p.1))
        | inr x ↦
            let u : i < 16 = ground arith in
            visit-Good (swap_edges (i + 1) n) op g queue p.0 r (path_to p.0 g) (ground arith)
              (apply-Same want curr p.0 i u p.1 s) h
              (λ g' q' h' w'. follow-Good (i + 1) n g' q' r (omega arith) h' w') p.2
      ]
