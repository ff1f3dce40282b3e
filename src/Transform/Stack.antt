-- ===== src/Transform/Stack.antt =====
-- stack/transform.go: `node.apply` against the EVM's own POP, DUP and SWAP.
use specops.Base.{
  ℕ, zero, suc, ◌-◌, ◌≡◌, refl, ap, subst, ◌∙◌, Option, none, some, List, [], ◌∷◌, ◌++◌, map, arith,
  get_elem?, set, ltb, leb, ◌==◌, if◌then◌else◌, ◌&&◌, Outcome, ok, err, panic, ◌>>=◌, >>=-eq-ok,
  ok-injective, Bool-cases, inl, inr, unsupported_transformation,
}
use specops.Opcode.{pop_op, dup1, swap1, upper_nibble, add_byte, sub_byte}
use specops.Transform.Node.{Node, apply, apply_all, swap_elems, tail_of}

-- The EVM's stack, its top first.
abbrev pub pop {ℓ} : {A : Type ℓ} → List A → Option (List A)
pop [] = none
pop (x ∷ xs) = some xs

abbrev pub push_found {ℓ} : {A : Type ℓ} → Option A → List A → Option (List A)
push_found none xs = none
push_found (some x) xs = some (x ∷ xs)

abbrev pub exchange {ℓ} : {A : Type ℓ} → Option A → A → ℕ → List A → Option (List A)
exchange none x k xs = none
exchange (some y) x k xs = some (y ∷ set xs k x)

-- DUP1 is `dup 0`, and SWAP1 is `swap 0`.
abbrev pub dup {ℓ} : {A : Type ℓ} → ℕ → List A → Option (List A)
dup k xs = push_found (get_elem? xs k) xs

abbrev pub swap {ℓ} : {A : Type ℓ} → ℕ → List A → Option (List A)
swap k [] = none
swap k (x ∷ xs) = exchange (get_elem? xs k) x k xs

abbrev pub and_then {ℓ} : {A : Type ℓ} → Option A → (A → Option A) → Option A
and_then none f = none
and_then (some x) f = f x

abbrev pub run_op {ℓ} : {A : Type ℓ} → ℕ → List A → Option (List A)
run_op o xs =
    if o == 0x50
    then pop xs
    else if leb 0x80 o && ltb o 0x90
    then dup (o - 0x80) xs
    else if leb 0x90 o && ltb o 0xa0
    then swap (o - 0x90) xs
    else none

unfoldable pub run_all {ℓ} : {A : Type ℓ} → List ℕ → List A → Option (List A)
run_all [] xs = some xs
run_all (o ∷ os) xs = and_then (run_op o xs) (run_all os)

-- The case of DUP in `apply`.
abbrev copied : Node → ℕ → Outcome Node
copied n i = elim (get_elem? (0 ∷ n) i) [ none ↦ panic | some c ↦ ok (set (0 ∷ n) 0 c) ]

module _ {A : Type 0} (f : ℕ → A) (rest : List A) where
  get_elem?-values :
      (n : Node) (k c : ℕ) → get_elem? n k ≡ some c → get_elem? (map f n ++ rest) k ≡ some (f c)
  get_elem?-values [] k c h = absurd (cc)
  get_elem?-values (x ∷ n) zero c h = cc
  get_elem?-values (x ∷ n) (suc k) c h = get_elem?-values n k c h

  set-values :
      (n : Node) (k v c : ℕ)
      → get_elem? n k ≡ some c
      → set (map f n ++ rest) k (f v) ≡ map f (set n k v) ++ rest
  set-values [] k v c h = absurd (cc)
  set-values (x ∷ n) zero v c h = refl
  set-values (x ∷ n) (suc k) v c h = ap (◌∷◌ (f x)) (set-values n k v c h)

  pop-values : (n m : Node) → tail_of n ≡ ok m → pop (map f n ++ rest) ≡ some (map f m ++ rest)
  pop-values [] m h = absurd (cc)
  pop-values (c ∷ n) m h = ap (λ (l : Node). some (map f l ++ rest)) (ok-injective h)

  dup-values :
      (n m : Node) (k : ℕ) (o : Option ℕ)
      → get_elem? n k ≡ o
      → elim o as (λ _. Outcome Node) [ none ↦ panic | some c ↦ ok (c ∷ n) ] ≡ ok m
      → dup k (map f n ++ rest) ≡ some (map f m ++ rest)
  dup-values n m k none e h = absurd (cc)
  dup-values n m k (some c) e h =
      ap (λ r. push_found r (map f n ++ rest)) (get_elem?-values n k c e)
      ∙ ap (λ (l : Node). some (map f l ++ rest)) (ok-injective h)

  swap-values :
      (n m : Node) (k : ℕ)
      → swap_elems n (suc k) ≡ ok m
      → swap k (map f n ++ rest) ≡ some (map f m ++ rest)
  swap-values [] m k h = absurd (cc)
  swap-values (c ∷ n) m k h = go (get_elem? n k) refl h
    where
      go :
          (o : Option ℕ)
          → get_elem? n k ≡ o
          → (elim o as (λ _. Outcome ℕ) [ none ↦ panic | some b ↦ ok b ] >>= λ b.
              ok (b ∷ set n k c))
            ≡ ok m
          → swap k (f c ∷ (map f n ++ rest)) ≡ some (map f m ++ rest)
      go none e p = absurd (cc)
      go (some b) e p =
          ap (λ r. exchange r (f c) k (map f n ++ rest)) (get_elem?-values n k b e)
          ∙ ap (λ l. some (f b ∷ l)) (set-values n k c b e)
          ∙ ap (λ (l : Node). some (map f l ++ rest)) (ok-injective p)

  -- What `apply` does to an order of values is what the opcode does to the values.
  pub apply-run_op :
      (n m : Node) (o : ℕ) → apply n o ≡ ok m → run_op o (map f n ++ rest) ≡ some (map f m ++ rest)
  unfolding apply
  apply-run_op n m o h = elim (Bool-cases (o == pop_op)) [
    | inl y ↦ let h' : tail_of n ≡ ok m = rw y at h in rw y (pop-values n m h')
    | inr a ↦ elim (Bool-cases (upper_nibble o == swap1)) [
      | inl y ↦
          let i : add_byte (sub_byte o swap1) 1 ≡ suc (o - 0x90) = ground arith in
          let h' : swap_elems n (add_byte (sub_byte o swap1) 1) ≡ ok m = rw (a, y) at h in
          let r : run_op o (map f n ++ rest) ≡ swap (o - 0x90) (map f n ++ rest) = ground arith in
          r ∙ swap-values n m (o - 0x90) (subst (λ k. swap_elems n k ≡ ok m) i h')
      | inr b ↦ elim (Bool-cases (upper_nibble o == dup1)) [
        | inl y ↦
            let i : add_byte (sub_byte o dup1) 1 ≡ suc (o - 0x80) = ground arith in
            let h' : copied n (add_byte (sub_byte o dup1) 1) ≡ ok m = rw (a, b, y) at h in
            let r : run_op o (map f n ++ rest) ≡ dup (o - 0x80) (map f n ++ rest) = ground arith in
            r
            ∙ dup-values n m (o - 0x80) (get_elem? n (o - 0x80)) refl
                (subst (λ k. copied n k ≡ ok m) i h')
        | inr c ↦
            let h' : err (unsupported_transformation o) ≡ ok m = rw (a, b, c) at h in absurd (cc)
      ]
    ]
  ]

  pub apply_all-run_all :
      (os : List ℕ) (n m : Node)
      → apply_all n os ≡ ok m
      → run_all os (map f n ++ rest) ≡ some (map f m ++ rest)
  unfolding apply_all run_all
  apply_all-run_all [] n m h = ap (λ (l : Node). some (map f l ++ rest)) (ok-injective h)
  apply_all-run_all (o ∷ os) n m h =
      let q = >>=-eq-ok (apply n o) (λ k. apply_all k os) h in
      ap (λ r. and_then r (run_all os)) (apply-run_op n q.0 o q.1) ∙ apply_all-run_all os q.0 m q.2
