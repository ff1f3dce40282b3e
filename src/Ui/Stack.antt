-- ===== src/Ui/Stack.antt =====
-- evmdebug/ui.go: the lines of the stack.
use specops.Base.{
  ℕ, zero, suc, ◌+◌, ◌-◌, ◌≡◌, ◌<◌, ◌≤◌, refl, sym, ap, ◌∙◌, true, ltb, Bool-cases, Option, none,
  some, List, [], ◌∷◌, ◌++◌, append-nil, append_assoc, inl, inr, length, length-append, take,
  replicate, get_elem?, Outcome, ok, panic, arith,
}
use specops.Ui.{StackItem, no_value, value, stack_back, stack_loop, pad_loop, populate_stack}

-- The values, the last one first, with their positions, from `n` on.
abbrev pub values : ℕ → List ℕ → List StackItem
values n [] = []
values n (x ∷ d) = values (n + 1) d ++ value n x ∷ []

values-snoc :
    (n : ℕ) (d : List ℕ) (x : ℕ) → values n (d ++ x ∷ []) ≡ value (n + length d) x ∷ values n d
values-snoc n [] x = let e : n ≡ n + 0 = omega arith in ap (λ (k : ℕ). value k x ∷ []) e
values-snoc n (y ∷ d) x =
    let e : n + 1 + length d ≡ n + suc (length d) = omega arith in
    rw (values-snoc (n + 1) d x)
      (ap (λ (k : ℕ). value k x ∷ (values (n + 1) d ++ value n y ∷ [])) e)

take-suc :
    (d : List ℕ) (k : ℕ)
    → k < length d
    → (x : ℕ) × (get_elem? d k ≡ some x) × (take (suc k) d ≡ take k d ++ x ∷ [])
take-suc [] k h = absurd (omega arith)
take-suc (y ∷ d) zero h = (y, refl, refl)
take-suc (y ∷ d) (suc k) h = let (x, a, b) = take-suc d k (omega arith) in (x, a, ap (◌∷◌ y) b)

length-take : (d : List ℕ) (k : ℕ) → k ≤ length d → length (take k d) ≡ k
length-take d zero h = refl
length-take [] (suc k) h = absurd (omega arith)
length-take (y ∷ d) (suc k) h = ap suc (length-take d k (omega arith))

abbrev found : Option ℕ → Outcome ℕ
found none = panic
found (some x) = ok x

stack_back-get :
    (d : List ℕ) (i k : ℕ) {x : ℕ}
    → suc k + i ≡ length d
    → get_elem? d k ≡ some x
    → stack_back d i ≡ ok x
stack_back-get d i k {x} h e =
    let a : ltb i (length d) ≡ true = ground arith in
    let b : length d - i - 1 ≡ k = omega arith in rw a (rw b (ap found e))

stack_loop-values :
    (d : List ℕ) (r i : ℕ) (items : List StackItem)
    → r + i ≡ length d
    → stack_loop d r i items ≡ ok (items ++ values 1 (take r d))
unfolding stack_loop
stack_loop-values d zero i items h = rw (append-nil items) refl
stack_loop-values d (suc k) i items h =
    let (x, a, b) = take-suc d k (omega arith) in
    let n : length d - i ≡ 1 + length (take k d) = omega (arith, length-take d k) in
    let later =
      stack_loop-values d k (i + 1) (items ++ value (length d - i) x ∷ []) (omega arith) in
    let e : (items ++ value (length d - i) x ∷ []) ++ values 1 (take k d)
        ≡ items ++ values 1 (take (suc k) d) =
      append_assoc items (value (length d - i) x ∷ []) (values 1 (take k d))
      ∙ ap (λ (m : ℕ). items ++ (value m x ∷ values 1 (take k d))) n
      ∙ ap (λ (m : List StackItem). items ++ m) (sym (values-snoc 1 (take k d) x))
      ∙ ap (λ (m : List ℕ). items ++ values 1 m) (sym b) in
    rw (stack_back-get d i k h a) (later ∙ ap (λ (m : List StackItem). ok m) e)

replicate-shift :
    (n : ℕ) (items : List StackItem)
    → replicate n no_value ++ (no_value ∷ items) ≡ no_value ∷ (replicate n no_value ++ items)
replicate-shift zero items = refl
replicate-shift (suc n) items = ap (◌∷◌ no_value) (replicate-shift n items)

pad_loop-replicate :
    (fuel : ℕ) (items : List StackItem)
    → 16 - length items < fuel
    → pad_loop fuel items ≡ ok (replicate (16 - length items) no_value ++ items)
unfolding pad_loop
pad_loop-replicate zero items h = absurd (omega arith)
pad_loop-replicate (suc fuel) items h = elim (Bool-cases (ltb (length items) 16)) [
  | inl few ↦
      let n : 16 - length items ≡ suc (16 - suc (length items)) = ground arith in
      rw few (
        pad_loop-replicate fuel (no_value ∷ items) (omega arith)
        ∙ ap (λ (m : List StackItem). ok m)
            (replicate-shift (16 - suc (length items)) items
              ∙ ap (λ (m : ℕ). replicate m no_value ++ items) (sym n)))
  | inr all ↦ let n : 16 - length items ≡ 0 = ground arith in rw all (rw n refl)
]

length-values : (n : ℕ) (d : List ℕ) → length (values n d) ≡ length d
length-values n [] = refl
length-values n (x ∷ d) =
    omega (arith, length-append (values (n + 1) d) (value n x ∷ []), length-values (n + 1) d)

take-all : (d : List ℕ) → take (length d) d ≡ d
take-all [] = refl
take-all (x ∷ d) = ap (◌∷◌ x) (take-all d)

-- populateStack lists the values of a stack, each with its position from the bottom, the first of
-- the stack in the last line, and above them as many empty lines as there are less than 16 values.
pub populate_stack-values :
    (d : List ℕ) → populate_stack d ≡ ok (replicate (16 - length d) no_value ++ values 1 d)
unfolding populate_stack
populate_stack-values d =
    let e : stack_loop d (length d) 0 [] ≡ ok (values 1 d) =
      stack_loop-values d (length d) 0 [] (omega arith)
      ∙ ap (λ (m : List ℕ). ok (values 1 m)) (take-all d) in
    rw e (
      pad_loop-replicate 17 (values 1 d) (omega arith)
      ∙ ap (λ (m : ℕ). ok (replicate (16 - m) no_value ++ values 1 d)) (length-values 1 d))
