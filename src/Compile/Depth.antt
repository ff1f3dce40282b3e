-- ===== src/Compile/Depth.antt =====
-- compile.go: the stack depth that `Code.Compile` tracks, and the depths that `stackDeltas` says.
use specops.Base.{
  ℕ, zero, suc, ◌+◌, ◌-◌, ◌≤◌, ◌<◌, ◌≡◌, refl, ap, sym, ◌∙◌, Bool, true, Option, none, some, List,
  [], ◌∷◌, arith, length, Outcome, ok, err, ◌==◌, if◌then◌else◌, ltb, ok-injective, Bool-cases, inl,
  inr, le→ltb, ltb→le, leb, ◌&&◌, invalid_opcode, stack_underflow,
}
use specops.Opcode.{is_push, push0}
use specops.Opcode.Table.{StackDelta, stack_delta, stack_deltas, find_delta}
use specops.Compile.{scan, add_delta, uint_mod}

-- No opcode of the table pushes more than one value more than it pops.
modest_rows : List (ℕ × ℕ × ℕ) → Bool
modest_rows [] = true
modest_rows ((k, a, b) ∷ t) = leb b (a + 1) && modest_rows t

-- The immediate bytes that follow an opcode.
abbrev pub immediates : ℕ → ℕ
immediates op = if is_push op then op - push0 else 0

-- Opcodes that pop and push what `stackDeltas` says lead from the depth `d`, with `skip` immediate bytes
-- ahead, to `d'`, and none pops more than there is.
abbrev pub Runs : List ℕ → ℕ → ℕ → ℕ → Type 0
Runs [] skip d d' = d ≡ d'
Runs (op ∷ bs) (suc skip) d d' = Runs bs skip d d'
Runs (op ∷ bs) zero d d' =
    (x : StackDelta) × (stack_delta op ≡ some x)
    × (x.pop ≤ d)
    × Runs bs (immediates op) (d - x.pop + x.push) d'

modest_table : modest_rows stack_deltas ≡ true
unfolding stack_deltas modest_rows
modest_table = refl

find-Modest :
    (t : List (ℕ × ℕ × ℕ)) (o : ℕ) (x : StackDelta)
    → modest_rows t ≡ true
    → find_delta t o ≡ some x
    → x.push ≤ x.pop + 1
unfolding find_delta modest_rows
find-Modest [] o x m h = absurd (cc)
find-Modest ((k, a, b) ∷ t) o x m h = elim (Bool-cases (k == o)) [
  | inl y ↦
      let h' : some (record { pop = a; push = b }) ≡ some x = rw y at h in
      let p : a ≡ x.pop = cc in let q : b ≡ x.push = cc in ground arith
  | inr n ↦ find-Modest t o x (ground arith) (rw n at h)
]

modest : (o : ℕ) (x : StackDelta) → stack_delta o ≡ some x → x.push ≤ x.pop + 1
unfolding stack_delta
modest o x h = find-Modest stack_deltas o x modest_table h

-- Without overflow, the wrapping sum is the sum.
add_delta-eq :
    (d : ℕ) (x : StackDelta)
    → x.pop ≤ d
    → x.push ≤ x.pop + 1
    → d + 1 < uint_mod
    → add_delta d x ≡ d - x.pop + x.push
add_delta-eq d x p q h = omega arith

-- The turn of an opcode, for what the table holds for it.
abbrev turn : ℕ → List ℕ → ℕ → Option StackDelta → Outcome ℕ
turn op bs d o = elim o [
  | none ↦ err (invalid_opcode op)
  | some x ↦
      if ltb d x.pop then err (stack_underflow d x.pop) else scan bs (immediates op) (add_delta d x)
]

scan-turn : (op : ℕ) (bs : List ℕ) (d : ℕ) → scan (op ∷ bs) 0 d ≡ turn op bs d (stack_delta op)
unfolding scan
scan-turn op bs d = refl

turn-ok :
    (op : ℕ) (bs : List ℕ) (d d' : ℕ) (o : Option StackDelta)
    → turn op bs d o ≡ ok d'
    → (x : StackDelta) × (o ≡ some x)
      × (x.pop ≤ d)
      × (scan bs (immediates op) (add_delta d x) ≡ ok d')
turn-ok op bs d d' none h = absurd (cc)
turn-ok op bs d d' (some x) h = elim (Bool-cases (ltb d x.pop)) [
  | inl y ↦ let z : err (stack_underflow d x.pop) ≡ ok d' = rw y at h in absurd (cc)
  | inr n ↦ (x, refl, ltb→le d x.pop n, rw n at h)
]

ok-turn :
    (op : ℕ) (bs : List ℕ) (d d' : ℕ) (x : StackDelta)
    → x.pop ≤ d
    → scan bs (immediates op) (add_delta d x) ≡ ok d'
    → turn op bs d (some x) ≡ ok d'
ok-turn op bs d d' x p h = rw (le→ltb d x.pop p) h

-- Without overflow, what the check accepts is such a run.
pub scan-Runs :
    (bs : List ℕ) (skip d d' : ℕ)
    → d + length bs < uint_mod
    → scan bs skip d ≡ ok d'
    → Runs bs skip d d'
unfolding scan
scan-Runs [] skip d d' l h = ok-injective h
scan-Runs (op ∷ bs) (suc skip) d d' l h = scan-Runs bs skip d d' (omega arith) h
scan-Runs (op ∷ bs) zero d d' l h =
    let (x, e, p, r) = turn-ok op bs d d' (stack_delta op) (sym (scan-turn op bs d) ∙ h) in
    let m = modest op x e in
    let s = add_delta-eq d x p m (omega arith) in
    (x, e, p, scan-Runs bs (immediates op) (d - x.pop + x.push) d' (omega (arith, m)) (rw s at r))

-- On bytes that are not longer than the room left below 2 ^ 64, if the opcodes, immediates skipped,
-- each pop no more than there is and so lead to some depth, when they pop and push what stackDeltas
-- says of them, then the check of the bytes accepts them and ends with that depth.
pub Runs-scan :
    (bs : List ℕ) (skip d d' : ℕ)
    → d + length bs < uint_mod
    → Runs bs skip d d'
    → scan bs skip d ≡ ok d'
unfolding scan
Runs-scan [] skip d d' l h = ap ok h
Runs-scan (op ∷ bs) (suc skip) d d' l h = Runs-scan bs skip d d' (omega arith) h
Runs-scan (op ∷ bs) zero d d' l (x, e, p, r) =
    let m = modest op x e in
    let s = add_delta-eq d x p m (omega arith) in
    let r' = Runs-scan bs (immediates op) (d - x.pop + x.push) d' (omega (arith, m)) r in
    scan-turn op bs d
    ∙ ap (turn op bs d) e
    ∙ ok-turn op bs d d' x p (ap (scan bs (immediates op)) s ∙ r')
