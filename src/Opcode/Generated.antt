-- ===== src/Opcode/Generated.antt =====
-- internal/opcopy/main.go: what the rows that are generated say of each opcode.
use specops.Base.{
  ℕ, zero, suc, ◌+◌, ◌-◌, ◌%◌, ◌^◌, ◌≡◌, ◌≢◌, not, ◌<◌, ◌≤◌, refl, ap, ◌∙◌, Bool, false, ◌||◌, ◌&&◌,
  ◌==◌, ==_iff, Bool-cases, inl, inr, Option, none, some, List, map, if◌then◌else◌, arith,
}
use specops.Opcode.{is_push, push0, jumpdest_op, dup1, swap1, upper_nibble}
use specops.Opcode.Table.{StackDelta, find_delta}
use specops.Opcode.Generator.{OpParams, collect, set_delta, generate, delta_range}

-- How many values the EVM takes from the stack for an opcode, and how many it puts there.
pub record Instructions : Type 0 where
  pub valid : ℕ → Bool
  pub pops : ℕ → ℕ
  pub pushes : ℕ → ℕ

-- go-ethereum's stack_table.go: the fewest values that an opcode needs, and the most with which the
-- stack of 1024 does not overflow.
abbrev pub stack_bounds : Instructions → ℕ → ℕ × ℕ
stack_bounds e o = (e.pops o, 1024 + e.pops o - e.pushes o)

-- DUPs are recorded with the value that they copy, and SWAPs with one that stays.
abbrev pub delta_of : Instructions → ℕ → StackDelta
delta_of e o =
    if upper_nibble o == dup1
    then record { pop = 1; push = 2 }
    else if upper_nibble o == swap1
    then record { pop = 1; push = 1 }
    else record { pop = e.pops o; push = e.pushes o }

module _ (e : Instructions) (modest : (o : ℕ) → e.pushes o ≤ 1024) where
  -- The bounds are undone, whatever the opcode.
  undone : (o p q : ℕ) → q ≤ 1024 → (1024 + p + 2 ^ 64 - (1024 + p - q)) % 2 ^ 64 ≡ q
  undone o p q h = omega arith

  abbrev row : OpParams → StackDelta
  row o = record { pop = o.pop; push = o.push }

  row-set_delta : (o : OpParams) → row (set_delta (stack_bounds e o.op) o) ≡ delta_of e o.op
  unfolding set_delta
  row-set_delta o = elim (Bool-cases (upper_nibble o.op == dup1)) [
    | inl y ↦ rw y refl
    | inr n ↦ elim (Bool-cases (upper_nibble o.op == swap1)) [
      | inl y ↦ rw n (rw y refl)
      | inr m ↦
          let u = undone o.op (e.pops o.op) (e.pushes o.op) (modest o.op) in
          rw n (rw m (ap (λ (q : ℕ). record { pop = e.pops o.op; push = q }) u))
    ]
  ]

  op-set_delta : (b : ℕ × ℕ) (o : OpParams) → (set_delta b o).op ≡ o.op
  unfolding set_delta
  op-set_delta (m, n) o = ground arith

  abbrev rows : ℕ → ℕ → List (ℕ × ℕ × ℕ)
  rows rounds i =
      delta_range (map (λ o. set_delta (stack_bounds e o.op) o) (collect e.valid rounds i))

  abbrev fresh : ℕ → OpParams
  fresh i = record {
    op = i;
    pop = 0;
    push = 0;
    special = (is_push i && not (i == push0)) || i == jumpdest_op;
  }

  -- What the row of an opcode, and the rows behind it, say of an opcode.
  abbrev found : ℕ → ℕ → Option StackDelta → Option StackDelta
  found i o later = if i == o then some (delta_of e i) else later

  rows-suc :
      (rounds i o : ℕ)
      → find_delta (rows (suc rounds) i) o ≡ (
          if e.valid i
          then found i o (find_delta (rows rounds (i + 1)) o)
          else find_delta (rows rounds (i + 1)) o)
  unfolding collect delta_range find_delta
  rows-suc rounds i o = elim (Bool-cases (e.valid i)) [
    | inl y ↦
        let f = fresh i in
        let d = row-set_delta f in
        let k = op-set_delta (stack_bounds e i) f in rw y (rw k (rw d refl))
    | inr n ↦ rw n refl
  ]

  before : (rounds i o : ℕ) → o < i → find_delta (rows rounds i) o ≡ none
  unfolding collect delta_range find_delta
  before zero i o h = refl
  before (suc r) i o h =
      let n : (i == o) ≡ false = ground arith in
      rows-suc r i o ∙ rw n (rw (before r (i + 1) o (omega arith)) (ground arith))

  within :
      (rounds i o : ℕ)
      → i ≤ o
      → o < i + rounds
      → find_delta (rows rounds i) o ≡ (if e.valid o then some (delta_of e o) else none)
  within zero i o h l = absurd (omega arith)
  within (suc r) i o h l = elim (Bool-cases (i == o)) [
    | inl y ↦
        let same : i ≡ o = (==_iff i o).0 y in
        rows-suc r i o ∙ rw y (rw same (rw (before r (o + 1) o (omega arith)) refl))
    | inr n ↦
        let b : i ≢ o = λ k. absurd (ground arith) in
        rows-suc r i o ∙ rw n (rw (within r (i + 1) o (omega arith) (omega arith)) (ground arith))
  ]

-- If no opcode pushes more than 1024 values, and the jump table has for every opcode the bounds
-- that go-ethereum derives from what the opcode pops and pushes, then the rows that the generator
-- gives hold nothing for a byte that is no opcode, (1, 2) for a DUP, (1, 1) for a SWAP, and for any
-- other opcode what it pops and pushes.
pub generate-Instructions :
    (e : Instructions) (o : ℕ)
    → ((k : ℕ) → e.pushes k ≤ 1024)
    → o < 256
    → find_delta (delta_range (generate e.valid (stack_bounds e))) o
      ≡ (if e.valid o then some (delta_of e o) else none)
unfolding generate
generate-Instructions e o m h = within e m 256 0 o (omega arith) (omega arith)
