-- ===== src/Compile/Executed.antt =====
-- compile.go: the check of the stack depth in `Code.Compile`, against the EVM, which wants more values
-- for a DUP or a SWAP than the check does.
use specops.Base.{
  ℕ, zero, suc, ◌+◌, ◌-◌, ◌<◌, ◌≡◌, refl, ap, Bool, true, false, none, some, List, [], ◌∷◌, ◌⊎◌,
  arith, length, ok, if◌then◌else◌, ltb, leb, ◌&&◌, ◌||◌, not, ◌==◌, Bool-cases, inl, inr, le→ltb,
}
use specops.Opcode.Table.{StackDelta, stack_delta, stack_deltas, find_delta}
use specops.Compile.{scan, uint_mod}
use specops.Compile.Depth.{immediates, Runs, scan-Runs}

-- How the execution of bytes ends, in their order, as if none jumped or halted.
pub data Ending : Type 0 where
  at_depth : ℕ → Ending
  reaches_below : ℕ → Ending  -- at a DUP or SWAP whose value is below the bottom of the stack
  underflows : ℕ → Ending  -- at another opcode that pops more than there is
  invalid : ℕ → Ending

-- DUP1 to DUP16, which want 1 to 16 values, and SWAP1 to SWAP16, which want 2 to 17.
abbrev pub is_dup : ℕ → Bool
is_dup o = leb 0x80 o && leb o 0x8f

abbrev pub is_swap : ℕ → Bool
is_swap o = leb 0x90 o && leb o 0x9f

-- The opcodes from a depth on, with `skip` immediate bytes ahead. DUPs and SWAPs are those of the EVM,
-- the others pop and push what stackDeltas says.
unfoldable pub execute : List ℕ → ℕ → ℕ → Ending
execute [] skip d = at_depth d
execute (op ∷ bs) (suc skip) d = execute bs skip d
execute (op ∷ bs) zero d =
    let dup = execute bs 0 (d + 1) in
    let swap = execute bs 0 d in
    let other = λ (x : StackDelta). execute bs (immediates op) (d - x.pop + x.push) in
    if is_dup op
    then (if ltb d (op - 0x7f) then reaches_below op else dup)
    else if is_swap op
    then (if ltb d (op - 0x8e) then reaches_below op else swap)
    else elim (stack_delta op) [
      | none ↦ invalid op
      | some x ↦ if ltb d x.pop then underflows op else other x
    ]

-- The rows of DUPs and SWAPs.
copies : List (ℕ × ℕ × ℕ) → Bool
copies [] = true
copies ((k, a, b) ∷ t) =
    (not (is_dup k) || (a == 1 && b == 2)) && ((not (is_swap k) || (a == 1 && b == 1)) && copies t)

copies_table : copies stack_deltas ≡ true
unfolding stack_deltas copies
copies_table = refl

find-copies :
    (t : List (ℕ × ℕ × ℕ)) (o : ℕ) (x : StackDelta)
    → copies t ≡ true
    → find_delta t o ≡ some x
    → (is_dup o ≡ true → (x.pop ≡ 1) × (x.push ≡ 2))
      × (is_swap o ≡ true → (x.pop ≡ 1) × (x.push ≡ 1))
unfolding find_delta copies
find-copies [] o x m h = absurd (cc)
find-copies ((k, a, b) ∷ t) o x m h = elim (Bool-cases (k == o)) [
  | inl y ↦
      let h' : some (record { pop = a; push = b }) ≡ some x = rw y at h in
      let p : a ≡ x.pop = cc in
      let q : b ≡ x.push = cc in
      (λ d. (ground arith, ground arith), λ d. (ground arith, ground arith))
  | inr n ↦ find-copies t o x (ground arith) (rw n at h)
]

stack_delta-copies :
    (o : ℕ) (x : StackDelta)
    → stack_delta o ≡ some x
    → (is_dup o ≡ true → (x.pop ≡ 1) × (x.push ≡ 2))
      × (is_swap o ≡ true → (x.pop ≡ 1) × (x.push ≡ 1))
unfolding stack_delta
stack_delta-copies o x h = find-copies stack_deltas o x copies_table h

-- The execution ends at the depth, or at a DUP or SWAP.
abbrev pub EndsAt : ℕ → Ending → Type 0
EndsAt d' r =
    (r ≡ at_depth d') ⊎ ((op : ℕ) × ((is_dup op || is_swap op) ≡ true) × (r ≡ reaches_below op))

guarded :
    (d' op : ℕ) (b : Bool) (later : Ending)
    → (is_dup op || is_swap op) ≡ true
    → EndsAt d' later
    → EndsAt d' (if b then reaches_below op else later)
guarded d' op true later c h = inr (op, c, refl)
guarded d' op false later c h = h

Runs-EndsAt : (bs : List ℕ) (skip d d' : ℕ) → Runs bs skip d d' → EndsAt d' (execute bs skip d)
unfolding execute
Runs-EndsAt [] skip d d' h = inl (ap at_depth h)
Runs-EndsAt (op ∷ bs) (suc skip) d d' h = Runs-EndsAt bs skip d d' h
Runs-EndsAt (op ∷ bs) zero d d' (x, e, p, r) =
    let (dups, swaps) = stack_delta-copies op x e in
    elim (Bool-cases (is_dup op)) [
      | inl y ↦
          let (a, b) = dups y in
          let none_left : immediates op ≡ 0 = ground arith in
          let depth : d - x.pop + x.push ≡ d + 1 = omega arith in
          let r' : Runs bs 0 (d + 1) d' = rw (none_left, depth) at r in
          rw y (guarded d' op (ltb d (op - 0x7f)) _ (rw y refl) (Runs-EndsAt bs 0 (d + 1) d' r'))
      | inr n ↦ elim (Bool-cases (is_swap op)) [
        | inl y ↦
            let (a, b) = swaps y in
            let none_left : immediates op ≡ 0 = ground arith in
            let depth : d - x.pop + x.push ≡ d = omega arith in
            let r' : Runs bs 0 d d' = rw (none_left, depth) at r in
            rw n (
              rw y
                (guarded d' op (ltb d (op - 0x8e)) _ (rw n (rw y refl)) (Runs-EndsAt bs 0 d d' r')))
        | inr m ↦ rw n (
            rw m (
              rw e
                (rw (le→ltb d x.pop p) (Runs-EndsAt bs (immediates op) (d - x.pop + x.push) d' r))))
      ]
    ]

-- On bytes that are not longer than the room left below 2 ^ 64, if the check of the bytes ends with
-- a depth then executing the opcodes in their order, immediates skipped and as if none jumped or
-- halted, where DUPs and SWAPs want the values that the EVM wants and the others pop and push what
-- stackDeltas says, ends at that depth, or stops at a DUP or SWAP whose value is below the bottom
-- of the stack; no other opcode underflows and none is invalid.
pub scan-EndsAt :
    (bs : List ℕ) (skip d d' : ℕ)
    → d + length bs < uint_mod
    → scan bs skip d ≡ ok d'
    → EndsAt d' (execute bs skip d)
scan-EndsAt bs skip d d' l h = Runs-EndsAt bs skip d d' (scan-Runs bs skip d d' l h)
