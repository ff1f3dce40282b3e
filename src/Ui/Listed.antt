-- ===== src/Ui/Listed.antt =====
-- evmdebug/ui.go: the list of the code is the code's instructions, and code that ends within the
-- immediates of a PUSH makes `populateCode` panic.
use specops.Base.{
  ℕ, zero, suc, ◌+◌, ◌-◌, ◌≡◌, ◌<◌, ◌≤◌, refl, sym, ap, subst, ◌∙◌, true, false, ◌&&◌, ◌==◌, leb,
  ltb, Bool-cases, List, [], ◌∷◌, ◌++◌, append-nil, append_assoc, inl, inr, ◌⊎◌, length,
  length-append, length-drop, take, drop, All, Outcome, ok, panic, ◌>>=◌, arith,
}
use specops.Opcode.{push0, is_push}
use specops.Ui.{
  Slice, slice, instruction, end_of_code, Listing, add_line, code_loop, no_lines, populate_code,
}
use specops.Ui.Code.{
  immediates_of, Instruction, IsWhole, bytes_of, lines_of, positions, part, code_loop-round,
}

too_far : (a b n : ℕ) → n < b → (leb a b && leb b n) ≡ false
too_far a b n h = ground arith

abbrev last_round : List ℕ → ℕ → List ℕ → Listing → Outcome Listing
last_round done o bs l =
    slice (length done + 1) (length done + 1 + (o - push0)) (part (done ++ (o ∷ bs)) [])
    >>= λ (s : Slice).
        code_loop (part (done ++ (o ∷ bs)) []) bs (length done + 1) (o - push0)
          (add_line (length done) (instruction o s.elements) l)

last_round-panics :
    (done : List ℕ) (o : ℕ) (bs : List ℕ) (l : Listing)
    → length bs < o - push0
    → last_round done o bs l ≡ panic
last_round-panics done o bs l w =
    let n : length (done ++ (o ∷ bs)) < length done + 1 + (o - push0) =
      omega (arith, length-append done (o ∷ bs)) in
    rw (append-nil (done ++ (o ∷ bs)))
      (rw (too_far (length done + 1) (length done + 1 + (o - push0)) _ n) refl)

code_loop-cut :
    (done : List ℕ) (o : ℕ) (bs : List ℕ) (l : Listing)
    → length bs < immediates_of o
    → code_loop (part (done ++ (o ∷ bs)) []) (o ∷ bs) (length done) 0 l ≡ panic
unfolding code_loop
code_loop-cut done o bs l w =
    let p : is_push o ≡ true = ground arith in
    let z : (o == push0) ≡ false = ground arith in
    let n : length bs < o - push0 = ground arith in rw z (rw p (last_round-panics done o bs l n))

abbrev listed : ℕ → List Instruction → Listing → Listing
listed n is l = record {
  lines = l.lines ++ lines_of is;
  pc_to_item = l.pc_to_item ++ positions n (length l.lines) is;
}

listed-nil : (n : ℕ) (l : Listing) → listed n [] l ≡ l
listed-nil n l = rw (append-nil l.lines) (rw (append-nil l.pc_to_item) refl)

listed-cons :
    (n o : ℕ) (bs : List ℕ) (is : List Instruction) (l : Listing)
    → listed (n + 1 + length bs) is (add_line n (instruction o bs) l) ≡ listed n ((o, bs) ∷ is) l
listed-cons n o bs is l = rw (append_assoc l.lines (instruction o bs ∷ []) (lines_of is)) (
    rw
      (append_assoc l.pc_to_item ((n, length l.lines) ∷ [])
        (positions (n + 1 + length bs) (length (l.lines ++ instruction o bs ∷ [])) is))
      (rw (length-append l.lines (instruction o bs ∷ [])) refl))

-- The loop over whole instructions.
code_loop-whole :
    (code done : List ℕ) (n : ℕ) (is : List Instruction) (rest : List ℕ) (l : Listing)
    → code ≡ done ++ (bytes_of is ++ rest)
    → n ≡ length done
    → All IsWhole is
    → code_loop (part code []) (bytes_of is ++ rest) n 0 l
      ≡ code_loop (part code []) rest (n + length (bytes_of is)) 0 (listed n is l)
code_loop-whole code done n [] rest l c e w =
    let z : n + 0 ≡ n = omega arith in rw z (rw (listed-nil n l) refl)
code_loop-whole code done n ((o, bs) ∷ is) rest l c e w =
    let later = bytes_of is ++ rest in
    let a : (bs ++ bytes_of is) ++ rest ≡ bs ++ later = append_assoc bs (bytes_of is) rest in
    let b : (done ++ (o ∷ bs)) ++ later ≡ done ++ (o ∷ (bs ++ later)) =
      append_assoc done (o ∷ bs) later in
    let c' : code ≡ done ++ (o ∷ (bs ++ later)) = c ∙ ap (λ (x : List ℕ). done ++ (o ∷ x)) a in
    let first : code_loop (part code []) (o ∷ (bs ++ later)) n 0 l
        ≡ code_loop (part code []) later (n + 1 + length bs) 0 (add_line n (instruction o bs) l) =
      rw c' (rw e (code_loop-round done o bs later l w.0)) in
    let m : n + 1 + length bs ≡ length (done ++ (o ∷ bs)) =
      omega (arith, length-append done (o ∷ bs)) in
    let step =
      code_loop-whole code (done ++ (o ∷ bs)) (n + 1 + length bs) is rest
        (add_line n (instruction o bs) l) (c' ∙ sym b) m w.1 in
    let k : n + 1 + length bs + length (bytes_of is) ≡ n + suc (length (bs ++ bytes_of is)) =
      omega (arith, length-append bs (bytes_of is)) in
    ap (λ (x : List ℕ). code_loop (part code []) (o ∷ x) n 0 l) a
    ∙ first
    ∙ step
    ∙ ap
        (λ (x : ℕ).
          code_loop (part code []) rest x 0
            (listed (n + 1 + length bs) is (add_line n (instruction o bs) l)))
        k
    ∙ ap (code_loop (part code []) rest (n + suc (length (bs ++ bytes_of is))) 0)
        (listed-cons n o bs is l)

-- Code is whole instructions, and perhaps a PUSH with some of its immediates.
data Decoded : List ℕ → Type 0 where
  whole :
      (is : List Instruction) (code : List ℕ) → All IsWhole is → bytes_of is ≡ code → Decoded code
  cut :
      (is : List Instruction) (o : ℕ) (bs code : List ℕ)
      → All IsWhole is
      → length bs < immediates_of o
      → bytes_of is ++ (o ∷ bs) ≡ code
      → Decoded code

length-take : (n : ℕ) (bs : List ℕ) → n ≤ length bs → length (take n bs) ≡ n
length-take zero bs h = refl
length-take (suc n) [] h = absurd (omega arith)
length-take (suc n) (b ∷ bs) h = ap suc (length-take n bs (omega arith))

take-drop : (n : ℕ) (bs : List ℕ) → take n bs ++ drop n bs ≡ bs
take-drop zero bs = refl
take-drop (suc n) [] = refl
take-drop (suc n) (b ∷ bs) = ap (◌∷◌ b) (take-drop n bs)

behind :
    (o : ℕ) (bs rest : List ℕ)
    → length bs ≡ immediates_of o
    → Decoded rest
    → Decoded (o ∷ (bs ++ rest))
behind o bs rest w (whole is code a e) = whole ((o, bs) ∷ is) _ (w, a) (rw e refl)
behind o bs rest w (cut is p cs code a l e) =
    cut ((o, bs) ∷ is) p cs _ (w, a) l (rw (append_assoc bs (bytes_of is) (p ∷ cs)) (rw e refl))

decoded : (fuel : ℕ) (code : List ℕ) → length code < fuel → Decoded code
decoded zero code h = absurd (omega arith)
decoded (suc fuel) [] h = whole [] [] tt refl
decoded (suc fuel) (o ∷ os) h = elim (Bool-cases (ltb (length os) (immediates_of o))) [
  | inl few ↦ cut [] o os _ tt (ground arith) refl
  | inr all ↦
      let n : immediates_of o ≤ length os = ground arith in
      subst (λ (x : List ℕ). Decoded (o ∷ x)) (take-drop (immediates_of o) os)
        (behind o (take (immediates_of o) os) (drop (immediates_of o) os)
          (length-take (immediates_of o) os n)
          (decoded fuel (drop (immediates_of o) os)
            (omega (arith, length-drop (immediates_of o) os))))
]

-- The code is whole instructions, or it is not and `populateCode` panics.
abbrev pub Listed : List ℕ → Type 0
Listed code =
    ((is : List Instruction) × All IsWhole is
      × (bytes_of is ≡ code)
      × (populate_code (part code [])
          ≡ ok (record { lines = lines_of is ++ end_of_code ∷ []; pc_to_item = positions 0 0 is })))
    ⊎ ((is : List Instruction) × (o : ℕ) × (bs : List ℕ) × All IsWhole is
        × (length bs < immediates_of o)
        × (bytes_of is ++ (o ∷ bs) ≡ code)
        × (populate_code (part code []) ≡ panic))

pub from_whole :
    (code : List ℕ) (is : List Instruction)
    → All IsWhole is
    → bytes_of is ≡ code
    → populate_code (part code [])
      ≡ ok (record { lines = lines_of is ++ end_of_code ∷ []; pc_to_item = positions 0 0 is })
unfolding populate_code
from_whole code is w e =
    let a : bytes_of is ++ [] ≡ bytes_of is = append-nil (bytes_of is) in
    let run = code_loop-whole code [] 0 is [] no_lines (sym e ∙ sym a) refl w in
    let all : code_loop (part code []) code 0 0 no_lines ≡ ok (listed 0 is no_lines) =
      ap (λ (x : List ℕ). code_loop (part code []) x 0 0 no_lines) (sym e ∙ sym a)
      ∙ run
      ∙ ended code (0 + length (bytes_of is)) (listed 0 is no_lines) in
    rw all refl
  where
    ended : (code : List ℕ) (n : ℕ) (l : Listing) → code_loop (part code []) [] n 0 l ≡ ok l
    ended code n l = refl

from_cut :
    (code : List ℕ) (is : List Instruction) (o : ℕ) (bs : List ℕ)
    → All IsWhole is
    → length bs < immediates_of o
    → bytes_of is ++ (o ∷ bs) ≡ code
    → populate_code (part code []) ≡ panic
unfolding populate_code
from_cut code is o bs w h e =
    let run = code_loop-whole code [] 0 is (o ∷ bs) no_lines (sym e) refl w in
    let z : 0 + length (bytes_of is) ≡ length (bytes_of is) = omega arith in
    let all : code_loop (part code []) code 0 0 no_lines ≡ panic =
      ap (λ (x : List ℕ). code_loop (part code []) x 0 0 no_lines) (sym e)
      ∙ run
      ∙ ap (λ (x : ℕ). code_loop (part code []) (o ∷ bs) x 0 (listed 0 is no_lines)) z
      ∙ ap
          (λ (x : List ℕ).
            code_loop (part x []) (o ∷ bs) (length (bytes_of is)) 0 (listed 0 is no_lines))
          (sym e)
      ∙ code_loop-cut (bytes_of is) o bs (listed 0 is no_lines) h in
    rw all refl

-- If code without spare capacity is whole instructions then populateCode lists these in order, with
-- the end, and maps the offset of each to its position; if it ends with a PUSH that lacks
-- immediates, which is the only other case, then populateCode panics.
pub populate_code-Listed : (code : List ℕ) → Listed code
populate_code-Listed code = by_parts code (decoded (length code + 1) code (omega arith))
  where
    by_parts : (code : List ℕ) → Decoded code → Listed code
    by_parts code (whole is _ w e) = inl (is, w, e, from_whole code is w e)
    by_parts code (cut is o bs _ w h e) = inr (is, o, bs, w, h, e, from_cut code is o bs w h e)
