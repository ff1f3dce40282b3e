-- ===== src/Ui/Code.antt =====
-- evmdebug/ui.go: a round of the loop of `populateCode` on a whole instruction.
use specops.Base.{
  ℕ, suc, ◌+◌, ◌-◌, ◌≡◌, ◌≤◌, refl, sym, ap, subst, ◌∙◌, true, ◌&&◌, ◌==◌, leb, Bool-cases, List,
  [], ◌∷◌, ◌++◌, append-nil, append_assoc, inl, inr, if◌then◌else◌, length, length-append,
  take-append, drop, drop-append, ok, ◌>>=◌, arith,
}
use specops.Opcode.{push0, is_push}
use specops.Ui.{Slice, slice, CodeItem, instruction, Listing, add_line, code_loop}

-- How many immediates an opcode has.
abbrev pub immediates_of : ℕ → ℕ
immediates_of o = if is_push o then o - push0 else 0

abbrev pub Instruction : Type 0
Instruction = ℕ × List ℕ

abbrev pub IsWhole : Instruction → Type 0
IsWhole (o, bs) = length bs ≡ immediates_of o

abbrev pub bytes_of : List Instruction → List ℕ
bytes_of [] = []
bytes_of ((o, bs) ∷ is) = o ∷ bs ++ bytes_of is

abbrev pub lines_of : List Instruction → List CodeItem
lines_of [] = []
lines_of ((o, bs) ∷ is) = instruction o bs ∷ lines_of is

-- The offset of each instruction, with its position in the list.
abbrev pub positions : ℕ → ℕ → List Instruction → List (ℕ × ℕ)
positions i j [] = []
positions i j ((o, bs) ∷ is) = (i, j) ∷ positions (i + 1 + length bs) (j + 1) is

-- The skipped bytes change nothing.
code_loop-skip :
    (code : Slice) (bs rest : List ℕ) (i : ℕ) (l : Listing)
    → code_loop code (bs ++ rest) i (length bs) l ≡ code_loop code rest (i + length bs) 0 l
unfolding code_loop
code_loop-skip code [] rest i l = ap (λ (n : ℕ). code_loop code rest n 0 l) (omega arith)
code_loop-skip code (b ∷ bs) rest i l =
    let e : i + 1 + length bs ≡ i + suc (length bs) = omega arith in
    code_loop-skip code bs rest (i + 1) l ∙ ap (λ (n : ℕ). code_loop code rest n 0 l) e

abbrev pub part : List ℕ → List ℕ → Slice
part elements spare = record { elements = elements; spare = spare }

pub within : (a b n : ℕ) → a + b ≤ n → (leb a (a + b) && leb (a + b) n) ≡ true
within a b n h = ground arith

slice-part :
    (pre bs rest : List ℕ)
    → slice (length pre) (length pre + length bs) (part (pre ++ (bs ++ rest)) [])
      ≡ ok (part bs rest)
slice-part pre bs rest =
    let n : length pre + length bs - length pre ≡ length bs = omega arith in
    let a : drop (length pre) (pre ++ (bs ++ rest)) ≡ bs ++ rest = drop-append pre (bs ++ rest) in
    let b : drop (length pre + length bs) (pre ++ (bs ++ rest)) ≡ rest =
      ap (λ (k : ℕ). drop k (pre ++ (bs ++ rest))) (sym (length-append pre bs))
      ∙ ap (drop (length (pre ++ bs))) (sym (append_assoc pre bs rest))
      ∙ drop-append (pre ++ bs) rest in
    let w : leb (length pre) (length pre + length bs)
          && leb (length pre + length bs) (length (pre ++ (bs ++ rest)))
        ≡ true =
      within (length pre) (length bs) _
        (omega (arith, length-append pre (bs ++ rest), length-append bs rest)) in
    rw (append-nil (pre ++ (bs ++ rest)))
      (rw w (rw n (rw a (rw b (rw (take-append bs rest) refl)))))

-- The immediates at the place where the loop is.
slice-at :
    (done : List ℕ) (o : ℕ) (bs rest : List ℕ)
    → slice (length done + 1) (length done + 1 + length bs) (part (done ++ (o ∷ (bs ++ rest))) [])
      ≡ ok (part bs rest)
slice-at done o bs rest =
    let e : length (done ++ o ∷ []) ≡ length done + 1 = length-append done (o ∷ []) in
    let l : (done ++ o ∷ []) ++ (bs ++ rest) ≡ done ++ (o ∷ (bs ++ rest)) =
      append_assoc done (o ∷ []) (bs ++ rest) in
    subst
      (λ (x : ℕ).
        slice x (x + length bs) (part (done ++ (o ∷ (bs ++ rest))) []) ≡ ok (part bs rest))
      e
      (subst
        (λ (x : List ℕ).
          slice (length (done ++ o ∷ [])) (length (done ++ o ∷ []) + length bs) (part x [])
          ≡ ok (part bs rest))
        l (slice-part (done ++ o ∷ []) bs rest))

no_bytes : (bs : List ℕ) → length bs ≡ 0 → bs ≡ []
no_bytes [] e = refl
no_bytes (b ∷ bs) e = absurd (omega arith)

push0_plain : (o : ℕ) → (o == push0) ≡ true → immediates_of o ≡ 0
push0_plain o e = ground arith

module _ (done : List ℕ) (o : ℕ) (bs rest : List ℕ) (l : Listing)
    (whole : length bs ≡ immediates_of o) where
  abbrev all_code : Slice
  all_code = part (done ++ (o ∷ (bs ++ rest))) []

  plain_round :
      immediates_of o ≡ 0
      → code_loop all_code
          (bs ++ rest)
          (length done + 1)
          0
          (add_line (length done) (instruction o []) l)
        ≡ code_loop all_code rest
            (length done + 1 + length bs)
            0
            (add_line (length done) (instruction o bs) l)
  plain_round z =
      let n : bs ≡ [] = no_bytes bs (whole ∙ z) in
      subst
        (λ (x : List ℕ).
          code_loop all_code (x ++ rest) (length done + 1) 0
            (add_line (length done) (instruction o []) l)
          ≡ code_loop all_code rest (length done + 1 + length x) 0
              (add_line (length done) (instruction o x) l))
        (sym n)
        (ap (λ (k : ℕ). code_loop all_code rest k 0 (add_line (length done) (instruction o []) l))
          (omega arith))

  push_round :
      is_push o ≡ true
      → (slice (length done + 1) (length done + 1 + (o - push0)) all_code >>= λ (s : Slice).
          code_loop all_code
            (bs ++ rest)
            (length done + 1)
            (o - push0)
            (add_line (length done) (instruction o s.elements) l))
        ≡ code_loop all_code rest
            (length done + 1 + length bs)
            0
            (add_line (length done) (instruction o bs) l)
  push_round p =
      let n : o - push0 ≡ length bs = ground arith in
      rw n (
        rw (slice-at done o bs rest) (
          code_loop-skip all_code bs rest (length done + 1)
            (add_line (length done) (instruction o bs) l)))

  pub code_loop-round :
      code_loop all_code (o ∷ (bs ++ rest)) (length done) 0 l
      ≡ code_loop all_code rest
          (length done + 1 + length bs)
          0
          (add_line (length done) (instruction o bs) l)
  unfolding code_loop
  code_loop-round = elim (Bool-cases (o == push0)) [
    | inl z ↦ rw z (plain_round (push0_plain o z))
    | inr z ↦ rw z (elim (Bool-cases (is_push o)) [
      | inl p ↦ rw p (push_round p)
      | inr p ↦ rw p (plain_round (rw p refl))
    ])
  ]
