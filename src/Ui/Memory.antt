-- ===== src/Ui/Memory.antt =====
-- evmdebug/ui.go: the memory that `populateMemory` can list.
use specops.Base.{
  ℕ, zero, suc, ◌+◌, ◌-◌, ◌*◌, ◌≡◌, ◌<◌, ◌≤◌, refl, sym, ap, ◌∙◌, true, false, ◌&&◌, leb, ltb,
  Bool-cases, List, [], ◌∷◌, ◌++◌, inl, inr, length, length-append, take, take-append, drop,
  Outcome, ok, panic, arith,
}
use specops.Ui.{Slice, slice, memory_loop, populate_memory}

-- Memory of up to one word is listed; with more the second round panics.
abbrev pub memory_lines : ℕ → List ℕ → Outcome (List (ℕ × List ℕ))
memory_lines zero mem = ok []
memory_lines (suc zero) mem = ok ((0, mem) ∷ [])
memory_lines (suc (suc k)) mem = panic

take-prefix : (k : ℕ) (xs ys : List ℕ) → length xs ≡ k → take k (xs ++ ys) ≡ xs
take-prefix k xs ys e = ap (λ (m : ℕ). take m (xs ++ ys)) (sym e) ∙ take-append xs ys

-- What is left of a slice behind its end.
abbrev rest_of : Slice → Slice
rest_of mem = record {
  elements = [];
  spare = drop (length mem.elements) (mem.elements ++ mem.spare);
}

module _ (f : ℕ) (mem : Slice) (long : 32 ≤ length mem.elements) where
  first_slice :
      slice 0 32 mem
      ≡ ok (record {
        elements = take 32 (mem.elements ++ mem.spare);
        spare = drop 32 (mem.elements ++ mem.spare);
      })
  first_slice =
      let w : (leb 0 32 && leb 32 (length (mem.elements ++ mem.spare))) ≡ true =
        ground (arith, length-append mem.elements mem.spare) in
      rw w refl

  end_slice : slice (length mem.elements) (length mem.elements) mem ≡ ok (rest_of mem)
  end_slice =
      let n = length mem.elements in
      let w : (leb n n && leb n (length (mem.elements ++ mem.spare))) ≡ true =
        ground (arith, length-append mem.elements mem.spare) in
      let z : n - n ≡ 0 = omega arith in rw w (rw z refl)

  first_round :
      memory_loop (suc f) 0 (length mem.elements) mem []
      ≡ memory_loop f 32
          (length mem.elements)
          (rest_of mem)
          ((0, take 32 (mem.elements ++ mem.spare)) ∷ [])
  unfolding memory_loop
  first_round =
      let t : ltb 0 (length mem.elements) ≡ true = ground arith in
      rw t (rw first_slice (rw end_slice refl))

second_round :
    (f n : ℕ) (spare : List ℕ) (lines : List (ℕ × List ℕ))
    → 32 < n
    → memory_loop (suc f) 32 n (record { elements = []; spare = spare }) lines ≡ panic
unfolding memory_loop
second_round f n spare lines h =
    let t : ltb 32 n ≡ true = ground arith in
    let w : (leb n 0 && leb 0 (length spare)) ≡ false = ground arith in
    elim (Bool-cases (leb 32 32 && leb 32 (length spare))) [
      | inl y ↦ rw t (rw y (rw w refl))
      | inr y ↦ rw t (rw y refl)
    ]

ends_at :
    (f n : ℕ) (mem : Slice) (lines : List (ℕ × List ℕ))
    → n ≤ 32
    → memory_loop (suc f) 32 n mem lines ≡ ok lines
unfolding memory_loop
ends_at f n mem lines h = let t : ltb 32 n ≡ false = ground arith in rw t refl

no_words : (mem : Slice) → length mem.elements ≡ 0 → populate_memory mem ≡ ok []
unfolding populate_memory memory_loop
no_words mem e = rw e refl

-- For memory of whole words of 32 bytes, populateMemory lists nothing if there is none, one line
-- with the bytes if there is one word, and panics if there are more.
pub populate_memory-lines :
    (mem : Slice) (words : ℕ)
    → length mem.elements ≡ 32 * words
    → populate_memory mem ≡ memory_lines words mem.elements
unfolding populate_memory
populate_memory-lines mem zero h = no_words mem (omega arith)
populate_memory-lines mem (suc zero) h =
    let e : length mem.elements ≡ 32 = omega arith in
    let m : length mem.elements + 1 ≡ suc (suc 31) = omega arith in
    rw m (
      first_round (suc 31) mem (omega arith)
      ∙ ends_at 31 (length mem.elements) (rest_of mem) _ (omega arith)
      ∙ ap (λ (x : List ℕ). ok ((0, x) ∷ [])) (take-prefix 32 mem.elements mem.spare e))
populate_memory-lines mem (suc (suc k)) h =
    let m : length mem.elements + 1 ≡ suc (suc (length mem.elements - 1)) = omega arith in
    rw m (
      first_round (suc (length mem.elements - 1)) mem (omega arith)
      ∙ second_round (length mem.elements - 1) (length mem.elements) (rest_of mem).spare
          ((0, take 32 (mem.elements ++ mem.spare)) ∷ []) (omega arith))
