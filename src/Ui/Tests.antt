-- ===== src/Ui/Tests.antt =====
-- Code that is listed and code that is cut off, a small stack, and memory of two words.
use specops.Base.{◌≡◌, refl, [], ◌∷◌, ◌++◌, replicate, ok, panic}
use specops.Ui.{
  Slice, instruction, end_of_code, no_value, populate_code, populate_stack, populate_memory,
}
use specops.Ui.Code.{part}
use specops.Ui.Listed.{Listed, populate_code-Listed}
use specops.Ui.Stack.{values, populate_stack-values}
use specops.Ui.Memory.{memory_lines, populate_memory-lines}

-- PUSH1 0x60, STOP.
code_listed :
    populate_code (part (0x60 ∷ 0x60 ∷ 0 ∷ []) [])
    ≡ ok (record {
      lines = instruction 0x60 (0x60 ∷ []) ∷ instruction 0 [] ∷ end_of_code ∷ [];
      pc_to_item = (0, 0) ∷ (2, 1) ∷ [];
    })
unfolding populate_code
code_listed = refl

code_cut : populate_code (part (0 ∷ 0x61 ∷ 1 ∷ []) []) ≡ panic
unfolding populate_code
code_cut = refl

populate_code-Listed_example : Listed (0 ∷ 0x61 ∷ 1 ∷ [])
populate_code-Listed_example = populate_code-Listed (0 ∷ 0x61 ∷ 1 ∷ [])

populate_stack-values_example :
    populate_stack (7 ∷ 9 ∷ []) ≡ ok (replicate 14 no_value ++ values 1 (7 ∷ 9 ∷ []))
populate_stack-values_example = populate_stack-values (7 ∷ 9 ∷ [])

abbrev two_words : Slice
two_words = record { elements = replicate 64 0; spare = [] }

populate_memory-lines_example : populate_memory two_words ≡ memory_lines 2 two_words.elements
populate_memory-lines_example = populate_memory-lines two_words 2 refl
