-- ===== src/Code/Tests.antt =====
-- Examples for `Fn` and `Code.flatten`.
use specops.Base.{ℕ, ◌-◌, ◌<◌, ◌≡◌, refl, List, [], ◌∷◌, length, get_elem?}
use specops.Code.{Bytecoder, op_code, code, Code, from_list, flatten, fn}
use specops.Code.Reversed.{fn_lem}

abbrev nested : Code
nested = from_list (
    op_code 1
    ∷ code (from_list (op_code 2 ∷ code (from_list (op_code 3 ∷ [])) ∷ []))
    ∷ op_code 4
    ∷ [])

nested_flat : flatten nested ≡ op_code 1 ∷ op_code 2 ∷ op_code 3 ∷ op_code 4 ∷ []
unfolding flatten
nested_flat = refl

abbrev three : List Bytecoder
three = op_code 1 ∷ op_code 2 ∷ op_code 3 ∷ []

three_reversed : fn three ≡ code (from_list (op_code 3 ∷ op_code 2 ∷ op_code 1 ∷ []))
unfolding fn
three_reversed = refl

fn_lem_example :
    (out : List Bytecoder) × (fn three ≡ code (from_list out))
    × (length out ≡ length three)
    × ((j : ℕ) → j < length three → get_elem? out j ≡ get_elem? three (length three - j - 1))
fn_lem_example = fn_lem three
