-- ===== src/Code/Flat.antt =====
-- compile.go: `Code.flatten`.
use specops.Base.{◌≡◌, refl, sym, List, [], ◌∷◌, ◌++◌, append_assoc, All, All-append}
use specops.Code.{
  Bytecoder, op_code, raw, pusher, inverted, lazy_locator, set_depth, expect_depth, transformation,
  external, code, Code, nil, cons, from_list, flatten, flatten_one,
}

abbrev pub IsLeaf : Bytecoder → Type 0
IsLeaf (code c) = ⊥
IsLeaf _ = Unit

mutual
  unfolding flatten flatten_one

  -- No holder is left.
  flatten-IsLeaf : (c : Code) → All IsLeaf (flatten c)
  flatten-IsLeaf nil = tt
  flatten-IsLeaf (cons b c) =
      All-append IsLeaf (flatten_one b) (flatten c) (flatten_one-IsLeaf b) (flatten-IsLeaf c)

  flatten_one-IsLeaf : (b : Bytecoder) → All IsLeaf (flatten_one b)
  flatten_one-IsLeaf (code c) = flatten-IsLeaf c
  flatten_one-IsLeaf (op_code o) = (tt, tt)
  flatten_one-IsLeaf (raw o) = (tt, tt)
  flatten_one-IsLeaf (pusher o) = (tt, tt)
  flatten_one-IsLeaf (inverted o) = (tt, tt)
  flatten_one-IsLeaf (lazy_locator o) = (tt, tt)
  flatten_one-IsLeaf (set_depth o) = (tt, tt)
  flatten_one-IsLeaf (expect_depth o) = (tt, tt)
  flatten_one-IsLeaf (transformation o) = (tt, tt)
  flatten_one-IsLeaf (external o) = (tt, tt)

flatten_leaf : (b : Bytecoder) → IsLeaf b → flatten_one b ≡ b ∷ []
unfolding flatten flatten_one
flatten_leaf (code c) h = absurd h
flatten_leaf (op_code o) h = refl
flatten_leaf (raw o) h = refl
flatten_leaf (pusher o) h = refl
flatten_leaf (inverted o) h = refl
flatten_leaf (lazy_locator o) h = refl
flatten_leaf (set_depth o) h = refl
flatten_leaf (expect_depth o) h = refl
flatten_leaf (transformation o) h = refl
flatten_leaf (external o) h = refl

flatten_leaves : (bs : List Bytecoder) → All IsLeaf bs → flatten (from_list bs) ≡ bs
unfolding flatten flatten_one
flatten_leaves [] h = refl
flatten_leaves (b ∷ bs) (l, h) = rw (flatten_leaf b l, flatten_leaves bs h) refl

-- Flattening a program that has been flattened gives the same program.
pub flatten-flatten : (c : Code) → flatten (from_list (flatten c)) ≡ flatten c
flatten-flatten c = flatten_leaves (flatten c) (flatten-IsLeaf c)

flatten-append :
    (bs cs : List Bytecoder)
    → flatten (from_list (bs ++ cs)) ≡ flatten (from_list bs) ++ flatten (from_list cs)
unfolding flatten flatten_one
flatten-append [] cs = refl
flatten-append (b ∷ bs) cs =
    rw (flatten-append bs cs)
      (sym (append_assoc (flatten_one b) (flatten (from_list bs)) (flatten (from_list cs))))
