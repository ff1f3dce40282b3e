-- ===== src/Compile/Unique.antt =====
-- compile.go: the items of a program as a relation.
use specops.Base.{ℕ, ◌≡◌, ap, sym, subst, ◌∙◌, List, [], ◌∷◌, ◌++◌, map, Outcome, ok, ok-injective}
use specops.Code.{
  Bytecoder, op_code, raw, pusher, inverted, lazy_locator, set_depth, expect_depth, transformation,
  external, code,
}
use specops.Compile.{Compiling}
use specops.Compile.Reading.{Item, byte, Gives, Program}

same_bytes :
    (r : Outcome (List ℕ)) (is js : List Item)
    → (bs : List ℕ) × (r ≡ ok bs) × (is ≡ map byte bs)
    → (bs : List ℕ) × (r ≡ ok bs) × (js ≡ map byte bs)
    → is ≡ js
same_bytes r is js (bs, e, p) (cs, f, q) = p ∙ ap (map byte) (ok-injective (sym e ∙ f)) ∙ sym q

Gives-unique : (b : Bytecoder) (d : ℕ) (is js : List Item) → Gives b d is → Gives b d js → is ≡ js
Gives-unique (set_depth n) d is js g h = g ∙ sym h
Gives-unique (expect_depth n) d is js g h = g ∙ sym h
Gives-unique (inverted o) d is js (u, e, p) (v, f, q) =
    p ∙ ap (λ x. byte x ∷ []) (ok-injective (sym e ∙ f)) ∙ sym q
Gives-unique (lazy_locator l) d is js g h = g ∙ sym h
Gives-unique (raw bs) d is js g h = same_bytes _ is js g h
Gives-unique (op_code o) d is js g h = same_bytes _ is js g h
Gives-unique (pusher bs) d is js g h = same_bytes _ is js g h
Gives-unique (transformation t) d is js g h = same_bytes _ is js g h
Gives-unique (external r) d is js g h = same_bytes _ is js g h
Gives-unique (code k) d is js g h = same_bytes _ is js g h

pub Program-unique :
    (bs : List Bytecoder) (c : Compiling) (is js : List Item)
    → Program bs c is
    → Program bs c js
    → is ≡ js
Program-unique [] c is js p q = p ∙ sym q
Program-unique (b ∷ bs) c is js (h, r, k, w, g, e, p) (h', r', k', w', g', e', p') =
    let same : k ≡ k' = ok-injective (sym w ∙ w') in
    let rests : r ≡ r' = Program-unique bs k r r' p (subst (λ u. Program bs u r') (sym same) p') in
    e ∙ (λ i. Gives-unique b c.stack_depth h h' g g' i ++ rests i) ∙ sym e'
