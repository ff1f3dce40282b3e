-- ===== src/Concat/Prepare.antt =====
-- compile.go: `spliceConcat.reserve` over the splices of `Code.Compile`.
use specops.Base.{
  ℕ, ◌+◌, ◌≤◌, ◌<◌, ◌≡◌, refl, ap, sym, subst, ◌∙◌, Option, none, some, List, [], ◌∷◌, ◌++◌, map,
  inl, inr, arith, ◌==◌, length, All, All-append, ok, Bool-cases,
}
use specops.Splice.{
  LazyLocator, jumpdest, label, push_tag, push_tags, push_size, Splice, TagMap, resolve, offset_of,
  offsets, any_large, zeroes_of_one,
}
use specops.Splice.Need.{IsTagged, need, need-le, tags_need, tag_zeroes-le, size_need}
use specops.Splice.Growth.{Raised, Raised-refl, Grows-at, IsTight, IsTight-Grows}
use specops.Concat.{reserve_loop}
use specops.Concat.Pass.{TagOffset, Takes, IsReady, Placed, content, names, IsNamed}
use specops.Concat.Reserve.{
  IsFresh, IsKnown, EndsInNil, place, prepared, settled_splice, IsTagged-names, reserve_loop_ends,
}
use specops.Concat.Tight.{All-imp, append_snoc}

size_need-pos : (a b : Option ℕ) → 1 ≤ size_need a b
size_need-pos (some x) (some y) = ground arith
size_need-pos (some x) none = omega arith
size_need-pos none b = omega arith

tags_need-pos : (os : List (Option ℕ)) → 1 ≤ tags_need os
tags_need-pos os = omega (arith, tag_zeroes-le os)

Takes-need :
    (op : Option LazyLocator) (all : List Splice) (ks : List ℕ)
    → IsTagged op ks
    → Takes op (need op (offsets all ks))
unfolding any_large zeroes_of_one
Takes-need none all ks h = refl
Takes-need (some (jumpdest t)) all ks h = rw h refl
Takes-need (some (label t)) all ks h = refl
Takes-need (some (push_tag t)) all ks h = tags_need-pos (offsets all ks)
Takes-need (some (push_tags ts)) all ks h = tags_need-pos (offsets all ks)
Takes-need (some (push_size t u)) all ks (k, l, e) =
    rw e (size_need-pos (offset_of all k) (offset_of all l))

place-known :
    (op : Option LazyLocator) (pc : ℕ) (o : Option ℕ)
    → TagOffset (λ p. (x : ℕ) × (p ≡ some x)) op (place op pc o)
place-known none pc o = tt
place-known (some (jumpdest t)) pc o = (pc, refl)
place-known (some (label t)) pc o = (pc, refl)
place-known (some (push_tag t)) pc o = tt
place-known (some (push_tags ts)) pc o = tt
place-known (some (push_size t u)) pc o = tt

place-at :
    (op : Option LazyLocator) (pc : ℕ) (o : Option ℕ)
    → TagOffset (λ p. p ≡ some pc) op (place op pc o)
place-at none pc o = tt
place-at (some (jumpdest t)) pc o = refl
place-at (some (label t)) pc o = refl
place-at (some (push_tag t)) pc o = tt
place-at (some (push_tags ts)) pc o = tt
place-at (some (push_size t u)) pc o = tt

place-Raised : (op : Option LazyLocator) (pc : ℕ) → 0 < pc → Raised none (place op pc none)
place-Raised none pc h = tt
place-Raised (some (jumpdest t)) pc h = h
place-Raised (some (label t)) pc h = h
place-Raised (some (push_tag t)) pc h = tt
place-Raised (some (push_tags ts)) pc h = tt
place-Raised (some (push_size t u)) pc h = tt

-- The position behind the buffers and the reserved bytes of some splices.
unfoldable pub end_of : ℕ → List Splice → ℕ
end_of pc [] = pc
end_of pc (sp ∷ sps) = end_of (pc + length sp.buf + sp.reserved) sps

end_of-snoc :
    (pc : ℕ) (sps : List Splice) (sp : Splice)
    → end_of pc (sps ++ sp ∷ []) ≡ end_of pc sps + length sp.buf + sp.reserved
unfolding end_of
end_of-snoc pc [] sp = refl
end_of-snoc pc (x ∷ sps) sp = end_of-snoc (pc + length x.buf + x.reserved) sps sp

Placed-snoc :
    (pc : ℕ) (sps : List Splice) (sp : Splice)
    → Placed pc sps
    → TagOffset (λ o. o ≡ some (end_of pc sps + length sp.buf)) sp.op sp.offset
    → Placed pc (sps ++ sp ∷ [])
unfolding end_of
Placed-snoc pc [] sp p h = (h, tt)
Placed-snoc pc (x ∷ sps) sp (p, ps) h =
    (p, Placed-snoc (pc + length x.buf + x.reserved) sps sp ps h)

pub le-end_of : (pc : ℕ) (sps : List Splice) → pc ≤ end_of pc sps
unfolding end_of
le-end_of pc [] = omega arith
le-end_of pc (sp ∷ sps) = omega (arith, le-end_of (pc + length sp.buf + sp.reserved) sps)

none_reserved :
    (all : List Splice) (pc : ℕ) (sps : List Splice) → end_of pc sps ≡ 0 → All (IsTight all) sps
unfolding end_of
none_reserved all pc [] h = tt
none_reserved all pc (sp ∷ sps) h = (
  λ _. omega (arith, le-end_of (pc + length sp.buf + sp.reserved) sps),
  none_reserved all (pc + length sp.buf + sp.reserved) sps h,
)

IsTight-turn :
    (past : List Splice) (sp : Splice) (rest : List Splice) (pc : ℕ) (ks : List ℕ)
    → IsFresh sp
    → end_of 0 past ≡ pc
    → All (IsTight (past ++ sp ∷ rest)) past
    → All
        (IsTight (past ++ settled_splice past sp rest pc ks ∷ rest))
        (past ++ settled_splice past sp rest pc ks ∷ [])
IsTight-turn past sp rest pc ks f ends t =
    let at = pc + length sp.buf in
    let sp' = prepared at sp ks in
    let sp'' = settled_splice past sp rest pc ks in
    let all = past ++ sp'' ∷ rest in
    let own : IsTight (past ++ sp' ∷ rest) sp'' = λ _. omega arith in
    let g = Grows-at past rest sp' sp'' (Raised-refl sp'.offset) in
    let before : All (IsTight all) past = elim (Bool-cases (at == 0)) [
      | inl z ↦ none_reserved all 0 past (ground arith)
      | inr p ↦
          All-imp _ _ past
            (λ x. IsTight-Grows (past ++ sp ∷ rest) all x (
              Grows-at past rest sp sp'' (
                subst (λ o. Raised o (place sp.op at o)) (sym f.no_offset)
                  (place-Raised sp.op at (ground arith)))))
            t
    ] in
    All-append (IsTight all) past (sp'' ∷ []) before
      (IsTight-Grows (past ++ sp' ∷ rest) all sp'' g own, tt)

-- A change that `f` does not see.
pub map-swap {ℓ κ} :
    {A : Type ℓ} {B : Type κ} (f : A → B) (xs : List A) (x y : A) (ys : List A)
    → f x ≡ f y
    → map f (xs ++ x ∷ ys) ≡ map f (xs ++ y ∷ ys)
map-swap f [] x y ys e = ap (λ z. z ∷ map f ys) e
map-swap f (z ∷ xs) x y ys e = ap (◌∷◌ (f z)) (map-swap f xs x y ys e)

-- The state of the loop of `reserve`.
pub record Underway (known : TagMap) (contents : List (List ℕ × Option LazyLocator))
    (past rest : List Splice) (pc : ℕ) : Type 0 where
  pub same : map content (past ++ rest) ≡ contents
  pub ready : All IsReady past
  pub placed : Placed 0 past
  pub ends : end_of 0 past ≡ pc
  pub named : All (IsNamed known) past
  pub tight : All (IsTight (past ++ rest)) past

module _ (known : TagMap) (contents : List (List ℕ × Option LazyLocator)) where
  Underway-turn :
      (past : List Splice) (sp : Splice) (rest : List Splice) (pc : ℕ) (ks : List ℕ)
      → IsFresh sp
      → resolve known (names sp.op) ≡ ok ks
      → Underway known contents past (sp ∷ rest) pc
      → Underway known contents
          (past ++ settled_splice past sp rest pc ks ∷ [])
          rest
          (pc + length sp.buf + (settled_splice past sp rest pc ks).reserved)
  Underway-turn past sp rest pc ks f h q =
      let at = pc + length sp.buf in
      let sp' = prepared at sp ks in
      let sp'' = settled_splice past sp rest pc ks in
      let shape = IsTagged-names known sp.op ks h in
      let ready : IsReady sp'' = record {
        shape = shape;
        known = place-known sp.op at sp.offset;
        takes = Takes-need sp.op (past ++ sp' ∷ rest) ks shape;
        room = need-le sp.op (past ++ sp' ∷ rest) ks shape;
      } in
      record {
        ready = All-append IsReady past (sp'' ∷ []) q.ready (ready, tt);
        placed = Placed-snoc 0 past sp'' q.placed (
            subst (λ x. TagOffset (λ o. o ≡ some (x + length sp.buf)) sp.op sp''.offset)
              (sym q.ends) (place-at sp.op at sp.offset));
        ends = rw (end_of-snoc, q.ends) refl;
        named = All-append (IsNamed known) past (sp'' ∷ []) q.named (h, tt);
        tight =
            subst (λ st. All (IsTight st) (past ++ sp'' ∷ [])) (sym (append_snoc past sp'' rest))
              (IsTight-turn past sp rest pc ks f q.ends q.tight);
        same =
            ap (map content) (append_snoc past sp'' rest)
            ∙ map-swap content past sp'' sp rest refl
            ∙ q.same;
      }

  -- Over fresh splices with known names the loop of `reserve` returns.
  pub reserve_loop_prepares :
      (sps : List Splice)
      → All IsFresh sps
      → EndsInNil sps
      → All (IsKnown known) sps
      → map content sps ≡ contents
      → (out : List Splice) × (end : ℕ) × (reserve_loop known [] sps 0 ≡ ok out)
        × Underway known contents out [] end
  unfolding end_of
  reserve_loop_prepares sps f l n c =
      reserve_loop_ends known (Underway known contents) Underway-turn [] sps 0 f l n
        (record { same = c; ready = tt; placed = tt; ends = refl; named = tt; tight = tt })
