-- ===== src/Compile/Total.antt =====
-- compile.go: `Code.Compile` on programs whose tags are all marked.
use specops.Base.{
  ℕ, suc, ◌+◌, ◌<◌, ◌⊎◌, ap, arith, ◌≡◌, refl, sym, subst, ◌∙◌, Bool, true, false, ◌||◌, none, some,
  List, [], ◌∷◌, ◌++◌, map, String, All, ok, >>=-eq-ok, Bool-cases, inl, inr,
}
use specops.Splice.{is_push_size, Splice, TagMap, resolve}
use specops.Concat.{reserve, expand, bytes}
use specops.Concat.Pass.{content, names}
use specops.Concat.Reserve.{IsKnown}
use specops.Concat.Names.{Contents, marks, tag_index, IsIndex}
use specops.Concat.Returns.{IsSized, bytes_returns, IsKnown_of_marked}
use specops.Code.{Code, flatten}
use specops.Compile.{Compiling, start, compile_loop, compile}
use specops.Compile.Reading.{Item, byte, lazily, items, Program, compile_loop-Holds, start-Holds}
use specops.Compile.Unique.{Program-unique}
use specops.Compile.Linking.{widest, AllOps, whole, whole-IsIndex, finished_locates}
use specops.Compile.Correct.{All-contents, room-items}
use specops.Concat.Fit.{room, end-le-room}
use specops.Concat.Prepare.{end_of}

-- Does an item mark the place of the tag?
abbrev pub marked : String → List Item → Bool
marked t [] = false
marked t (byte b ∷ is) = marked t is
marked t (lazily l ∷ is) = marks t (some l) || marked t is

-- Every name that an op uses is marked, every table has from 1 to 16 tags, and there is no PUSHSize
-- unless the program is less than 64 KiB.
pub record IsClosed (is : List Item) : Type 0 where
  pub named : AllOps (λ l. All (λ t. marked t is ≡ true) (names (some l))) is
  pub sized : AllOps (λ l. IsSized (some l)) is
  pub short : AllOps (λ l. is_push_size (some l) ≡ false) is ⊎ (widest is < 65535)

marked-map :
    (t : String) (bs : List ℕ) (is : List Item) → marked t (map byte bs ++ is) ≡ marked t is
marked-map t [] is = refl
marked-map t (b ∷ bs) is = marked-map t bs is

index_of_marked_item :
    (t : String) (cs : Contents) (buf : List ℕ)
    → marked t (items cs buf) ≡ true
    → (k : ℕ) × (tag_index t (whole cs buf) ≡ some k)
unfolding whole items tag_index
index_of_marked_item t [] buf h = let z : false ≡ true = sym (marked_bytes t buf) ∙ h in absurd (cc)
  where
    marked_bytes : (t : String) (bs : List ℕ) → marked t (map byte bs) ≡ false
    marked_bytes t [] = refl
    marked_bytes t (b ∷ bs) = marked_bytes t bs
index_of_marked_item t ((b, none) ∷ cs) buf h =
    let (k, e) = index_of_marked_item t cs buf (sym (marked-map t b (items cs buf)) ∙ h) in
    (suc k, rw e refl)
index_of_marked_item t ((b, some l) ∷ cs) buf h = elim (Bool-cases (marks t (some l))) [
  | inl y ↦ (0, rw y refl)
  | inr n ↦
      let h' : marked t (items cs buf) ≡ true =
        rw n at (sym (marked-map t b (lazily l ∷ items cs buf)) ∙ h) in
      let (k, e) = index_of_marked_item t cs buf h' in (suc k, rw (n, e) refl)
]

All-marked :
    (cs : Contents) (buf : List ℕ) (ts : List String)
    → All (λ t. marked t (items cs buf) ≡ true) ts
    → All (λ t. (k : ℕ) × (tag_index t (whole cs buf) ≡ some k)) ts
All-marked cs buf [] h = tt
All-marked cs buf (t ∷ ts) (h, hs) = (index_of_marked_item t cs buf h, All-marked cs buf ts hs)

All-IsKnown :
    (known : TagMap) (sps : List Splice)
    → All (λ c. (ks : List ℕ) × (resolve known (names c.1) ≡ ok ks)) (map content sps)
    → All (IsKnown known) sps
All-IsKnown known [] h = tt
All-IsKnown known (sp ∷ sps) (h, hs) = (h, All-IsKnown known sps hs)

-- If the loop of Compile accepts the program, every tag that it pushes is marked by a JUMPDEST or
-- Label, each table has 1 to 16 tags, and it is less than 64 KiB unless it has no PUSHSize, then
-- Compile returns bytes: no error, no panic, and the fuel of `expand` is enough.
pub compile-returns :
    (c : Code) (done : Compiling) (is : List Item)
    → compile_loop (flatten c) start ≡ ok done
    → Program (flatten c) start is
    → IsClosed is
    → (out : List ℕ) × (compile c ≡ ok out)
unfolding compile bytes
compile-returns c done is read p closed =
    let (js, q, held) = compile_loop-Holds (flatten c) start done [] start-Holds read in
    let s = done.splices in
    let cs = held.complete in
    let same : is ≡ items cs held.buf =
      Program-unique (flatten c) start is js p q ∙ sym held.same in
    let closed' : IsClosed (items cs held.buf) = subst IsClosed same closed in
    let index = whole-IsIndex s cs held.buf held.reading in
    let known =
      All-contents _ (λ o. (ks : List ℕ) × (resolve s.all_tags (names o) ≡ ok ks))
        (IsKnown_of_marked s.all_tags (whole cs held.buf) [] index tt)
        (λ l h.
          IsKnown_of_marked s.all_tags (whole cs held.buf) (names (some l)) index
            (All-marked cs held.buf (names (some l)) h))
        cs held.buf closed'.named in
    let sized = All-contents _ IsSized tt (λ l h. h) cs held.buf closed'.sized in
    let (sps, fixed, at) =
      finished_locates s cs held.buf held.reading (All-IsKnown s.all_tags s.splices) known in
    let near : All (λ c. is_push_size c.1 ≡ false) (map content sps) ⊎ (end_of 0 sps < 65536) =
      elim closed'.short [
        | inl n ↦ inl (
            subst (All (λ c. is_push_size c.1 ≡ false)) (sym at.same)
              (All-contents _ (λ o. is_push_size o ≡ false) refl (λ l h. h) cs held.buf n))
        | inr w ↦
            let r : room (map content sps) ≡ widest (items cs held.buf) + 1 =
              ap room at.same ∙ room-items cs held.buf held.reading.ops in
            inr (omega (arith, end-le-room s.all_tags 0 sps at.ready at.named))
      ] in
    let (out, wrote) =
      bytes_returns s.all_tags sps at.ready (subst (IsIndex s.all_tags) (sym at.same) index)
        at.placed sps at.ready at.named (subst (All (λ c. IsSized c.1)) (sym at.same) sized) near in
    let (r, e, f) = >>=-eq-ok (reserve s) expand fixed in (out, rw read (rw e (rw f wrote)))
