-- ===== src/Concat/Locate.antt =====
-- compile.go: `spliceConcat.reserve` and then `spliceConcat.expand`.
use specops.Base.{
  ℕ, ◌+◌, ◌≡◌, refl, sym, ◌∙◌, Option, List, [], arith, All, ok, ◌>>=◌, >>=-eq-ok, ok-injective,
}
use specops.Splice.{LazyLocator, Splice, TagMap}
use specops.Concat.{SpliceConcat, reserve, reserve_loop, expand, most_bytes}
use specops.Concat.Pass.{IsReady, Placed, pass, content, IsNamed}
use specops.Concat.Expand.{IsSettled, pass-content, pass-IsNamed, expand_loop_ends}
use specops.Concat.Reserve.{IsFresh, IsKnown, EndsInNil, known_of_reserve}
use specops.Concat.Tight.{AllTight, tight-pass}
use specops.Concat.Prepare.{reserve_loop_prepares}
use mathlib.Core.List.{map}
use specops.Base.{inl, append-nil, subst}
use specops.Splice.Growth.{IsTight}

-- The splices once every tag is located.
pub record Located (known : TagMap) (contents : List (List ℕ × Option LazyLocator))
    (sps : List Splice) : Type 0 where
  pub same : map content sps ≡ contents
  pub ready : All IsReady sps
  pub placed : Placed 0 sps
  pub named : All (IsNamed known) sps
  pub settled : IsSettled sps sps
  pub tight : AllTight sps

abbrev Kept : TagMap → List (List ℕ × Option LazyLocator) → List Splice → Type 0
Kept known contents sps = (map content sps ≡ contents) × All (IsNamed known) sps × AllTight sps

module _ (s : SpliceConcat) (f : All IsFresh s.splices) (l : EndsInNil s.splices) where
  -- For splices as the loop of Compile leaves them (fresh, only the last without an op) whose names
  -- are all known, `reserve` and `expand` return; then the splices hold the same bytes and ops,
  -- every tag stands at the sum of what comes before it, no op needs more than is reserved for it,
  -- and an op other than a PUSHSize has reserved exactly what it needs.
  pub locates :
      All (IsKnown s.all_tags) s.splices
      → (out : List Splice) × ((reserve s >>= expand) ≡ ok (record s { splices = out }))
        × Located s.all_tags (map content s.splices) out
  unfolding reserve expand
  locates n =
      let p = reserve_loop_prepares s.all_tags (map content s.splices) s.splices f l n refl in
      let u = p.3 in
      let keep : (sps : List Splice)
          → All IsReady sps
          → Placed 0 sps
          → Kept s.all_tags (map content s.splices) sps
          → Kept s.all_tags (map content s.splices) (pass [] sps 0).0 =
        λ sps h q k. (
          pass-content [] sps 0 h ∙ k.0,
          pass-IsNamed s.all_tags [] sps 0 h k.1,
          tight-pass [] sps 0 0 h q (inl refl) k.2,
        ) in
      let r =
        expand_loop_ends (Kept s.all_tags (map content s.splices)) keep (most_bytes p.0 + 1) p.0
          u.ready u.placed
          (
            rw append-nil at u.same,
            u.named,
            subst (λ st. All (IsTight st) p.0) (append-nil p.0) u.tight,
          )
          (omega arith) in
      (
        r.0,
        rw (p.2) (rw (r.1) refl),
        record {
          same = r.5.0;
          ready = r.2;
          placed = r.3;
          named = r.5.1;
          settled = r.4;
          tight = r.5.2;
        },
      )

  -- If `reserve` and `expand` return, every name was known, and every tag is located.
  pub located :
      (t : SpliceConcat)
      → (reserve s >>= expand) ≡ ok t
      → (t.all_tags ≡ s.all_tags) × Located s.all_tags (map content s.splices) t.splices
  unfolding reserve
  located t h =
      let r = >>=-eq-ok (reserve s) expand h in
      let q =
        >>=-eq-ok (reserve_loop s.all_tags [] s.splices 0) (λ sps. ok (record s { splices = sps }))
          r.1 in
      let k = known_of_reserve s.all_tags [] s.splices 0 q.0 f l q.1 in
      let w = locates k in
      let e : ok (record s { splices = w.0 }) ≡ ok t = sym w.1 ∙ h in
      subst
        (λ (u : SpliceConcat).
          (u.all_tags ≡ s.all_tags) × Located s.all_tags (map content s.splices) u.splices)
        (ok-injective e) (refl, w.2)
