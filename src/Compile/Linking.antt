-- ===== src/Compile/Linking.antt =====
-- compile.go: what it means that bytes are a program's items, linked, and the splices of a program
-- that is read to its end.
use specops.Base.{
  ok, ℕ, ◌+◌, ◌*◌, ◌≤◌, ◌<◌, ◌≡◌, refl, ap, sym, subst, ◌∙◌, false, Option, none, some, List, [],
  ◌∷◌, ◌++◌, ◌⊎◌, map, String, length, All, ok, ◌>>=◌,
}
use specops.Splice.{LazyLocator, Splice, resolve, is_push_size}
use specops.Splice.Need.{splice}
use specops.Concat.{SpliceConcat, reserve, expand}
use specops.Concat.Pass.{content, names}
use specops.Concat.Reserve.{IsFresh, EndsInNil, IsKnown}
use specops.Concat.Names.{Contents, IsIndex, Distinct}
use specops.Concat.Grow.{read_splice, HasOps, IsReading, index_untagged, Distinct-snoc}
use specops.Concat.Locate.{Located, located, locates}
use specops.Concat.Linked.{Writes}
use specops.Compile.Reading.{Item, byte, lazily}

-- `out` consists, from the byte `at`, of the items: a byte stands for itself, and an op for the code
-- that `Writes` describes, with the locations that `loc` gives.
abbrev pub Links : (String → Option ℕ) → ℕ → List Item → List ℕ → Type 0
Links loc at [] out = out ≡ []
Links loc at (byte b ∷ is) out = (rest : List ℕ) × (out ≡ b ∷ rest) × Links loc (at + 1) is rest
Links loc at (lazily l ∷ is) out =
    (code : List ℕ) × (rest : List ℕ) × (out ≡ code ++ rest)
    × Writes loc at (some l) code
    × Links loc (at + length code) is rest

-- The most bytes of an item: two for each tag.
abbrev pub widest : List Item → ℕ
widest [] = 0
widest (byte b ∷ is) = 1 + widest is
widest (lazily l ∷ is) = 1 + 2 * length (names (some l)) + widest is

abbrev pub AllOps : (LazyLocator → Type 0) → List Item → Type 0
AllOps P [] = Unit
AllOps P (byte b ∷ is) = AllOps P is
AllOps P (lazily l ∷ is) = P l × AllOps P is

abbrev pub StartsWithByte : List Item → Type 0
StartsWithByte [] = ⊥
StartsWithByte (byte b ∷ is) = Unit
StartsWithByte (lazily l ∷ is) = ⊥

-- No `pushSize`; less than 64 KiB; and no table of several tags, or a byte before the first tag.
pub record IsPlain (is : List Item) : Type 0 where
  pub no_sizes : AllOps (λ l. is_push_size (some l) ≡ false) is
  pub short : widest is < 65535
  pub tables : StartsWithByte is ⊎ AllOps (λ l. length (names (some l)) ≤ 1) is

unfoldable pub whole : Contents → List ℕ → Contents
whole cs buf = cs ++ (buf, none) ∷ []

same-content :
    (cs : Contents) (buf : List ℕ)
    → map content (read_splice cs ++ splice buf none none [] 0 ∷ []) ≡ whole cs buf
unfolding whole
same-content [] buf = refl
same-content ((b, op) ∷ cs) buf = ap (◌∷◌ (b, op)) (same-content cs buf)

All-IsFresh :
    (cs : Contents) (buf : List ℕ) → All IsFresh (read_splice cs ++ splice buf none none [] 0 ∷ [])
All-IsFresh [] buf = (record { no_tags = refl; no_offset = refl; no_bytes = refl }, tt)
All-IsFresh ((b, op) ∷ cs) buf =
    (record { no_tags = refl; no_offset = refl; no_bytes = refl }, All-IsFresh cs buf)

ends-EndsInNil :
    (cs : Contents) (buf : List ℕ)
    → HasOps cs
    → EndsInNil (read_splice cs ++ splice buf none none [] 0 ∷ [])
ends-EndsInNil [] buf h = (refl, tt)
ends-EndsInNil ((b, none) ∷ cs) buf ((l, e), h) = absurd (cc)
ends-EndsInNil ((b, some m) ∷ cs) buf (_, h) = (tt, ends-EndsInNil cs buf h)

-- What the splices of a state hold, as the conditions of the three passes ask for it.
module _ (s : SpliceConcat) (cs : Contents) (buf : List ℕ) (r : IsReading s cs buf) where
  contents-eq : map content s.splices ≡ whole cs buf
  contents-eq = ap (map content) r.shape ∙ same-content cs buf

  pub whole-IsIndex : IsIndex s.all_tags (whole cs buf)
  unfolding whole
  whole-IsIndex t = index_untagged t buf none cs s.all_tags refl r.index

  pub whole-Distinct : Distinct (whole cs buf)
  unfolding whole
  whole-Distinct = Distinct-snoc cs buf none r.distinct (λ t m. absurd (cc))

  pub finished-Located :
      (t : SpliceConcat)
      → (reserve s >>= expand) ≡ ok t
      → Located s.all_tags (whole cs buf) t.splices
  finished-Located t h =
      subst (λ k. Located s.all_tags k t.splices) contents-eq
        (located s (subst (All IsFresh) (sym r.shape) (All-IsFresh cs buf))
          (subst EndsInNil (sym r.shape) (ends-EndsInNil cs buf r.ops)) t h).1

  -- With known names, `reserve` and `expand` return.
  pub finished_locates :
      (All (λ c. (ks : List ℕ) × (resolve s.all_tags (names c.1) ≡ ok ks)) (map content s.splices)
        → All (IsKnown s.all_tags) s.splices)
      → All (λ c. (ks : List ℕ) × (resolve s.all_tags (names c.1) ≡ ok ks)) (whole cs buf)
      → (out : List Splice) × ((reserve s >>= expand) ≡ ok (record s { splices = out }))
        × Located s.all_tags (whole cs buf) out
  finished_locates f k =
      let (out, w, at) =
        locates s (subst (All IsFresh) (sym r.shape) (All-IsFresh cs buf))
          (subst EndsInNil (sym r.shape) (ends-EndsInNil cs buf r.ops))
          (f (subst (All _) (sym contents-eq) k)) in
      (out, w, subst (λ u. Located s.all_tags u out) contents-eq at)
