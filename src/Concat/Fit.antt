-- ===== src/Concat/Fit.antt =====
-- compile.go: the offsets of tags in programs that are short and push no sizes.
use specops.Base.{
  ℕ, ◌+◌, ◌*◌, ◌≤◌, ◌<◌, ◌≡◌, refl, sym, subst, ◌∙◌, true, false, Option, none, some, List, [], ◌∷◌,
  ◌⊎◌, inl, inr, map, String, arith, length, All, Bool-cases,
}
use specops.Splice.{
  LazyLocator, jumpdest, label, push_tag, push_tags, push_size, Splice, TagMap, is_push_size,
  any_large,
}
use specops.Concat.Pass.{TagOffset, IsReady, Placed, content, names, IsNamed}
use specops.Concat.Locate.{Located}
use specops.Concat.Encode.{Fits, HeadNotZero}
use specops.Concat.Prepare.{end_of, le-end_of}
use specops.Concat.Reserve.{length-resolve}
use specops.Concat.Names.{Contents, marks, location, IsIndex, resolved}
use specops.Concat.Link.{AllFit}

-- The most bytes that the splices can take: two for each tag.
unfoldable pub room : Contents → ℕ
room [] = 0
room ((b, op) ∷ cs) = length b + (1 + 2 * length (names op)) + room cs

-- Some byte stands before the first op.
abbrev pub StartsWithByte : Contents → Type 0
StartsWithByte [] = ⊥
StartsWithByte ((b, op) ∷ cs) = 0 < length b

-- The program has no `pushSize`; it has room below 64 KiB; and a table of several tags does not
-- start with a tag at the first byte, for there is none, or no tag is there.
pub record IsPlain (cs : Contents) : Type 0 where
  pub no_sizes : All (λ c. is_push_size c.1 ≡ false) cs
  pub short : room cs < 65536
  pub tables : StartsWithByte cs ⊎ All (λ c. length (names c.1) ≤ 1) cs

map-some-injective : (xs ys : List ℕ) → map some xs ≡ map some ys → xs ≡ ys
map-some-injective [] [] e = refl
map-some-injective [] (y ∷ ys) e = absurd (cc)
map-some-injective (x ∷ xs) [] e = absurd (cc)
map-some-injective (x ∷ xs) (y ∷ ys) e =
    let heads : x ≡ y = cc in
    let tails : map some xs ≡ map some ys = cc in λ i. heads i ∷ map-some-injective xs ys tails i

pub end-le-room :
    (known : TagMap) (pc : ℕ) (sps : List Splice)
    → All IsReady sps
    → All (IsNamed known) sps
    → end_of pc sps ≤ pc + room (map content sps)
unfolding end_of room
end-le-room known pc [] h n = omega arith
end-le-room known pc (sp ∷ sps) (h, hs) (n, ns) = omega (
  arith,
  h.room,
  length-resolve known (names sp.op) sp.tags n,
  end-le-room known (pc + length sp.buf + sp.reserved) sps hs ns,
)

marked_at :
    (t : String) (op : Option LazyLocator) (at : ℕ) (o : Option ℕ)
    → marks t op ≡ true
    → TagOffset (λ p. p ≡ some at) op o
    → o ≡ some at
marked_at t none at o m h = absurd (cc)
marked_at t (some (jumpdest u)) at o m h = h
marked_at t (some (label u)) at o m h = h
marked_at t (some (push_tag u)) at o m h = absurd (cc)
marked_at t (some (push_tags us)) at o m h = absurd (cc)
marked_at t (some (push_size u v)) at o m h = absurd (cc)

-- A location lies within the code.
location-bounds :
    (t : String) (pc : ℕ) (sps : List Splice) (x : ℕ)
    → Placed pc sps
    → location t sps ≡ some x
    → (pc ≤ x) × (x ≤ end_of pc sps)
unfolding location end_of
location-bounds t pc [] x p h = absurd (cc)
location-bounds t pc (sp ∷ sps) x (p, ps) h = elim (Bool-cases (marks t sp.op)) [
  | inl y ↦
      let at = marked_at t sp.op (pc + length sp.buf) sp.offset y p in
      let h' : sp.offset ≡ some x = rw y at h in
      let e : pc + length sp.buf ≡ x = cc in
      omega (arith, le-end_of (pc + length sp.buf + sp.reserved) sps)
  | inr n ↦
      let h' : location t sps ≡ some x = rw n at h in
      omega (arith, location-bounds t (pc + length sp.buf + sp.reserved) sps x ps h')
]

location-pos :
    (t : String) (sps : List Splice) (x : ℕ)
    → StartsWithByte (map content sps)
    → Placed 0 sps
    → location t sps ≡ some x
    → 0 < x
unfolding location
location-pos t [] x b p h = absurd b
location-pos t (sp ∷ sps) x b (p, ps) h = elim (Bool-cases (marks t sp.op)) [
  | inl y ↦
      let at = marked_at t sp.op (0 + length sp.buf) sp.offset y p in
      let h' : sp.offset ≡ some x = rw y at h in let e : 0 + length sp.buf ≡ x = cc in omega arith
  | inr n ↦
      let h' : location t sps ≡ some x = rw n at h in
      omega (arith, location-bounds t (0 + length sp.buf + sp.reserved) sps x ps h')
]

pub locations-small :
    (ts : List String) (sps : List Splice) (xs : List ℕ)
    → Placed 0 sps
    → end_of 0 sps < 65536
    → map (λ t. location t sps) ts ≡ map some xs
    → All (λ x. x < 65536) xs
locations-small [] sps [] p s e = tt
locations-small [] sps (x ∷ xs) p s e = absurd (cc)
locations-small (t ∷ ts) sps [] p s e = absurd (cc)
locations-small (t ∷ ts) sps (x ∷ xs) p s e =
    let head : location t sps ≡ some x = cc in
    let tail : map (λ u. location u sps) ts ≡ map some xs = cc in
    (omega (arith, location-bounds t 0 sps x p head), locations-small ts sps xs p s tail)

first-pos :
    (ts : List String) (sps : List Splice) (xs : List ℕ)
    → StartsWithByte (map content sps)
    → Placed 0 sps
    → map (λ t. location t sps) ts ≡ map some xs
    → HeadNotZero xs
first-pos ts sps [] b p e = tt
first-pos [] sps (x ∷ xs) b p e = absurd (cc)
first-pos (t ∷ ts) sps (x ∷ xs) b p e =
    let head : location t sps ≡ some x = cc in location-pos t sps x b p head

single-pos :
    (ts : List String) (f : String → Option ℕ) (xs : List ℕ)
    → length ts ≤ 1
    → map f ts ≡ map some xs
    → any_large (map some xs) ≡ true
    → HeadNotZero xs
unfolding any_large
single-pos ts f [] l e a = tt
single-pos [] f (x ∷ xs) l e a = absurd (cc)
single-pos (t ∷ []) f (x ∷ []) l e a = ground arith
single-pos (t ∷ []) f (x ∷ y ∷ xs) l e a = absurd (cc)
single-pos (t ∷ u ∷ ts) f (x ∷ xs) l e a = absurd (omega arith)

module _ (known : TagMap) (all : List Splice) (ready : All IsReady all)
    (index : IsIndex known (map content all)) (placed : Placed 0 all)
    (small : end_of 0 all < 65536) where
  fits_each :
      (sps : List Splice)
      → All (IsNamed known) sps
      → All (λ c. is_push_size c.1 ≡ false) (map content sps)
      → StartsWithByte (map content all) ⊎ All (λ c. length (names c.1) ≤ 1) (map content sps)
      → AllFit all sps
  fits_each [] n z t = tt
  fits_each (sp ∷ sps) (n, ns) (z, zs) t =
      let (ys, offs, locs) = resolved known all (names sp.op) sp.tags ready index n in
      (
        (
          z,
          λ xs e.
              let same = map-some-injective ys xs (sym offs ∙ e) in
              subst Fits same (
                locations-small (names sp.op) all ys placed small locs,
                λ a. elim t [
                  | inl b ↦ first-pos (names sp.op) all ys b placed locs
                  | inr (one, _) ↦ single-pos (names sp.op) (λ u. location u all) ys one locs a
                ],
              ),
        ),
        fits_each sps ns zs (elim t [ inl b ↦ inl b | inr (_, rest) ↦ inr rest ]),
      )

-- In a plain program the offsets of every PUSH of tags fit.
pub IsPlain-AllFit :
    (known : TagMap) (cs : Contents) (sps : List Splice)
    → IsPlain cs
    → IsIndex known cs
    → Located known cs sps
    → AllFit sps sps
IsPlain-AllFit known cs sps p i h =
    let p' = subst IsPlain (sym h.same) p in
    fits_each known sps h.ready (subst (IsIndex known) (sym h.same) i) h.placed
      (omega (arith, end-le-room known 0 sps h.ready h.named, p'.short)) sps h.named p'.no_sizes
      p'.tables
