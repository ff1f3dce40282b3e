-- ===== src/Concat/Names.antt =====
-- compile.go: tags by name, in the map `allTags` and in the splices themselves.
use specops.Base.{
  ℕ, suc, ◌≡◌, refl, sym, ◌∙◌, Bool, true, false, Option, none, some, List, [], ◌∷◌, ◌++◌, map,
  String, arith, All, ok, if◌then◌else◌, same_text, Bool-cases, inl, inr, ◌≢◌,
}
use mathlib.Core.Option
use specops.Splice.{
  LazyLocator, jumpdest, label, push_tag, push_tags, push_size, Splice, TagMap, known_tag, resolve,
  offset_of, offsets,
}
use specops.Concat.Reserve.{resolve-cons, resolve-nil}
use specops.Concat.Pass.{TagOffset, IsReady, content}

abbrev pub Contents : Type 0
Contents = List (List ℕ × Option LazyLocator)

-- Does an op mark the place of the tag?
abbrev pub marks : String → Option LazyLocator → Bool
marks t none = false
marks t (some (jumpdest u)) = same_text u t
marks t (some (label u)) = same_text u t
marks t (some (push_tag u)) = false
marks t (some (push_tags us)) = false
marks t (some (push_size u v)) = false

-- The first splice that marks a tag.
unfoldable pub tag_index : String → Contents → Option ℕ
tag_index t [] = none
tag_index t ((b, op) ∷ cs) = if marks t op then some 0 else Option.map suc (tag_index t cs)

-- Its offset.
unfoldable pub location : String → List Splice → Option ℕ
location t [] = none
location t (sp ∷ sps) = if marks t sp.op then sp.offset else location t sps

-- The map holds the first splice of every tag.
abbrev pub IsIndex : TagMap → Contents → Type 0
IsIndex known cs = (t : String) → known_tag t known ≡ tag_index t cs

-- No two splices mark one tag.
abbrev pub Distinct : Contents → Type 0
Distinct [] = Unit
Distinct ((b, op) ∷ cs) = ((t : String) → marks t op ≡ true → tag_index t cs ≡ none) × Distinct cs

map-suc : (o : Option ℕ) (k : ℕ) → Option.map suc o ≡ some k → (j : ℕ) × (o ≡ some j) × (k ≡ suc j)
map-suc none k h = absurd (cc)
map-suc (some j) k h = (j, refl, cc)

offset_of_index :
    (t : String) (sps : List Splice) (k : ℕ)
    → tag_index t (map content sps) ≡ some k
    → offset_of sps k ≡ location t sps
unfolding tag_index location
offset_of_index t [] k h = refl
offset_of_index t (sp ∷ sps) k h = elim (Bool-cases (marks t sp.op)) [
  | inl y ↦ let h' : some 0 ≡ some k = rw y at h in let z : k ≡ 0 = cc in rw (y, z) refl
  | inr n ↦
      let (j, e, z) = map-suc (tag_index t (map content sps)) k (rw n at h) in
      rw (n, z) (offset_of_index t sps j e)
]

marked_known :
    (t : String) (op : Option LazyLocator) (o : Option ℕ)
    → marks t op ≡ true
    → TagOffset (λ p. (x : ℕ) × (p ≡ some x)) op o
    → (x : ℕ) × (o ≡ some x)
marked_known t none o m k = absurd (cc)
marked_known t (some (jumpdest u)) o m k = k
marked_known t (some (label u)) o m k = k
marked_known t (some (push_tag u)) o m k = absurd (cc)
marked_known t (some (push_tags us)) o m k = absurd (cc)
marked_known t (some (push_size u v)) o m k = absurd (cc)

index_of_marked :
    (t : String) (past rest : List Splice) (sp : Splice)
    → marks t sp.op ≡ true
    → tag_index t (map content (past ++ sp ∷ rest)) ≢ none
unfolding tag_index
index_of_marked t [] rest sp m h = ground arith
index_of_marked t (x ∷ past) rest sp m h = ground (arith, index_of_marked t past rest sp m)

-- A tag that is marked by some splice has a location, once the splices are ready.
location_known :
    (t : String) (sps : List Splice) (k : ℕ)
    → All IsReady sps
    → tag_index t (map content sps) ≡ some k
    → (x : ℕ) × (location t sps ≡ some x)
unfolding tag_index location
location_known t [] k r h = absurd (cc)
location_known t (sp ∷ sps) k (r, rs) h = elim (Bool-cases (marks t sp.op)) [
  | inl y ↦ let (x, e) = marked_known t sp.op sp.offset y r.known in (x, rw y e)
  | inr n ↦
      let (j, e, z) = map-suc (tag_index t (map content sps)) k (rw n at h) in
      let (x, q) = location_known t sps j rs e in (x, rw n q)
]

-- The pointers that a list of names is resolved to lead to the locations of the names.
pub resolved :
    (known : TagMap) (sps : List Splice) (ts : List String) (ks : List ℕ)
    → All IsReady sps
    → IsIndex known (map content sps)
    → resolve known ts ≡ ok ks
    → (xs : List ℕ) × (offsets sps ks ≡ map some xs) × (map (λ t. location t sps) ts ≡ map some xs)
resolved known sps [] ks r i h = ([], rw (resolve-nil known ks h) refl, refl)
resolved known sps (t ∷ ts) ks r i h =
    let (k, js, found, rest, e) = resolve-cons known t ts ks h in
    let index = sym (i t) ∙ found in
    let (x, at) = location_known t sps k r index in
    let (xs, offs, locs) = resolved known sps ts js r i rest in
    (x ∷ xs, rw (e, offset_of_index t sps k index, at, offs) refl, rw (at, locs) refl)

-- A splice that marks a tag is at the tag's location, where no tag is marked twice.
pub location_of_marked :
    (t : String) (past rest : List Splice) (sp : Splice)
    → Distinct (map content (past ++ sp ∷ rest))
    → marks t sp.op ≡ true
    → location t (past ++ sp ∷ rest) ≡ sp.offset
unfolding location
location_of_marked t [] rest sp d m = rw m refl
location_of_marked t (x ∷ past) rest sp (d, ds) m = elim (Bool-cases (marks t x.op)) [
  | inl y ↦ absurd (index_of_marked t past rest sp m (d t y))
  | inr n ↦ rw n (location_of_marked t past rest sp ds m)
]
