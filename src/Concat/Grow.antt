-- ===== src/Concat/Grow.antt =====
-- compile.go: the splices and the map of tags while `Code.Compile` reads a program.
use specops.Base.{
  ℕ, suc, ◌≡◌, refl, ap, sym, subst, ◌∙◌, Bool, true, false, Option, none, some, List, [], ◌∷◌,
  ◌++◌, String, arith, length, length-append, All, All-append, Outcome, ok, err, if◌then◌else◌,
  same_text, same_text_iff, Bool-cases, inl, inr, duplicate_tag, ok-injective,
}
use specops.Splice.{
  LazyLocator, jumpdest, label, push_tag, push_tags, push_size, tagged, Splice, new_splice, TagMap,
  known_tag,
}
use specops.Splice.Need.{splice}
use specops.Concat.{SpliceConcat, modify_curr, write, push_splice, new_splice_buffer}
use specops.Concat.Names.{Contents, marks, tag_index, IsIndex, Distinct}

-- A splice that is read up to its op, and the last one, which has none.
abbrev pub read_splice : Contents → List Splice
read_splice [] = []
read_splice ((b, op) ∷ cs) = splice b op none [] 0 ∷ read_splice cs

abbrev pub HasOps : Contents → Type 0
HasOps = All (λ c. (l : LazyLocator) × (c.1 ≡ some l))

-- The splices: complete ones, and the buffer of the last.
pub record IsReading (s : SpliceConcat) (cs : Contents) (buf : List ℕ) : Type 0 where
  pub shape : s.splices ≡ read_splice cs ++ splice buf none none [] 0 ∷ []
  pub ops : HasOps cs
  pub index : IsIndex s.all_tags cs
  pub distinct : Distinct cs

modify_curr-snoc :
    (f : Splice → Splice) (sps : List Splice) (sp : Splice)
    → modify_curr f (sps ++ sp ∷ []) ≡ sps ++ f sp ∷ []
unfolding modify_curr
modify_curr-snoc f [] sp = refl
modify_curr-snoc f (x ∷ []) sp = refl
modify_curr-snoc f (x ∷ y ∷ sps) sp = ap (◌∷◌ x) (modify_curr-snoc f (y ∷ sps) sp)

-- `buf.Write` appends to the last buffer.
pub write-IsReading :
    (code : List ℕ) (s : SpliceConcat) (cs : Contents) (buf : List ℕ)
    → IsReading s cs buf
    → IsReading (write code s) cs (buf ++ code)
unfolding write
write-IsReading code s cs buf h = record {
  shape =
      ap (modify_curr (λ sp. record sp { buf = sp.buf ++ code })) h.shape
      ∙ modify_curr-snoc _ (read_splice cs) (splice buf none none [] 0);
  ops = h.ops;
  index = h.index;
  distinct = h.distinct;
}

tag_index-snoc :
    (t : String) (cs : Contents) (b : List ℕ) (op : Option LazyLocator)
    → tag_index t (cs ++ (b, op) ∷ []) ≡ elim (tag_index t cs) [
      | some k ↦ some k
      | none ↦ if marks t op then some (length cs) else none
    ]
unfolding tag_index
tag_index-snoc t [] b op = ground arith
tag_index-snoc t ((c, p) ∷ cs) b op = ground (arith, tag_index-snoc t cs b op)

pub Distinct-snoc :
    (cs : Contents) (b : List ℕ) (op : Option LazyLocator)
    → Distinct cs
    → ((t : String) → marks t op ≡ true → tag_index t cs ≡ none)
    → Distinct (cs ++ (b, op) ∷ [])
unfolding tag_index
Distinct-snoc [] b op d h = ((λ t m. refl), tt)
Distinct-snoc ((c, p) ∷ cs) b op (d, ds) h = (
  λ t m. ground (arith, tag_index-snoc t cs b op, d t m, h t),
  Distinct-snoc cs b op ds (λ t m. ground (arith, h t m)),
)

read_splice-snoc :
    (cs : Contents) (b : List ℕ) (op : Option LazyLocator)
    → read_splice (cs ++ (b, op) ∷ []) ≡ read_splice cs ++ splice b op none [] 0 ∷ []
read_splice-snoc [] b op = refl
read_splice-snoc ((c, p) ∷ cs) b op = ap (◌∷◌ (splice c p none [] 0)) (read_splice-snoc cs b op)

length-read_splice : (cs : Contents) → length (read_splice cs) ≡ length cs
length-read_splice [] = refl
length-read_splice ((c, p) ∷ cs) = ap suc (length-read_splice cs)

push_splice-shape :
    (l : LazyLocator) (m : TagMap) (s : SpliceConcat) (cs : Contents) (buf : List ℕ)
    → IsReading s cs buf
    → (push_splice l m s).splices
      ≡ read_splice (cs ++ (buf, some l) ∷ []) ++ splice [] none none [] 0 ∷ []
unfolding push_splice
push_splice-shape l m s cs buf h =
    ap (λ sps. modify_curr (λ sp. record sp { op = some l }) sps ++ new_splice ∷ []) h.shape
    ∙ ap (λ sps. sps ++ new_splice ∷ [])
        (modify_curr-snoc (λ sp. record sp { op = some l }) (read_splice cs)
            (splice buf none none [] 0)
          ∙ sym (read_splice-snoc cs buf (some l)))

-- The tags that an op marks are new to the map, and stand in it afterwards.
abbrev Marked : LazyLocator → ℕ → TagMap → TagMap → Type 0
Marked l k m m' = elim (tagged l) [
  | none ↦ m' ≡ m
  | some t ↦ (known_tag t m ≡ none) × (m' ≡ (t, k) ∷ m)
]

keep_index :
    (o : Option ℕ) (b : Bool) (k : ℕ)
    → b ≡ false
    → elim o [ some j ↦ some j | none ↦ if b then some k else none ] ≡ o
keep_index none b k e = rw e refl
keep_index (some j) b k e = refl

pub index_untagged :
    (t : String) (b : List ℕ) (op : Option LazyLocator) (cs : Contents) (m : TagMap)
    → marks t op ≡ false
    → IsIndex m cs
    → known_tag t m ≡ tag_index t (cs ++ (b, op) ∷ [])
index_untagged t b op cs m e index =
    index t
    ∙ sym (tag_index-snoc t cs b op ∙ keep_index (tag_index t cs) (marks t op) (length cs) e)

index_tagged :
    (u t : String) (b : List ℕ) (op : Option LazyLocator) (cs : Contents) (m : TagMap)
    → marks t op ≡ same_text u t
    → IsIndex m cs
    → known_tag u m ≡ none
    → known_tag t ((u, length cs) ∷ m) ≡ tag_index t (cs ++ (b, op) ∷ [])
unfolding known_tag
index_tagged u t b op cs m e index new = elim (Bool-cases (same_text u t)) [
  | inl y ↦
      let z : tag_index t cs ≡ none =
        sym (index t) ∙ subst (λ v. known_tag v m ≡ none) ((same_text_iff u t).0 y) new in
      rw y (sym (tag_index-snoc t cs b op ∙ rw z (rw (e, y) refl)))
  | inr n ↦ rw n (index_untagged t b op cs m (e ∙ n) index)
]

IsIndex-grows :
    (l : LazyLocator) (b : List ℕ) (cs : Contents) (m m' : TagMap)
    → IsIndex m cs
    → Marked l (length cs) m m'
    → IsIndex m' (cs ++ (b, some l) ∷ [])
IsIndex-grows (jumpdest u) b cs m m' i (new, e) t =
    rw e (index_tagged u t b (some (jumpdest u)) cs m refl i new)
IsIndex-grows (label u) b cs m m' i (new, e) t =
    rw e (index_tagged u t b (some (label u)) cs m refl i new)
IsIndex-grows (push_tag u) b cs m m' i e t =
    rw e (index_untagged t b (some (push_tag u)) cs m refl i)
IsIndex-grows (push_tags us) b cs m m' i e t =
    rw e (index_untagged t b (some (push_tags us)) cs m refl i)
IsIndex-grows (push_size u v) b cs m m' i e t =
    rw e (index_untagged t b (some (push_size u v)) cs m refl i)

new_tag :
    (u t : String) (cs : Contents) (m : TagMap)
    → IsIndex m cs
    → known_tag u m ≡ none
    → same_text u t ≡ true
    → tag_index t cs ≡ none
new_tag u t cs m i new h =
    sym (i t) ∙ subst (λ v. known_tag v m ≡ none) ((same_text_iff u t).0 h) new

new_tags :
    (l : LazyLocator) (cs : Contents) (m m' : TagMap)
    → IsIndex m cs
    → Marked l (length cs) m m'
    → (t : String) → marks t (some l) ≡ true
    → tag_index t cs ≡ none
new_tags (jumpdest u) cs m m' i mk t h = new_tag u t cs m i mk.0 h
new_tags (label u) cs m m' i mk t h = new_tag u t cs m i mk.0 h
new_tags (push_tag u) cs m m' i mk t h = cc
new_tags (push_tags us) cs m m' i mk t h = cc
new_tags (push_size u v) cs m m' i mk t h = cc

unmarked :
    (u : String) (m : TagMap) (made s' : SpliceConcat) (o : Option ℕ)
    → known_tag u m ≡ o
    → elim o as (λ _. Outcome SpliceConcat) [ some _ ↦ err (duplicate_tag u) | none ↦ ok made ]
      ≡ ok s'
    → (known_tag u m ≡ none) × (made ≡ s')
unmarked u m made s' none e w = (e, ok-injective w)
unmarked u m made s' (some k) e w = absurd (cc)

buffer_tags :
    (l : LazyLocator) (sps : List Splice) (m : TagMap) (n : ℕ) (s' : SpliceConcat)
    → length sps ≡ suc n
    → new_splice_buffer l (record { splices = sps; all_tags = m }) ≡ ok s'
    → (m' : TagMap) × (push_splice l m' (record { splices = sps; all_tags = m }) ≡ s')
      × Marked l n m m'
unfolding new_splice_buffer
buffer_tags l [] m n s' h w = absurd (omega arith)
buffer_tags (jumpdest u) (x ∷ sps) m n s' h w =
    let (new, e) = unmarked u m _ s' (known_tag u m) refl w in
    ((u, length sps) ∷ m, e, (new, ap (λ k. (u, k) ∷ m) (omega arith)))
buffer_tags (label u) (x ∷ sps) m n s' h w =
    let (new, e) = unmarked u m _ s' (known_tag u m) refl w in
    ((u, length sps) ∷ m, e, (new, ap (λ k. (u, k) ∷ m) (omega arith)))
buffer_tags (push_tag u) (x ∷ sps) m n s' h w = (m, ok-injective w, refl)
buffer_tags (push_tags u) (x ∷ sps) m n s' h w = (m, ok-injective w, refl)
buffer_tags (push_size u v) (x ∷ sps) m n s' h w = (m, ok-injective w, refl)

-- `newSpliceBuffer` ends the last splice with the op and begins another.
pub new_splice_buffer-IsReading :
    (l : LazyLocator) (s s' : SpliceConcat) (cs : Contents) (buf : List ℕ)
    → IsReading s cs buf
    → new_splice_buffer l s ≡ ok s'
    → IsReading s' (cs ++ (buf, some l) ∷ []) []
unfolding push_splice
new_splice_buffer-IsReading l s s' cs buf h w =
    let size : length s.splices ≡ suc (length cs) =
      ap length h.shape
      ∙ omega (
        arith,
        length-append (read_splice cs) (splice buf none none [] 0 ∷ []),
        length-read_splice cs,
      ) in
    let (m', e, mk) = buffer_tags l s.splices s.all_tags (length cs) s' size w in
    subst (λ u. IsReading u (cs ++ (buf, some l) ∷ []) []) e
      (record {
        shape = push_splice-shape l m' s cs buf h;
        ops = All-append _ cs ((buf, some l) ∷ []) h.ops ((l, refl), tt);
        index = IsIndex-grows l buf cs s.all_tags m' h.index mk;
        distinct =
            Distinct-snoc cs buf (some l) h.distinct (new_tags l cs s.all_tags m' h.index mk);
      })
