-- ===== src/Concat/Reserve.antt =====
-- compile.go: a turn of `spliceConcat.reserve`.
use specops.Base.{
  ℕ, suc, ◌+◌, ◌≡◌, refl, ap, sym, subst, ◌∙◌, Bool, true, Option, none, some, List, [], ◌∷◌, ◌++◌,
  arith, ◌==◌, String, length, All, Outcome, ok, err, ◌>>=◌, >>=-eq-ok, ok-injective, unknown_tag,
}
use specops.Splice.{
  LazyLocator, jumpdest, label, push_tag, push_tags, push_size, Splice, TagMap, known_tag, resolve,
  offsets, extra_bytes_needed,
}
use specops.Splice.Need.{IsTagged, need, splice, extra_bytes_needed-eq}
use specops.Concat.{is_nil, reserve_op, reserve_loop}
use specops.Concat.Pass.{names}

-- A splice as `Compile` leaves it: nothing is estimated yet.
pub record IsFresh (sp : Splice) : Type 0 where
  pub no_tags : sp.tags ≡ []
  pub no_offset : sp.offset ≡ none
  pub no_bytes : sp.reserved ≡ 0

-- Names that are found one after the other.
pub resolve-cons :
    (known : TagMap) (t : String) (ts : List String) (ks : List ℕ)
    → resolve known (t ∷ ts) ≡ ok ks
    → (k : ℕ) × (js : List ℕ) × (known_tag t known ≡ some k)
      × (resolve known ts ≡ ok js)
      × (ks ≡ k ∷ js)
unfolding resolve
resolve-cons known t ts ks h = go (known_tag t known) refl h
  where
    step : Option ℕ → Outcome (List ℕ)
    step o = elim o [ none ↦ err (unknown_tag t) | some k ↦ resolve known ts >>= λ js. ok (k ∷ js) ]

    go :
        (o : Option ℕ)
        → known_tag t known ≡ o
        → step o ≡ ok ks
        → (k : ℕ) × (js : List ℕ) × (known_tag t known ≡ some k)
          × (resolve known ts ≡ ok js)
          × (ks ≡ k ∷ js)
    go none e p = absurd (cc)
    go (some k) e p =
        let r = >>=-eq-ok (resolve known ts) (λ js. ok (k ∷ js)) p in
        (k, r.0, e, r.1, ok-injective (sym r.2))

pub resolve-nil : (known : TagMap) (ks : List ℕ) → resolve known [] ≡ ok ks → ks ≡ []
unfolding resolve
resolve-nil known ks h = ok-injective (sym h)

pub length-resolve :
    (known : TagMap) (ts : List String) (ks : List ℕ)
    → resolve known ts ≡ ok ks
    → length ks ≡ length ts
length-resolve known [] ks h = ap length (resolve-nil known ks h)
length-resolve known (t ∷ ts) ks h =
    let (k, js, found, rest, e) = resolve-cons known t ts ks h in
    ap length e ∙ ap suc (length-resolve known ts js rest)

-- What the switch of `reserve` makes of a splice whose tags are found to be `ks`.
abbrev pub place : Option LazyLocator → ℕ → Option ℕ → Option ℕ
place none pc o = o
place (some (jumpdest t)) pc o = some pc
place (some (label t)) pc o = some pc
place (some (push_tag t)) pc o = o
place (some (push_tags ts)) pc o = o
place (some (push_size t u)) pc o = o

abbrev pub prepared : ℕ → Splice → List ℕ → Splice
prepared pc sp ks = record sp { tags = ks; offset = place sp.op pc sp.offset }

-- Only the last splice may be without an op.
abbrev pub OpUnlessLast : Option LazyLocator → Bool → Type 0
OpUnlessLast none last = last ≡ true
OpUnlessLast (some l) last = Unit

same_count : (n : ℕ) → (n == n) ≡ true
same_count n = ground arith

module _ (known : TagMap) (last : Bool) (pc : ℕ) (b : List ℕ) (o : Option ℕ) (r : ℕ) where
  op-eq :
      (op : Option LazyLocator)
      → OpUnlessLast op last
      → reserve_op known last pc (splice b op o [] r)
        ≡ (resolve known (names op) >>= λ ks. ok (prepared pc (splice b op o [] r) ks))
  unfolding reserve_op
  op-eq none h = rw h refl
  op-eq (some (jumpdest t)) h = refl
  op-eq (some (label t)) h = refl
  op-eq (some (push_tag t)) h = refl
  op-eq (some (push_tags ts)) h = rw (same_count (length ts)) refl
  op-eq (some (push_size t u)) h = refl

-- The switch of `reserve` looks the names up and places the tag.
pub reserve_op-eq :
    (known : TagMap) (last : Bool) (pc : ℕ) (sp : Splice)
    → sp.tags ≡ []
    → OpUnlessLast sp.op last
    → reserve_op known last pc sp ≡ (resolve known (names sp.op) >>= λ ks. ok (prepared pc sp ks))
reserve_op-eq known last pc sp e h =
    subst
      (λ js. reserve_op known last pc (splice sp.buf sp.op sp.offset js sp.reserved) ≡ (
        resolve known (names sp.op) >>= λ ks.
        ok (prepared pc (splice sp.buf sp.op sp.offset js sp.reserved) ks)))
      (sym e) (op-eq known last pc sp.buf sp.offset sp.reserved sp.op h)

-- The names of an op are known.
abbrev pub IsKnown : TagMap → Splice → Type 0
IsKnown known sp = (ks : List ℕ) × (resolve known (names sp.op) ≡ ok ks)

abbrev pub EndsInNil : List Splice → Type 0
EndsInNil [] = Unit
EndsInNil (sp ∷ rest) = OpUnlessLast sp.op (is_nil rest) × EndsInNil rest

nil_of_length : (ks : List ℕ) → length ks ≡ 0 → ks ≡ []
nil_of_length [] h = refl
nil_of_length (k ∷ ks) h = absurd (omega arith)

pair_of_length : (ks : List ℕ) → length ks ≡ 2 → (k : ℕ) × (l : ℕ) × (ks ≡ k ∷ l ∷ [])
pair_of_length [] h = absurd (omega arith)
pair_of_length (k ∷ []) h = absurd (omega arith)
pair_of_length (k ∷ l ∷ []) h = (k, l, refl)
pair_of_length (k ∷ l ∷ m ∷ ks) h = absurd (omega arith)

pub IsTagged-names :
    (known : TagMap) (op : Option LazyLocator) (ks : List ℕ)
    → resolve known (names op) ≡ ok ks
    → IsTagged op ks
IsTagged-names known none ks h = nil_of_length ks (length-resolve known [] ks h)
IsTagged-names known (some (jumpdest t)) ks h = nil_of_length ks (length-resolve known [] ks h)
IsTagged-names known (some (label t)) ks h = nil_of_length ks (length-resolve known [] ks h)
IsTagged-names known (some (push_tag t)) ks h = length-resolve known (t ∷ []) ks h
IsTagged-names known (some (push_tags ts)) ks h = length-resolve known ts ks h
IsTagged-names known (some (push_size t u)) ks h =
    pair_of_length ks (length-resolve known (t ∷ u ∷ []) ks h)

-- A splice behind its turn in the loop of `reserve`, with `past` before it and `rest` behind it.
abbrev pub settled_splice : List Splice → Splice → List Splice → ℕ → List ℕ → Splice
settled_splice past sp rest pc ks =
    let sp' = prepared (pc + length sp.buf) sp ks in
    record sp' { reserved = need sp'.op (offsets (past ++ sp' ∷ rest) sp'.tags) }

module _ (known : TagMap) where
  pub turn :
      (past : List Splice) (sp : Splice) (rest : List Splice) (pc : ℕ) (ks : List ℕ)
      → IsFresh sp
      → OpUnlessLast sp.op (is_nil rest)
      → resolve known (names sp.op) ≡ ok ks
      → reserve_loop known past (sp ∷ rest) pc
        ≡ reserve_loop known
            (past ++ settled_splice past sp rest pc ks ∷ [])
            rest
            (pc + length sp.buf + (settled_splice past sp rest pc ks).reserved)
  unfolding reserve_loop
  turn past sp rest pc ks f l h =
      let at = pc + length sp.buf in
      let sp' = prepared at sp ks in
      rw (reserve_op-eq known (is_nil rest) at sp f.no_tags l) (
        rw h (
          rw (extra_bytes_needed-eq (past ++ sp' ∷ rest) sp' (IsTagged-names known sp.op ks h))
            refl))

  accepted :
      (past : List Splice) (sp : Splice) (rest : List Splice) (pc : ℕ) (out : List Splice)
      → reserve_loop known past (sp ∷ rest) pc ≡ ok out
      → (sp' : Splice) × (reserve_op known (is_nil rest) (pc + length sp.buf) sp ≡ ok sp')
  unfolding reserve_loop
  accepted past sp rest pc out h =
      let r =
        >>=-eq-ok (reserve_op known (is_nil rest) (pc + length sp.buf) sp)
          (λ sp'. extra_bytes_needed (past ++ sp' ∷ rest) sp' >>= λ n.
            reserve_loop known (past ++ record sp' { reserved = n } ∷ []) rest
              (pc + length sp.buf + n))
          h in
      (r.0, r.1)

  -- Every name that the loop meets is known, if it returns.
  pub known_of_reserve :
      (past rest : List Splice) (pc : ℕ) (out : List Splice)
      → All IsFresh rest
      → EndsInNil rest
      → reserve_loop known past rest pc ≡ ok out
      → All (IsKnown known) rest
  known_of_reserve past [] pc out f l h = tt
  known_of_reserve past (sp ∷ rest) pc out (f, fs) (l, ls) h =
      let r = accepted past sp rest pc out h in
      let q =
        >>=-eq-ok (resolve known (names sp.op)) (λ js. ok (prepared (pc + length sp.buf) sp js))
          (sym (reserve_op-eq known (is_nil rest) (pc + length sp.buf) sp f.no_tags l) ∙ r.1) in
      let ks = q.0 in
      let sp' = settled_splice past sp rest pc ks in
      (
        (ks, q.1),
        known_of_reserve (past ++ sp' ∷ []) rest (pc + length sp.buf + sp'.reserved) out fs ls
            (sym (turn past sp rest pc ks f l q.1) ∙ h),
      )

  -- The loop of `reserve` over fresh splices with known names returns, and what each turn keeps
  -- holds at the end.
  pub reserve_loop_ends :
      (Q : List Splice → List Splice → ℕ → Type 0)
      → ((past : List Splice) (sp : Splice) (rest : List Splice) (pc : ℕ) (ks : List ℕ)
          → IsFresh sp
          → resolve known (names sp.op) ≡ ok ks
          → Q past (sp ∷ rest) pc
          → Q
              (past ++ settled_splice past sp rest pc ks ∷ [])
              rest
              (pc + length sp.buf + (settled_splice past sp rest pc ks).reserved))
      → (past rest : List Splice) (pc : ℕ) → All IsFresh rest
      → EndsInNil rest
      → All (IsKnown known) rest
      → Q past rest pc
      → (out : List Splice) × (end : ℕ) × (reserve_loop known past rest pc ≡ ok out) × Q out [] end
  unfolding reserve_loop
  reserve_loop_ends Q keep past [] pc f l n q = (past, pc, refl, q)
  reserve_loop_ends Q keep past (sp ∷ rest) pc (f, fs) (l, ls) ((ks, e), ns) q =
      let sp' = settled_splice past sp rest pc ks in
      let r =
        reserve_loop_ends Q keep (past ++ sp' ∷ []) rest (pc + length sp.buf + sp'.reserved) fs ls
          ns (keep past sp rest pc ks f e q) in
      (r.0, r.1, turn past sp rest pc ks f l e ∙ r.2, r.3)
