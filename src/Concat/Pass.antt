-- ===== src/Concat/Pass.antt =====
-- compile.go: a pass of `spliceConcat.expand` as a total function on splices that are prepared.
use specops.Base.{
  String, ℕ, ◌+◌, ◌-◌, ◌*◌, ◌≤◌, ◌≡◌, refl, Option, none, some, List, [], ◌∷◌, ◌++◌, arith, ltb,
  if◌then◌else◌, length, All, append_assoc, append-nil, ok,
}
use specops.Splice.{
  TagMap, resolve, LazyLocator, jumpdest, label, push_tag, push_tags, push_size, Splice, offsets,
}
use specops.Splice.Need.{IsTagged, need, splice, extra_bytes_needed-eq}
use specops.Concat.{expand_splice, expand_pass}

-- The offset of a tagged splice satisfies `P`; of any other op nothing is said.
abbrev pub TagOffset : (Option ℕ → Type 0) → Option LazyLocator → Option ℕ → Type 0
TagOffset P none o = Unit
TagOffset P (some (jumpdest t)) o = P o
TagOffset P (some (label t)) o = P o
TagOffset P (some (push_tag t)) o = Unit
TagOffset P (some (push_tags ts)) o = Unit
TagOffset P (some (push_size t u)) o = Unit

-- What is reserved for an op, as far as its type alone says it.
abbrev pub Takes : Option LazyLocator → ℕ → Type 0
Takes none r = r ≡ 0
Takes (some (jumpdest t)) r = r ≡ 1
Takes (some (label t)) r = r ≡ 0
Takes (some (push_tag t)) r = 1 ≤ r
Takes (some (push_tags ts)) r = 1 ≤ r
Takes (some (push_size t u)) r = 1 ≤ r

-- What `reserve` establishes of a splice: its tags are set, the offset of a tag is known, a PUSH has
-- its opcode, and no more is reserved than a PUSH of two bytes for each tag.
pub record IsReady (sp : Splice) : Type 0 where
  pub shape : IsTagged sp.op sp.tags
  pub known : TagOffset (λ o. (x : ℕ) × (o ≡ some x)) sp.op sp.offset
  pub takes : Takes sp.op sp.reserved
  pub room : sp.reserved ≤ 1 + 2 * length sp.tags

-- Every tag stands where the buffers and the reserved bytes before it put it.
abbrev pub Placed : ℕ → List Splice → Type 0
Placed pc [] = Unit
Placed pc (sp ∷ sps) =
    TagOffset (λ o. o ≡ some (pc + length sp.buf)) sp.op sp.offset
    × Placed (pc + length sp.buf + sp.reserved) sps

-- What the passes leave alone: the buffers and the ops.
abbrev pub content : Splice → List ℕ × Option LazyLocator
content sp = (sp.buf, sp.op)

-- The names in an op, to be looked up.
abbrev pub names : Option LazyLocator → List String
names none = []
names (some (jumpdest t)) = []
names (some (label t)) = []
names (some (push_tag t)) = t ∷ []
names (some (push_tags ts)) = ts
names (some (push_size t u)) = t ∷ u ∷ []

-- The tags of a splice are what its op's names stand for.
abbrev pub IsNamed : TagMap → Splice → Type 0
IsNamed known sp = resolve known (names sp.op) ≡ ok sp.tags

abbrev pub shift : Option ℕ → ℕ → Option ℕ
shift none e = none
shift (some x) e = some (x + e)

abbrev pub grow : List Splice → Splice → ℕ → Splice × ℕ
grow all sp e =
    let n = need sp.op (offsets all sp.tags) in
    if ltb sp.reserved n then (record sp { reserved = n }, e + (n - sp.reserved)) else (sp, e)

abbrev pub move_op : Option LazyLocator → List Splice → Splice → ℕ → Splice × ℕ
move_op none all sp e = (sp, e)
move_op (some (jumpdest t)) all sp e = (record sp { offset = shift sp.offset e }, e)
move_op (some (label t)) all sp e = (record sp { offset = shift sp.offset e }, e)
move_op (some (push_tag t)) all sp e = grow all sp e
move_op (some (push_tags ts)) all sp e = grow all sp e
move_op (some (push_size t u)) all sp e = grow all sp e

unfoldable pub move : List Splice → Splice → ℕ → Splice × ℕ
move all sp e = move_op sp.op all sp e

unfoldable pub pass : List Splice → List Splice → ℕ → List Splice × ℕ
unfolding move
pass past [] e = ([], e)
pass past (sp ∷ rest) e =
    let m = move (past ++ sp ∷ rest) sp e in
    let p = pass (past ++ m.0 ∷ []) rest m.1 in (m.0 ∷ p.0, p.1)

module _ (all : List Splice) (b : List ℕ) (o : Option ℕ) (ks : List ℕ) (r e : ℕ) where
  splice-eq-move :
      (op : Option LazyLocator)
      → IsReady (splice b op o ks r)
      → expand_splice all (splice b op o ks r) e ≡ ok (move all (splice b op o ks r) e)
  unfolding expand_splice move
  splice-eq-move none h = refl
  splice-eq-move (some (jumpdest t)) h = ground arith
  splice-eq-move (some (label t)) h = ground arith
  splice-eq-move (some (push_tag t)) h =
      rw (extra_bytes_needed-eq all (splice b (some (push_tag t)) o ks r) h.shape) (ground arith)
  splice-eq-move (some (push_tags ts)) h =
      rw (extra_bytes_needed-eq all (splice b (some (push_tags ts)) o ks r) h.shape) (ground arith)
  splice-eq-move (some (push_size t u)) h =
      rw (extra_bytes_needed-eq all (splice b (some (push_size t u)) o ks r) h.shape) (ground arith)

expand_splice-eq-move :
    (all : List Splice) (sp : Splice) (e : ℕ)
    → IsReady sp
    → expand_splice all sp e ≡ ok (move all sp e)
expand_splice-eq-move all sp e h = splice-eq-move all sp.buf sp.offset sp.tags sp.reserved e sp.op h

-- A pass over prepared splices neither fails nor panics.
pub expand_pass-eq-pass :
    (past rest : List Splice) (e : ℕ)
    → All IsReady rest
    → expand_pass past rest e ≡ ok (past ++ (pass past rest e).0, (pass past rest e).1)
unfolding expand_pass pass
expand_pass-eq-pass past [] e h = rw append-nil refl
expand_pass-eq-pass past (sp ∷ rest) e (h, hs) =
    let m = move (past ++ sp ∷ rest) sp e in
    rw (expand_splice-eq-move (past ++ sp ∷ rest) sp e h)
      (rw (expand_pass-eq-pass (past ++ m.0 ∷ []) rest m.1 hs) (rw append_assoc refl))
