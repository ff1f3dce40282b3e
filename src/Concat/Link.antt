-- ===== src/Concat/Link.antt =====
-- compile.go: `spliceConcat.bytes` on located splices, against the description of Concat/Linked.
use specops.Base.{
  ℕ, ◌+◌, ◌≡◌, refl, ap, sym, subst, ◌∙◌, true, false, Option, none, some, List, [], ◌∷◌, ◌++◌, map,
  String, arith, length, All, ok, ◌>>=◌, >>=-eq-ok, ok-injective, same_text_iff,
}
use specops.Opcode.{jumpdest_op}
use specops.Splice.{
  LazyLocator, jumpdest, label, push_tag, push_tags, push_size, Splice, TagMap, resolve, offsets,
  is_push_size, any_large, zeroes_of_one,
}
use specops.Splice.Need.{need, splice, tag_bytes}
use specops.Splice.Growth.{IsTight}
use specops.Concat.{SpliceConcat, op_bytes, bytes_loop, bytes}
use specops.Concat.Pass.{TagOffset, IsReady, Placed, content, names, IsNamed}
use specops.Concat.Expand.{IsSettled}
use specops.Concat.Tight.{append_snoc}
use specops.Concat.Locate.{Located}
use specops.Concat.Encode.{Fits, join_one}
use specops.Concat.Emit.{tags_op}
use specops.Concat.Names.{
  Contents, marks, location, IsIndex, Distinct, resolved, location_of_marked,
}
use specops.Concat.Linked.{Writes, IsLinked}

-- No op is a `pushSize`, and the offsets of every PUSH of tags fit.
abbrev pub AllFit : List Splice → List Splice → Type 0
AllFit all = All (λ sp.
    (is_push_size sp.op ≡ false) × ((xs : List ℕ) → offsets all sp.tags ≡ map some xs → Fits xs))

one_location :
    (o : Option ℕ) (xs : List ℕ) → (o ∷ []) ≡ map some xs → (x : ℕ) × (xs ≡ x ∷ []) × (o ≡ some x)
one_location o [] h = absurd (cc)
one_location o (x ∷ []) h = (x, refl, cc)
one_location o (x ∷ y ∷ xs) h = absurd (cc)

module _ (known : TagMap) (all : List Splice) (ready : All IsReady all)
    (index : IsIndex known (map content all)) where
  write_op :
      (at : ℕ) (b : List ℕ) (op : Option LazyLocator) (o : Option ℕ) (ks : List ℕ) (r : ℕ)
      (code : List ℕ)
      → IsReady (splice b op o ks r)
      → resolve known (names op) ≡ ok ks
      → TagOffset (λ p. p ≡ some at) op o
      → ((t : String) → marks t op ≡ true → location t all ≡ o)
      → is_push_size op ≡ false
      → ((xs : List ℕ) → offsets all ks ≡ map some xs → Fits xs)
      → op_bytes all (splice b op o ks r) ≡ ok code
      → (length code ≡ need op (offsets all ks)) × Writes (λ t. location t all) at op code
  unfolding op_bytes any_large zeroes_of_one
  write_op at b none o ks r code h n p own z f w =
      let e : [] ≡ code = ok-injective w in (rw (← e) refl, sym e)
  write_op at b (some (label t)) o ks r code h n p own z f w =
      let e : [] ≡ code = ok-injective w in
      (rw (← e) refl, (sym e, own t ((same_text_iff t t).1 refl) ∙ p))
  write_op at b (some (jumpdest t)) o ks r code h n p own z f w =
      let e : jumpdest_op ∷ [] ≡ code = ok-injective w in
      (rw (← e, h.shape) refl, (sym e, own t ((same_text_iff t t).1 refl) ∙ p))
  write_op at b (some (push_tag t)) o ks r code h n p own z f w =
      let (xs, offs, locs) = resolved known all (t ∷ []) ks ready index n in
      let (len, run) = tags_op all b o ks r (push_tag t) xs code refl h.shape offs (f xs offs) w in
      let (x, one, at_x) = one_location (location t all) xs locs in
      (
        len,
        (
          x,
          at_x,
          run ∙ ap (λ v. some (v, [])) (rw one (join_one (tag_bytes (map some (x ∷ []))) x)),
        ),
      )
  write_op at b (some (push_tags ts)) o ks r code h n p own z f w =
      let (xs, offs, locs) = resolved known all ts ks ready index n in
      let (len, run) =
        tags_op all b o ks r (push_tags ts) xs code refl h.shape offs (f xs offs) w in
      (len, (xs, locs, run))
  write_op at b (some (push_size t u)) o ks r code h n p own z f w = absurd (cc)

  -- The loop of `bytes`, from some splice on.
  bytes_loop-IsLinked :
      (past rest : List Splice) (at : ℕ) (out : List ℕ)
      → (e : past ++ rest ≡ all) → Distinct (map content (past ++ rest))
      → All IsReady rest
      → All (IsNamed known) rest
      → Placed at rest
      → IsSettled all rest
      → All (IsTight all) rest
      → AllFit all rest
      → bytes_loop all rest ≡ ok out
      → IsLinked (λ t. location t all) at (map content rest) out
  unfolding bytes_loop
  bytes_loop-IsLinked past [] at out e d r n p s t f w = sym (ok-injective w)
  bytes_loop-IsLinked past (sp ∷ rest) at out e d (r, rs) (n, ns) (p, ps) (s, ss) (t, ts) (f, fs)
        w =
      let q =
        >>=-eq-ok (op_bytes all sp) (λ c. bytes_loop all rest >>= λ o. ok (sp.buf ++ (c ++ o))) w in
      let q' = >>=-eq-ok (bytes_loop all rest) (λ o. ok (sp.buf ++ (q.0 ++ o))) q.2 in
      let own : (u : String) → marks u sp.op ≡ true → location u all ≡ sp.offset =
        λ u m. ap (location u) (sym e) ∙ location_of_marked u past rest sp d m in
      let (len, wrote) =
        write_op (at + length sp.buf) sp.buf sp.op sp.offset sp.tags sp.reserved q.0 r n p own f.0
          f.1 q.1 in
      let size : length q.0 ≡ sp.reserved = omega (arith, t f.0) in
      (
        q.0,
        q'.0,
        sym (ok-injective q'.2),
        wrote,
        subst (λ k. IsLinked (λ u. location u all) k (map content rest) q'.0)
            (ap (λ k. at + length sp.buf + k) (sym size))
            (bytes_loop-IsLinked (past ++ sp ∷ []) rest (at + length sp.buf + sp.reserved) q'.0
              (append_snoc past sp rest ∙ e)
              (subst (λ l. Distinct (map content l)) (sym (append_snoc past sp rest)) d) rs ns ps ss
              ts fs q'.1),
      )

-- The splices of a program, once they are located, are written as linked code, if no op is a
-- `pushSize` and the offsets of every PUSH of tags fit.
pub bytes-IsLinked :
    (known : TagMap) (cs : Contents) (t : SpliceConcat) (out : List ℕ)
    → Located known cs t.splices
    → IsIndex known cs
    → Distinct cs
    → AllFit t.splices t.splices
    → bytes t ≡ ok out
    → IsLinked (λ u. location u t.splices) 0 cs out
unfolding bytes
bytes-IsLinked known cs t out h i d f w =
    subst (λ c. IsLinked (λ u. location u t.splices) 0 c out) h.same
      (bytes_loop-IsLinked known t.splices h.ready (subst (IsIndex known) (sym h.same) i) []
        t.splices 0 out refl (subst Distinct (sym h.same) d) h.ready h.named h.placed h.settled
        h.tight f w)
