-- ===== src/Concat/Emit.antt =====
-- compile.go: `spliceConcat.bytes`, op by op, once the offsets of the tags are known.
use specops.Base.{
  ℕ, ◌+◌, ◌-◌, ◌*◌, ◌<◌, ◌≡◌, refl, ap, sym, subst, ◌∙◌, Bool, true, false, Option, some, List, [],
  map, arith, length, length-map, replicate, All, ok, ◌>>=◌, ok-injective, append-nil,
}
use specops.Splice.{
  LazyLocator, jumpdest, label, push_tag, push_tags, push_size, Splice, offsets, bytes_per_tag,
  leading_zeroes, extra_bytes_needed,
}
use specops.Splice.Need.{
  IsTagged, is_tags, splice, tag_bytes, tag_zeroes, tag_zeroes-le, tags_need, needed_by_tags,
  zeroes_by_tags, bytes_by_tags,
}
use specops.Types.{pusher_bytecode}
use specops.Types.Push.{
  be_value, strip, push_code, run_push, pusher_bytecode-inv, run_push-pusher_bytecode,
}
use specops.Concat.{copy_offsets, op_bytes}
use specops.Concat.Encode.{
  table, copy-eq, sized_tags, join, be_value-table, small_tags, Fits, length-strip-table,
}

-- The PUSH of the tags with the offsets `xs`.
abbrev pub table_of : List ℕ → List ℕ
table_of xs = table (tag_bytes (map some xs)) xs

abbrev pub is_push_tags : LazyLocator → Bool
is_push_tags (push_tag t) = true
is_push_tags (push_tags ts) = true
is_push_tags _ = false

module _ (all : List Splice) (b : List ℕ) (o : Option ℕ) (ks : List ℕ) (r : ℕ) (xs : List ℕ) where
  pub tags_code :
      (op : LazyLocator)
      → is_tags op ≡ true
      → IsTagged (some op) ks
      → offsets all ks ≡ map some xs
      → (extra_bytes_needed all (splice b (some op) o ks r) >>= λ m.
          leading_zeroes all (splice b (some op) o ks r) >>= λ z.
          bytes_per_tag all (splice b (some op) o ks r) >>= λ n.
          copy_offsets n (replicate (m + z - 1) 0) 0 (offsets all ks) >>= λ full.
          pusher_bytecode full)
        ≡ pusher_bytecode (table_of xs)
  tags_code op e h k =
      let os : List (Option ℕ) = map some xs in
      let full_length : tags_need os + tag_zeroes os - 1 ≡ length xs * tag_bytes os = omega (
        arith,
        tag_zeroes-le os,
        ap (λ (l : ℕ). l * tag_bytes os) (length-map {A = ℕ} {B = Option ℕ} some xs),
      ) in
      rw (needed_by_tags all b o r op ks e h) (
        rw (zeroes_by_tags all b o r op ks e) (
          rw (bytes_by_tags all b o r op ks e) (
            rw k (
              rw full_length
                (rw (copy-eq (tag_bytes os) (sized_tags os) xs [] 0 (omega arith)) refl)))))

-- The PUSH of a table runs: it pushes the offsets, joined.
run_push-table :
    (xs out : List ℕ)
    → All (λ x. x < 65536) xs
    → pusher_bytecode (table_of xs) ≡ ok out
    → (out ≡ push_code (strip (table_of xs)))
      × (run_push out ≡ some (join (tag_bytes (map some xs)) 0 xs, []))
run_push-table xs out small h =
    let (l, u, e) = pusher_bytecode-inv (table_of xs) out h in
    let (code, p, r) = run_push-pusher_bytecode (table_of xs) [] l u in
    let same : code ≡ out = ok-injective (sym p ∙ h) in
    let r' : run_push out ≡ some (be_value 0 (table_of xs), []) =
      subst (λ c. run_push c ≡ some (be_value 0 (table_of xs), [])) same (rw append-nil at r) in
    (e, r' ∙ ap (λ v. some (v, [])) (be_value-table (map some xs) 0 xs (small_tags xs small)))

-- A PUSH of tags, as `bytes` writes it: as long as is needed, and it pushes the offsets, joined.
pub tags_op :
    (all : List Splice) (b : List ℕ) (o : Option ℕ) (ks : List ℕ) (r : ℕ) (op : LazyLocator)
    (xs code : List ℕ)
    → is_push_tags op ≡ true
    → IsTagged (some op) ks
    → offsets all ks ≡ map some xs
    → Fits xs
    → op_bytes all (splice b (some op) o ks r) ≡ ok code
    → (length code ≡ tags_need (offsets all ks))
      × (run_push code ≡ some (join (tag_bytes (map some xs)) 0 xs, []))
unfolding op_bytes push_code
tags_op all b o ks r (push_tag t) xs code p h k f w =
    let (e, v) =
      run_push-table xs code f.0 (sym (tags_code all b o ks r xs (push_tag t) refl h k) ∙ w) in
    (rw (e, k) (omega (arith, length-strip-table xs f)), v)
tags_op all b o ks r (push_tags ts) xs code p h k f w =
    let (e, v) =
      run_push-table xs code f.0 (sym (tags_code all b o ks r xs (push_tags ts) refl h k) ∙ w) in
    (rw (e, k) (omega (arith, length-strip-table xs f)), v)
tags_op all b o ks r (jumpdest t) xs code p h k f w = absurd (cc)
tags_op all b o ks r (label t) xs code p h k f w = absurd (cc)
tags_op all b o ks r (push_size t u) xs code p h k f w = absurd (cc)
