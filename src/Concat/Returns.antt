-- ===== src/Concat/Returns.antt =====
-- compile.go: `spliceConcat.bytes` on PUSHes of a bounded number of tags.
use specops.Base.{
  ℕ, ◌/◌, ◌%◌, ◌⊎◌, inl, inr, true, false, ltb, ◌≤◌, ◌<◌, ◌≡◌, refl, ap, sym, ◌∙◌, Option, none,
  some, List, [], ◌∷◌, ◌++◌, map, String, arith, length, length-map, All, Outcome, ok, err,
  unknown_tag, ◌>>=◌,
}
use specops.Opcode.{jumpdest_op}
use specops.Splice.{
  LazyLocator, jumpdest, label, push_tag, push_tags, push_size, Splice, TagMap, resolve, known_tag,
  offsets, two_offsets, abs_diff, is_push_size,
}
use specops.Splice.Need.{IsTagged, splice, tag_bytes}
use specops.Types.{pusher_bytecode}
use specops.Types.Push.{pusher_bytecode-eq, push_code, strip}
use specops.Concat.{push_diff, op_bytes, bytes_loop}
use specops.Concat.Pass.{Placed, IsReady, content, names, IsNamed}
use specops.Concat.Fit.{locations-small}
use specops.Concat.Prepare.{end_of}
use specops.Concat.Encode.{length-table, sized_tags}
use specops.Concat.Emit.{table_of, tags_code}
use specops.Concat.Names.{Contents, IsIndex, tag_index, resolved, location}

-- A table has from 1 to 16 tags.
abbrev pub IsSized : Option LazyLocator → Type 0
IsSized (some (push_tags ts)) = (0 < length ts) × (length ts ≤ 16)
IsSized _ = Unit

push_table :
    (xs : List ℕ)
    → 0 < length xs
    → length xs ≤ 16
    → (code : List ℕ) × (pusher_bytecode (table_of xs) ≡ ok code)
push_table xs l u =
    let n = tag_bytes (map some xs) in
    let size = length-table n (sized_tags (map some xs)) xs in
    (
      push_code (strip (table_of xs)),
      pusher_bytecode-eq (table_of xs) (rw size (ground arith)) (rw size (ground arith)),
    )

-- The distance of two offsets below 64 KiB is pushed.
push_two :
    (xs : List ℕ)
    → length xs ≡ 2
    → All (λ x. x < 65536) xs
    → (code : List ℕ) × ((do (a, b) ← two_offsets (map some xs); push_diff a b) ≡ ok code)
unfolding push_diff abs_diff
push_two [] l s = absurd (omega arith)
push_two (x ∷ []) l s = absurd (omega arith)
push_two (x ∷ y ∷ z ∷ xs) l s = absurd (omega arith)
push_two (x ∷ y ∷ []) l (p, (q, _)) =
    let near : ltb 65535 (abs_diff x y) ≡ false = ground arith in
    let bs : List ℕ = abs_diff x y / 256 % 256 ∷ abs_diff x y % 256 ∷ [] in
    (push_code (strip bs), rw near (pusher_bytecode-eq bs (omega arith) (omega arith)))

module _ (all : List Splice) (b : List ℕ) (o : Option ℕ) (ks : List ℕ) (r : ℕ) (xs : List ℕ) where
  op_returns :
      (op : Option LazyLocator)
      → IsTagged op ks
      → IsSized op
      → offsets all ks ≡ map some xs
      → length xs ≡ length (names op)
      → (is_push_size op ≡ true → All (λ x. x < 65536) xs)
      → (code : List ℕ) × (op_bytes all (splice b op o ks r) ≡ ok code)
  unfolding op_bytes
  op_returns none h z e l s = ([], refl)
  op_returns (some (label t)) h z e l s = ([], refl)
  op_returns (some (jumpdest t)) h z e l s = (jumpdest_op ∷ [], refl)
  op_returns (some (push_tag t)) h z e l s =
      let (code, w) = push_table xs (omega arith) (omega arith) in
      (code, tags_code all b o ks r xs (push_tag t) refl h e ∙ w)
  op_returns (some (push_tags ts)) h z e l s =
      let (code, w) = push_table xs (omega (arith, z.0)) (omega (arith, z.1)) in
      (code, tags_code all b o ks r xs (push_tags ts) refl h e ∙ w)
  op_returns (some (push_size t u)) h z e l s = rw e (push_two xs l (s refl))

same_length :
    {A : Type 0} (f : A → Option ℕ) (ts : List A) (xs : List ℕ)
    → map f ts ≡ map some xs
    → length xs ≡ length ts
same_length f ts xs e =
    sym (length-map {A = ℕ} {B = Option ℕ} some xs) ∙ sym (ap length e) ∙ length-map f ts

module _ (known : TagMap) (all : List Splice) (ready : All IsReady all)
    (index : IsIndex known (map content all)) (placed : Placed 0 all) where
  -- The loop of `bytes` returns.
  pub bytes_returns :
      (sps : List Splice)
      → All IsReady sps
      → All (IsNamed known) sps
      → All (λ c. IsSized c.1) (map content sps)
      → All (λ c. is_push_size c.1 ≡ false) (map content sps) ⊎ (end_of 0 all < 65536)
      → (out : List ℕ) × (bytes_loop all sps ≡ ok out)
  unfolding bytes_loop
  bytes_returns [] h n z d = ([], refl)
  bytes_returns (sp ∷ sps) (h, hs) (n, ns) (z, zs) d =
      let (xs, offs, locs) = resolved known all (names sp.op) sp.tags ready index n in
      let (code, w) =
        op_returns all sp.buf sp.offset sp.tags sp.reserved xs sp.op h.shape z offs
          (same_length (λ t. location t all) (names sp.op) xs locs)
          (λ y. elim d [
            | inl (none_here, _) ↦ absurd (cc)
            | inr near ↦ locations-small (names sp.op) all xs placed near locs
          ]) in
      let (out, w') =
        bytes_returns sps hs ns zs (elim d [ inl (_, later) ↦ inl later | inr near ↦ inr near ]) in
      (sp.buf ++ (code ++ out), rw (w, w') refl)

found :
    (known : TagMap) (t : String) (ts : List String) (k : ℕ) (o : Option ℕ)
    → o ≡ some k
    → elim o as (λ _. Outcome (List ℕ)) [
      | none ↦ err (unknown_tag t)
      | some j ↦ resolve known ts >>= λ js. ok (j ∷ js)
    ]
      ≡ (resolve known ts >>= λ js. ok (k ∷ js))
found known t ts k none e = absurd (cc)
found known t ts k (some j) e = let z : j ≡ k = cc in rw z refl

-- Names that some splice marks are known.
pub IsKnown_of_marked :
    (known : TagMap) (cs : Contents) (ts : List String)
    → IsIndex known cs
    → All (λ t. (k : ℕ) × (tag_index t cs ≡ some k)) ts
    → (ks : List ℕ) × (resolve known ts ≡ ok ks)
unfolding resolve
IsKnown_of_marked known cs [] i h = ([], refl)
IsKnown_of_marked known cs (t ∷ ts) i ((k, e), hs) =
    let (ks, w) = IsKnown_of_marked known cs ts i hs in
    (k ∷ ks, found known t ts k (known_tag t known) (i t ∙ e) ∙ rw w refl)
