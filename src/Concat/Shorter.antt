-- ===== src/Concat/Shorter.antt =====
-- compile.go: `splice.leadingZeroes` on a table of two-byte offsets that starts with 0.
use specops.Base.{
  ℕ, ◌+◌, ◌*◌, ◌≤◌, ◌<◌, ◌≡◌, refl, sym, ◌∙◌, true, Option, some, List, ◌∷◌, map, String, arith,
  length, length-map, ok,
}
use specops.Splice.{push_tags, Splice, offsets, any_large, zeroes_of_two, extra_bytes_needed}
use specops.Splice.Need.{splice, tags_need, needed_by_tags}
use specops.Types.Push.{strip, push_code, length-strip-le, pusher_bytecode-inv}
use specops.Concat.{op_bytes, big_endian}
use specops.Concat.Encode.{table, length-table, sized_tags}
use specops.Concat.Emit.{table_of, tags_code}

length-strip-zeros : (xs : List ℕ) → length (strip (table 2 (0 ∷ xs))) ≤ length (table 2 xs)
unfolding strip table big_endian
length-strip-zeros xs = length-strip-le (table 2 xs)

two_each :
    (xs : List ℕ) → any_large (map some (0 ∷ xs)) ≡ true → length (table 2 xs) ≡ length xs * 2
two_each xs l = length-table 2 (rw l at (sized_tags (map some (0 ∷ xs)))) xs

need_of_zero :
    (xs : List ℕ)
    → any_large (map some (0 ∷ xs)) ≡ true
    → tags_need (map some (0 ∷ xs)) ≡ length xs * 2 + 2
unfolding zeroes_of_two
need_of_zero xs l = rw l (omega (arith, length-map some xs))

-- If the first of several tags is at offset 0 and another at 256 or more, then the PUSH of the tags
-- that is written is shorter than what is reserved for it.
pub op_bytes_shorter :
    (all : List Splice) (b : List ℕ) (o : Option ℕ) (ks : List ℕ) (r : ℕ) (ts : List String)
    (xs code : List ℕ)
    → length ks ≡ length ts
    → offsets all ks ≡ map some (0 ∷ xs)
    → any_large (map some (0 ∷ xs)) ≡ true
    → op_bytes all (splice b (some (push_tags ts)) o ks r) ≡ ok code
    → (n : ℕ) × (extra_bytes_needed all (splice b (some (push_tags ts)) o ks r) ≡ ok n)
      × (length code < n)
unfolding op_bytes push_code
op_bytes_shorter all b o ks r ts xs code h e l w =
    let ys : List ℕ = 0 ∷ xs in
    let (_, _, c) =
      pusher_bytecode-inv (table_of ys) code
        (sym (tags_code all b o ks r ys (push_tags ts) refl h e) ∙ w) in
    let s : table_of ys ≡ table 2 ys = rw l refl in
    (
      tags_need (offsets all ks),
      needed_by_tags all b o r (push_tags ts) ks refl h,
      rw (c, e, s) (omega (arith, need_of_zero xs l, length-strip-zeros xs, two_each xs l)),
    )
