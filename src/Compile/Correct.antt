-- ===== src/Compile/Correct.antt =====
-- compile.go: `Code.Compile` as a whole, against the description of Compile/Linking.
use specops.Base.{
  ℕ, ◌+◌, ◌≤◌, ◌≡◌, refl, sym, subst, ◌∙◌, false, Option, none, some, List, [], ◌∷◌, ◌++◌, inl, inr,
  map, append-nil, String, length, arith, All, ok, ◌>>=◌, >>=-eq-ok,
}
use specops.Splice.{LazyLocator, is_push_size}
use specops.Concat.{SpliceConcat, reserve, expand, bytes}
use specops.Concat.Pass.{names}
use specops.Concat.Names.{Contents, location}
use specops.Concat.Grow.{HasOps}
use specops.Concat.Linked.{IsLinked}
use specops.Concat.Link.{bytes-IsLinked}
use specops.Concat.Fit.{room, IsPlain-AllFit}
use specops.Concat.Fit
use specops.Code.{Code, flatten}
use specops.Compile.{Compiling, start, compile_loop, compile}
use specops.Compile.Reading.{Item, byte, lazily, items, Program, compile_loop-Holds, start-Holds}
use specops.Compile.Unique.{Program-unique}
use specops.Compile.Linking.{
  Links, widest, AllOps, StartsWithByte, IsPlain, whole, finished-Located, whole-IsIndex,
  whole-Distinct,
}

Links-map :
    (loc : String → Option ℕ) (at at' : ℕ) (bs : List ℕ) (is : List Item) (out : List ℕ)
    → at + length bs ≡ at'
    → Links loc at' is out
    → Links loc at (map byte bs ++ is) (bs ++ out)
Links-map loc at at' [] is out e h = subst (λ k. Links loc k is out) (omega arith) h
Links-map loc at at' (b ∷ bs) is out e h =
    (bs ++ out, refl, Links-map loc (at + 1) at' bs is out (omega arith) h)

-- The linked runs of a program are its linked items.
Links-IsLinked :
    (loc : String → Option ℕ) (cs : Contents) (buf : List ℕ) (at : ℕ) (out : List ℕ)
    → IsLinked loc at (whole cs buf) out
    → Links loc at (items cs buf) out
unfolding whole items
Links-IsLinked loc [] buf at out (k, rest, e, w, r) =
    let h = Links-map loc at (at + length buf) buf [] [] refl refl in
    let e' : buf ++ [] ≡ out = rw (e, w, r) refl in
    subst (λ l. Links loc at l out) (append-nil (map byte buf))
      (subst (Links loc at (map byte buf ++ [])) e' h)
Links-IsLinked loc ((b, none) ∷ cs) buf at out (k, rest, e, w, r) =
    let h = Links-IsLinked loc cs buf (at + length b + length k) rest r in
    let z : length k ≡ 0 = rw w refl in
    let e' : b ++ rest ≡ out = rw (e, w) refl in
    subst (Links loc at _) e'
      (Links-map loc at (at + length b + length k) b (items cs buf) rest (omega arith) h)
Links-IsLinked loc ((b, some l) ∷ cs) buf at out (k, rest, e, w, r) =
    let h = Links-IsLinked loc cs buf (at + length b + length k) rest r in
    subst (Links loc at _) (sym e) (
      Links-map loc at (at + length b) b (lazily l ∷ items cs buf) (k ++ rest) refl
        (k, rest, refl, w, h))

widest-map : (bs : List ℕ) (is : List Item) → widest (map byte bs ++ is) ≡ length bs + widest is
widest-map [] is = omega arith
widest-map (b ∷ bs) is = omega (arith, widest-map bs is)

pub room-items :
    (cs : Contents) (buf : List ℕ) → HasOps cs → room (whole cs buf) ≡ widest (items cs buf) + 1
unfolding room whole items
room-items [] buf h =
    let e : widest (map byte buf) ≡ length buf + 0 =
      subst (λ l. widest l ≡ length buf + 0) (append-nil (map byte buf)) (widest-map buf []) in
    omega arith
room-items ((b, none) ∷ cs) buf ((l, e), h) = absurd (cc)
room-items ((b, some m) ∷ cs) buf (_, h) =
    omega (arith, widest-map b (lazily m ∷ items cs buf), room-items cs buf h)

AllOps-map :
    (P : LazyLocator → Type 0) (bs : List ℕ) (is : List Item)
    → AllOps P (map byte bs ++ is)
    → AllOps P is
AllOps-map P [] is h = h
AllOps-map P (b ∷ bs) is h = AllOps-map P bs is h

pub All-contents :
    (P : LazyLocator → Type 0) (Q : Option LazyLocator → Type 0)
    → Q none
    → ((l : LazyLocator) → P l → Q (some l))
    → (cs : Contents) (buf : List ℕ) → AllOps P (items cs buf)
    → All (λ c. Q c.1) (whole cs buf)
unfolding whole items
All-contents P Q n f [] buf h = (n, tt)
All-contents P Q n f ((b, none) ∷ cs) buf h =
    (n, All-contents P Q n f cs buf (AllOps-map P b (items cs buf) h))
All-contents P Q n f ((b, some l) ∷ cs) buf h =
    let (p, r) = AllOps-map P b (lazily l ∷ items cs buf) h in
    (f l p, All-contents P Q n f cs buf r)

starts :
    (cs : Contents) (buf : List ℕ)
    → HasOps cs
    → StartsWithByte (items cs buf)
    → Fit.StartsWithByte (whole cs buf)
unfolding whole items
starts [] [] h s = absurd s
starts [] (b ∷ buf) h s = omega arith
starts (([], none) ∷ cs) buf ((l, e), h) s = absurd (cc)
starts (([], some m) ∷ cs) buf h s = absurd s
starts ((x ∷ b, m) ∷ cs) buf h s = omega arith

IsPlain-whole :
    (cs : Contents) (buf : List ℕ) → HasOps cs → IsPlain (items cs buf) → Fit.IsPlain (whole cs buf)
IsPlain-whole cs buf h p = record {
  no_sizes = All-contents _ (λ o. is_push_size o ≡ false) refl (λ l e. e) cs buf p.no_sizes;
  short = omega (arith, room-items cs buf h, p.short);
  tables = elim p.tables [
    | inl s ↦ inl (starts cs buf h s)
    | inr t ↦ inr (All-contents _ (λ o. length (names o) ≤ 1) (omega arith) (λ l e. e) cs buf t)
  ];
}

-- The parts of a compilation that succeeds.
parts :
    (c : Code) (out : List ℕ)
    → compile c ≡ ok out
    → (done : Compiling) × (t : SpliceConcat) × (compile_loop (flatten c) start ≡ ok done)
      × ((reserve done.splices >>= expand) ≡ ok t)
      × (bytes t ≡ ok out)
unfolding compile
parts c out h =
    let p =
      >>=-eq-ok (compile_loop (flatten c) start)
        (λ d. reserve d.splices >>= λ r. expand r >>= bytes) h in
    let q = >>=-eq-ok (reserve p.0.splices) (λ r. expand r >>= bytes) p.2 in
    let r = >>=-eq-ok (expand q.0) bytes q.2 in (p.0, r.0, p.1, rw (q.1) r.1, r.2)

-- If Compile returns bytes for a program that gives the items `is`, and the program is plain (no
-- PUSHSize, less than 64 KiB, no table of several tags unless a byte stands first), then there are
-- locations such that the bytes are the items in order: each byte itself, nothing for a Label and a
-- JUMPDEST byte for a JUMPDEST, each at the location of its tag, and for a PUSH of tags an
-- instruction that, when executed, pushes their locations.
pub compile-Links :
    (c : Code) (is : List Item) (out : List ℕ)
    → Program (flatten c) start is
    → IsPlain is
    → compile c ≡ ok out
    → (loc : String → Option ℕ) × Links loc 0 is out
compile-Links c is out p plain h =
    let (done, t, read, fixed, wrote) = parts c out h in
    let (js, q, held) = compile_loop-Holds (flatten c) start done [] start-Holds read in
    let s = done.splices in
    let cs = held.complete in
    let same : items cs held.buf ≡ is = held.same ∙ Program-unique (flatten c) start js is q p in
    let at = finished-Located s cs held.buf held.reading t fixed in
    let index = whole-IsIndex s cs held.buf held.reading in
    let fit =
      IsPlain-AllFit s.all_tags (whole cs held.buf) t.splices
        (IsPlain-whole cs held.buf held.reading.ops (subst IsPlain (sym same) plain)) index at in
    (
      λ u. location u t.splices,
      subst (λ l. Links (λ u. location u t.splices) 0 l out) same
          (Links-IsLinked _ cs held.buf 0 out (
            bytes-IsLinked s.all_tags (whole cs held.buf) t out at index
              (whole-Distinct s cs held.buf held.reading) fit wrote)),
    )
