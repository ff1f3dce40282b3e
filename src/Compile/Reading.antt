-- ===== src/Compile/Reading.antt =====
-- compile.go: the loop of `Code.Compile`, by what each Bytecoder of the flattened program gives.
use specops.Base.{
  ℕ, ◌≡◌, refl, ap, sym, subst, ◌∙◌, none, some, List, [], ◌∷◌, ◌++◌, map, append_assoc, append-nil,
  Outcome, ok, err, wrong_depth, arith, ◌>>=◌, >>=-eq-ok, ok-injective, if◌then◌else◌, ◌==◌,
}
use mathlib.Core.List.{map-append}
use specops.Splice.{LazyLocator, known_tag}
use specops.Concat.{new_splice_buffer}
use specops.Concat.Names.{Contents, tag_index}
use specops.Concat.Grow.{IsReading, write-IsReading, new_splice_buffer-IsReading}
use specops.Code.{
  Bytecoder, op_code, raw, pusher, inverted, lazy_locator, set_depth, expect_depth, transformation,
  external, code, bytecode,
}
use specops.Compile.{
  Compiling, start, invert, scan, check_setting, append_checked, append_lazy, compile_one,
  compile_loop, with_code, with_lazy,
}

-- A byte of code, or an op whose code is found lazily.
pub data Item : Type 0 where
  byte : ℕ → Item
  lazily : LazyLocator → Item

-- The items of a program's splices, in order.
unfoldable pub items : Contents → List ℕ → List Item
items [] buf = map byte buf
items ((b, none) ∷ cs) buf = map byte b ++ items cs buf
items ((b, some l) ∷ cs) buf = map byte b ++ lazily l ∷ items cs buf

-- What a Bytecoder gives at a depth of the stack.
abbrev pub Gives : Bytecoder → ℕ → List Item → Type 0
Gives (set_depth n) d is = is ≡ []
Gives (expect_depth n) d is = is ≡ []
Gives (inverted op) d is = (u : ℕ) × (invert op d ≡ ok u) × (is ≡ byte u ∷ [])
Gives (lazy_locator l) d is = is ≡ lazily l ∷ []
Gives b d is = (bs : List ℕ) × (bytecode b ≡ ok bs) × (is ≡ map byte bs)

-- The items of a program, with the states of the compiler between its Bytecoders.
abbrev pub Program : List Bytecoder → Compiling → List Item → Type 0
Program [] c is = is ≡ []
Program (b ∷ bs) c is =
    (here : List Item) × (rest : List Item) × (c' : Compiling) × (compile_one b c ≡ ok c')
    × Gives b c.stack_depth here
    × (is ≡ here ++ rest)
    × Program bs c' rest

items-write : (cs : Contents) (buf bs : List ℕ) → items cs (buf ++ bs) ≡ items cs buf ++ map byte bs
unfolding items
items-write [] buf bs = map-append byte buf bs
items-write ((b, none) ∷ cs) buf bs =
    ap (λ r. map byte b ++ r) (items-write cs buf bs) ∙ sym (append_assoc (map byte b) _ _)
items-write ((b, some l) ∷ cs) buf bs =
    ap (λ r. map byte b ++ lazily l ∷ r) (items-write cs buf bs)
    ∙ sym (append_assoc (map byte b) _ _)

items-op :
    (cs : Contents) (buf : List ℕ) (l : LazyLocator)
    → items (cs ++ (buf, some l) ∷ []) [] ≡ items cs buf ++ lazily l ∷ []
unfolding items
items-op [] buf l = refl
items-op ((b, none) ∷ cs) buf l =
    ap (λ r. map byte b ++ r) (items-op cs buf l) ∙ sym (append_assoc (map byte b) _ _)
items-op ((b, some m) ∷ cs) buf l =
    ap (λ r. map byte b ++ lazily m ∷ r) (items-op cs buf l) ∙ sym (append_assoc (map byte b) _ _)

-- The splices of a state, read so far.
pub record Holds (c : Compiling) (is : List Item) : Type 0 where
  pub complete : Contents
  pub buf : List ℕ
  pub reading : IsReading c.splices complete buf
  pub same : items complete buf ≡ is

append_checked-Holds :
    (r : Outcome (List ℕ)) (c c' : Compiling) (is : List Item)
    → Holds c is
    → append_checked r c ≡ ok c'
    → (bs : List ℕ) × (r ≡ ok bs) × Holds c' (is ++ map byte bs)
unfolding append_checked
append_checked-Holds r c c' is h w =
    let q =
      >>=-eq-ok (check_setting c)
        (λ _. r >>= λ bs. scan bs 0 c.stack_depth >>= λ d. ok (with_code c bs d)) w in
    let p = >>=-eq-ok r (λ bs. scan bs 0 c.stack_depth >>= λ d. ok (with_code c bs d)) q.2 in
    let bs = p.0 in
    let o = >>=-eq-ok (scan bs 0 c.stack_depth) (λ d. ok (with_code c bs d)) p.2 in
    (
      bs,
      p.1,
      subst (λ k. Holds k (is ++ map byte bs)) (ok-injective o.2)
          (record {
            complete = h.complete;
            buf = h.buf ++ bs;
            reading = write-IsReading bs c.splices h.complete h.buf h.reading;
            same = items-write h.complete h.buf bs ∙ ap (λ r. r ++ map byte bs) h.same;
          }),
    )

append_lazy-Holds :
    (l : LazyLocator) (c c' : Compiling) (is : List Item)
    → Holds c is
    → append_lazy l c ≡ ok c'
    → Holds c' (is ++ lazily l ∷ [])
unfolding append_lazy
append_lazy-Holds l c c' is h w =
    let q =
      >>=-eq-ok (new_splice_buffer l c.splices) (λ s. check_setting c >>= λ _. ok (with_lazy l c s))
        w in
    let p = >>=-eq-ok (check_setting c) (λ _. ok (with_lazy l c q.0)) q.2 in
    subst (λ k. Holds k (is ++ lazily l ∷ [])) (ok-injective p.2)
      (record {
        complete = h.complete ++ (h.buf, some l) ∷ [];
        buf = [];
        reading = new_splice_buffer-IsReading l c.splices q.0 h.complete h.buf h.reading q.1;
        same = items-op h.complete h.buf l ∙ ap (λ r. r ++ lazily l ∷ []) h.same;
      })

raw-Holds :
    (bs : List ℕ) (c c' : Compiling) (is : List Item)
    → Holds c is
    → compile_one (raw bs) c ≡ ok c'
    → Holds c' (is ++ map byte bs)
unfolding compile_one
raw-Holds bs c c' is h w =
    let p = >>=-eq-ok (check_setting c) (λ _. ok (with_code c bs c.stack_depth)) w in
    subst (λ k. Holds k (is ++ map byte bs)) (ok-injective p.2)
      (record {
        complete = h.complete;
        buf = h.buf ++ bs;
        reading = write-IsReading bs c.splices h.complete h.buf h.reading;
        same = items-write h.complete h.buf bs ∙ ap (λ r. r ++ map byte bs) h.same;
      })

expected :
    (c c' : Compiling) (n : ℕ)
    → (if c.stack_depth == n then ok c else err (wrong_depth c.stack_depth n)) ≡ ok c'
    → c ≡ c'
expected c c' n w = ground arith

checked :
    (is : List Item) {r : Outcome (List ℕ)} {c : Compiling}
    → (bs : List ℕ) × (r ≡ ok bs) × Holds c (is ++ map byte bs)
    → (here : List Item) × ((bs : List ℕ) × (r ≡ ok bs) × (here ≡ map byte bs))
      × Holds c (is ++ here)
checked is (bs, e, h) = (map byte bs, (bs, e, refl), h)

nothing-Holds :
    (c c' : Compiling) (is : List Item) → Holds c is → c'.splices ≡ c.splices → Holds c' (is ++ [])
nothing-Holds c c' is h e = record {
  complete = h.complete;
  buf = h.buf;
  reading = subst (λ s. IsReading s h.complete h.buf) (sym e) h.reading;
  same = h.same ∙ sym (append-nil is);
}

-- Every Bytecoder that the compiler accepts adds what it gives to the splices, and nothing else.
pub compile_one-Holds :
    (b : Bytecoder) (c c' : Compiling) (is : List Item)
    → Holds c is
    → compile_one b c ≡ ok c'
    → (here : List Item) × Gives b c.stack_depth here × Holds c' (is ++ here)
unfolding compile_one
compile_one-Holds (set_depth n) c c' is h w =
    ([], refl, nothing-Holds c c' is h (ap (λ k. k.splices) (sym (ok-injective w))))
compile_one-Holds (expect_depth n) c c' is h w =
    ([], refl, nothing-Holds c c' is h (ap (λ k. k.splices) (sym (expected c c' n w))))
compile_one-Holds (inverted op) c c' is h w =
    let q = >>=-eq-ok (invert op c.stack_depth) (λ u. append_checked (ok (u ∷ [])) c) w in
    let (bs, e, g) = append_checked-Holds (ok (q.0 ∷ [])) c c' is h q.2 in
    (
      byte q.0 ∷ [],
      (q.0, q.1, refl),
      subst (λ l. Holds c' (is ++ map byte l)) (sym (ok-injective e)) g,
    )
compile_one-Holds (lazy_locator l) c c' is h w =
    (lazily l ∷ [], refl, append_lazy-Holds l c c' is h w)
compile_one-Holds (raw bs) c c' is h w = (map byte bs, (bs, refl, refl), raw-Holds bs c c' is h w)
compile_one-Holds (op_code o) c c' is h w =
    checked is (append_checked-Holds (bytecode (op_code o)) c c' is h w)
compile_one-Holds (pusher bs) c c' is h w =
    checked is (append_checked-Holds (bytecode (pusher bs)) c c' is h w)
compile_one-Holds (transformation t) c c' is h w =
    checked is (append_checked-Holds (bytecode (transformation t)) c c' is h w)
compile_one-Holds (external r) c c' is h w =
    checked is (append_checked-Holds (bytecode (external r)) c c' is h w)
compile_one-Holds (code k) c c' is h w =
    checked is (append_checked-Holds (bytecode (code k)) c c' is h w)

-- So the splices of a program that is read hold its items, in order.
pub compile_loop-Holds :
    (bs : List Bytecoder) (c c' : Compiling) (is : List Item)
    → Holds c is
    → compile_loop bs c ≡ ok c'
    → (more : List Item) × Program bs c more × Holds c' (is ++ more)
unfolding compile_loop
compile_loop-Holds [] c c' is h w =
    ([], refl, subst (λ k. Holds k (is ++ [])) (ok-injective w) (nothing-Holds c c is h refl))
compile_loop-Holds (b ∷ bs) c c' is h w =
    let q = >>=-eq-ok (compile_one b c) (compile_loop bs) w in
    let (here, g, k) = compile_one-Holds b c q.0 is h q.1 in
    let (more, p, k') = compile_loop-Holds bs q.0 c' (is ++ here) k q.2 in
    (
      here ++ more,
      (here, more, q.0, q.1, g, refl, p),
      subst (Holds c') (append_assoc is here more) k',
    )

pub start-Holds : Holds start []
unfolding items tag_index known_tag
start-Holds = record {
  complete = [];
  buf = [];
  reading = record { shape = refl; ops = tt; index = λ t. refl; distinct = tt };
  same = refl;
}
