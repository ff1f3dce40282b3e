-- ===== src/Concat/Moved.antt =====
-- compile.go: a pass of `spliceConcat.expand` on one splice.
use specops.Base.{
  ℕ, ◌+◌, ◌≤◌, ◌<◌, ◌≡◌, refl, ap, ◌∙◌, Option, none, some, List, arith, ltb, length, Bool-cases,
  inl, inr, ltb→le, ltb→lt,
}
use specops.Splice.{
  LazyLocator, jumpdest, label, push_tag, push_tags, push_size, Splice, offsets, any_large,
  zeroes_of_one,
}
use specops.Splice.Need.{need, need-le, splice}
use specops.Concat.Pass.{TagOffset, Takes, IsReady, shift, grow, move}

-- What a pass does to one splice: its buffer, op and tags stay, what is reserved grows by what the
-- pass has expanded, and an offset moves by what it had expanded before.
pub record Moved (pc e : ℕ) (all : List Splice) (sp : Splice) (m : Splice × ℕ) : Type 0 where
  pub ready : IsReady m.0
  pub same_buf : m.0.buf ≡ sp.buf
  pub same_op : m.0.op ≡ sp.op
  pub same_tags : m.0.tags ≡ sp.tags
  pub rises : e ≤ m.1
  pub still : e ≡ 0 → m.1 ≡ 0 → (m.0 ≡ sp) × (need sp.op (offsets all sp.tags) ≤ sp.reserved)
  pub grown : m.0.reserved + e ≡ sp.reserved + m.1
  pub at :
      TagOffset (λ o. o ≡ some (pc + length sp.buf)) sp.op sp.offset
      → TagOffset (λ o. o ≡ some (pc + e + length sp.buf)) sp.op m.0.offset

shift-some : (o : Option ℕ) (e x : ℕ) → o ≡ some x → shift o e ≡ some (x + e)
shift-some o e x p = rw p

shift_none : (o : Option ℕ) (e : ℕ) → (x : ℕ) × (o ≡ some x) → e ≡ 0 → shift o e ≡ o
shift_none o e (x, p) z = rw (p, z) (ap some (omega arith))

module _ (pc : ℕ) (all : List Splice) (b : List ℕ) (o : Option ℕ) (ks : List ℕ) (r e : ℕ) where
  grow-Moved :
      (op : Option LazyLocator)
      → IsReady (splice b op o ks r)
      → ((x : Option ℕ) → (P : Option ℕ → Type 0) → TagOffset P op x)
      → ((q : ℕ) → r < q → Takes op r → Takes op q)
      → Moved pc e all (splice b op o ks r) (grow all (splice b op o ks r) e)
  grow-Moved op h free more = elim (Bool-cases (ltb r (need op (offsets all ks)))) [
    | inl y ↦ rw y (record {
      ready = record {
        shape = h.shape;
        known = h.known;
        takes = more _ (ltb→lt r (need op (offsets all ks)) y) h.takes;
        room = need-le op all ks h.shape;
      };
      same_buf = refl;
      same_op = refl;
      same_tags = refl;
      rises = omega (arith, ltb→lt r (need op (offsets all ks)) y);
      still = λ z q. absurd (omega (arith, ltb→lt r (need op (offsets all ks)) y));
      grown = omega (arith, ltb→lt r (need op (offsets all ks)) y);
      at = λ _. free o _;
    })
    | inr n ↦ rw n (record {
      ready = h;
      same_buf = refl;
      same_op = refl;
      same_tags = refl;
      rises = omega arith;
      still = λ z q. (refl, ltb→le r (need op (offsets all ks)) n);
      grown = refl;
      at = λ _. free o _;
    })
  ]

  move-Moved :
      (op : Option LazyLocator)
      → IsReady (splice b op o ks r)
      → Moved pc e all (splice b op o ks r) (move all (splice b op o ks r) e)
  unfolding move any_large zeroes_of_one
  move-Moved none h = record {
    ready = h;
    same_buf = refl;
    same_op = refl;
    same_tags = refl;
    rises = omega arith;
    still = λ z q. (refl, omega arith);
    grown = refl;
    at = λ _. tt;
  }
  move-Moved (some (jumpdest t)) h = record {
    ready = record {
      shape = h.shape;
      known = (h.known.0 + e, shift-some o e _ h.known.1);
      takes = h.takes;
      room = h.room;
    };
    same_buf = refl;
    same_op = refl;
    same_tags = refl;
    rises = omega arith;
    still = λ z q. (
      ap (λ y. splice b (some (jumpdest t)) y ks r) (shift_none o e h.known z),
      rw (h.shape, h.takes) (omega arith),
    );
    grown = refl;
    at = λ p. shift-some o e _ p ∙ ap some (omega arith);
  }
  move-Moved (some (label t)) h = record {
    ready = record {
      shape = h.shape;
      known = (h.known.0 + e, shift-some o e _ h.known.1);
      takes = h.takes;
      room = h.room;
    };
    same_buf = refl;
    same_op = refl;
    same_tags = refl;
    rises = omega arith;
    still =
        λ z q. (ap (λ y. splice b (some (label t)) y ks r) (shift_none o e h.known z), omega arith);
    grown = refl;
    at = λ p. shift-some o e _ p ∙ ap some (omega arith);
  }
  move-Moved (some (push_tag t)) h =
      grow-Moved (some (push_tag t)) h (λ _ _. tt) (λ q l k. omega arith)
  move-Moved (some (push_tags ts)) h =
      grow-Moved (some (push_tags ts)) h (λ _ _. tt) (λ q l k. omega arith)
  move-Moved (some (push_size t u)) h =
      grow-Moved (some (push_size t u)) h (λ _ _. tt) (λ q l k. omega arith)

pub move_moves :
    (pc : ℕ) (all : List Splice) (sp : Splice) (e : ℕ)
    → IsReady sp
    → Moved pc e all sp (move all sp e)
move_moves pc all sp e h = move-Moved pc all sp.buf sp.offset sp.tags sp.reserved e sp.op h
