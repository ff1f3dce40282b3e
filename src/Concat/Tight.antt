-- ===== src/Concat/Tight.antt =====
-- compile.go: what is reserved for a PUSH of tags, against what it needs, from pass to pass.
use specops.Base.{
  ℕ, ◌+◌, ◌≤◌, ◌<◌, ◌≡◌, refl, ap, sym, subst, Option, none, some, List, [], ◌∷◌, ◌++◌, ◌⊎◌, inl,
  inr, arith, ltb, length, All, All-append, Bool-cases,
}
use specops.Splice.{LazyLocator, jumpdest, label, push_tag, push_tags, push_size, Splice, offsets}
use specops.Splice.Need.{need, splice}
use specops.Splice.Growth.{Raised, Raised-refl, Grows-at, IsTight, IsTight-Grows}
use specops.Concat.Pass.{TagOffset, IsReady, Placed, shift, grow, move, pass}

pub All-imp {ℓ κ μ} :
    {A : Type ℓ} (P : A → Type κ) (Q : A → Type μ) (xs : List A)
    → ((x : A) → P x → Q x)
    → All P xs
    → All Q xs
All-imp P Q [] f h = tt
All-imp P Q (x ∷ xs) f h = (f x h.0, All-imp P Q xs f h.1)

pub All-before {ℓ κ} : {A : Type ℓ} (P : A → Type κ) (xs ys : List A) → All P (xs ++ ys) → All P xs
All-before P [] ys h = tt
All-before P (x ∷ xs) ys h = (h.0, All-before P xs ys h.1)

pub All-behind {ℓ κ} : {A : Type ℓ} (P : A → Type κ) (xs ys : List A) → All P (xs ++ ys) → All P ys
All-behind P [] ys h = h
All-behind P (x ∷ xs) ys h = All-behind P xs ys h.1

-- One splice in a pass: its estimate is raised at most, and it is as tight as before. The code is
-- expanded only behind some byte.
record Moves (all : List Splice) (pc e : ℕ) (sp : Splice) (m : Splice × ℕ) : Type 0 where
  raised : Raised sp.offset m.0.offset
  tight : IsTight all m.0
  behind : (m.1 ≡ 0) ⊎ (0 < pc + length sp.buf + sp.reserved)

module _ (all : List Splice) (pc : ℕ) (b : List ℕ) (o : Option ℕ) (ks : List ℕ) (r e : ℕ) where
  grow-Moves :
      (op : Option LazyLocator)
      → 1 ≤ r
      → IsTight all (splice b op o ks r)
      → Moves all pc e (splice b op o ks r) (grow all (splice b op o ks r) e)
  grow-Moves op p t = elim (Bool-cases (ltb r (need op (offsets all ks)))) [
    | inl y ↦
        rw y
          (record { raised = Raised-refl o; tight = λ _. omega arith; behind = inr (omega arith) })
    | inr n ↦ rw n (record { raised = Raised-refl o; tight = t; behind = inr (omega arith) })
  ]

  shift-Raised : (e ≡ 0) ⊎ (0 < pc) → o ≡ some (pc + length b) → Raised o (shift o e)
  shift-Raised z p = rw p (omega arith, λ q. ground arith)

  move-Moves :
      (op : Option LazyLocator)
      → IsReady (splice b op o ks r)
      → TagOffset (λ x. x ≡ some (pc + length b)) op o
      → (e ≡ 0) ⊎ (0 < pc)
      → IsTight all (splice b op o ks r)
      → Moves all pc e (splice b op o ks r) (move all (splice b op o ks r) e)
  unfolding move
  move-Moves none h p z t = record { raised = Raised-refl o; tight = t; behind = ground arith }
  move-Moves (some (jumpdest s)) h p z t = record {
    raised = shift-Raised z p;
    tight = t;
    behind = ground arith;
  }
  move-Moves (some (label s)) h p z t = record {
    raised = shift-Raised z p;
    tight = t;
    behind = ground arith;
  }
  move-Moves (some (push_tag s)) h p z t = grow-Moves (some (push_tag s)) h.takes t
  move-Moves (some (push_tags s)) h p z t = grow-Moves (some (push_tags s)) h.takes t
  move-Moves (some (push_size s u)) h p z t = grow-Moves (some (push_size s u)) h.takes t

pub append_snoc {ℓ} :
    {A : Type ℓ} (xs : List A) (x : A) (ys : List A) → (xs ++ x ∷ []) ++ ys ≡ xs ++ x ∷ ys
append_snoc [] x ys = refl
append_snoc (y ∷ xs) x ys = ap (◌∷◌ y) (append_snoc xs x ys)

-- All splices are tight, among themselves.
abbrev pub AllTight : List Splice → Type 0
AllTight st = All (IsTight st) st

pub tight-pass :
    (past rest : List Splice) (pc e : ℕ)
    → All IsReady rest
    → Placed pc rest
    → (e ≡ 0) ⊎ (0 < pc)
    → AllTight (past ++ rest)
    → AllTight (past ++ (pass past rest e).0)
unfolding pass
tight-pass past [] pc e h p z t = t
tight-pass past (sp ∷ rest) pc e (h, hs) (p, ps) z t =
    let all = past ++ sp ∷ rest in
    let m = move all sp e in
    let tsp = (All-behind (IsTight all) past (sp ∷ rest) t).0 in
    let mv = move-Moves all pc sp.buf sp.offset sp.tags sp.reserved e sp.op h p z tsp in
    let g = Grows-at past rest sp m.0 mv.raised in
    let keep = λ (x : Splice). IsTight-Grows all (past ++ m.0 ∷ rest) x g in
    let before = All-imp _ _ past keep (All-before (IsTight all) past (sp ∷ rest) t) in
    let after = All-imp _ _ rest keep (All-behind (IsTight all) past (sp ∷ rest) t).1 in
    let now =
      All-append (IsTight (past ++ m.0 ∷ rest)) past (m.0 ∷ rest) before
        (keep m.0 mv.tight, after) in
    subst AllTight (append_snoc past m.0 (pass (past ++ m.0 ∷ []) rest m.1).0) (
      tight-pass (past ++ m.0 ∷ []) rest (pc + length sp.buf + sp.reserved) m.1 hs ps mv.behind
        (subst AllTight (sym (append_snoc past m.0 rest)) now))
