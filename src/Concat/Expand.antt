-- ===== src/Concat/Expand.antt =====
-- compile.go: the passes of `spliceConcat.expand`.
use specops.Base.{
  map, ℕ, zero, suc, ◌+◌, ◌≤◌, ◌<◌, ◌≡◌, refl, ap, subst, ◌∙◌, true, false, List, [], ◌∷◌, ◌++◌,
  arith, ◌==◌, length, All, append_assoc, ok, Bool-cases, inl, inr, ==_iff,
}
use specops.Splice.{TagMap, Splice, offsets}
use specops.Splice.Need.{need}
use specops.Concat.{expand_loop, most_bytes}
use specops.Concat.Pass.{content, IsNamed, IsReady, Placed, move, pass, expand_pass-eq-pass}
use specops.Concat.Moved.{move_moves}

-- The bytes that are reserved for the ops of the splices.
pub total : List Splice → ℕ
total [] = 0
total (sp ∷ sps) = sp.reserved + total sps

pub pass-IsReady :
    (past rest : List Splice) (e : ℕ) → All IsReady rest → All IsReady (pass past rest e).0
unfolding pass
pass-IsReady past [] e h = tt
pass-IsReady past (sp ∷ rest) e (h, hs) =
    let m = move (past ++ sp ∷ rest) sp e in
    ((move_moves 0 (past ++ sp ∷ rest) sp e h).ready, pass-IsReady (past ++ m.0 ∷ []) rest m.1 hs)

-- What a pass expands the code by is what it reserves anew.
total-pass :
    (past rest : List Splice) (e : ℕ)
    → All IsReady rest
    → total (pass past rest e).0 + e ≡ total rest + (pass past rest e).1
unfolding pass total
total-pass past [] e h = refl
total-pass past (sp ∷ rest) e (h, hs) =
    let m = move (past ++ sp ∷ rest) sp e in
    omega (
      arith,
      total-pass (past ++ m.0 ∷ []) rest m.1 hs,
      (move_moves 0 (past ++ sp ∷ rest) sp e h).grown,
    )

most_bytes-pass :
    (past rest : List Splice) (e : ℕ)
    → All IsReady rest
    → most_bytes (pass past rest e).0 ≡ most_bytes rest
unfolding pass most_bytes
most_bytes-pass past [] e h = refl
most_bytes-pass past (sp ∷ rest) e (h, hs) =
    let m = move (past ++ sp ∷ rest) sp e in
    rw
      (
        (move_moves 0 (past ++ sp ∷ rest) sp e h).same_tags,
        most_bytes-pass (past ++ m.0 ∷ []) rest m.1 hs,
      )
      refl

total-le-most_bytes : (sps : List Splice) → All IsReady sps → total sps ≤ most_bytes sps
unfolding total most_bytes
total-le-most_bytes [] h = omega arith
total-le-most_bytes (sp ∷ sps) (h, hs) = omega (arith, total-le-most_bytes sps hs)

-- A pass keeps every tag where the buffers and the reserved bytes before it put it.
pub pass-Placed :
    (past rest : List Splice) (pc e : ℕ)
    → All IsReady rest
    → Placed pc rest
    → Placed (pc + e) (pass past rest e).0
unfolding pass
pass-Placed past [] pc e h p = tt
pass-Placed past (sp ∷ rest) pc e (h, hs) (p, ps) =
    let m = move (past ++ sp ∷ rest) sp e in
    let mv = move_moves pc (past ++ sp ∷ rest) sp e h in
    let next = pass-Placed (past ++ m.0 ∷ []) rest (pc + length sp.buf + sp.reserved) m.1 hs ps in
    (
      rw (mv.same_buf, mv.same_op) (mv.at p),
      subst (λ q. Placed q (pass (past ++ m.0 ∷ []) rest m.1).0)
          (omega (arith, mv.grown, ap length mv.same_buf)) next,
    )

-- Nothing needs more bytes than are reserved for it.
abbrev pub IsSettled : List Splice → List Splice → Type 0
IsSettled all = All (λ sp. need sp.op (offsets all sp.tags) ≤ sp.reserved)

pub le-pass : (past rest : List Splice) (e : ℕ) → All IsReady rest → e ≤ (pass past rest e).1
unfolding pass
le-pass past [] e h = omega arith
le-pass past (sp ∷ rest) e (h, hs) =
    let m = move (past ++ sp ∷ rest) sp e in
    omega (
      arith,
      le-pass (past ++ m.0 ∷ []) rest m.1 hs,
      (move_moves 0 (past ++ sp ∷ rest) sp e h).rises,
    )

-- A pass that expands nothing changes nothing, and finds every op settled.
pass-still :
    (past rest : List Splice) (e : ℕ)
    → All IsReady rest
    → e ≡ 0
    → (pass past rest e).1 ≡ 0
    → ((pass past rest e).0 ≡ rest) × IsSettled (past ++ rest) rest
unfolding pass
pass-still past [] e h z q = (refl, tt)
pass-still past (sp ∷ rest) e (h, hs) z q =
    let m = move (past ++ sp ∷ rest) sp e in
    let z' : m.1 ≡ 0 = omega (arith, le-pass (past ++ m.0 ∷ []) rest m.1 hs) in
    let (same, fits) = (move_moves 0 (past ++ sp ∷ rest) sp e h).still z z' in
    let (rest_same, settled) = pass-still (past ++ m.0 ∷ []) rest m.1 hs z' q in
    let flat : (past ++ m.0 ∷ []) ++ rest ≡ past ++ sp ∷ rest = rw (same, append_assoc) refl in
    ((λ i. same i ∷ rest_same i), (fits, subst (λ st. IsSettled st rest) flat settled))

module _ (fuel : ℕ) (sps : List Splice) (h : All IsReady sps) where
  expand_loop_done :
      ((pass [] sps 0).1 == 0) ≡ true → expand_loop (suc fuel) sps ≡ ok (pass [] sps 0).0
  unfolding expand_loop
  expand_loop_done t = rw (expand_pass-eq-pass [] sps 0 h) (rw t refl)

  expand_loop_again :
      ((pass [] sps 0).1 == 0) ≡ false
      → expand_loop (suc fuel) sps ≡ expand_loop fuel (pass [] sps 0).0
  unfolding expand_loop
  expand_loop_again t = rw (expand_pass-eq-pass [] sps 0 h) (rw t refl)

-- The loop of `expand` with enough fuel: it returns, and what every pass keeps holds of the result.
pub expand_loop_ends :
    (P : List Splice → Type 0)
    → ((sps : List Splice) → All IsReady sps → Placed 0 sps → P sps → P (pass [] sps 0).0)
    → (fuel : ℕ) (sps : List Splice) → All IsReady sps
    → Placed 0 sps
    → P sps
    → most_bytes sps < fuel + total sps
    → (out : List Splice) × (expand_loop fuel sps ≡ ok out)
      × All IsReady out
      × Placed 0 out
      × IsSettled out out
      × P out
expand_loop_ends P keep zero sps h p x f = absurd (omega (arith, total-le-most_bytes sps h))
expand_loop_ends P keep (suc fuel) sps h p x f = elim (Bool-cases ((pass [] sps 0).1 == 0)) [
  | inl done ↦
      let (same, settled) = pass-still [] sps 0 h refl ((==_iff _ 0).0 done) in
      (sps, expand_loop_done fuel sps h done ∙ ap ok same, h, p, settled, x)
  | inr again ↦
      let next = (pass [] sps 0).0 in
      let r =
        expand_loop_ends P keep fuel next (pass-IsReady [] sps 0 h) (pass-Placed [] sps 0 0 h p)
          (keep sps h p x) (ground (arith, most_bytes-pass [] sps 0 h, total-pass [] sps 0 h)) in
      (r.0, expand_loop_again fuel sps h again ∙ r.1, r.2, r.3, r.4, r.5)
]

pub pass-content :
    (past rest : List Splice) (e : ℕ)
    → All IsReady rest
    → map content (pass past rest e).0 ≡ map content rest
unfolding pass
pass-content past [] e h = refl
pass-content past (sp ∷ rest) e (h, hs) =
    let m = move (past ++ sp ∷ rest) sp e in
    let mv = move_moves 0 (past ++ sp ∷ rest) sp e h in
    rw (mv.same_buf, mv.same_op, pass-content (past ++ m.0 ∷ []) rest m.1 hs) refl

pub pass-IsNamed :
    (known : TagMap) (past rest : List Splice) (e : ℕ)
    → All IsReady rest
    → All (IsNamed known) rest
    → All (IsNamed known) (pass past rest e).0
unfolding pass
pass-IsNamed known past [] e h n = tt
pass-IsNamed known past (sp ∷ rest) e (h, hs) (n, ns) =
    let m = move (past ++ sp ∷ rest) sp e in
    let mv = move_moves 0 (past ++ sp ∷ rest) sp e h in
    (rw (mv.same_op, mv.same_tags) n, pass-IsNamed known (past ++ m.0 ∷ []) rest m.1 hs ns)
