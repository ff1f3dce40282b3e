-- ===== src/Splice/Growth.antt =====
-- compile.go: `splice.extraBytesNeeded` while estimates of offsets are made and raised.
use specops.Base.{
  ℕ, zero, suc, ◌+◌, ◌≤◌, ◌<◌, ◌≡◌, refl, ap, true, false, Option, none, some, List, [], ◌∷◌, ◌++◌,
  arith, length,
}
use specops.Splice.{
  LazyLocator, jumpdest, label, push_tag, push_tags, push_size, Splice, offset_of, offsets,
  any_large, zeroes_of_one, zeroes_of_two, is_push_size,
}
use specops.Splice.Need.{tags_need, need, zeroes_of_one-le}

-- How an estimate may change: one may be made, but not of the very first byte, and one may be
-- raised, but not away from the very first byte.
abbrev pub Raised : Option ℕ → Option ℕ → Type 0
Raised none none = Unit
Raised none (some y) = 0 < y
Raised (some x) none = ⊥
Raised (some x) (some y) = (x ≤ y) × (x ≡ 0 → y ≡ 0)

abbrev pub AllRaised : List (Option ℕ) → List (Option ℕ) → Type 0
AllRaised [] [] = Unit
AllRaised (o ∷ os) (p ∷ ps) = Raised o p × AllRaised os ps
AllRaised _ _ = ⊥

any_large_mono :
    (os ps : List (Option ℕ)) → AllRaised os ps → any_large os ≡ true → any_large ps ≡ true
unfolding any_large
any_large_mono [] [] h e = e
any_large_mono [] (p ∷ ps) h e = absurd h
any_large_mono (o ∷ os) [] h e = absurd h
any_large_mono (none ∷ os) (none ∷ ps) (h, hs) e = any_large_mono os ps hs e
any_large_mono (none ∷ os) (some y ∷ ps) (h, hs) e = ground (arith, any_large_mono os ps hs)
any_large_mono (some x ∷ os) (none ∷ ps) (h, hs) e = absurd h
any_large_mono (some x ∷ os) (some y ∷ ps) (h, hs) e = ground (arith, any_large_mono os ps hs)

length-AllRaised : (os ps : List (Option ℕ)) → AllRaised os ps → length os ≡ length ps
length-AllRaised [] [] h = refl
length-AllRaised [] (p ∷ ps) h = absurd h
length-AllRaised (o ∷ os) [] h = absurd h
length-AllRaised (o ∷ os) (p ∷ ps) (h, hs) = ap suc (length-AllRaised os ps hs)

zeroes_of_one-up : (os : List (Option ℕ)) (n : ℕ) → n ≤ zeroes_of_one os n
unfolding zeroes_of_one
zeroes_of_one-up [] n = omega arith
zeroes_of_one-up (none ∷ os) n = omega arith
zeroes_of_one-up (some x ∷ os) n = ground (arith, zeroes_of_one-up os (n + 1))

zeroes_of_one_mono :
    (os ps : List (Option ℕ)) (n : ℕ) → AllRaised os ps → zeroes_of_one ps n ≤ zeroes_of_one os n
unfolding zeroes_of_one
zeroes_of_one_mono [] [] n h = omega arith
zeroes_of_one_mono [] (p ∷ ps) n h = absurd h
zeroes_of_one_mono (o ∷ os) [] n h = absurd h
zeroes_of_one_mono (none ∷ os) (none ∷ ps) n (h, hs) = omega arith
zeroes_of_one_mono (none ∷ os) (some y ∷ ps) n (h, hs) = ground arith
zeroes_of_one_mono (some x ∷ os) (none ∷ ps) n (h, hs) = absurd h
zeroes_of_one_mono (some x ∷ os) (some y ∷ ps) n (h, hs) =
    ground (arith, zeroes_of_one_mono os ps (n + 1) hs, zeroes_of_one-up os (n + 1))

pub zeroes_of_two-le_one : (os : List (Option ℕ)) → zeroes_of_two os 0 ≤ 1
unfolding zeroes_of_two
zeroes_of_two-le_one [] = omega arith
zeroes_of_two-le_one (none ∷ os) = omega arith
zeroes_of_two-le_one (some x ∷ os) = ground arith

zeroes_of_two_mono :
    (os ps : List (Option ℕ)) → AllRaised os ps → zeroes_of_two ps 0 ≤ zeroes_of_two os 0
unfolding zeroes_of_two
zeroes_of_two_mono [] [] h = omega arith
zeroes_of_two_mono [] (p ∷ ps) h = absurd h
zeroes_of_two_mono (o ∷ os) [] h = absurd h
zeroes_of_two_mono (none ∷ os) (none ∷ ps) (h, hs) = omega arith
zeroes_of_two_mono (none ∷ os) (some y ∷ ps) (h, hs) = ground arith
zeroes_of_two_mono (some x ∷ os) (none ∷ ps) (h, hs) = absurd h
zeroes_of_two_mono (some x ∷ os) (some y ∷ ps) (h, hs) = ground arith

any_large-nil : (os : List (Option ℕ)) → any_large os ≡ true → 0 < length os
unfolding any_large
any_large-nil [] h = cc
any_large-nil (o ∷ os) h = omega arith

pub tags_need_mono : (os ps : List (Option ℕ)) → AllRaised os ps → tags_need os ≤ tags_need ps
tags_need_mono os ps h = ground (
  arith,
  any_large_mono os ps h,
  any_large-nil os,
  any_large-nil ps,
  length-AllRaised os ps h,
  zeroes_of_one_mono os ps 0 h,
  zeroes_of_two_mono os ps h,
  zeroes_of_two-le_one os,
  zeroes_of_two-le_one ps,
  zeroes_of_one-le os 0,
  zeroes_of_one-le ps 0,
)

-- One list of splices has every estimate of another, perhaps raised.
abbrev pub Grows : List Splice → List Splice → Type 0
Grows st st' = (k : ℕ) → Raised (offset_of st k) (offset_of st' k)

pub offsets-Grows :
    (st st' : List Splice) (ks : List ℕ) → Grows st st' → AllRaised (offsets st ks) (offsets st' ks)
offsets-Grows st st' [] g = tt
offsets-Grows st st' (k ∷ ks) g = (g k, offsets-Grows st st' ks g)

pub Raised-refl : (o : Option ℕ) → Raised o o
Raised-refl none = tt
Raised-refl (some x) = (omega arith, λ e. e)

-- A change of one splice raises its estimate at most.
pub Grows-at :
    (past rest : List Splice) (sp sp' : Splice)
    → Raised sp.offset sp'.offset
    → Grows (past ++ sp ∷ rest) (past ++ sp' ∷ rest)
Grows-at [] rest sp sp' h zero = h
Grows-at [] rest sp sp' h (suc k) = Raised-refl (offset_of rest k)
Grows-at (x ∷ past) rest sp sp' h zero = Raised-refl x.offset
Grows-at (x ∷ past) rest sp sp' h (suc k) = Grows-at past rest sp sp' h k

-- No more is reserved than the op needs; nothing is said of a `pushSize`.
abbrev pub IsTight : List Splice → Splice → Type 0
IsTight all sp = is_push_size sp.op ≡ false → sp.reserved ≤ need sp.op (offsets all sp.tags)

need_mono :
    (op : Option LazyLocator) (os ps : List (Option ℕ))
    → is_push_size op ≡ false
    → AllRaised os ps
    → need op os ≤ need op ps
need_mono none os ps e h = omega arith
need_mono (some (jumpdest t)) os ps e h = tags_need_mono os ps h
need_mono (some (label t)) os ps e h = omega arith
need_mono (some (push_tag t)) os ps e h = tags_need_mono os ps h
need_mono (some (push_tags ts)) os ps e h = tags_need_mono os ps h
need_mono (some (push_size t u)) os ps e h = cc

pub IsTight-Grows :
    (st st' : List Splice) (sp : Splice) → Grows st st' → IsTight st sp → IsTight st' sp
IsTight-Grows st st' sp g h e =
    omega (arith, h e, need_mono sp.op _ _ e (offsets-Grows st st' sp.tags g))
