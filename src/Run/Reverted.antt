-- ===== src/Run/Reverted.antt =====
-- revert/revert.go: errors that wrap others, and the data of a revert among them.
use specops.Base.{ℕ, zero, suc, ◌≡◌, refl, ap, sym, ◌∙◌, Option, none, some, List}
use specops.Run.{ExecutionResult, Revert, err_from}

-- A Go error, as `errors.As` sees it: an Error of the package, whose `Unwrap` gives its cause, an
-- error that wraps another, or one that wraps none, such as the cause.
pub data GoError : Type 0 where
  revert_error : Revert → GoError
  wrapping : GoError → GoError
  opaque_error : ℕ → GoError

-- `Error.Unwrap`, and that of other errors.
abbrev pub unwrap : GoError → Option GoError
unwrap (revert_error e) = some (opaque_error e.cause)
unwrap (wrapping e) = some e
unwrap (opaque_error n) = none

-- `Data`; `none` is `nil, false`.
unfoldable pub data_of : GoError → Option (List ℕ)
data_of (revert_error e) = some e.data_found
data_of (wrapping e) = data_of e
data_of (opaque_error n) = none

abbrev pub wrapped : ℕ → GoError → GoError
wrapped zero e = e
wrapped (suc n) e = wrapping (wrapped n e)

data_of-wrapped : (n : ℕ) (e : GoError) → data_of (wrapped n e) ≡ data_of e
unfolding data_of
data_of-wrapped zero e = refl
data_of-wrapped (suc n) e = data_of-wrapped n e

abbrev from_failure : Option ℕ → List ℕ → Option Revert
from_failure o bs = elim o [ none ↦ none | some e ↦ some (record { data_found = bs; cause = e }) ]

data_kept :
    (o : Option ℕ) (bs : List ℕ) (v : Revert) → from_failure o bs ≡ some v → v.data_found ≡ bs
data_kept none bs v h = absurd (cc)
data_kept (some e) bs v h =
    sym (ap (λ (u : Option Revert). elim u [ none ↦ bs | some w ↦ w.data_found ]) h)

-- The data of the error that `ErrFrom` makes of a failed execution is its revert data, however often
-- the error is wrapped.
data_of-err_from :
    (r : ExecutionResult) (v : Revert) (n : ℕ)
    → err_from r ≡ some v
    → data_of (wrapped n (revert_error v)) ≡ some r.data_of_revert
unfolding data_of err_from
data_of-err_from r v n h =
    data_of-wrapped n (revert_error v) ∙ ap some (data_kept r.failure r.data_of_revert v h)
