-- ===== src/Run/Deployed.antt =====
-- run.go: where `newRunConfig` deploys the code, and which error a run returns.
use specops.Base.{
  ℕ, ◌≡◌, refl, ap, sym, subst, ◌∙◌, Bool, true, false, Option, none, some, List, ltb, length,
  if◌then◌else◌, Outcome, ok, err, ◌>>=◌, >>=-eq-ok, ok-injective, Bool-cases, inl, inr, ◌⊎◌,
  code_preset,
}
use specops.Code.{Code}
use specops.Compile.{compile}
use specops.Run.{
  StateDb, Configuration, ExecutionResult, Revert, err_from, RunOption, apply_options, initial,
  prepared, deploy, new_run_config, run_bytecode, run,
}

-- What go-ethereum documents of its database.
pub record Keeps {D : Type 0} (s : StateDb D) : Type 0 where
  pub code_read : (a : ℕ) (code : List ℕ) (d : D) → s.get_code a (s.set_code a code d) ≡ code
  pub code_listed : (a b : ℕ) (d : D) → s.get_code a (s.add_to_access_list b d) ≡ s.get_code a d
  pub code_paid : (a b v : ℕ) (d : D) → s.get_code a (s.add_balance b v d) ≡ s.get_code a d

reversal : Option ℕ → List ℕ → Option Revert
reversal o bs = elim o [ none ↦ none | some e ↦ some (record { data_found = bs; cause = e }) ]

failed :
    (r : ExecutionResult) (e : ℕ)
    → r.failure ≡ some e
    → err_from r ≡ some (record { data_found = r.data_of_revert; cause = e })
unfolding err_from reversal
failed r e f = ap (λ o. reversal o r.data_of_revert) f

abbrev returned : Bool → ExecutionResult → Outcome (ExecutionResult × Option Revert)
returned b r = if b then ok (r, none) else ok (r, err_from r)

reported :
    (b : Bool) (x r : ExecutionResult) (v : Option Revert) (e : ℕ) {c : Bool}
    → c ≡ b
    → returned b x ≡ ok (r, v)
    → r.failure ≡ some e
    → ((c ≡ true) × (v ≡ none))
      ⊎ ((c ≡ false) × (v ≡ some (record { data_found = r.data_of_revert; cause = e })))
reported true x r v e k h f =
    let w : ExecutionResult × Option Revert = (x, none) in
    let z : w ≡ (r, v) = ok-injective h in inl (k, sym (ap (λ y. y.1) z))
reported false x r v e k h f =
    let w : ExecutionResult × Option Revert = (x, err_from x) in
    let z : w ≡ (r, v) = ok-injective h in
    inr (k, sym (ap (λ y. y.1) z) ∙ ap err_from (ap (λ y. y.0) z) ∙ failed r e f)

module _ {D : Type 0} (s : StateDb D) (default_address default_from : ℕ) (fresh : D) where
  deployed :
      (compiled : List ℕ) (c c' : Configuration D)
      → Keeps s
      → deploy s default_address default_from fresh compiled c ≡ ok c'
      → (s.get_code c'.address c'.own_db ≡ compiled) × (c'.replaced_db ≡ c.replaced_db)
  unfolding deploy
  deployed compiled c c' k h =
      elim (Bool-cases (
        ltb 0 (
          length (
            s.get_code c.address
              (prepared s default_address default_from fresh c.address c.own_db))))) [
                | inl y ↦ let e : err code_preset ≡ ok c' = rw y at h in absurd (cc)
                | inr n ↦
                    let set =
                      s.set_code c.address compiled
                        (prepared s default_address default_from fresh c.address c.own_db) in
                    let listed = s.add_to_access_list c.address set in
                    let e : ok (record c { own_db = s.add_balance c.from c.value listed }) ≡ ok c' =
                      rw n at h in
                    subst
                      (λ (u : Configuration D).
                        (s.get_code u.address u.own_db ≡ compiled)
                        × (u.replaced_db ≡ c.replaced_db))
                      (ok-injective e)
                      (
                        k.code_paid c.address c.from c.value listed
                            ∙ k.code_listed c.address c.address set
                            ∙ k.code_read c.address compiled
                                (prepared s default_address default_from fresh c.address c.own_db),
                        refl,
                      )
              ]

  -- For a database that keeps code as documented, if newRunConfig returns a configuration then the
  -- compiled code is the code of the contract's address in the database that newRunConfig has made,
  -- and a database that the options have put in its place is as they have left it.
  pub new_run_config-deploys :
      (compiled : List ℕ) (opts : List (RunOption D)) (c : Configuration D)
      → Keeps s
      → new_run_config s default_address default_from fresh compiled opts ≡ ok c
      → (left : Configuration D) × (apply_options opts
            (initial s default_address default_from fresh compiled)
          ≡ ok left)
        × (c.replaced_db ≡ left.replaced_db)
        × (s.get_code c.address c.own_db ≡ compiled)
  unfolding new_run_config
  new_run_config-deploys compiled opts c k h =
      let p =
        >>=-eq-ok (apply_options opts (initial s default_address default_from fresh compiled))
          (deploy s default_address default_from fresh compiled) h in
      let (code, same) = deployed compiled p.0 c k p.2 in (p.0, p.1, same, code)

  -- If a run returns the result of an execution that failed, then the program compiled and the
  -- options applied, and either NoErrorOnRevert was set and no error is returned, or it was not set
  -- and the error has the result's data and cause.
  pub run-reports :
      (apply_message : Configuration D → List ℕ → Outcome ExecutionResult) (program : Code)
      (call_data : List ℕ) (opts : List (RunOption D)) (r : ExecutionResult) (v : Option Revert)
      (e : ℕ)
      → run s default_address default_from fresh apply_message program call_data opts ≡ ok (r, v)
      → r.failure ≡ some e
      → (compiled : List ℕ) × (c : Configuration D) × (compile program ≡ ok compiled)
        × (new_run_config s default_address default_from fresh compiled opts ≡ ok c)
        × (((c.no_error_on_revert ≡ true) × (v ≡ none))
            ⊎ ((c.no_error_on_revert ≡ false)
                × (v ≡ some (record { data_found = r.data_of_revert; cause = e }))))
  unfolding run run_bytecode
  run-reports apply_message program call_data opts r v e h f =
      let p =
        >>=-eq-ok (compile program)
          (λ b. run_bytecode s default_address default_from fresh apply_message b call_data opts)
          h in
      let finish : Configuration D → ExecutionResult → Outcome (ExecutionResult × Option Revert) =
        λ c x. returned c.no_error_on_revert x in
      let q =
        >>=-eq-ok (new_run_config s default_address default_from fresh p.0 opts)
          (λ c. apply_message c call_data >>= finish c) p.2 in
      let x = >>=-eq-ok (apply_message q.0 call_data) (finish q.0) q.2 in
      (p.0, q.0, p.1, q.1, reported (q.0.no_error_on_revert) x.0 r v e refl x.2 f)
