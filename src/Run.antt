-- ===== src/Run.antt =====
-- run.go, runopts/runopts.go, revert/revert.go: the configuration of a run, the options that modify
-- it, and the error of a run that reverts. An address is its number.
mod Tests
pub mod Deployed
pub mod Waiting
pub mod Start
pub mod Reverted
pub mod Captured
pub mod Terminal
mod CapturedTests
mod StartTests
use specops.Base.{
  ℕ, zero, suc, Bool, true, false, Option, none, some, List, [], ◌∷◌, ltb, if◌then◌else◌, length,
  not, Outcome, ok, err, ◌>>=◌, code_preset,
}
use specops.Code.{Code}
use specops.Compile.{compile}

-- vm.StateDB of go-ethereum, with what the code relies on: code that is set is read back, and stays
-- when the access list or a balance changes.
pub record StateDb (D : Type 0) : Type 0 where
  pub exist : ℕ → D → Bool
  pub create_account : ℕ → D → D
  pub create_contract : ℕ → D → D
  pub get_code : ℕ → D → List ℕ
  pub set_code : ℕ → List ℕ → D → D
  pub set_state : ℕ → ℕ → ℕ → D → D
  pub set_nonce : ℕ → ℕ → D → D
  pub add_to_access_list : ℕ → D → D
  pub add_balance : ℕ → ℕ → D → D

-- An account of a genesis allocation; `balance` is `none` for a nil pointer.
pub record Account : Type 0 where
  pub account_code : List ℕ
  pub storage : List (ℕ × ℕ)
  pub balance : Option ℕ
  pub nonce : ℕ

-- The database that `newRunConfig` makes, and the one that an option has put in its place, if any.
-- `tracer` is the Debugger that VMConfig.Tracer belongs to, if any. The contexts of the block and the
-- transaction are go-ethereum's values.
pub record Configuration (D : Type 0) : Type 0 where
  pub address : ℕ
  pub bytecode : List ℕ
  pub from : ℕ
  pub value : ℕ
  pub no_error_on_revert : Bool
  pub own_db : D
  pub replaced_db : Option D
  pub tracer : Option ℕ

-- core.ExecutionResult: the error of the EVM, if any, and the data of a revert.
pub record ExecutionResult : Type 0 where
  pub failure : Option ℕ
  pub data_of_revert : List ℕ

-- revert.Error.
pub record Revert : Type 0 where
  pub data_found : List ℕ
  pub cause : ℕ

-- `ErrFrom`; `none` is the nil error. `Failed` says whether there is an error.
unfoldable pub err_from : ExecutionResult → Option Revert
err_from r = elim r.failure [
  | none ↦ none
  | some e ↦ some (record { data_found = r.data_of_revert; cause = e })
]

-- `Option.Apply`.
abbrev pub RunOption : Type 0 → Type 0
RunOption D = Configuration D → Outcome (Configuration D)

module _ {D : Type 0} where
  -- cfg.StateDB.
  abbrev pub current_db : Configuration D → D
  current_db c = elim c.replaced_db [ none ↦ c.own_db | some d ↦ d ]

  -- A change of what cfg.StateDB points to.
  abbrev pub on_db : (D → D) → Configuration D → Configuration D
  on_db f c = elim c.replaced_db [
    | none ↦ record c { own_db = f c.own_db }
    | some d ↦ record c { replaced_db = some (f d) }
  ]

  abbrev pub no_error : RunOption D
  no_error c = ok (record c { no_error_on_revert = true })

  abbrev pub contract_address : ℕ → RunOption D
  contract_address a c = ok (record c { address = a })

  abbrev pub from_address : ℕ → RunOption D
  from_address a c = ok (record c { from = a })

  abbrev pub with_debugger : ℕ → RunOption D
  with_debugger dbg c = ok (record c { tracer = some dbg })

  abbrev pub with_value : ℕ → RunOption D
  with_value v c = ok (record c { value = v })

  module _ (s : StateDb D) where
    abbrev pub set_storage : ℕ → List (ℕ × ℕ) → D → D
    set_storage a [] d = d
    set_storage a ((slot, v) ∷ st) d = set_storage a st (s.set_state a slot v d)

    abbrev pub allocate : ℕ → Account → D → D
    allocate a acc d =
        let made = s.create_account a d in
        let coded =
          if ltb 0 (length acc.account_code) then s.set_code a acc.account_code made else made in
        let stored = set_storage a acc.storage coded in
        let paid : D = elim acc.balance [ none ↦ stored | some b ↦ s.add_balance a b stored ] in
        s.set_nonce a acc.nonce paid

    abbrev pub allocate_all : List (ℕ × Account) → D → D
    allocate_all [] d = d
    allocate_all ((a, acc) ∷ alloc) d = allocate_all alloc (allocate a acc d)

    -- The order in which a map is ranged over is that of the list.
    abbrev pub genesis_alloc : List (ℕ × Account) → RunOption D
    genesis_alloc alloc c = ok (on_db (allocate_all alloc) c)

  unfoldable pub apply_options : List (RunOption D) → Configuration D → Outcome (Configuration D)
  apply_options [] c = ok c
  apply_options (o ∷ os) c = do c' ← o c; apply_options os c'

  -- `default_address` and `default_from` are hashes of texts, and `fresh` the new, empty database.
  module _ (s : StateDb D) (default_address default_from : ℕ) (fresh : D) where
    abbrev pub initial : List ℕ → Configuration D
    initial compiled = record {
      address = default_address;
      bytecode = compiled;
      from = default_from;
      value = 0;
      no_error_on_revert = false;
      own_db = fresh;
      replaced_db = none;
      tracer = none;
    }

    -- The contract as it is before its code is set.
    abbrev pub prepared : ℕ → D → D
    prepared a d = s.create_contract a (if not (s.exist a d) then s.create_account a d else d)

    -- What `newRunConfig` does behind the options, on `sdb`.
    unfoldable pub deploy : List ℕ → Configuration D → Outcome (Configuration D)
    deploy compiled c =
        if ltb 0 (length (s.get_code c.address (prepared c.address c.own_db)))
        then err code_preset
        else ok (record c {
          own_db = s.add_balance c.from c.value (
              s.add_to_access_list c.address
                (s.set_code c.address compiled (prepared c.address c.own_db)));
        })

    unfoldable pub new_run_config : List ℕ → List (RunOption D) → Outcome (Configuration D)
    unfolding apply_options deploy
    new_run_config compiled opts = do c ← apply_options opts (initial compiled); deploy compiled c

    -- `apply_message` is core.ApplyMessage on an EVM with the configuration.
    module _ (apply_message : Configuration D → List ℕ → Outcome ExecutionResult) where
      unfoldable pub run_bytecode :
          List ℕ → List ℕ → List (RunOption D) → Outcome (ExecutionResult × Option Revert)
      unfolding new_run_config err_from
      run_bytecode compiled call_data opts = do
        c ← new_run_config compiled opts
        r ← apply_message c call_data
        if c.no_error_on_revert then ok (r, none) else ok (r, err_from r)

      unfoldable pub run :
          Code → List ℕ → List (RunOption D) → Outcome (ExecutionResult × Option Revert)
      unfolding run_bytecode
      run c call_data opts = do compiled ← compile c; run_bytecode compiled call_data opts
