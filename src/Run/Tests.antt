-- ===== src/Run/Tests.antt =====
-- A run on a database that holds nothing but code.
use specops.Base.{
  ℕ, ◌≡◌, refl, true, false, none, some, List, [], ◌∷◌, if◌then◌else◌, ◌==◌, ==_iff, Outcome, ok,
  ◌⊎◌,
}
use specops.Code.{Code, op_code, from_list}
use specops.Compile.{compile}
use specops.Run.{
  StateDb, Configuration, ExecutionResult, Revert, RunOption, contract_address, no_error,
  apply_options, initial, new_run_config, run,
}
use specops.Run.Reverted.{revert_error, wrapping, opaque_error, unwrap, data_of}
use specops.Run.Deployed.{Keeps, new_run_config-deploys, run-reports}

abbrev Codes : Type 0
Codes = ℕ → List ℕ

abbrev codes_db : StateDb Codes
codes_db = record {
  exist = λ a d. false;
  create_account = λ a d. d;
  create_contract = λ a d. d;
  get_code = λ a d. d a;
  set_code = λ a code d. λ b. if a == b then code else d b;
  set_state = λ a slot v d. d;
  set_nonce = λ a n d. d;
  add_to_access_list = λ a d. d;
  add_balance = λ a v d. d;
}

same_address : (a : ℕ) → (a == a) ≡ true
same_address a = (==_iff a a).1 refl

codes_db-Keeps : Keeps codes_db
codes_db-Keeps = record {
  code_read = λ a code d. rw (same_address a) refl;
  code_listed = λ a b d. refl;
  code_paid = λ a b v d. refl;
}

abbrev no_codes : Codes
no_codes a = []

-- STOP, at the address 7.
abbrev stop : Code
stop = from_list (op_code 0 ∷ [])

abbrev at_seven : List (RunOption Codes)
at_seven = contract_address 7 ∷ no_error ∷ []

abbrev configured : Configuration Codes
configured = record {
  address = 7;
  bytecode = 0 ∷ [];
  from = 2;
  value = 0;
  no_error_on_revert = true;
  own_db = λ b. if 7 == b then 0 ∷ [] else [];
  replaced_db = none;
  tracer = none;
}

configured_run : new_run_config codes_db 1 2 no_codes (0 ∷ []) at_seven ≡ ok configured
unfolding new_run_config
configured_run = refl

new_run_config-deploys_example :
    (left : Configuration Codes) × (apply_options at_seven (initial codes_db 1 2 no_codes (0 ∷ []))
      ≡ ok left)
    × (configured.replaced_db ≡ left.replaced_db)
    × (codes_db.get_code configured.address configured.own_db ≡ 0 ∷ [])
new_run_config-deploys_example =
    new_run_config-deploys codes_db 1 2 no_codes (0 ∷ []) at_seven configured codes_db-Keeps
      configured_run

-- An EVM in which every execution reverts.
abbrev reverted : ExecutionResult
reverted = record { failure = some 9; data_of_revert = 1 ∷ [] }

abbrev reverting : Configuration Codes → List ℕ → Outcome ExecutionResult
reverting c d = ok reverted

abbrev reversal_found : Revert
reversal_found = record { data_found = 1 ∷ []; cause = 9 }

stop_reverts : run codes_db 1 2 no_codes reverting stop [] [] ≡ ok (reverted, some reversal_found)
unfolding run compile
stop_reverts = refl

run-reports_example :
    (compiled : List ℕ) × (c : Configuration Codes) × (compile stop ≡ ok compiled)
    × (new_run_config codes_db 1 2 no_codes compiled [] ≡ ok c)
    × (((c.no_error_on_revert ≡ true) × (some reversal_found ≡ none))
        ⊎ ((c.no_error_on_revert ≡ false)
            × (some reversal_found ≡ some (record { data_found = 1 ∷ []; cause = 9 }))))
run-reports_example =
    run-reports codes_db 1 2 no_codes reverting stop [] [] reverted (some reversal_found) 9
      stop_reverts refl

data_behind_two : data_of (wrapping (wrapping (revert_error reversal_found))) ≡ some (1 ∷ [])
unfolding data_of
data_behind_two = refl

no_data : unwrap (revert_error reversal_found) ≡ some (opaque_error 9)
no_data = refl
