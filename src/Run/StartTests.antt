-- ===== src/Run/StartTests.antt =====
-- StartDebugging with an execution of ADD and STOP, and with an option that fails.
use specops.Base.{
  ℕ, ◌≡◌, refl, true, false, none, some, List, [], ◌∷◌, ◌++◌, ok, err, code_preset, get_elem?,
}
use specops.Code.{Code, op_code, from_list}
use specops.Compile.{compile}
use specops.Debugger.{
  Hook, on_op_code, zero_captured, is_final, selecting, idle, waiting, Debugger, Step, set_on_begin,
  set_on_send, wait_receive, wait_return, evm_step, client_step, Reach, here, next,
}
use specops.Run.{StateDb, Configuration, RunOption, with_debugger, new_run_config}
use specops.Run.Start.{start_debugging, start_debugging-hangs, start_debugging-holds}
use specops.Run.Waiting.{begin}

-- A database that holds nothing.
abbrev pub empty_db : StateDb ℕ
empty_db = record {
  exist = λ a d. true;
  create_account = λ a d. d;
  create_contract = λ a d. d;
  get_code = λ a d. [];
  set_code = λ a code d. d;
  set_state = λ a slot v d. d;
  set_nonce = λ a n d. d;
  add_to_access_list = λ a d. d;
  add_balance = λ a v d. d;
}

abbrev pub stop : Code
stop = from_list (op_code 0 ∷ [])

abbrev pub at_op : ℕ → Hook
at_op o = on_op_code (record zero_captured { op = o })

abbrev pub traced_two : Configuration ℕ → List ℕ → List Hook
traced_two c d = at_op 1 ∷ at_op 0 ∷ []

abbrev failing : RunOption ℕ
failing c = err code_preset

pub stop_compiles : compile stop ≡ ok (0 ∷ [])
unfolding compile
stop_compiles = refl

abbrev traced_config : Configuration ℕ
traced_config = record {
  address = 1;
  bytecode = 0 ∷ [];
  from = 2;
  value = 0;
  no_error_on_revert = false;
  own_db = 0;
  replaced_db = none;
  tracer = some 3;
}

configured : new_run_config empty_db 1 2 0 (0 ∷ []) ([] ++ with_debugger 3 ∷ []) ≡ ok traced_config
unfolding new_run_config
configured = refl

starts :
    start_debugging empty_db 1 2 0 3 traced_two stop [] [] ≡ ok (begin (at_op 1 ∷ at_op 0 ∷ []))
unfolding start_debugging compile new_run_config
starts = refl

-- Wait has returned.
abbrev pub held_at : Debugger
held_at = record (begin (at_op 0 ∷ [])) {
  evm = selecting (at_op 1);
  client = idle;
  blocking = record { state = true; buffer = 1; closed = false; pending = none; in_flight = 0 };
}

pub held_reached : Reach (begin (at_op 1 ∷ at_op 0 ∷ [])) held_at
held_reached =
    next
      (next
        (next (next here (evm_step (set_on_begin _ (at_op 1) (at_op 0 ∷ []) refl refl refl refl)))
          (evm_step (set_on_send _ (at_op 1) refl refl refl refl)))
        (client_step (wait_receive _ refl refl)))
      (client_step (wait_return _ 0 refl refl refl refl))

start_debugging-holds_example :
    (h : Hook) × (held_at.evm ≡ selecting h)
    × (get_elem? (traced_two traced_config []) 0 ≡ some h)
    × (held_at.last ≡ zero_captured)
unfolding is_final
start_debugging-holds_example =
    start_debugging-holds empty_db 1 2 0 3 traced_two stop (0 ∷ []) [] [] traced_config
      (begin (at_op 1 ∷ at_op 0 ∷ [])) held_at starts stop_compiles configured refl held_reached
      refl refl refl

fails :
    new_run_config empty_db 1 2 0 (0 ∷ []) (failing ∷ [] ++ with_debugger 3 ∷ []) ≡ err code_preset
unfolding new_run_config
fails = refl

starts_failing : start_debugging empty_db 1 2 0 3 traced_two stop [] (failing ∷ []) ≡ ok (begin [])
unfolding start_debugging compile new_run_config
starts_failing = refl

start_debugging-hangs_example : ((begin []).client ≡ waiting) × (¬ Step (begin []) (begin []))
start_debugging-hangs_example =
    start_debugging-hangs empty_db 1 2 0 3 traced_two stop (0 ∷ []) [] (failing ∷ []) code_preset
      (begin []) (begin []) starts_failing stop_compiles fails
