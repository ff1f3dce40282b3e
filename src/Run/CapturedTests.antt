-- ===== src/Run/CapturedTests.antt =====
-- RunTerminalDebugger with the program STOP, and a capture among other options.
use specops.Base.{ℕ, ◌≡◌, refl, List, [], ◌∷◌, ok, ◌>>=◌}
use mathlib.Core.List.{map}
use specops.Compile.{compile}
use specops.Run.{
  Configuration, RunOption, no_error, from_address, initial, apply_options, new_run_config,
}
use specops.Run.Start.{start_debugging}
use specops.Run.Waiting.{begin}
use specops.Run.StartTests.{empty_db, stop, at_op, traced_two, held_at, held_reached, stop_compiles}
use specops.Run.Captured.{
  AnyOption, option, capture_bytecode, apply_each, as_option, apply_each-apply_options,
  no_error-KeepsBytecode, from_address-KeepsBytecode,
}
use specops.Run.Terminal.{Context, run_terminal_debugger, terminal-bytecode}

abbrev two_options : List (RunOption ℕ)
two_options = no_error ∷ from_address 5 ∷ []

abbrev stop_context : Context
stop_context = record { bytecode = 0 ∷ []; call_data = 1 ∷ 2 ∷ [] }

runs_terminal :
    run_terminal_debugger empty_db 1 2 0 3 traced_two stop (1 ∷ 2 ∷ []) two_options
    ≡ ok (begin (at_op 1 ∷ at_op 0 ∷ []), stop_context)
unfolding run_terminal_debugger start_debugging compile new_run_config
runs_terminal = refl

terminal-bytecode_example : stop_context.bytecode ≡ 0 ∷ []
terminal-bytecode_example =
    terminal-bytecode empty_db 1 2 0 3 traced_two stop (0 ∷ []) (1 ∷ 2 ∷ []) two_options
      (begin (at_op 1 ∷ at_op 0 ∷ [])) held_at stop_context runs_terminal stop_compiles
      (no_error-KeepsBytecode ℕ, (from_address-KeepsBytecode ℕ 5, tt)) held_reached refl

abbrev mixed : List (AnyOption ℕ (List ℕ))
mixed = option no_error ∷ capture_bytecode ∷ option (from_address 5) ∷ []

abbrev fresh_config : Configuration ℕ
fresh_config = initial empty_db 1 2 0 (0 ∷ [])

apply_each-apply_options_example :
    (apply_each mixed fresh_config [] >>= λ p. ok p.0)
    ≡ apply_options (map as_option mixed) fresh_config
apply_each-apply_options_example = apply_each-apply_options mixed fresh_config []
