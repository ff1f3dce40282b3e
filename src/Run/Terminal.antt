-- ===== src/Run/Terminal.antt =====
-- run.go: `RunTerminalDebugger`, which reads the compiled code from a variable that an option writes.
use specops.Base.{
  ℕ, ◌≡◌, ◌≢◌, refl, ap, sym, subst, ◌∙◌, List, [], ◌∷◌, ◌++◌, map, Outcome, ok, err, panic, All,
  out_of_fuel, ◌>>=◌, >>=-eq-ok, ok-injective,
}
use mathlib.Core.List.{map-append}
use specops.Code.{Code}
use specops.Compile.{compile}
use specops.Debugger.{Hook, idle, Debugger, Reach, here, next}
use specops.Run.{
  StateDb, Configuration, RunOption, with_debugger, apply_options, initial, deploy, new_run_config,
}
use specops.Run.Start.{hooks_of, hooks_run, start_debugging, started}
use specops.Run.Waiting.{begin, stuck}
use specops.Run.Captured.{
  AnyOption, option, capture_bytecode, apply_each, as_option, apply_each-apply_options,
  KeepsBytecode,
}

-- evmdebug.Context, without the function that returns the results.
pub record Context : Type 0 where
  pub bytecode : List ℕ
  pub call_data : List ℕ

-- `Val` behind the options; `nil`, if one of them fails.
abbrev pub written : {D : Type 0} → Outcome (Configuration D × List ℕ) → List ℕ
written (ok p) = p.1
written _ = []

-- The options of the call, with the capture behind them.
abbrev pub terminal_options : {D : Type 0} → List (RunOption D) → List (AnyOption D (List ℕ))
terminal_options opts = map option opts ++ capture_bytecode ∷ []

module _ {D : Type 0} where
  written-bytecode :
      (dbg : ℕ) (opts : List (RunOption D)) (c : Configuration D) (v : List ℕ)
      (p : Configuration D × List ℕ)
      → All KeepsBytecode opts
      → apply_each (terminal_options opts ++ option (with_debugger dbg) ∷ []) c v ≡ ok p
      → p.1 ≡ c.bytecode
  unfolding apply_each KeepsBytecode
  written-bytecode dbg [] c v p k h = sym (ap (λ q. q.1) (ok-injective h))
  written-bytecode dbg (o ∷ os) c v p (k, ks) h =
      let rest = terminal_options os ++ option (with_debugger dbg) ∷ [] in
      let q = >>=-eq-ok (o c >>= λ c'. ok (c', v)) (λ q. apply_each rest q.0 q.1) h in
      let r = >>=-eq-ok (o c) (λ c'. ok (c', v)) q.1 in
      let e : apply_each rest r.0 v ≡ ok p =
        ap (λ (u : Configuration D × List ℕ). apply_each rest u.0 u.1) (ok-injective r.2) ∙ q.2 in
      written-bytecode dbg os r.0 v p ks e ∙ k c r.0 r.1

stays : {t : Debugger} → Reach (begin []) t → t ≡ begin []
stays here = refl
stays (next {t} r e) =
    let b = stays r in
    absurd (
      stuck (ap (λ (u : Debugger). u.client) b) (ap (λ (u : Debugger). u.blocking) b)
        (ap (λ (u : Debugger). u.evm) b) (ap (λ (u : Debugger). u.hooks) b) e)

module _ {D : Type 0} (s : StateDb D) (default_address default_from : ℕ) (fresh : D) where
  module _ (dbg : ℕ) (trace : Configuration D → List ℕ → List Hook) where
    -- What `RunTerminalDebugger` hands to the interface, which starts when the client is idle.
    unfoldable pub run_terminal_debugger :
        Code → List ℕ → List (RunOption D) → Outcome (Debugger × Context)
    unfolding apply_each start_debugging
    run_terminal_debugger c call_data opts = do
      d ←
          start_debugging s default_address default_from fresh dbg trace c call_data
            (map as_option (terminal_options opts))
      compiled ← compile c
      let first = initial s default_address default_from fresh compiled
      let behind = apply_each (terminal_options opts ++ option (with_debugger dbg) ∷ []) first []
      ok (d, record { bytecode = written behind; call_data = call_data })

    -- If an option fails, then no opcode is run.
    hooks_run-nil :
        (compiled call_data : List ℕ) (opts : List (RunOption D)) (r : Outcome (Configuration D))
        → apply_options opts (initial s default_address default_from fresh compiled) ≡ r
        → ((c : Configuration D) → r ≢ ok c)
        → hooks_run s default_address default_from fresh dbg trace compiled call_data opts ≡ []
    unfolding hooks_run new_run_config
    hooks_run-nil compiled call_data opts r e n = rw e (go r n)
      where
        go :
            (r : Outcome (Configuration D))
            → ((c : Configuration D) → r ≢ ok c)
            → hooks_of s default_address default_from fresh dbg trace
                (r >>= deploy s default_address default_from fresh compiled)
                call_data
              ≡ []
        go (ok c) n = absurd (n c refl)
        go (err e) n = refl
        go panic n = refl
        go out_of_fuel n = refl

    fails :
        (program : Code) (compiled call_data : List ℕ) (opts : List (RunOption D)) (d t : Debugger)
        (r : Outcome (Configuration D))
        → start_debugging s default_address default_from fresh dbg trace program call_data opts
          ≡ ok d
        → compile program ≡ ok compiled
        → apply_options
            (opts ++ with_debugger dbg ∷ [])
            (initial s default_address default_from fresh compiled)
          ≡ r
        → ((c : Configuration D) → r ≢ ok c)
        → Reach d t
        → t.client ≢ idle
    fails program compiled call_data opts d t r h p a n reached i =
        let none_run = hooks_run-nil compiled call_data (opts ++ with_debugger dbg ∷ []) r a n in
        let b : d ≡ begin [] =
          started s default_address default_from fresh dbg trace program compiled call_data opts h p
          ∙ ap begin none_run in
        let e = stays (subst (λ (u : Debugger). Reach u t) b reached) in
        let w = ap (λ (u : Debugger). u.client) e in absurd (cc)

    written_lem :
        (program : Code) (compiled call_data : List ℕ) (opts : List (RunOption D)) (d t : Debugger)
        (r : Outcome (Configuration D × List ℕ))
        → start_debugging s default_address default_from fresh dbg trace program call_data
            (map as_option (terminal_options opts))
          ≡ ok d
        → compile program ≡ ok compiled
        → All KeepsBytecode opts
        → Reach d t
        → t.client ≡ idle
        → apply_each
            (terminal_options opts ++ option (with_debugger dbg) ∷ [])
            (initial s default_address default_from fresh compiled)
            []
          ≡ r
        → written r ≡ compiled
    written_lem program compiled call_data opts d t r h p k reached i e = go r e
      where
        first : Configuration D
        first = initial s default_address default_from fresh compiled

        os : List (AnyOption D (List ℕ))
        os = terminal_options opts ++ option (with_debugger dbg) ∷ []

        applied :
            (r : Outcome (Configuration D × List ℕ))
            → apply_each os first [] ≡ r
            → apply_options (map as_option (terminal_options opts) ++ with_debugger dbg ∷ []) first
              ≡ (r >>= λ q. ok q.0)
        applied r e =
            ap (λ ws. apply_options ws first)
              (sym (map-append as_option (terminal_options opts) (option (with_debugger dbg) ∷ [])))
            ∙ sym (apply_each-apply_options os first [])
            ∙ ap (λ (x : Outcome (Configuration D × List ℕ)). x >>= λ q. ok q.0) e

        never :
            (r : Outcome (Configuration D × List ℕ))
            → apply_each os first [] ≡ r
            → ((c : Configuration D) → (r >>= λ q. ok q.0) ≢ ok c)
            → ⊥
        never r e n =
            fails program compiled call_data (map as_option (terminal_options opts)) d t
              (r >>= λ q. ok q.0) h p (applied r e) n reached i

        go :
            (r : Outcome (Configuration D × List ℕ))
            → apply_each os first [] ≡ r
            → written r ≡ compiled
        go (ok q) e = written-bytecode dbg opts first [] q k e
        go (err x) e = absurd (never (err x) e (λ c f. absurd (cc)))
        go panic e = absurd (never panic e (λ c f. absurd (cc)))
        go out_of_fuel e = absurd (never out_of_fuel e (λ c f. absurd (cc)))

    -- If RunTerminalDebugger gets a compiled program and options that keep the code, then whenever
    -- its Debugger is outside its methods, the code that is handed to the interface is the compiled
    -- program.
    pub terminal-bytecode :
        (program : Code) (compiled call_data : List ℕ) (opts : List (RunOption D)) (d t : Debugger)
        (ctx : Context)
        → run_terminal_debugger program call_data opts ≡ ok (d, ctx)
        → compile program ≡ ok compiled
        → All KeepsBytecode opts
        → Reach d t
        → t.client ≡ idle
        → ctx.bytecode ≡ compiled
    unfolding run_terminal_debugger
    terminal-bytecode program compiled call_data opts d t ctx h p k r i =
        let os = terminal_options opts ++ option (with_debugger dbg) ∷ [] in
        let first = initial s default_address default_from fresh compiled in
        let result : List ℕ → Context = λ bs. record { bytecode = bs; call_data = call_data } in
        let handed : Debugger → List ℕ → Outcome (Debugger × Context) = λ d' b. ok (
          d',
          result (written (apply_each os (initial s default_address default_from fresh b) [])),
        ) in
        let q =
          >>=-eq-ok
            (start_debugging s default_address default_from fresh dbg trace program call_data
              (map as_option (terminal_options opts)))
            (λ d'. compile program >>= handed d') h in
        let e : ok (q.0, result (written (apply_each os first []))) ≡ ok (d, ctx) =
          ap (λ (b : Outcome (List ℕ)). b >>= handed q.0) (sym p) ∙ q.2 in
        let v = ok-injective e in
        let reached = subst (λ (u : Debugger). Reach u t) (sym (ap (λ y. y.0) v)) r in
        sym (ap (λ (y : Debugger × Context). y.1.bytecode) v)
        ∙ written_lem program compiled call_data opts q.0 t (apply_each os first []) q.1 p k reached
            i refl
