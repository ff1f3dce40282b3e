-- ===== src/Run/Start.antt =====
-- run.go: `StartDebugging`, which runs the compiled code under a Debugger in another goroutine and
-- calls `dbg.Wait()`.
use specops.Base.{
  ℕ, ◌==◌, ==_iff, ◌≡◌, refl, ap, sym, subst, ◌∙◌, true, false, Option, none, some, List, [], ◌∷◌,
  ◌++◌, ltb, length, if◌then◌else◌, Outcome, ok, err, Error, ◌>>=◌, >>=-eq-ok, ok-injective,
  Bool-cases, inl, inr, get_elem?, code_preset,
}
use specops.Code.{Code}
use specops.Compile.{compile}
use specops.Debugger.{Hook, zero_captured, selecting, idle, waiting, Debugger, Step, Reach}
use specops.Debugger.Phases.{ends_last}
use specops.Run.{
  StateDb, Configuration, RunOption, with_debugger, apply_options, initial, prepared, deploy,
  new_run_config,
}
use specops.Run.Waiting.{begin, stuck, held}

module _ {D : Type 0} (s : StateDb D) (default_address default_from : ℕ) (fresh : D) where
  -- The calls of the hooks of `dbg` by the goroutine that runs the code. `trace` is what
  -- core.ApplyMessage calls of the tracer in its configuration.
  module _ (dbg : ℕ) (trace : Configuration D → List ℕ → List Hook) where
    abbrev pub traced : Option ℕ → List Hook → List Hook
    traced none hs = []
    traced (some d) hs = if d == dbg then hs else []

    abbrev pub hooks_of : Outcome (Configuration D) → List ℕ → List Hook
    hooks_of (ok c) call_data = traced c.tracer (trace c call_data)
    hooks_of (err e) call_data = []
    hooks_of _ call_data = []

    unfoldable pub hooks_run : List ℕ → List ℕ → List (RunOption D) → List Hook
    hooks_run compiled call_data opts =
        hooks_of (new_run_config s default_address default_from fresh compiled opts) call_data

    -- The client is in `dbg.Wait()`; StartDebugging returns when the client is idle.
    unfoldable pub start_debugging : Code → List ℕ → List (RunOption D) → Outcome Debugger
    unfolding hooks_run
    start_debugging c call_data opts = do
      compiled ← compile c
      ok (begin (hooks_run compiled call_data (opts ++ with_debugger dbg ∷ [])))

    apply_options-last :
        (opts : List (RunOption D)) (b : Configuration D) {c : Configuration D}
        → apply_options (opts ++ with_debugger dbg ∷ []) b ≡ ok c
        → c.tracer ≡ some dbg
    unfolding apply_options
    apply_options-last [] b h = sym (ap (λ (u : Configuration D). u.tracer) (ok-injective h))
    apply_options-last (o ∷ os) b h =
        let p = >>=-eq-ok (o b) (apply_options (os ++ with_debugger dbg ∷ [])) h in
        apply_options-last os p.0 p.2

    tracer-deploy :
        (compiled : List ℕ) (b : Configuration D) {c : Configuration D}
        → deploy s default_address default_from fresh compiled b ≡ ok c
        → c.tracer ≡ b.tracer
    unfolding deploy
    tracer-deploy compiled b {c} h =
        elim (Bool-cases (
          ltb 0 (
            length (
              s.get_code b.address
                (prepared s default_address default_from fresh b.address b.own_db))))) [
                  | inl y ↦ let e : err code_preset ≡ ok c = rw y at h in absurd (cc)
                  | inr n ↦
                      let e : ok (record b {
                        own_db = s.add_balance b.from b.value (
                            s.add_to_access_list b.address (
                              s.set_code b.address compiled (
                                prepared s default_address default_from fresh b.address b.own_db)));
                      })
                          ≡ ok c =
                        rw n at h in
                      sym (ap (λ (u : Configuration D). u.tracer) (ok-injective e))
                ]

    tracer-new_run_config :
        (compiled : List ℕ) (opts : List (RunOption D)) {c : Configuration D}
        → new_run_config s default_address default_from fresh compiled
            (opts ++ with_debugger dbg ∷ [])
          ≡ ok c
        → c.tracer ≡ some dbg
    unfolding new_run_config
    tracer-new_run_config compiled opts h =
        let first = initial s default_address default_from fresh compiled in
        let p =
          >>=-eq-ok (apply_options (opts ++ with_debugger dbg ∷ []) first)
            (deploy s default_address default_from fresh compiled) h in
        tracer-deploy compiled p.0 p.2 ∙ apply_options-last opts first p.1

    hooks_run-trace :
        (compiled call_data : List ℕ) (opts : List (RunOption D)) {c : Configuration D}
        → new_run_config s default_address default_from fresh compiled
            (opts ++ with_debugger dbg ∷ [])
          ≡ ok c
        → hooks_run compiled call_data (opts ++ with_debugger dbg ∷ []) ≡ trace c call_data
    unfolding hooks_run
    hooks_run-trace compiled call_data opts {c} h =
        rw h (rw (tracer-new_run_config compiled opts h) (rw ((==_iff dbg dbg).1 refl) refl))

    pub started :
        (program : Code) (compiled call_data : List ℕ) (opts : List (RunOption D)) {d : Debugger}
        → start_debugging program call_data opts ≡ ok d
        → compile program ≡ ok compiled
        → d ≡ begin (hooks_run compiled call_data (opts ++ with_debugger dbg ∷ []))
    unfolding start_debugging
    started program compiled call_data opts {d} h p =
        let e : ok (begin (hooks_run compiled call_data (opts ++ with_debugger dbg ∷ []))) ≡ ok d =
          rw p at h in
        sym (ok-injective e)

    -- If StartDebugging gets a compiled program for which newRunConfig returns an error, then it is
    -- in Wait and no goroutine can take a step: it does not return.
    pub start_debugging-hangs :
        (program : Code) (compiled call_data : List ℕ) (opts : List (RunOption D)) (e : Error)
        (d t : Debugger)
        → start_debugging program call_data opts ≡ ok d
        → compile program ≡ ok compiled
        → new_run_config s default_address default_from fresh compiled
            (opts ++ with_debugger dbg ∷ [])
          ≡ err e
        → (d.client ≡ waiting) × (¬ Step d t)
    unfolding hooks_run
    start_debugging-hangs program compiled call_data opts e d t h p q =
        let b : d ≡ begin [] = started program compiled call_data opts h p ∙ rw q refl in
        subst (λ (u : Debugger). (u.client ≡ waiting) × (¬ Step u t)) (sym b)
          (refl, stuck refl refl refl refl)

    -- If StartDebugging gets a compiled program and options that apply, and the execution calls the
    -- tracer in the order above, then in every state that is reached from its Wait by calling Step
    -- and Wait only while Done is false, outside the methods of the Debugger, before a Step or a
    -- FastForward lets a call through, the EVM is held at the select of the first call, and State
    -- is the zero value.
    pub start_debugging-holds :
        (program : Code) (compiled call_data : List ℕ) (opts : List (RunOption D))
        (c : Configuration D) (d t : Debugger)
        → start_debugging program call_data opts ≡ ok d
        → compile program ≡ ok compiled
        → new_run_config s default_address default_from fresh compiled
            (opts ++ with_debugger dbg ∷ [])
          ≡ ok c
        → ends_last (trace c call_data) ≡ true
        → Reach d t
        → t.client ≡ idle
        → t.steps ≡ 0
        → t.forwarded ≡ false
        → (h : Hook) × (t.evm ≡ selecting h)
          × (get_elem? (trace c call_data) 0 ≡ some h)
          × (t.last ≡ zero_captured)
    start_debugging-holds program compiled call_data opts c d t h p q o r i z w =
        let b : d ≡ begin (trace c call_data) =
          started program compiled call_data opts h p
          ∙ ap begin (hooks_run-trace compiled call_data opts q) in
        held (trace c call_data) t o (subst (λ (u : Debugger). Reach u t) b r) i z w
