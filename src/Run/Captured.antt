-- ===== src/Run/Captured.antt =====
-- runopts/capture.go: options that also write a variable of the caller.
use specops.Base.{
  ℕ, Option, none, some, true, ◌≡◌, refl, ap, sym, ◌∙◌, List, [], ◌∷◌, map, Outcome, ok, err, panic,
  out_of_fuel, ◌>>=◌, ok-injective,
}
use specops.Run.{
  StateDb, Configuration, RunOption, Account, no_error, contract_address, from_address, with_value,
  with_debugger, on_db, allocate_all, genesis_alloc, apply_options,
}

-- An option of the caller, whose variables are a `V`. A capture stores what it has extracted in its
-- variable, `Val`.
pub data AnyOption (D V : Type 0) : Type 0 where
  option : RunOption D → AnyOption D V
  captured : (store : Configuration D → V → V) → AnyOption D V

module _ {D V : Type 0} where
  -- `Capture`: `put` writes the `Val` of the Captured that is returned.
  abbrev pub capture : {T : Type 0} → (T → V → V) → (Configuration D → T) → AnyOption D V
  capture put fn = captured (λ c v. put (fn c) v)

  -- `Apply`.
  abbrev pub apply_any : AnyOption D V → Configuration D → V → Outcome (Configuration D × V)
  apply_any (option o) c v = do c' ← o c; ok (c', v)
  apply_any (captured store) c v = ok (c, store c v)

  -- The loop of `newRunConfig`.
  unfoldable pub apply_each :
      List (AnyOption D V) → Configuration D → V → Outcome (Configuration D × V)
  apply_each [] c v = ok (c, v)
  apply_each (o ∷ os) c v = do p ← apply_any o c v; apply_each os p.0 p.1

  -- What an option does to the configuration.
  abbrev pub as_option : AnyOption D V → RunOption D
  as_option (option o) = o
  as_option (captured store) = λ c. ok c

  -- Captures change neither the configuration nor whether the options apply.
  pub apply_each-apply_options :
      (os : List (AnyOption D V)) (c : Configuration D) (v : V)
      → (apply_each os c v >>= λ p. ok p.0) ≡ apply_options (map as_option os) c
  unfolding apply_each apply_options
  apply_each-apply_options [] c v = refl
  apply_each-apply_options (captured store ∷ os) c v = apply_each-apply_options os c (store c v)
  apply_each-apply_options (option o ∷ os) c v = go (o c) (λ c'. apply_each-apply_options os c' v)
    where
      with_v : Configuration D → Outcome (Configuration D × V)
      with_v c' = ok (c', v)

      go :
          (r : Outcome (Configuration D))
          → ((c' : Configuration D)
              → (apply_each os c' v >>= λ p. ok p.0) ≡ apply_options (map as_option os) c')
          → (r >>= with_v >>= (λ p. apply_each os p.0 p.1) >>= λ p. ok p.0)
            ≡ (r >>= λ c'. apply_options (map as_option os) c')
      go (ok c') rest = rest c'
      go (err e) rest = refl
      go panic rest = refl
      go out_of_fuel rest = refl

-- `CaptureBytecode`.
abbrev pub capture_bytecode : {D : Type 0} → AnyOption D (List ℕ)
capture_bytecode = capture (λ x v. x) (λ c. c.bytecode)

-- The option leaves the code of the contract as newRunConfig was given it.
unfoldable pub KeepsBytecode : {D : Type 0} → RunOption D → Type 0
KeepsBytecode {D = D} o = (c c' : Configuration D) → o c ≡ ok c' → c'.bytecode ≡ c.bytecode

module _ {D : Type 0} where
  keeps :
      (f : Configuration D → Configuration D)
      → ((c : Configuration D) → (f c).bytecode ≡ c.bytecode)
      → KeepsBytecode (λ c. ok (f c))
  unfolding KeepsBytecode
  keeps f e c c' h = sym (ap (λ (u : Configuration D). u.bytecode) (ok-injective h)) ∙ e c

  bytecode-on_db : (f : D → D) (c : Configuration D) → (on_db f c).bytecode ≡ c.bytecode
  bytecode-on_db f c = go c.replaced_db
    where
      with_db : Option D → Configuration D
      with_db o = elim o [
        | none ↦ record c { own_db = f c.own_db }
        | some d ↦ record c { replaced_db = some (f d) }
      ]

      go : (o : Option D) → (with_db o).bytecode ≡ c.bytecode
      go none = refl
      go (some d) = refl

  genesis_alloc-KeepsBytecode :
      (s : StateDb D) (alloc : List (ℕ × Account)) → KeepsBytecode (genesis_alloc s alloc)
  genesis_alloc-KeepsBytecode s alloc =
      keeps (on_db (allocate_all s alloc)) (bytecode-on_db (allocate_all s alloc))

module _ (D : Type 0) where
  pub no_error-KeepsBytecode : KeepsBytecode {D = D} no_error
  no_error-KeepsBytecode = keeps (λ c. record c { no_error_on_revert = true }) (λ c. refl)

  contract_address-KeepsBytecode : (a : ℕ) → KeepsBytecode {D = D} (contract_address a)
  contract_address-KeepsBytecode a = keeps (λ c. record c { address = a }) (λ c. refl)

  pub from_address-KeepsBytecode : (a : ℕ) → KeepsBytecode {D = D} (from_address a)
  from_address-KeepsBytecode a = keeps (λ c. record c { from = a }) (λ c. refl)

  with_value-KeepsBytecode : (v : ℕ) → KeepsBytecode {D = D} (with_value v)
  with_value-KeepsBytecode v = keeps (λ c. record c { value = v }) (λ c. refl)

  with_debugger-KeepsBytecode : (dbg : ℕ) → KeepsBytecode {D = D} (with_debugger dbg)
  with_debugger-KeepsBytecode dbg = keeps (λ c. record c { tracer = some dbg }) (λ c. refl)
