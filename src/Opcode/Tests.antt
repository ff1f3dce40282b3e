-- ===== src/Opcode/Tests.antt =====
-- The generator on what ADD, PUSH1, DUP2 and SWAP1 do, and on the opcodes of opcodes.gen.go.
use specops.Base.{
  ℕ, ◌≡◌, refl, true, false, ◌==◌, ◌||◌, [], ◌∷◌, Bool, none, some, if◌then◌else◌, arith,
}
use specops.Opcode.Table.{stack_delta, find_delta}
use specops.Opcode.Aliases.{aliased_ops}
use specops.Opcode.Generator.{generate, alias_range, delta_range}
use specops.Opcode.Generated.{Instructions, stack_bounds, generate-Instructions}

abbrev four : Instructions
four = record {
  valid = λ o. o == 0x01 || o == 0x60 || o == 0x81 || o == 0x90;
  pops = λ o. if o == 0x60 then 0 else 2;
  pushes = λ o. if o == 0x81 then 3 else if o == 0x90 then 2 else 1;
}

four_rows :
    delta_range (generate four.valid (stack_bounds four))
    ≡ (0x01, 2, 1) ∷ (0x60, 0, 1) ∷ (0x81, 1, 2) ∷ (0x90, 1, 1) ∷ []
unfolding generate delta_range
four_rows = refl

generate-Instructions_example :
    find_delta (delta_range (generate four.valid (stack_bounds four))) 0x01
    ≡ some (record { pop = 2; push = 1 })
generate-Instructions_example = generate-Instructions four 0x01 (λ k. ground arith) (omega arith)

-- The constants of the file are those of the opcodes that its table has.
abbrev in_file : ℕ → Bool
in_file o = elim (stack_delta o) [ none ↦ false | some d ↦ true ]

constants : alias_range (generate in_file (λ o. (0, 1024))) ≡ aliased_ops
unfolding generate alias_range aliased_ops stack_delta
constants = refl
