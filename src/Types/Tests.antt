-- ===== src/Types/Tests.antt =====
-- Examples for types/types.go.
use specops.Base.{ℕ, ◌≤◌, ◌≡◌, refl, some, List, [], ◌∷◌, ◌++◌, arith, length, ok}
use specops.Types.{pusher_bytecode}
use specops.Types.Push.{be_value, run_push, run_push-pusher_bytecode, pusher_bytecode_shortest}

-- Two bytes, the first of them a zero, which is not pushed.
abbrev padded : List ℕ
padded = 0 ∷ 7 ∷ []

run_push-pusher_bytecode_example :
    (out : List ℕ) × (pusher_bytecode padded ≡ ok out)
    × (run_push (out ++ 1 ∷ []) ≡ some (be_value 0 padded, 1 ∷ []))
run_push-pusher_bytecode_example =
    run_push-pusher_bytecode padded (1 ∷ []) (omega arith) (omega arith)

padded_compiles : pusher_bytecode padded ≡ ok (0x60 ∷ 7 ∷ [])
unfolding pusher_bytecode
padded_compiles = refl

padded_runs : run_push (0x62 ∷ 0 ∷ 0 ∷ 7 ∷ []) ≡ some (be_value 0 padded, [])
unfolding run_push
padded_runs = refl

pusher_bytecode_shortest_example :
    length {A = ℕ} (0x60 ∷ 7 ∷ []) ≤ length {A = ℕ} (0x62 ∷ 0 ∷ 0 ∷ 7 ∷ [])
pusher_bytecode_shortest_example =
    pusher_bytecode_shortest padded 0x62 (0 ∷ 0 ∷ 7 ∷ []) (0x60 ∷ 7 ∷ []) (omega arith)
      (omega arith) (omega arith, (omega arith, (omega arith, tt))) padded_compiles padded_runs
