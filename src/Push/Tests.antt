-- ===== src/Push/Tests.antt =====
-- Examples for `PUSH`.
use specops.Base.{ℕ, ◌≡◌, refl, some, List, [], ◌∷◌, ◌++◌, arith, ok}
use specops.Types.Push.{run_push}
use specops.Code.{Bytecoder, bytecode}
use specops.Push.{uint64, push, uint64_to_push}
use specops.Push.Value.{push-Pushes}

two_bytes_pushed : uint64_to_push 258 ≡ 1 ∷ 2 ∷ []
unfolding uint64_to_push
two_bytes_pushed = refl

-- No bytes are asked of a word here.
abbrev no_words : ℕ → List ℕ
no_words x = []

push-Pushes_example :
    (b : Bytecoder) × (out : List ℕ) × (push no_words (uint64 258) ≡ ok b)
    × (bytecode b ≡ ok out)
    × (run_push (out ++ 0 ∷ []) ≡ some (258, 0 ∷ []))
push-Pushes_example = push-Pushes no_words (uint64 258) 258 (0 ∷ []) (refl, omega arith)
