-- ===== src/Debugger/Endless.antt =====
-- evmdebug/evmdebug.go: executions that end otherwise than by STOP, RETURN or a fault, such as by
-- SELFDESTRUCT, or without any call of the tracer.
use specops.Base.{
  ℕ, zero, suc, ◌≡◌, ◌≢◌, ◌<◌, refl, sym, ◌∙◌, Bool, true, false, some, List, [], ◌∷◌, inl, inr,
  if◌then◌else◌, length, get_elem?, Bool-cases, arith,
}
use specops.Debugger.{Hook, is_final, idle, looping, Debugger, new_debugger, Reach}
use specops.Debugger.Phases.{Reach-Fits, new-Fits, ends_last}
use specops.Debugger.Counts.{final_at, Reach-Counts, ends_at}
use specops.Debugger.Shown.{Step-blocks}

-- No call is one that the Debugger takes for the end.
abbrev pub none_final : List Hook → Bool
none_final [] = true
none_final (h ∷ hs) = if is_final h then false else none_final hs

ends_last-of-none : (hs : List Hook) → none_final hs ≡ true → ends_last hs ≡ true
ends_last-of-none [] e = refl
ends_last-of-none (h ∷ hs) e = ground (arith, ends_last-of-none hs)

final_at-none : (hs : List Hook) (n : ℕ) → none_final hs ≡ true → final_at hs n ≡ false
final_at-none hs zero e = refl
final_at-none [] (suc n) e = refl
final_at-none (h ∷ hs) (suc zero) e = ground arith
final_at-none (h ∷ hs) (suc (suc n)) e =
    let g : none_final hs ≡ true = ground arith in final_at-none hs (suc n) g

never_done :
    (hs : List Hook) (s : Debugger)
    → none_final hs ≡ true
    → Reach (new_debugger hs) s
    → s.done_closed ≡ false
never_done hs s e r =
    let o = ends_last-of-none hs e in
    let f = Reach-Fits (new-Fits hs o) r in
    let k = Reach-Counts o r in
    elim (Bool-cases s.done_closed) [
      | inl d ↦
          let t : ends_at s.evm s.done_closed ≡ true = ground arith in
          let g : true ≡ false = sym t ∙ k.final ∙ final_at-none hs s.captured e in absurd (cc)
      | inr d ↦ d
    ]

-- If no call of the hooks is a STOP, a RETURN or a fault, then in every state that is reached from
-- a new Debugger, by calling Step and Wait only while Done is false, after the start of a
-- FastForward, Done is false and the FastForward has not returned.
pub FastForward-loops :
    (hs : List Hook) (s : Debugger)
    → none_final hs ≡ true
    → Reach (new_debugger hs) s
    → s.forwarded ≡ true
    → (s.done_closed ≡ false) × (s.client ≡ looping)
FastForward-loops hs s e r w =
    let o = ends_last-of-none hs e in
    let f = Reach-Fits (new-Fits hs o) r in
    let k = Reach-Counts o r in let d = never_done hs s e r in (d, ground arith)

length-get_elem? : (hs : List Hook) (n : ℕ) {h : Hook} → get_elem? hs n ≡ some h → n < length hs
length-get_elem? [] n e = absurd (cc)
length-get_elem? (x ∷ xs) zero e = omega arith
length-get_elem? (x ∷ xs) (suc n) e = omega (arith, length-get_elem? xs n e)

-- If no call of the hooks is a STOP, a RETURN or a fault, and Steps and no FastForward have let all
-- of the calls through, of which there is at least one, then the client is in a method: the last
-- Step does not return.
pub last_step-hangs :
    (hs : List Hook) (s : Debugger)
    → none_final hs ≡ true
    → Reach (new_debugger hs) s
    → s.forwarded ≡ false
    → 0 < s.steps
    → s.steps ≡ length hs
    → s.client ≢ idle
last_step-hangs hs s e r w p n i =
    let (h, a, g) = Step-blocks hs s (ends_last-of-none hs e) r w i p (never_done hs s e r) in
    absurd (omega (arith, length-get_elem? hs s.steps g))
