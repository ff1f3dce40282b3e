-- ===== src/Debugger/Counts.antt =====
-- evmdebug/evmdebug.go: how many calls of the EVM have been let through, and what is stored of them.
use specops.Base.{
  ℕ, zero, suc, ◌+◌, ◌≡◌, refl, sym, Bool, true, false, not, ◌||◌, ◌==◌, none, some, List, [], ◌∷◌,
  if◌then◌else◌, get_elem?, drop, arith,
}
use specops.Debugger.{
  Hook, CapturedState, zero_captured, is_final, capture, Evm, between, setting_on, selecting, taken,
  setting_off, signalling, closing_stepped, unwinding, awaiting, Debugger, new_debugger,
  let_through, EvmStep, set_on_begin, set_on_same, set_on_send, select_step_closed, select_forward,
  close_done, set_off_begin, set_off_same, set_off_receive, set_off_closed, close_stepped,
  unwind_begin, unwind_same, ClientStep, call_wait, call_step, wait_receive, wait_closed,
  wait_return, receive_closed, check_done, check_more, call_forward_again, call_forward,
  loop_stepped_closed, loop_done, close_step, close_forward, close_toggle, Step, evm_step,
  client_step, hand_step, hand_stepped, loop_stepped, Reach, here, next,
}
use specops.Debugger.Phases.{Fits, Reach-Fits, new-Fits, ends_last, uncaptured}

-- The arguments of the n-th call, counted from 1, as they are stored.
abbrev pub shown : List Hook → ℕ → CapturedState
shown hs zero = zero_captured
shown hs (suc n) = elim (get_elem? hs n) [ none ↦ zero_captured | some h ↦ capture h ]

-- Whether the n-th call, counted from 1, ends the execution.
abbrev pub final_at : List Hook → ℕ → Bool
final_at hs zero = false
final_at hs (suc n) = elim (get_elem? hs n) [ none ↦ false | some h ↦ is_final h ]

pub get_elem?-of-drop :
    (hs : List Hook) (n : ℕ) {h : Hook} {rest : List Hook}
    → h ∷ rest ≡ drop n hs
    → (get_elem? hs n ≡ some h) × (rest ≡ drop (n + 1) hs)
get_elem?-of-drop [] zero e = absurd (cc)
get_elem?-of-drop [] (suc n) e = absurd (cc)
get_elem?-of-drop (x ∷ xs) zero e = ground arith
get_elem?-of-drop (x ∷ xs) (suc n) e = ground (arith, get_elem?-of-drop xs n e)

shown-next :
    (hs : List Hook) (n : ℕ) (h : Hook) → get_elem? hs n ≡ some h → shown hs (n + 1) ≡ capture h
shown-next hs n h e = ground arith

final_at-next :
    (hs : List Hook) (n : ℕ) (h : Hook) → get_elem? hs n ≡ some h → final_at hs (n + 1) ≡ is_final h
final_at-next hs n h e = ground arith

-- Whether the call that has been let through last ends the execution, by where the goroutine is.
abbrev pub ends_at : Evm → (done : Bool) → Bool
ends_at between done = done
ends_at (setting_on h) done = false
ends_at (selecting h) done = false
ends_at (taken h) done = is_final h
ends_at (setting_off b) done = b
ends_at signalling done = false
ends_at (closing_stepped b) done = true
ends_at unwinding done = true

pub record Counts (hs : List Hook) (s : Debugger) : Type 0 where
  pub counted : (s.forwarded || s.captured == s.steps) ≡ true
  pub forward : (if s.forward_closed then s.forwarded || s.done_closed else not s.forwarded) ≡ true
  pub rest : uncaptured s.evm s.hooks ≡ drop s.captured hs
  pub last_shown : s.last ≡ shown hs s.captured
  pub final : ends_at s.evm s.done_closed ≡ final_at hs s.captured

let_through-Counts :
    {hs : List Hook} {s : Debugger} (h : Hook)
    → s.evm ≡ selecting h
    → s.forwarded ≡ true
    → Counts hs s
    → Counts hs (let_through h s)
let_through-Counts {hs} {s} h a w k =
    let e : h ∷ s.hooks ≡ drop s.captured hs = rw (← k.rest) (rw a refl) in
    let (found, left) = get_elem?-of-drop hs s.captured e in
    record {
      counted = rw w refl;
      forward = ground arith;
      rest = left;
      last_shown = sym (shown-next hs s.captured h found);
      final = sym (final_at-next hs s.captured h found);
    }

hand-Counts :
    {hs : List Hook} {s : Debugger} (h : Hook)
    → s.evm ≡ selecting h
    → Counts hs s
    → Counts hs (record (let_through h s) { client = awaiting; steps = s.steps + 1 })
hand-Counts {hs} {s} h a k =
    let e : h ∷ s.hooks ≡ drop s.captured hs = rw (← k.rest) (rw a refl) in
    let (found, left) = get_elem?-of-drop hs s.captured e in
    record {
      counted = ground arith;
      forward = ground arith;
      rest = left;
      last_shown = sym (shown-next hs s.captured h found);
      final = sym (final_at-next hs s.captured h found);
    }

module _ {hs : List Hook} where
  EvmStep-Counts : {s t : Debugger} → EvmStep s t → Fits s → Counts hs s → Counts hs t
  EvmStep-Counts (set_on_begin s h gs a b c d) f k = ground arith
  EvmStep-Counts (set_on_same s h gs a b c d) f k = ground arith
  EvmStep-Counts (set_on_send s h a b c d) f k = ground arith
  EvmStep-Counts (select_step_closed s h a b) f k = absurd (ground arith)
  EvmStep-Counts (select_forward s h a b) f k =
      let w : s.forwarded ≡ true = ground arith in let_through-Counts h a w k
  EvmStep-Counts (close_done s h a b c) f k = ground arith
  EvmStep-Counts (set_off_begin s h a b c d) f k = ground arith
  EvmStep-Counts (set_off_same s h a b c d) f k = ground arith
  EvmStep-Counts (set_off_receive s b a c d) f k = ground arith
  EvmStep-Counts (set_off_closed s b a c d e) f k = ground arith
  EvmStep-Counts (close_stepped s b a c) f k = ground arith
  EvmStep-Counts (unwind_begin s a b c) f k = ground arith
  EvmStep-Counts (unwind_same s a b c) f k = ground arith

  ClientStep-Counts : {s t : Debugger} → ClientStep s t → Fits s → Counts hs s → Counts hs t
  ClientStep-Counts (call_wait s a b) f k = ground arith
  ClientStep-Counts (call_step s a b) f k = ground arith
  ClientStep-Counts (wait_receive s a b) f k = ground arith
  ClientStep-Counts (wait_closed s a b c) f k = ground arith
  ClientStep-Counts (wait_return s n a b c d) f k = ground arith
  ClientStep-Counts (receive_closed s a b) f k = ground arith
  ClientStep-Counts (check_done s a b) f k = ground arith
  ClientStep-Counts (check_more s a b) f k = ground arith
  ClientStep-Counts (call_forward_again s a b) f k = k
  ClientStep-Counts (call_forward s a b) f k = ground arith
  ClientStep-Counts (loop_stepped_closed s a b) f k = k
  ClientStep-Counts (loop_done s a b) f k = ground arith
  ClientStep-Counts (close_step s b a c) f k = ground arith
  ClientStep-Counts (close_forward s a b) f k = ground arith
  ClientStep-Counts (close_toggle s a b) f k = ground arith

  Step-Counts : {s t : Debugger} → Step s t → Fits s → Counts hs s → Counts hs t
  Step-Counts (evm_step e) f k = EvmStep-Counts e f k
  Step-Counts (client_step e) f k = ClientStep-Counts e f k
  Step-Counts (hand_step s h a b c) f k = hand-Counts h b k
  Step-Counts (hand_stepped s a b c) f k = ground arith
  Step-Counts (loop_stepped s a b c) f k = ground arith

pub Reach-Counts :
    {hs : List Hook} {s : Debugger} → ends_last hs ≡ true → Reach (new_debugger hs) s → Counts hs s
Reach-Counts {hs} o here = record {
  counted = refl;
  forward = refl;
  rest = refl;
  last_shown = refl;
  final = refl;
}
Reach-Counts {hs} o (next r e) = Step-Counts e (Reach-Fits (new-Fits hs o) r) (Reach-Counts o r)
