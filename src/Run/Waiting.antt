-- ===== src/Run/Waiting.antt =====
-- evmdebug/evmdebug.go: a Debugger whose client has started with Wait, as StartDebugging does.
use specops.Base.{◌≡◌, refl, ap, sym, ◌∙◌, true, false, some, List, [], get_elem?, arith}
use specops.Debugger.{
  Hook, zero_captured, selecting, idle, waiting, Debugger, new_debugger, Step, evm_step,
  client_step, Reach, here, next, between, EvmStep, set_on_begin, set_on_same, set_on_send,
  select_step_closed, select_forward, close_done, set_off_begin, set_off_same, set_off_receive,
  set_off_closed, close_stepped, unwind_begin, unwind_same, ClientStep, call_wait, call_step,
  wait_receive, wait_closed, wait_return, receive_closed, check_done, check_more,
  call_forward_again, call_forward, loop_stepped_closed, loop_done, close_step, close_forward,
  close_toggle, hand_step, hand_stepped, loop_stepped,
}
use specops.Debugger.Phases.{Fits, ends_last}
use specops.Debugger.Shown.{Wait-blocks_first, Step-shows, held_hook}
use specops.Debugger.Counts.{shown}
use specops.Toggle.{zero_value}

-- The client is in Wait.
abbrev pub begin : List Hook → Debugger
begin hs = record (new_debugger hs) { client = waiting }

stuck_evm : {s t : Debugger} → s.evm ≡ between → s.hooks ≡ [] → EvmStep s t → ⊥
stuck_evm e n (set_on_begin s h hs a b c d) = absurd (cc)
stuck_evm e n (set_on_same s h hs a b c d) = absurd (cc)
stuck_evm e n (set_on_send s h a b c d) = absurd (cc)
stuck_evm e n (select_step_closed s h a b) = absurd (cc)
stuck_evm e n (select_forward s h a b) = absurd (cc)
stuck_evm e n (close_done s h a b c) = absurd (cc)
stuck_evm e n (set_off_begin s h a b c d) = absurd (cc)
stuck_evm e n (set_off_same s h a b c d) = absurd (cc)
stuck_evm e n (set_off_receive s b a c d) = absurd (cc)
stuck_evm e n (set_off_closed s b a c d f) = absurd (cc)
stuck_evm e n (close_stepped s b a c) = absurd (cc)
stuck_evm e n (unwind_begin s a b c) = absurd (cc)
stuck_evm e n (unwind_same s a b c) = absurd (cc)

stuck_client : {s t : Debugger} → s.client ≡ waiting → s.blocking ≡ zero_value → ClientStep s t → ⊥
stuck_client w z (call_wait s a b) = absurd (cc)
stuck_client w z (call_step s a b) = absurd (cc)
stuck_client w z (wait_receive s a b) = absurd (ground arith)
stuck_client w z (wait_closed s a b c) = absurd (ground arith)
stuck_client w z (wait_return s n a b c d) = absurd (cc)
stuck_client w z (receive_closed s a b) = absurd (cc)
stuck_client w z (check_done s a b) = absurd (cc)
stuck_client w z (check_more s a b) = absurd (cc)
stuck_client w z (call_forward_again s a b) = absurd (cc)
stuck_client w z (call_forward s a b) = absurd (cc)
stuck_client w z (loop_stepped_closed s a b) = absurd (cc)
stuck_client w z (loop_done s a b) = absurd (cc)
stuck_client w z (close_step s b a c) = absurd (cc)
stuck_client w z (close_forward s a b) = absurd (cc)
stuck_client w z (close_toggle s a b) = absurd (cc)

pub stuck :
    {s t : Debugger}
    → s.client ≡ waiting
    → s.blocking ≡ zero_value
    → s.evm ≡ between
    → s.hooks ≡ []
    → Step s t
    → ⊥
stuck w z e n (evm_step x) = stuck_evm e n x
stuck w z e n (client_step x) = stuck_client w z x
stuck w z e n (hand_step s h a b c) = absurd (cc)
stuck w z e n (hand_stepped s a b c) = absurd (cc)
stuck w z e n (loop_stepped s a b c) = absurd (cc)

onward : {s t u : Debugger} → Reach s t → Reach t u → Reach s u
onward r here = r
onward r (next q e) = next (onward r q) e

pub begin-Fits : (hs : List Hook) → ends_last hs ≡ true → Fits (begin hs)
begin-Fits hs o = record { evm_fits = refl; client_fits = refl; toggle_fits = refl; hooks_fit = o }

pub begun : {hs : List Hook} {t : Debugger} → Reach (begin hs) t → Reach (new_debugger hs) t
begun {hs} r = onward (next here (client_step (call_wait (new_debugger hs) refl refl))) r

pub held :
    (hs : List Hook) (t : Debugger)
    → ends_last hs ≡ true
    → Reach (begin hs) t
    → t.client ≡ idle
    → t.steps ≡ 0
    → t.forwarded ≡ false
    → (h : Hook) × (t.evm ≡ selecting h) × (get_elem? hs 0 ≡ some h) × (t.last ≡ zero_captured)
held hs t o r i z w =
    let q = begun r in
    let (l, d) = Step-shows hs t o q w i in
    let d' : t.done_closed ≡ false = rw z at d in
    let (h, a) = Wait-blocks_first (begin hs) t (begin-Fits hs o) refl r i d' in
    (h, a, sym (ap (get_elem? hs) z) ∙ held_hook hs t h o q i w a, l ∙ ap (shown hs) z)
