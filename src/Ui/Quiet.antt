-- ===== src/Ui/Quiet.antt =====
-- evmdebug/evmdebug.go: steps of the EVM while the client is outside the methods of the Debugger.
use specops.Base.{◌≡◌, refl, ◌∙◌, true, false, arith}
use specops.Debugger.{
  Hook, selecting, idle, Debugger, EvmStep, set_on_begin, set_on_same, set_on_send,
  select_step_closed, select_forward, close_done, set_off_begin, set_off_same, set_off_receive,
  set_off_closed, close_stepped, unwind_begin, unwind_same, ClientStep, call_wait, call_step,
  wait_receive, wait_closed, wait_return, receive_closed, check_done, check_more,
  call_forward_again, call_forward, loop_stepped_closed, loop_done, close_step, close_forward,
  close_toggle, Step, evm_step, client_step, hand_step, hand_stepped, loop_stepped,
}
use specops.Debugger.Phases.{Fits}

-- What the interface reads is the same.
abbrev pub Quiet : Debugger → Debugger → Type 0
Quiet s t =
    (t.client ≡ s.client)
    × (t.last ≡ s.last)
    × (t.steps ≡ s.steps)
    × (t.forwarded ≡ s.forwarded)
    × (t.forward_closed ≡ s.forward_closed)

-- No call is let through while the client is outside the methods.
pub EvmStep-Quiet : {s t : Debugger} → Fits s → s.client ≡ idle → EvmStep s t → Quiet s t
EvmStep-Quiet f i (set_on_begin s h hs a b c d) = (refl, refl, refl, refl, refl)
EvmStep-Quiet f i (set_on_same s h hs a b c d) = (refl, refl, refl, refl, refl)
EvmStep-Quiet f i (set_on_send s h a b c d) = (refl, refl, refl, refl, refl)
EvmStep-Quiet f i (select_step_closed s h a b) = absurd (ground arith)
EvmStep-Quiet f i (select_forward s h a b) = absurd (ground arith)
EvmStep-Quiet f i (close_done s h a b c) = (refl, refl, refl, refl, refl)
EvmStep-Quiet f i (set_off_begin s h a b c d) = (refl, refl, refl, refl, refl)
EvmStep-Quiet f i (set_off_same s h a b c d) = (refl, refl, refl, refl, refl)
EvmStep-Quiet f i (set_off_receive s b a c d) = (refl, refl, refl, refl, refl)
EvmStep-Quiet f i (set_off_closed s b a c d e) = (refl, refl, refl, refl, refl)
EvmStep-Quiet f i (close_stepped s b a c) = (refl, refl, refl, refl, refl)
EvmStep-Quiet f i (unwind_begin s a b c) = (refl, refl, refl, refl, refl)
EvmStep-Quiet f i (unwind_same s a b c) = (refl, refl, refl, refl, refl)

-- While the execution goes on, the EVM that is held at its select takes no step.
pub EvmStep-held :
    {s t : Debugger} {h : Hook}
    → Fits s
    → s.client ≡ idle
    → s.done_closed ≡ false
    → s.evm ≡ selecting h
    → EvmStep s t
    → ⊥
EvmStep-held f i n w (set_on_begin s h hs a b c d) = absurd (cc)
EvmStep-held f i n w (set_on_same s h hs a b c d) = absurd (cc)
EvmStep-held f i n w (set_on_send s h a b c d) = absurd (cc)
EvmStep-held f i n w (select_step_closed s h a b) = absurd (ground arith)
EvmStep-held f i n w (select_forward s h a b) = absurd (ground arith)
EvmStep-held f i n w (close_done s h a b c) = absurd (cc)
EvmStep-held f i n w (set_off_begin s h a b c d) = absurd (cc)
EvmStep-held f i n w (set_off_same s h a b c d) = absurd (cc)
EvmStep-held f i n w (set_off_receive s b a c d) = absurd (cc)
EvmStep-held f i n w (set_off_closed s b a c d e) = absurd (cc)
EvmStep-held f i n w (close_stepped s b a c) = absurd (cc)
EvmStep-held f i n w (unwind_begin s a b c) = absurd (cc)
EvmStep-held f i n w (unwind_same s a b c) = absurd (cc)

pub EvmStep-forward : {s t : Debugger} → EvmStep s t → t.forward_closed ≡ s.forward_closed
EvmStep-forward (set_on_begin s h hs a b c d) = refl
EvmStep-forward (set_on_same s h hs a b c d) = refl
EvmStep-forward (set_on_send s h a b c d) = refl
EvmStep-forward (select_step_closed s h a b) = refl
EvmStep-forward (select_forward s h a b) = refl
EvmStep-forward (close_done s h a b c) = refl
EvmStep-forward (set_off_begin s h a b c d) = refl
EvmStep-forward (set_off_same s h a b c d) = refl
EvmStep-forward (set_off_receive s b a c d) = refl
EvmStep-forward (set_off_closed s b a c d e) = refl
EvmStep-forward (close_stepped s b a c) = refl
EvmStep-forward (unwind_begin s a b c) = refl
EvmStep-forward (unwind_same s a b c) = refl

pub EvmStep-client : {s t : Debugger} → EvmStep s t → t.client ≡ s.client
EvmStep-client (set_on_begin s h hs a b c d) = refl
EvmStep-client (set_on_same s h hs a b c d) = refl
EvmStep-client (set_on_send s h a b c d) = refl
EvmStep-client (select_step_closed s h a b) = refl
EvmStep-client (select_forward s h a b) = refl
EvmStep-client (close_done s h a b c) = refl
EvmStep-client (set_off_begin s h a b c d) = refl
EvmStep-client (set_off_same s h a b c d) = refl
EvmStep-client (set_off_receive s b a c d) = refl
EvmStep-client (set_off_closed s b a c d e) = refl
EvmStep-client (close_stepped s b a c) = refl
EvmStep-client (unwind_begin s a b c) = refl
EvmStep-client (unwind_same s a b c) = refl

ClientStep-forward :
    {s t : Debugger} → ClientStep s t → s.forward_closed ≡ true → t.forward_closed ≡ true
ClientStep-forward (call_wait s a b) f = f
ClientStep-forward (call_step s a b) f = f
ClientStep-forward (wait_receive s a b) f = f
ClientStep-forward (wait_closed s a b c) f = f
ClientStep-forward (wait_return s n a b c d) f = f
ClientStep-forward (receive_closed s a b) f = f
ClientStep-forward (check_done s a b) f = f
ClientStep-forward (check_more s a b) f = f
ClientStep-forward (call_forward_again s a b) f = f
ClientStep-forward (call_forward s a b) f = refl
ClientStep-forward (loop_stepped_closed s a b) f = f
ClientStep-forward (loop_done s a b) f = f
ClientStep-forward (close_step s b a c) f = f
ClientStep-forward (close_forward s a b) f = refl
ClientStep-forward (close_toggle s a b) f = f

-- The channel stays closed.
pub Step-forward : {s t : Debugger} → Step s t → s.forward_closed ≡ true → t.forward_closed ≡ true
Step-forward (evm_step e) f = EvmStep-forward e ∙ f
Step-forward (client_step e) f = ClientStep-forward e f
Step-forward (hand_step s h a b c) f = f
Step-forward (hand_stepped s a b c) f = f
Step-forward (loop_stepped s a b c) f = f
