-- ===== src/Debugger/Shown.antt =====
-- evmdebug/evmdebug.go: what State() shows when a method has returned.
use specops.Base.{
  ℕ, zero, suc, ◌+◌, ◌≡◌, ◌<◌, refl, sym, ap, ◌∙◌, Bool, true, false, not, ◌&&◌, ltb, some, List,
  [], ◌∷◌, if◌then◌else◌, get_elem?, drop, length, ◌≤◌, arith,
}
use specops.Debugger.{
  Hook, Evm, between, setting_on, selecting, taken, setting_off, signalling, closing_stepped,
  unwinding, Client, idle, waiting, Debugger, new_debugger, EvmStep, set_on_begin, set_on_same,
  set_on_send, select_step_closed, select_forward, close_done, set_off_begin, set_off_same,
  set_off_receive, set_off_closed, close_stepped, unwind_begin, unwind_same, ClientStep, call_wait,
  call_step, wait_receive, wait_closed, wait_return, receive_closed, check_done, check_more,
  call_forward_again, call_forward, loop_stepped_closed, loop_done, close_step, close_forward,
  close_toggle, Step, evm_step, client_step, hand_step, hand_stepped, loop_stepped, Reach, here,
  next,
}
use specops.Debugger.Phases.{
  Fits, Reach-Fits, new-Fits, ends_last, uncaptured, is_selecting, is_nil,
}
use specops.Debugger.Counts.{shown, final_at, Reach-Counts, ends_at, get_elem?-of-drop}

-- Behind a Step that has not ended the execution the EVM's goroutine is at its select.
abbrev blocked : Client → Evm → (steps : ℕ) → (done : Bool) → Bool
blocked idle e n done = if ltb 0 n && not done then is_selecting e else true
blocked c e n done = true

EvmStep-blocked :
    (m : ℕ) {s t : Debugger}
    → EvmStep s t
    → Fits s
    → blocked s.client s.evm (m + s.steps) s.done_closed ≡ true
    → blocked t.client t.evm (m + t.steps) t.done_closed ≡ true
EvmStep-blocked m (set_on_begin s h gs a b c d) f k = ground arith
EvmStep-blocked m (set_on_same s h gs a b c d) f k = ground arith
EvmStep-blocked m (set_on_send s h a b c d) f k = ground arith
EvmStep-blocked m (select_step_closed s h a b) f k = ground arith
EvmStep-blocked m (select_forward s h a b) f k = ground arith
EvmStep-blocked m (close_done s h a b c) f k = ground arith
EvmStep-blocked m (set_off_begin s h a b c d) f k = ground arith
EvmStep-blocked m (set_off_same s h a b c d) f k = ground arith
EvmStep-blocked m (set_off_receive s b a c d) f k = ground arith
EvmStep-blocked m (set_off_closed s b a c d e) f k = ground arith
EvmStep-blocked m (close_stepped s b a c) f k = ground arith
EvmStep-blocked m (unwind_begin s a b c) f k = ground arith
EvmStep-blocked m (unwind_same s a b c) f k = ground arith

ClientStep-blocked :
    (m : ℕ) {s t : Debugger}
    → ClientStep s t
    → Fits s
    → blocked s.client s.evm (m + s.steps) s.done_closed ≡ true
    → blocked t.client t.evm (m + t.steps) t.done_closed ≡ true
ClientStep-blocked m (call_wait s a b) f k = refl
ClientStep-blocked m (call_step s a b) f k = refl
ClientStep-blocked m (wait_receive s a b) f k = refl
ClientStep-blocked m (wait_closed s a b c) f k = ground arith
ClientStep-blocked m (wait_return s n a b c d) f k = ground arith
ClientStep-blocked m (receive_closed s a b) f k = refl
ClientStep-blocked m (check_done s a b) f k = refl
ClientStep-blocked m (check_more s a b) f k = refl
ClientStep-blocked m (call_forward_again s a b) f k = k
ClientStep-blocked m (call_forward s a b) f k = refl
ClientStep-blocked m (loop_stepped_closed s a b) f k = k
ClientStep-blocked m (loop_done s a b) f k = refl
ClientStep-blocked m (close_step s b a c) f k = ground arith
ClientStep-blocked m (close_forward s a b) f k = refl
ClientStep-blocked m (close_toggle s a b) f k = ground arith

Step-blocked :
    (m : ℕ) {s t : Debugger}
    → Step s t
    → Fits s
    → blocked s.client s.evm (m + s.steps) s.done_closed ≡ true
    → blocked t.client t.evm (m + t.steps) t.done_closed ≡ true
Step-blocked m (evm_step e) f k = EvmStep-blocked m e f k
Step-blocked m (client_step e) f k = ClientStep-blocked m e f k
Step-blocked m (hand_step s h a b c) f k = refl
Step-blocked m (hand_stepped s a b c) f k = refl
Step-blocked m (loop_stepped s a b c) f k = ground arith

Reach-blocked :
    (m : ℕ) {s t : Debugger}
    → Fits s
    → blocked s.client s.evm (m + s.steps) s.done_closed ≡ true
    → Reach s t
    → blocked t.client t.evm (m + t.steps) t.done_closed ≡ true
Reach-blocked m f k here = k
Reach-blocked m f k (next r e) = Step-blocked m e (Reach-Fits f r) (Reach-blocked m f k r)

-- Let the calls of the hooks be such that a STOP, a RETURN or a fault, if there is one, is the
-- last, and let the client call Step and Wait only while Done is false. In every state that is
-- reached from a new Debugger, outside its methods and before any FastForward, State is what the
-- last call let through by a Step has stored (the zero value before the first), and Done says
-- whether that call ends the execution.
pub Step-shows :
    (hs : List Hook) (s : Debugger)
    → ends_last hs ≡ true
    → Reach (new_debugger hs) s
    → s.forwarded ≡ false
    → s.client ≡ idle
    → (s.last ≡ shown hs s.steps) × (s.done_closed ≡ final_at hs s.steps)
Step-shows hs s o r w i =
    let f = Reach-Fits (new-Fits hs o) r in
    let k = Reach-Counts o r in
    let n : s.captured ≡ s.steps = ground arith in
    let e : s.done_closed ≡ ends_at s.evm s.done_closed = ground arith in
    (k.last_shown ∙ ap (shown hs) n, e ∙ k.final ∙ ap (final_at hs) n)

selecting_hook : (e : Evm) → is_selecting e ≡ true → (h : Hook) × (e ≡ selecting h)
selecting_hook (selecting h) i = (h, refl)
selecting_hook between i = absurd (cc)
selecting_hook (setting_on h) i = absurd (cc)
selecting_hook (taken h) i = absurd (cc)
selecting_hook (setting_off b) i = absurd (cc)
selecting_hook signalling i = absurd (cc)
selecting_hook (closing_stepped b) i = absurd (cc)
selecting_hook unwinding i = absurd (cc)

-- Once the client has started with Wait, the EVM's goroutine is at its select whenever no method is
-- under way and the execution goes on.
pub Wait-blocks_first :
    (s t : Debugger)
    → Fits s
    → s.client ≡ waiting
    → Reach s t
    → t.client ≡ idle
    → t.done_closed ≡ false
    → (h : Hook) × (t.evm ≡ selecting h)
Wait-blocks_first s t f w r i d =
    let k : blocked s.client s.evm (1 + s.steps) s.done_closed ≡ true = rw w refl in
    selecting_hook t.evm (ground (arith, Reach-blocked 1 f k r))

-- The call that is held is the one behind those that Steps have let through.
pub held_hook :
    (hs : List Hook) (s : Debugger) (h : Hook)
    → ends_last hs ≡ true
    → Reach (new_debugger hs) s
    → s.client ≡ idle
    → s.forwarded ≡ false
    → s.evm ≡ selecting h
    → get_elem? hs s.steps ≡ some h
held_hook hs s h o r i w e =
    let k = Reach-Counts o r in
    let n : s.captured ≡ s.steps = ground arith in
    let m : uncaptured s.evm s.hooks ≡ h ∷ s.hooks = rw e refl in
    (get_elem?-of-drop hs s.steps (sym m ∙ k.rest ∙ ap (λ (x : ℕ). drop x hs) n)).0

-- For such calls, in every state that is reached from a new Debugger by calling Step and Wait only
-- while Done is false, outside its methods, after at least one Step, before any FastForward and
-- while Done is false, the EVM is held at the select of the call that follows those which the Steps
-- have let through.
pub Step-blocks :
    (hs : List Hook) (s : Debugger)
    → ends_last hs ≡ true
    → Reach (new_debugger hs) s
    → s.forwarded ≡ false
    → s.client ≡ idle
    → 0 < s.steps
    → s.done_closed ≡ false
    → (h : Hook) × (s.evm ≡ selecting h) × (get_elem? hs s.steps ≡ some h)
Step-blocks hs s o r w i p d =
    let b : is_selecting s.evm ≡ true = ground (arith, Reach-blocked 0 (new-Fits hs o) refl r) in
    let (h, e) = selecting_hook s.evm b in (h, e, held_hook hs s h o r i w e)

drop_nil : (hs : List Hook) (n : ℕ) → [] ≡ drop n hs → length hs ≤ n
drop_nil [] n e = omega arith
drop_nil (h ∷ hs) zero e = absurd (cc)
drop_nil (h ∷ hs) (suc n) e = omega (arith, drop_nil hs n e)

final_in : (hs : List Hook) (n : ℕ) → final_at hs n ≡ true → n ≤ length hs
final_in hs zero e = omega arith
final_in [] (suc n) e = absurd (cc)
final_in (h ∷ hs) (suc zero) e = omega arith
final_in (h ∷ hs) (suc (suc n)) e = omega (arith, final_in hs (suc n) e)

nil_hooks : (hs : List Hook) → is_nil hs ≡ true → hs ≡ []
nil_hooks [] e = refl
nil_hooks (h ∷ hs) e = absurd (cc)

-- The execution is over: the last call is what is stored.
pub done-shows :
    (hs : List Hook) (s : Debugger)
    → ends_last hs ≡ true
    → Reach (new_debugger hs) s
    → s.done_closed ≡ true
    → (s.captured ≡ length hs) × (s.last ≡ shown hs (length hs))
done-shows hs s o r d =
    let f = Reach-Fits (new-Fits hs o) r in
    let k = Reach-Counts o r in
    let e : s.hooks ≡ [] = nil_hooks s.hooks (ground arith) in
    let z : uncaptured s.evm s.hooks ≡ [] = ground arith in
    let t : ends_at s.evm s.done_closed ≡ true = ground arith in
    let n : s.captured ≡ length hs =
      omega (
        arith,
        drop_nil hs s.captured (sym z ∙ k.rest),
        final_in hs s.captured (sym k.final ∙ t),
      ) in
    (n, k.last_shown ∙ ap (shown hs) n)

-- For such calls, in every state that is reached from a new Debugger by calling Step and Wait only
-- while Done is false, outside its methods and after a FastForward, Done is true, every call has
-- been let through, and State is what the last one has stored.
pub FastForward-shows :
    (hs : List Hook) (s : Debugger)
    → ends_last hs ≡ true
    → Reach (new_debugger hs) s
    → s.forwarded ≡ true
    → s.client ≡ idle
    → (s.done_closed ≡ true) × (s.captured ≡ length hs) × (s.last ≡ shown hs (length hs))
FastForward-shows hs s o r w i =
    let f = Reach-Fits (new-Fits hs o) r in
    let k = Reach-Counts o r in
    let d : s.done_closed ≡ true = ground arith in let (n, l) = done-shows hs s o r d in (d, n, l)
