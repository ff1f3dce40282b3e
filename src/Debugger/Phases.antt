-- ===== src/Debugger/Phases.antt =====
-- evmdebug/evmdebug.go: which places of the two goroutines go together, with which channels closed and
-- which items in the Toggle, and that every step keeps to them.
use specops.Base.{
  ℕ, ◌≡◌, refl, Bool, true, false, not, ◌&&◌, ◌==◌, Option, none, some, List, [], ◌∷◌,
  if◌then◌else◌, arith,
}
use specops.Toggle.{Toggle}
use specops.Debugger.{
  Hook, is_final, Evm, between, setting_on, selecting, taken, setting_off, signalling,
  closing_stepped, unwinding, Client, idle, waiting, waited, sending, awaiting, checking, looping,
  closing, closing_forward, closing_toggle, Debugger, new_debugger, EvmStep, set_on_begin,
  set_on_same, set_on_send, select_step_closed, select_forward, close_done, set_off_begin,
  set_off_same, set_off_receive, set_off_closed, close_stepped, unwind_begin, unwind_same,
  ClientStep, call_wait, call_step, wait_receive, wait_closed, wait_return, receive_closed,
  check_done, check_more, call_forward_again, call_forward, loop_stepped_closed, loop_done,
  close_step, close_forward, close_toggle, Step, evm_step, client_step, hand_step, hand_stepped,
  loop_stepped, Reach, here, next,
}

abbrev pub before : Evm → Bool
before between = true
before (setting_on h) = true
before (selecting h) = true
before (taken h) = false
before (setting_off b) = false
before signalling = false
before (closing_stepped b) = false
before unwinding = false

abbrev pub is_selecting : Evm → Bool
is_selecting between = false
is_selecting (setting_on h) = false
is_selecting (selecting h) = true
is_selecting (taken h) = false
is_selecting (setting_off b) = false
is_selecting signalling = false
is_selecting (closing_stepped b) = false
is_selecting unwinding = false

-- The channels `done` and `stepped`, by where the EVM's goroutine is.
abbrev pub fits_evm : Evm → (done stepped : Bool) → Bool
fits_evm between done stepped = if done then stepped else not stepped
fits_evm (setting_on h) done stepped = not done && not stepped
fits_evm (selecting h) done stepped = not done && not stepped
fits_evm (taken h) done stepped = not done && not stepped
fits_evm (setting_off b) done stepped = if b then done && stepped else not done && not stepped
fits_evm signalling done stepped = not done && not stepped
fits_evm (closing_stepped b) done stepped = done && not stepped
fits_evm unwinding done stepped = done && stepped

-- The other channels and the place of the EVM, by where the client is.
abbrev pub fits_client : Client → Evm → (done step forward closed : Bool) → Bool
fits_client idle e done step forward closed =
    if done
    then step && (forward && closed)
    else not step && (not forward && (not closed && before e))
fits_client waiting e done step forward closed =
    not done && (not step && (not forward && (not closed && before e)))
fits_client waited e done step forward closed =
    not done && (not step && (not forward && (not closed && is_selecting e)))
fits_client sending e done step forward closed =
    not done && (not step && (not forward && (not closed && before e)))
fits_client awaiting e done step forward closed =
    not step && (not forward && (not closed && (if done then true else not (before e))))
fits_client checking e done step forward closed =
    not step && (not forward && (not closed && (if done then true else before e)))
fits_client looping e done step forward closed = not step && (forward && not closed)
fits_client (closing b) e done step forward closed =
    done && (not step && (not closed && (if b then not forward else forward)))
fits_client closing_forward e done step forward closed =
    done && (step && (not forward && not closed))
fits_client closing_toggle e done step forward closed = done && (step && (forward && not closed))

abbrev pub is_waited : Client → Bool
is_waited idle = false
is_waited waiting = false
is_waited waited = true
is_waited sending = false
is_waited awaiting = false
is_waited checking = false
is_waited looping = false
is_waited (closing b) = false
is_waited closing_forward = false
is_waited closing_toggle = false

abbrev same : Bool → Bool → Bool
same true b = b
same false b = not b

abbrev is_pending : Option Bool → Option Bool → Bool
is_pending none none = true
is_pending none (some b) = false
is_pending (some a) none = false
is_pending (some a) (some b) = same a b

abbrev toggles : Toggle → Bool → Option Bool → (buffer in_flight : ℕ) → Bool
toggles t b p m n =
    same t.state b && (is_pending p t.pending && (t.buffer == m && t.in_flight == n))

-- The Toggle, by where the goroutines are.
abbrev pub fits_toggle : Evm → Toggle → (done waited : Bool) → Bool
fits_toggle between t done w = if done then true else toggles t false none 0 0
fits_toggle (setting_on h) t done w = toggles t true (some true) 0 0
fits_toggle (selecting h) t done w = if w then toggles t true none 0 1 else toggles t true none 1 0
fits_toggle (taken h) t done w = toggles t true none 1 0
fits_toggle (setting_off b) t done w = toggles t false (some false) 1 0
fits_toggle signalling t done w = toggles t false none 0 0
fits_toggle (closing_stepped b) t done w = toggles t true none 1 0
fits_toggle unwinding t done w = toggles t true none 1 0

-- The calls that are not behind their select, and those that are not done.
abbrev pub uncaptured : Evm → List Hook → List Hook
uncaptured between hs = hs
uncaptured (setting_on h) hs = h ∷ hs
uncaptured (selecting h) hs = h ∷ hs
uncaptured (taken h) hs = hs
uncaptured (setting_off b) hs = hs
uncaptured signalling hs = hs
uncaptured (closing_stepped b) hs = hs
uncaptured unwinding hs = hs

abbrev pub is_nil : List Hook → Bool
is_nil [] = true
is_nil (h ∷ hs) = false

-- A call that ends the execution is the last one.
abbrev pub ends_last : List Hook → Bool
ends_last [] = true
ends_last (h ∷ hs) = (if is_final h then is_nil hs else true) && ends_last hs

abbrev pub fits_hooks : Evm → List Hook → (done : Bool) → Bool
fits_hooks between hs done = if done then is_nil hs else ends_last hs
fits_hooks (setting_on h) hs done = ends_last (h ∷ hs)
fits_hooks (selecting h) hs done = ends_last (h ∷ hs)
fits_hooks (taken h) hs done = ends_last (h ∷ hs)
fits_hooks (setting_off b) hs done = if b then is_nil hs else ends_last hs
fits_hooks signalling hs done = ends_last hs
fits_hooks (closing_stepped b) hs done = is_nil hs
fits_hooks unwinding hs done = is_nil hs

pub record Fits (s : Debugger) : Type 0 where
  pub evm_fits : fits_evm s.evm s.done_closed s.stepped_closed ≡ true
  pub client_fits :
      fits_client s.client s.evm s.done_closed s.step_closed s.forward_closed s.blocking.closed
      ≡ true
  pub toggle_fits : fits_toggle s.evm s.blocking s.done_closed (is_waited s.client) ≡ true
  pub hooks_fit : fits_hooks s.evm s.hooks s.done_closed ≡ true

EvmStep-Fits : {s t : Debugger} → EvmStep s t → Fits s → Fits t
EvmStep-Fits (set_on_begin s h hs a b c d) f = ground arith
EvmStep-Fits (set_on_same s h hs a b c d) f = ground arith
EvmStep-Fits (set_on_send s h a b c d) f = ground arith
EvmStep-Fits (select_step_closed s h a b) f = ground arith
EvmStep-Fits (select_forward s h a b) f = ground arith
EvmStep-Fits (close_done s h a b c) f = ground arith
EvmStep-Fits (set_off_begin s h a b c d) f = ground arith
EvmStep-Fits (set_off_same s h a b c d) f = ground arith
EvmStep-Fits (set_off_receive s b a c d) f = ground arith
EvmStep-Fits (set_off_closed s b a c d e) f = ground arith
EvmStep-Fits (close_stepped s b a c) f = ground arith
EvmStep-Fits (unwind_begin s a b c) f = ground arith
EvmStep-Fits (unwind_same s a b c) f = ground arith

ClientStep-Fits : {s t : Debugger} → ClientStep s t → Fits s → Fits t
ClientStep-Fits (call_wait s a b) f = ground arith
ClientStep-Fits (call_step s a b) f = ground arith
ClientStep-Fits (wait_receive s a b) f = ground arith
ClientStep-Fits (wait_closed s a b c) f = ground arith
ClientStep-Fits (wait_return s n a b c d) f = ground arith
ClientStep-Fits (receive_closed s a b) f = ground arith
ClientStep-Fits (check_done s a b) f = ground arith
ClientStep-Fits (check_more s a b) f = ground arith
ClientStep-Fits (call_forward_again s a b) f = f
ClientStep-Fits (call_forward s a b) f = ground arith
ClientStep-Fits (loop_stepped_closed s a b) f = f
ClientStep-Fits (loop_done s a b) f = ground arith
ClientStep-Fits (close_step s b a c) f = ground arith
ClientStep-Fits (close_forward s a b) f = ground arith
ClientStep-Fits (close_toggle s a b) f = ground arith

pub Step-Fits : {s t : Debugger} → Step s t → Fits s → Fits t
Step-Fits (evm_step e) f = EvmStep-Fits e f
Step-Fits (client_step e) f = ClientStep-Fits e f
Step-Fits (hand_step s h a b c) f = ground arith
Step-Fits (hand_stepped s a b c) f = ground arith
Step-Fits (loop_stepped s a b c) f = ground arith

pub Reach-Fits : {s t : Debugger} → Fits s → Reach s t → Fits t
Reach-Fits f here = f
Reach-Fits f (next r e) = Step-Fits e (Reach-Fits f r)

pub new-Fits : (hs : List Hook) → ends_last hs ≡ true → Fits (new_debugger hs)
new-Fits hs e = record { evm_fits = refl; client_fits = refl; toggle_fits = refl; hooks_fit = e }
