-- ===== src/Ui/Session.antt =====
-- evmdebug/ui.go: what holds in every state of the terminal interface. It starts when StartDebugging
-- has returned, so that the client has been in Wait.
use specops.Base.{ℕ, ◌≡◌, ◌≢◌, refl, ap, ◌∙◌, Bool, true, false, ◌&&◌, not, List, arith}
use specops.Debugger.{
  Hook, Client, idle, waiting, waited, sending, awaiting, checking, looping, closing,
  closing_forward, closing_toggle, Debugger, EvmStep, evm_step, client_step, call_step,
  call_forward, Reach, next,
}
use specops.Debugger.Phases.{Reach-Fits, ends_last}
use specops.Debugger.Shown.{Wait-blocks_first}
use specops.Debugger.Safe.{Panics, Reach-not-Panics}
use specops.Run.Waiting.{begin, begin-Fits, begun}
use specops.Ui.Input.{
  Place, listening, in_forward, at_rune, before_step, in_step, showing, ended, leaving, left,
  in_method, is_idle, Screen, UiStep, evm_runs, method_runs, press_ctrl_c, press_end,
  press_end_again, forward_returns, press_escape, press_other, rune_space, rune_space_done, rune_q,
  rune_other, enter_step, step_returns, show, leave, leave_again, returns, opened, Session, opening,
  going_on,
}
use specops.Ui.Quiet.{EvmStep-held, EvmStep-forward, EvmStep-client, Step-forward}

-- The client, and the channels `done` and `fastForward`, by where the interface is.
abbrev pub fits_place : Place → Client → (done forward : Bool) → Bool
fits_place listening c done forward = is_idle c
fits_place (in_forward r) c done forward = true
fits_place (at_rune r) c done forward = is_idle c
fits_place before_step c done forward = is_idle c && not done
fits_place in_step c done forward = true
fits_place showing c done forward = is_idle c
fits_place ended c done forward = is_idle c
fits_place leaving c done forward = forward
fits_place left c done forward = is_idle c && forward

idle_of : (c : Client) → is_idle c ≡ true → c ≡ idle
idle_of idle h = refl
idle_of waiting h = absurd (cc)
idle_of waited h = absurd (cc)
idle_of sending h = absurd (cc)
idle_of awaiting h = absurd (cc)
idle_of checking h = absurd (cc)
idle_of looping h = absurd (cc)
idle_of (closing b) h = absurd (cc)
idle_of closing_forward h = absurd (cc)
idle_of closing_toggle h = absurd (cc)

abbrev pub Placed : Screen → Type 0
Placed u =
    fits_place u.place u.debugger.client u.debugger.done_closed u.debugger.forward_closed ≡ true

pub outside : (u : Screen) → Placed u → in_method u.place ≡ false → u.debugger.client ≡ idle
outside u p m = idle_of u.debugger.client (ground arith)

module _ (hs : List Hook) (o : ends_last hs ≡ true) where
  still :
      (u : Screen) (d : Debugger)
      → Reach (begin hs) u.debugger
      → Placed u
      → u.place ≡ before_step
      → EvmStep u.debugger d
      → ⊥
  still u d r p b e =
      let i : u.debugger.client ≡ idle = idle_of u.debugger.client (ground arith) in
      let n : u.debugger.done_closed ≡ false = ground arith in
      let f = begin-Fits hs o in
      let (h, w) = Wait-blocks_first (begin hs) u.debugger f refl r i n in
      EvmStep-held (Reach-Fits f r) i n w e

  UiStep-Reach :
      {u v : Screen}
      → Reach (begin hs) u.debugger
      → Placed u
      → UiStep u v
      → Reach (begin hs) v.debugger
  UiStep-Reach r p (evm_runs u d e) = next r (evm_step e)
  UiStep-Reach r p (method_runs u d m c e) = next r e
  UiStep-Reach r p (press_ctrl_c u e a b) = r
  UiStep-Reach r p (press_end u e a b c) =
      let i : u.debugger.client ≡ idle = outside u p (rw a refl) in
      next r (client_step (call_forward u.debugger i c))
  UiStep-Reach r p (press_end_again u e a b c) = r
  UiStep-Reach r p (forward_returns u n a b) = r
  UiStep-Reach r p (press_escape u e a b) = r
  UiStep-Reach r p (press_other u e a b) = r
  UiStep-Reach r p (rune_space u a b) = r
  UiStep-Reach r p (rune_space_done u a b) = r
  UiStep-Reach r p (rune_q u a) = r
  UiStep-Reach r p (rune_other u n a b) = r
  UiStep-Reach r p (enter_step u a) =
      let i : u.debugger.client ≡ idle = outside u p (rw a refl) in
      let n : u.debugger.done_closed ≡ false = ground arith in
      next r (client_step (call_step u.debugger i n))
  UiStep-Reach r p (step_returns u a b) = r
  UiStep-Reach r p (show u a) = r
  UiStep-Reach r p (leave u a b) =
      let i : u.debugger.client ≡ idle = outside u p (rw a refl) in
      next r (client_step (call_forward u.debugger i b))
  UiStep-Reach r p (leave_again u a b) = r
  UiStep-Reach r p (returns u a b) = r

  quiet_place :
      (pl : Place) (c c' : Client) (d d' f f' : Bool)
      → c' ≡ c
      → f' ≡ f
      → pl ≢ before_step
      → fits_place pl c d f ≡ true
      → fits_place pl c' d' f' ≡ true
  quiet_place before_step c c' d d' f f' e g n p = absurd (n refl)
  quiet_place listening c c' d d' f f' e g n p = ap is_idle e ∙ p
  quiet_place (in_forward r) c c' d d' f f' e g n p = refl
  quiet_place (at_rune r) c c' d d' f f' e g n p = ap is_idle e ∙ p
  quiet_place in_step c c' d d' f f' e g n p = refl
  quiet_place showing c c' d d' f f' e g n p = ap is_idle e ∙ p
  quiet_place ended c c' d d' f f' e g n p = ap is_idle e ∙ p
  quiet_place leaving c c' d d' f f' e g n p = g ∙ p
  quiet_place left c c' d d' f f' e g n p = rw e (rw g p)

  method_place :
      (pl : Place) (c c' : Client) (d d' f f' : Bool)
      → in_method pl ≡ true
      → (f ≡ true → f' ≡ true)
      → fits_place pl c d f ≡ true
      → fits_place pl c' d' f' ≡ true
  method_place (in_forward r) c c' d d' f f' m k p = refl
  method_place in_step c c' d d' f f' m k p = refl
  method_place leaving c c' d d' f f' m k p = k p
  method_place listening c c' d d' f f' m k p = absurd (cc)
  method_place (at_rune r) c c' d d' f f' m k p = absurd (cc)
  method_place before_step c c' d d' f f' m k p = absurd (cc)
  method_place showing c c' d d' f f' m k p = absurd (cc)
  method_place ended c c' d d' f f' m k p = absurd (cc)
  method_place left c c' d d' f f' m k p = absurd (cc)

  UiStep-Placed : {u v : Screen} → Reach (begin hs) u.debugger → Placed u → UiStep u v → Placed v
  UiStep-Placed r p (evm_runs u d e) =
      quiet_place u.place _ _ _ _ _ _ (EvmStep-client e) (EvmStep-forward e)
        (λ a. still u d r p a e) p
  UiStep-Placed r p (method_runs u d m c e) = method_place u.place _ _ _ _ _ _ m (Step-forward e) p
  UiStep-Placed r p (press_ctrl_c u e a b) = ground arith
  UiStep-Placed r p (press_end u e a b c) = refl
  UiStep-Placed r p (press_end_again u e a b c) = refl
  UiStep-Placed r p (forward_returns u n a b) = ground arith
  UiStep-Placed r p (press_escape u e a b) = ground arith
  UiStep-Placed r p (press_other u e a b) = ground arith
  UiStep-Placed r p (rune_space u a b) = ground arith
  UiStep-Placed r p (rune_space_done u a b) = ground arith
  UiStep-Placed r p (rune_q u a) = ground arith
  UiStep-Placed r p (rune_other u n a b) = ground arith
  UiStep-Placed r p (enter_step u a) = refl
  UiStep-Placed r p (step_returns u a b) = ground arith
  UiStep-Placed r p (show u a) = ground arith
  UiStep-Placed r p (leave u a b) = refl
  UiStep-Placed r p (leave_again u a b) = b
  UiStep-Placed r p (returns u a b) = ground arith

  pub Session-Placed :
      {d : Debugger} (m : List (ℕ × ℕ)) {u : Screen}
      → Reach (begin hs) d
      → d.client ≡ idle
      → Session (opened m d) u
      → Reach (begin hs) u.debugger × Placed u
  Session-Placed m r i opening = (r, ap is_idle i)
  Session-Placed m r i (going_on q e) =
      let (r', p) = Session-Placed m r i q in (UiStep-Reach r' p e, UiStep-Placed r' p e)

  -- For such calls, in every state of the interface that is reached, by whatever keys, from a
  -- Debugger whose Wait has returned, no goroutine is about to send on a closed channel of the
  -- Debugger or to close one again.
  pub Session-not-Panics :
      (d : Debugger) (m : List (ℕ × ℕ)) (u : Screen)
      → Reach (begin hs) d
      → d.client ≡ idle
      → Session (opened m d) u
      → ¬ Panics u.debugger
  Session-not-Panics d m u r i q =
      Reach-not-Panics hs u.debugger o (begun ((Session-Placed m r i q).0))

  -- For such calls, if RunTerminalDebugger has returned from the interface, by whatever keys, then
  -- Done is true.
  pub left-Done :
      (d : Debugger) (m : List (ℕ × ℕ)) (u : Screen)
      → Reach (begin hs) d
      → d.client ≡ idle
      → Session (opened m d) u
      → u.place ≡ left
      → u.debugger.done_closed ≡ true
  left-Done d m u r i q l =
      let (r', p) = Session-Placed m r i q in
      let f = Reach-Fits (begin-Fits hs o) r' in
      let w : u.debugger.client ≡ idle = outside u p (rw l refl) in
      let b : u.debugger.forward_closed ≡ true = ground arith in ground arith
