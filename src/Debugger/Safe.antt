-- ===== src/Debugger/Safe.antt =====
-- evmdebug/evmdebug.go: no goroutine sends on a closed channel or closes one again.
use specops.Base.{◌≡◌, Bool, true, List, arith}
use specops.Debugger.{
  Hook, is_final, setting_on, taken, signalling, closing_stepped, waited, sending, closing,
  closing_forward, closing_toggle, Debugger, new_debugger, Reach,
}
use specops.Debugger.Phases.{Fits, Reach-Fits, new-Fits, ends_last}

-- A goroutine is at a statement that panics.
pub data Panics (s : Debugger) : Type 0 where
  sends_item : (h : Hook) → s.evm ≡ setting_on h → s.blocking.closed ≡ true → Panics s
  closes_done : (h : Hook) → s.evm ≡ taken h → is_final h ≡ true → s.done_closed ≡ true → Panics s
  sends_stepped : s.evm ≡ signalling → s.stepped_closed ≡ true → Panics s
  closes_stepped : (b : Bool) → s.evm ≡ closing_stepped b → s.stepped_closed ≡ true → Panics s
  returns_item : s.client ≡ waited → s.blocking.closed ≡ true → Panics s
  sends_step : s.client ≡ sending → s.step_closed ≡ true → Panics s
  closes_step : (b : Bool) → s.client ≡ closing b → s.step_closed ≡ true → Panics s
  closes_forward : s.client ≡ closing_forward → s.forward_closed ≡ true → Panics s
  closes_toggle : s.client ≡ closing_toggle → s.blocking.closed ≡ true → Panics s

Fits-not-Panics : {s : Debugger} → Fits s → ¬ Panics s
Fits-not-Panics f (sends_item h a b) = ground arith
Fits-not-Panics f (closes_done h a b c) = ground arith
Fits-not-Panics f (sends_stepped a b) = ground arith
Fits-not-Panics f (closes_stepped b a c) = ground arith
Fits-not-Panics f (returns_item a b) = ground arith
Fits-not-Panics f (sends_step a b) = ground arith
Fits-not-Panics f (closes_step b a c) = ground arith
Fits-not-Panics f (closes_forward a b) = ground arith
Fits-not-Panics f (closes_toggle a b) = ground arith

-- For such calls no goroutine is, in a state that is reached from a new Debugger by calling Step
-- and Wait only while Done is false, about to send on a closed channel or to close one again.
pub Reach-not-Panics :
    (hs : List Hook) (s : Debugger) → ends_last hs ≡ true → Reach (new_debugger hs) s → ¬ Panics s
Reach-not-Panics hs s e r = Fits-not-Panics (Reach-Fits (new-Fits hs e) r)
