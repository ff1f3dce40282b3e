-- ===== src/Debugger/Late.antt =====
-- evmdebug/evmdebug.go: Wait and Step as they are when a client calls them although Done is true.
use specops.Base.{◌≡◌, Bool, true, false, ◌&&◌, ◌==◌, not, ℕ, List, [], ◌∷◌, if◌then◌else◌}
use specops.Debugger.{
  Hook, is_fault, Evm, between, setting_on, selecting, taken, setting_off, signalling,
  closing_stepped, unwinding, idle, waiting, sending, Debugger, Step,
}

-- A step of a client that calls Wait and Step at any time. Neither of them looks at `done` first.
pub data FreeStep : Debugger → Debugger → Type 0 where
  in_order : {s t : Debugger} → Step s t → FreeStep s t
  late_wait :
      (s : Debugger)
      → s.client ≡ idle
      → s.done_closed ≡ true
      → FreeStep s (record s { client = waiting })
  late_step :
      (s : Debugger)
      → s.client ≡ idle
      → s.done_closed ≡ true
      → FreeStep s (record s { client = sending })

pub data FreeReach (s : Debugger) : Debugger → Type 0 where
  free_here : FreeReach s s
  free_next : {t u : Debugger} → FreeReach s t → FreeStep t u → FreeReach s u

abbrev pub no_faults : List Hook → Bool
no_faults [] = true
no_faults (h ∷ hs) = not (is_fault h) && no_faults hs

-- The EVM's goroutine is in no call of `onFault`.
abbrev in_no_fault : Evm → Bool
in_no_fault between = true
in_no_fault (setting_on h) = not (is_fault h)
in_no_fault (selecting h) = not (is_fault h)
in_no_fault (taken h) = not (is_fault h)
in_no_fault (setting_off b) = not b
in_no_fault signalling = true
in_no_fault (closing_stepped b) = not b
in_no_fault unwinding = false

abbrev leaves_item : Evm → List Hook → (done : Bool) → (buffer : ℕ) → Bool
leaves_item e hs done m = in_no_fault e && (no_faults hs && (if done then m == 1 else true))

-- The item of the last Set(true) stays in the Toggle when the execution ends.
abbrev LeavesItem : Debugger → Type 0
LeavesItem s = leaves_item s.evm s.hooks s.done_closed s.blocking.buffer ≡ true
