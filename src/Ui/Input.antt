-- ===== src/Ui/Input.antt =====
-- evmdebug/ui.go, run.go: the key handler of the terminal interface, and what RunTerminalDebugger does
-- when the interface has ended. The goroutine that runs the EVM goes on at any time.
use specops.Base.{
  ℕ, ◌+◌, ◌≡◌, Bool, true, false, ◌||◌, ◌==◌, Option, none, some, List, [], ◌∷◌, if◌then◌else◌,
}
use specops.Debugger.{
  Client, idle, waiting, waited, sending, awaiting, checking, looping, closing, closing_forward,
  closing_toggle, Debugger, EvmStep, Step,
}

pub data Key : Type 0 where
  ctrl_c : Key
  end_key : Key
  escape : Key
  other_key : Key

pub record Event : Type 0 where
  pub key : Key
  pub rune : ℕ

abbrev pub space : ℕ
space = 32

abbrev pub letter_q : ℕ
letter_q = 113

-- Where the goroutine of the interface, which is the client of the Debugger, stands.
pub data Place : Type 0 where
  listening : Place  -- outside the handler
  in_forward : ℕ → Place  -- in FastForward, with the rune
  at_rune : ℕ → Place  -- before the second switch, with the rune
  before_step : Place  -- in the case of the space, behind the call of Done
  in_step : Place  -- in Step
  showing : Place  -- behind the second switch
  ended : Place  -- the interface has stopped
  leaving : Place  -- in the deferred FastForward of RunTerminalDebugger
  left : Place  -- RunTerminalDebugger has returned

abbrev pub in_method : Place → Bool
in_method (in_forward r) = true
in_method in_step = true
in_method leaving = true
in_method _ = false

abbrev pub is_idle : Client → Bool
is_idle idle = true
is_idle waiting = false
is_idle waited = false
is_idle sending = false
is_idle awaiting = false
is_idle checking = false
is_idle looping = false
is_idle (closing b) = false
is_idle closing_forward = false
is_idle closing_toggle = false

-- `displayed` is the Context of which the stack and the memory are listed.
pub record Screen : Type 0 where
  pub debugger : Debugger
  pub place : Place
  pub pc_to_item : List (ℕ × ℕ)
  pub current : ℕ
  pub displayed : Option ℕ
  pub stopped : Bool

-- `pcToCodeItem[pc]`; each offset is written once.
unfoldable pub item_of : List (ℕ × ℕ) → ℕ → ℕ
item_of [] pc = 0
item_of ((k, i) ∷ m) pc = if k == pc then i else item_of m pc

-- The item that `highlightPC` selects.
abbrev pub item_behind : Screen → ℕ
item_behind u = item_of u.pc_to_item u.debugger.last.pc + 1

-- The calls of the populate functions, as long as they do not panic (Ui/Memory).
abbrev pub context_shown : Option ℕ → Option ℕ → Option ℕ
context_shown none old = old
context_shown (some c) old = some c

abbrev pub forwarding : Debugger → Debugger
forwarding d = record d { client = looping; forward_closed = true; forwarded = true }

pub data UiStep : Screen → Screen → Type 0 where
  evm_runs :
      (u : Screen) (d : Debugger) → EvmStep u.debugger d → UiStep u (record u { debugger = d })
  method_runs :
      (u : Screen) (d : Debugger)
      → in_method u.place ≡ true
      → is_idle u.debugger.client ≡ false
      → Step u.debugger d
      → UiStep u (record u { debugger = d })
  press_ctrl_c :
      (u : Screen) (e : Event)
      → u.place ≡ listening
      → e.key ≡ ctrl_c
      → UiStep u (record u { place = ended; stopped = true })
  press_end :
      (u : Screen) (e : Event)
      → u.place ≡ listening
      → e.key ≡ end_key
      → u.debugger.forward_closed ≡ false
      → UiStep u (record u { place = in_forward e.rune; debugger = forwarding u.debugger })
  press_end_again :
      (u : Screen) (e : Event)
      → u.place ≡ listening
      → e.key ≡ end_key
      → u.debugger.forward_closed ≡ true
      → UiStep u (record u { place = in_forward e.rune })
  forward_returns :
      (u : Screen) (r : ℕ)
      → u.place ≡ in_forward r
      → u.debugger.client ≡ idle
      → UiStep u (record u { place = at_rune r; current = item_behind u })
  press_escape :
      (u : Screen) (e : Event)
      → u.place ≡ listening
      → e.key ≡ escape
      → UiStep u
          (record u { place = at_rune e.rune; stopped = u.stopped || u.debugger.done_closed })
  press_other :
      (u : Screen) (e : Event)
      → u.place ≡ listening
      → e.key ≡ other_key
      → UiStep u (record u { place = at_rune e.rune })
  rune_space :
      (u : Screen)
      → u.place ≡ at_rune space
      → u.debugger.done_closed ≡ false
      → UiStep u (record u { place = before_step })
  rune_space_done :
      (u : Screen)
      → u.place ≡ at_rune space
      → u.debugger.done_closed ≡ true
      → UiStep u (record u { place = showing })
  rune_q :
      (u : Screen)
      → u.place ≡ at_rune letter_q
      → UiStep u (record u { place = showing; stopped = u.stopped || u.debugger.done_closed })
  rune_other :
      (u : Screen) (r : ℕ)
      → u.place ≡ at_rune r
      → (r == space || r == letter_q) ≡ false
      → UiStep u (record u { place = showing })
  enter_step :
      (u : Screen)
      → u.place ≡ before_step
      → UiStep u (record u { place = in_step; debugger = record u.debugger { client = sending } })
  step_returns :
      (u : Screen)
      → u.place ≡ in_step
      → u.debugger.client ≡ idle
      → UiStep u (record u { place = showing; current = item_behind u })
  show :
      (u : Screen)
      → u.place ≡ showing
      → UiStep u (record u {
        place = if u.stopped then ended else listening;
        displayed = context_shown u.debugger.last.context u.displayed;
      })
  leave :
      (u : Screen)
      → u.place ≡ ended
      → u.debugger.forward_closed ≡ false
      → UiStep u (record u { place = leaving; debugger = forwarding u.debugger })
  leave_again :
      (u : Screen)
      → u.place ≡ ended
      → u.debugger.forward_closed ≡ true
      → UiStep u (record u { place = leaving })
  returns :
      (u : Screen)
      → u.place ≡ leaving
      → u.debugger.client ≡ idle
      → UiStep u (record u { place = left })

-- The interface, with the Debugger that StartDebugging has returned.
abbrev pub opened : List (ℕ × ℕ) → Debugger → Screen
opened m d = record {
  debugger = d;
  place = listening;
  pc_to_item = m;
  current = 0;
  displayed = none;
  stopped = false;
}

pub data Session (u : Screen) : Screen → Type 0 where
  opening : Session u u
  going_on : {v w : Screen} → Session u v → UiStep v w → Session u w
