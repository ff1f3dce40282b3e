-- ===== src/Debugger.antt =====
-- evmdebug/evmdebug.go: the Debugger, which holds an execution of the EVM in another goroutine before
-- each opcode. One goroutine runs the EVM and calls the tracer's hooks; another, the client, calls
-- the methods of the Debugger one at a time.
pub mod Phases
pub mod Safe
pub mod Counts
pub mod Shown
pub mod Endless
pub mod Late
mod Tests
pub mod Ends
use specops.Base.{
  ℕ, suc, ◌+◌, ◌≡◌, Bool, true, false, ◌||◌, ◌==◌, Option, none, some, List, [], ◌∷◌, if◌then◌else◌,
}
use specops.Toggle.{Toggle, zero_value}

-- Pointers and errors are numbers; `context` is `none` for nil.
pub record CapturedState : Type 0 where
  pub pc : ℕ
  pub gas_left : ℕ
  pub gas_cost : ℕ
  pub op : ℕ
  pub context : Option ℕ
  pub return_data : List ℕ
  pub failure : Option ℕ

abbrev pub zero_captured : CapturedState
zero_captured = record {
  pc = 0;
  gas_left = 0;
  gas_cost = 0;
  op = 0;
  context = none;
  return_data = [];
  failure = none;
}

-- A call of `onOpCode` or `onFault` by the EVM, with its arguments; `onFault` has no return data.
pub data Hook : Type 0 where
  on_op_code : CapturedState → Hook
  on_fault : CapturedState → Hook

abbrev pub is_fault : Hook → Bool
is_fault (on_op_code a) = false
is_fault (on_fault a) = true

-- What the hook stores in `d.last`.
abbrev pub capture : Hook → CapturedState
capture (on_op_code a) = a
capture (on_fault a) = record a { return_data = [] }

-- Whether the hook closes `d.done`: STOP, RETURN, or a fault.
unfoldable pub is_final : Hook → Bool
is_final (on_op_code a) = a.op == 0x00 || a.op == 0xf3
is_final (on_fault a) = true

-- Where the EVM's goroutine stands. The flag says that Set(false) is deferred to the end of
-- `onFault`, rather than called by `onOpCode`.
pub data Evm : Type 0 where
  between : Evm  -- in the EVM, outside the hooks
  setting_on : Hook → Evm  -- in Set(true)
  selecting : Hook → Evm  -- at the select of `d.step` and `d.fastForward`
  taken : Hook → Evm  -- behind the select, with `d.last` stored
  setting_off : Bool → Evm  -- in Set(false)
  signalling : Evm  -- at the send on `d.stepped`
  closing_stepped : Bool → Evm  -- before `close(d.stepped)`
  unwinding : Evm  -- before the deferred Set(false)

-- Where the client's goroutine stands.
pub data Client : Type 0 where
  idle : Client  -- outside the methods
  waiting : Client  -- in `blockingEVM.Wait`, called by Wait or Step
  waited : Client  -- there, with an item that is to be sent back
  sending : Client  -- in Step, at the send on `d.step`
  awaiting : Client  -- in Step, at the receive from `d.stepped`
  checking : Client  -- in Step, at the select of `d.done`
  looping : Client  -- in the loop of FastForward
  closing : Bool → Client  -- in `close`, with its argument
  closing_forward : Client  -- before `close(d.fastForward)`
  closing_toggle : Client  -- before `blockingEVM.Close()`

-- The calls that the EVM is still to make are `hooks`. The last three fields are not in the program:
-- how many hooks have been let through, how many calls of Step have let one through, and whether
-- FastForward has closed its channel.
pub record Debugger : Type 0 where
  pub hooks : List Hook
  pub evm : Evm
  pub client : Client
  pub blocking : Toggle
  pub last : CapturedState
  pub step_closed : Bool
  pub forward_closed : Bool
  pub stepped_closed : Bool
  pub done_closed : Bool
  pub captured : ℕ
  pub steps : ℕ
  pub forwarded : Bool

-- `NewDebugger`, before an execution that makes the calls.
abbrev pub new_debugger : List Hook → Debugger
new_debugger hs = record {
  hooks = hs;
  evm = between;
  client = idle;
  blocking = zero_value;
  last = zero_captured;
  step_closed = false;
  forward_closed = false;
  stepped_closed = false;
  done_closed = false;
  captured = 0;
  steps = 0;
  forwarded = false;
}

-- What a Set does to the Toggle that it has the mutex of.
abbrev pub begun : Bool → Toggle → Toggle
begun b t = record t { state = b; pending = some b }

abbrev pub ended : ℕ → Toggle → Toggle
ended n t = record t { buffer = n; pending = none }

-- Behind the send or receive of Set(false), and behind `close(d.stepped)`.
abbrev pub behind_set : Bool → Evm
behind_set b = if b then between else signalling

abbrev pub behind_close : Bool → Evm
behind_close b = if b then unwinding else between

-- The hook has been let through, and `d.last` is stored.
abbrev pub let_through : Hook → Debugger → Debugger
let_through h s = record s { evm = taken h; last = capture h; captured = s.captured + 1 }

-- A step of the EVM's goroutine, up to the next point at which it can block. A send on a closed
-- channel and a close of one are no steps: they panic.
pub data EvmStep : Debugger → Debugger → Type 0 where
  set_on_begin :
      (s : Debugger) (h : Hook) (hs : List Hook)
      → s.evm ≡ between
      → s.hooks ≡ h ∷ hs
      → s.blocking.pending ≡ none
      → s.blocking.state ≡ false
      → EvmStep s (record s { evm = setting_on h; hooks = hs; blocking = begun true s.blocking })
  set_on_same :
      (s : Debugger) (h : Hook) (hs : List Hook)
      → s.evm ≡ between
      → s.hooks ≡ h ∷ hs
      → s.blocking.pending ≡ none
      → s.blocking.state ≡ true
      → EvmStep s (record s { evm = selecting h; hooks = hs })
  set_on_send :
      (s : Debugger) (h : Hook)
      → s.evm ≡ setting_on h
      → s.blocking.pending ≡ some true
      → s.blocking.closed ≡ false
      → s.blocking.buffer ≡ 0
      → EvmStep s (record s { evm = selecting h; blocking = ended 1 s.blocking })
  select_step_closed :
      (s : Debugger) (h : Hook)
      → s.evm ≡ selecting h
      → s.step_closed ≡ true
      → EvmStep s (let_through h s)
  select_forward :
      (s : Debugger) (h : Hook)
      → s.evm ≡ selecting h
      → s.forward_closed ≡ true
      → EvmStep s (let_through h s)
  close_done :
      (s : Debugger) (h : Hook)
      → s.evm ≡ taken h
      → is_final h ≡ true
      → s.done_closed ≡ false
      → EvmStep s (record s { evm = closing_stepped (is_fault h); done_closed = true })
  set_off_begin :
      (s : Debugger) (h : Hook)
      → s.evm ≡ taken h
      → is_final h ≡ false
      → s.blocking.pending ≡ none
      → s.blocking.state ≡ true
      → EvmStep s (record s { evm = setting_off false; blocking = begun false s.blocking })
  set_off_same :
      (s : Debugger) (h : Hook)
      → s.evm ≡ taken h
      → is_final h ≡ false
      → s.blocking.pending ≡ none
      → s.blocking.state ≡ false
      → EvmStep s (record s { evm = signalling })
  set_off_receive :
      (s : Debugger) (b : Bool)
      → s.evm ≡ setting_off b
      → s.blocking.pending ≡ some false
      → s.blocking.buffer ≡ 1
      → EvmStep s (record s { evm = behind_set b; blocking = ended 0 s.blocking })
  set_off_closed :
      (s : Debugger) (b : Bool)
      → s.evm ≡ setting_off b
      → s.blocking.pending ≡ some false
      → s.blocking.closed ≡ true
      → s.blocking.buffer ≡ 0
      → EvmStep s (record s { evm = behind_set b; blocking = record s.blocking { pending = none } })
  close_stepped :
      (s : Debugger) (b : Bool)
      → s.evm ≡ closing_stepped b
      → s.stepped_closed ≡ false
      → EvmStep s (record s { evm = behind_close b; stepped_closed = true })
  unwind_begin :
      (s : Debugger)
      → s.evm ≡ unwinding
      → s.blocking.pending ≡ none
      → s.blocking.state ≡ true
      → EvmStep s (record s { evm = setting_off true; blocking = begun false s.blocking })
  unwind_same :
      (s : Debugger)
      → s.evm ≡ unwinding
      → s.blocking.pending ≡ none
      → s.blocking.state ≡ false
      → EvmStep s (record s { evm = between })

-- A step of the goroutine of a client that calls Step and Wait only while Done is false. The comment
-- of Step asks so for Step; the code of neither looks at `done` first, and Debugger/Late has the steps
-- of a client that calls them at any time.
pub data ClientStep : Debugger → Debugger → Type 0 where
  call_wait :
      (s : Debugger)
      → s.client ≡ idle
      → s.done_closed ≡ false
      → ClientStep s (record s { client = waiting })
  call_step :
      (s : Debugger)
      → s.client ≡ idle
      → s.done_closed ≡ false
      → ClientStep s (record s { client = sending })
  wait_receive :
      (s : Debugger)
      → s.client ≡ waiting
      → s.blocking.buffer ≡ 1
      → ClientStep s (record s {
        client = waited;
        blocking = record s.blocking { buffer = 0; in_flight = s.blocking.in_flight + 1 };
      })
  wait_closed :
      (s : Debugger)
      → s.client ≡ waiting
      → s.blocking.closed ≡ true
      → s.blocking.buffer ≡ 0
      → ClientStep s (record s { client = idle })
  wait_return :
      (s : Debugger) (n : ℕ)
      → s.client ≡ waited
      → s.blocking.in_flight ≡ suc n
      → s.blocking.closed ≡ false
      → s.blocking.buffer ≡ 0
      → ClientStep s
          (record s { client = idle; blocking = record s.blocking { buffer = 1; in_flight = n } })
  receive_closed :
      (s : Debugger)
      → s.client ≡ awaiting
      → s.stepped_closed ≡ true
      → ClientStep s (record s { client = checking })
  check_done :
      (s : Debugger)
      → s.client ≡ checking
      → s.done_closed ≡ true
      → ClientStep s (record s { client = closing true })
  check_more :
      (s : Debugger)
      → s.client ≡ checking
      → s.done_closed ≡ false
      → ClientStep s (record s { client = waiting })
  call_forward_again : (s : Debugger) → s.client ≡ idle → s.forward_closed ≡ true → ClientStep s s
  call_forward :
      (s : Debugger)
      → s.client ≡ idle
      → s.forward_closed ≡ false
      → ClientStep s (record s { client = looping; forward_closed = true; forwarded = true })
  loop_stepped_closed :
      (s : Debugger) → s.client ≡ looping → s.stepped_closed ≡ true → ClientStep s s
  loop_done :
      (s : Debugger)
      → s.client ≡ looping
      → s.done_closed ≡ true
      → ClientStep s (record s { client = closing false })
  close_step :
      (s : Debugger) (b : Bool)
      → s.client ≡ closing b
      → s.step_closed ≡ false
      → ClientStep s
          (record s { client = if b then closing_forward else closing_toggle; step_closed = true })
  close_forward :
      (s : Debugger)
      → s.client ≡ closing_forward
      → s.forward_closed ≡ false
      → ClientStep s (record s { client = closing_toggle; forward_closed = true })
  close_toggle :
      (s : Debugger)
      → s.client ≡ closing_toggle
      → s.blocking.closed ≡ false
      → ClientStep s (record s { client = idle; blocking = record s.blocking { closed = true } })

-- The channels `step` and `stepped` have no buffer: a send and its receive are one step of both.
pub data Step : Debugger → Debugger → Type 0 where
  evm_step : {s t : Debugger} → EvmStep s t → Step s t
  client_step : {s t : Debugger} → ClientStep s t → Step s t
  hand_step :
      (s : Debugger) (h : Hook)
      → s.client ≡ sending
      → s.evm ≡ selecting h
      → s.step_closed ≡ false
      → Step s (record (let_through h s) { client = awaiting; steps = s.steps + 1 })
  hand_stepped :
      (s : Debugger)
      → s.client ≡ awaiting
      → s.evm ≡ signalling
      → s.stepped_closed ≡ false
      → Step s (record s { client = checking; evm = between })
  loop_stepped :
      (s : Debugger)
      → s.client ≡ looping
      → s.evm ≡ signalling
      → s.stepped_closed ≡ false
      → Step s (record s { evm = between })

pub data Reach (s : Debugger) : Debugger → Type 0 where
  here : Reach s s
  next : {t u : Debugger} → Reach s t → Step t u → Reach s u
