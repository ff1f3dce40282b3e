-- ===== src/Debugger/Ends.antt =====
-- evmdebug/evmdebug.go: if the execution ends with a call that the Debugger takes for its end, then no
-- method of the Debugger is stuck.
use specops.Base.{
  ℕ, zero, suc, ◌+◌, ◌*◌, ◌≡◌, ◌<◌, refl, Bool, true, false, Bool-cases, List, [], ◌∷◌, ◌⊎◌, inl,
  inr, if◌then◌else◌, length, arith,
}
use specops.Debugger.{
  Hook, is_final, Evm, between, setting_on, selecting, taken, setting_off, signalling,
  closing_stepped, unwinding, Client, idle, waiting, waited, sending, awaiting, checking, looping,
  closing, closing_forward, closing_toggle, Debugger, new_debugger, EvmStep, set_on_begin,
  set_on_same, set_on_send, select_step_closed, select_forward, close_done, set_off_begin,
  set_off_same, set_off_receive, set_off_closed, close_stepped, unwind_begin, unwind_same,
  ClientStep, call_wait, call_step, wait_receive, wait_closed, wait_return, receive_closed,
  check_done, check_more, call_forward_again, call_forward, loop_stepped_closed, loop_done,
  close_step, close_forward, close_toggle, Step, evm_step, client_step, hand_step, hand_stepped,
  loop_stepped, Reach, here, next,
}
use specops.Debugger.Phases.{Fits, new-Fits, ends_last, is_nil, Step-Fits}

-- The last call, and no other, ends the execution.
abbrev pub ends_final : List Hook → Bool
ends_final [] = false
ends_final (h ∷ hs) = if is_final h then is_nil hs else ends_final hs

nil_last : (hs : List Hook) → is_nil hs ≡ true → ends_last hs ≡ true
nil_last [] e = refl
nil_last (h ∷ hs) e = absurd (cc)

pub ends_last-of-final : (hs : List Hook) → ends_final hs ≡ true → ends_last hs ≡ true
ends_last-of-final [] e = refl
ends_last-of-final (h ∷ hs) e = ground (arith, ends_last-of-final hs, nil_last hs)

-- While `done` is open the end is still to come.
abbrev to_come : Evm → List Hook → (done : Bool) → Bool
to_come between hs done = if done then true else ends_final hs
to_come (setting_on h) hs done = ends_final (h ∷ hs)
to_come (selecting h) hs done = ends_final (h ∷ hs)
to_come (taken h) hs done = ends_final (h ∷ hs)
to_come (setting_off b) hs done = if b then true else ends_final hs
to_come signalling hs done = ends_final hs
to_come (closing_stepped b) hs done = true
to_come unwinding hs done = true

abbrev ToCome : Debugger → Type 0
ToCome s = to_come s.evm s.hooks s.done_closed ≡ true

EvmStep-ToCome : {s t : Debugger} → EvmStep s t → Fits s → ToCome s → ToCome t
EvmStep-ToCome (set_on_begin s h gs a b c d) f k = ground arith
EvmStep-ToCome (set_on_same s h gs a b c d) f k = ground arith
EvmStep-ToCome (set_on_send s h a b c d) f k = ground arith
EvmStep-ToCome (select_step_closed s h a b) f k = ground arith
EvmStep-ToCome (select_forward s h a b) f k = ground arith
EvmStep-ToCome (close_done s h a b c) f k = ground arith
EvmStep-ToCome (set_off_begin s h a b c d) f k = ground arith
EvmStep-ToCome (set_off_same s h a b c d) f k = ground arith
EvmStep-ToCome (set_off_receive s b a c d) f k = ground arith
EvmStep-ToCome (set_off_closed s b a c d e) f k = ground arith
EvmStep-ToCome (close_stepped s b a c) f k = ground arith
EvmStep-ToCome (unwind_begin s a b c) f k = ground arith
EvmStep-ToCome (unwind_same s a b c) f k = ground arith

client_keeps :
    {s t : Debugger}
    → ClientStep s t
    → (t.evm ≡ s.evm) × (t.hooks ≡ s.hooks) × (t.done_closed ≡ s.done_closed)
client_keeps (call_wait s a b) = (refl, refl, refl)
client_keeps (call_step s a b) = (refl, refl, refl)
client_keeps (wait_receive s a b) = (refl, refl, refl)
client_keeps (wait_closed s a b c) = (refl, refl, refl)
client_keeps (wait_return s n a b c d) = (refl, refl, refl)
client_keeps (receive_closed s a b) = (refl, refl, refl)
client_keeps (check_done s a b) = (refl, refl, refl)
client_keeps (check_more s a b) = (refl, refl, refl)
client_keeps (call_forward_again s a b) = (refl, refl, refl)
client_keeps (call_forward s a b) = (refl, refl, refl)
client_keeps (loop_stepped_closed s a b) = (refl, refl, refl)
client_keeps (loop_done s a b) = (refl, refl, refl)
client_keeps (close_step s b a c) = (refl, refl, refl)
client_keeps (close_forward s a b) = (refl, refl, refl)
client_keeps (close_toggle s a b) = (refl, refl, refl)

Step-ToCome : {s t : Debugger} → Step s t → Fits s → ToCome s → ToCome t
Step-ToCome (evm_step e) f k = EvmStep-ToCome e f k
Step-ToCome (client_step e) f k = let (a, b, c) = client_keeps e in rw (a, b, c) k
Step-ToCome (hand_step s h a b c) f k = ground arith
Step-ToCome (hand_stepped s a b c) f k = ground arith
Step-ToCome (loop_stepped s a b c) f k = ground arith

Reach-Fits-ToCome : {s t : Debugger} → Fits s → ToCome s → Reach s t → Fits t × ToCome t
Reach-Fits-ToCome f k here = (f, k)
Reach-Fits-ToCome f k (next r e) =
    let (g, j) = Reach-Fits-ToCome f k r in (Step-Fits e g, Step-ToCome e g j)

-- The steps that the EVM's goroutine, and the client's, can still take before a method returns.
abbrev evm_weight : Evm → ℕ → ℕ
evm_weight between n = 8 * n
evm_weight (setting_on h) n = 8 * n + 7
evm_weight (selecting h) n = 8 * n + 6
evm_weight (taken h) n = 8 * n + 5
evm_weight (setting_off b) n = if b then 8 * n + 2 else 8 * n + 4
evm_weight signalling n = 8 * n + 3
evm_weight (closing_stepped b) n = 8 * n + 4
evm_weight unwinding n = 8 * n + 3

abbrev client_weight : Client → ℕ
client_weight idle = 0
client_weight waiting = 3
client_weight waited = 2
client_weight sending = 10
client_weight awaiting = 9
client_weight checking = 8
client_weight looping = 7
client_weight (closing b) = 6
client_weight closing_forward = 5
client_weight closing_toggle = 4

abbrev weight : Debugger → ℕ
weight s = evm_weight s.evm (length s.hooks) + client_weight s.client

abbrev Moves : Debugger → Type 0
Moves s = (t : Debugger) × Step s t × (weight t < weight s)

module _ (s : Debugger) (f : Fits s) (k : ToCome s) where
  between-Moves : s.evm ≡ between → s.done_closed ≡ false → Moves s
  between-Moves a d = by_hooks s.hooks refl
    where
      by_hooks : (hs : List Hook) → s.hooks ≡ hs → Moves s
      by_hooks [] e = absurd (ground arith)
      by_hooks (h ∷ hs) e =
          (_, evm_step (set_on_begin s h hs a e (ground arith) (ground arith)), ground arith)

  setting_on-Moves : (h : Hook) → s.evm ≡ setting_on h → s.blocking.closed ≡ false → Moves s
  setting_on-Moves h a c =
      (_, evm_step (set_on_send s h a (ground arith) c (ground arith)), ground arith)

  taken-Moves : (h : Hook) → s.evm ≡ taken h → Moves s
  taken-Moves h a = elim (Bool-cases (is_final h)) [
    | inl y ↦ (_, evm_step (close_done s h a y (ground arith)), ground arith)
    | inr n ↦ (_, evm_step (set_off_begin s h a n (ground arith) (ground arith)), ground arith)
  ]

  setting_off-Moves : s.evm ≡ setting_off false → Moves s
  setting_off-Moves a =
      (_, evm_step (set_off_receive s false a (ground arith) (ground arith)), ground arith)

  -- The EVM's goroutine goes on, unless it is at its select or has a send to the client to make.
  before-Moves :
      (e : Evm)
      → s.evm ≡ e
      → s.done_closed ≡ false
      → s.blocking.closed ≡ false
      → Moves s ⊎ ((h : Hook) × (s.evm ≡ selecting h)) ⊎ (s.evm ≡ signalling)
  before-Moves between a d c = inl (between-Moves a d)
  before-Moves (setting_on h) a d c = inl (setting_on-Moves h a c)
  before-Moves (selecting h) a d c = inr (inl (h, a))
  before-Moves (taken h) a d c = inl (taken-Moves h a)
  before-Moves (setting_off true) a d c = absurd (ground arith)
  before-Moves (setting_off false) a d c = inl (setting_off-Moves a)
  before-Moves signalling a d c = inr (inr a)
  before-Moves (closing_stepped b) a d c = absurd (ground arith)
  before-Moves unwinding a d c = absurd (ground arith)

  waiting-Moves : s.client ≡ waiting → Moves s
  waiting-Moves w = elim (before-Moves s.evm refl (ground arith) (ground arith)) [
    | inl m ↦ m
    | inr (inl (h, a)) ↦ (_, client_step (wait_receive s w (ground arith)), ground arith)
    | inr (inr a) ↦ absurd (ground arith)
  ]

  sending-Moves : s.client ≡ sending → Moves s
  sending-Moves w = elim (before-Moves s.evm refl (ground arith) (ground arith)) [
    | inl m ↦ m
    | inr (inl (h, a)) ↦ (_, hand_step s h w a (ground arith), ground arith)
    | inr (inr a) ↦ absurd (ground arith)
  ]

  awaiting-Moves : s.client ≡ awaiting → Moves s
  awaiting-Moves w = by_evm s.evm refl
    where
      receives : s.stepped_closed ≡ true → Moves s
      receives c = (_, client_step (receive_closed s w c), ground arith)

      by_evm : (e : Evm) → s.evm ≡ e → Moves s
      by_evm between a = receives (ground arith)
      by_evm (setting_on h) a = absurd (ground arith)
      by_evm (selecting h) a = absurd (ground arith)
      by_evm (taken h) a = taken-Moves h a
      by_evm (setting_off true) a = receives (ground arith)
      by_evm (setting_off false) a = setting_off-Moves a
      by_evm signalling a = (_, hand_stepped s w a (ground arith), ground arith)
      by_evm (closing_stepped b) a =
          (_, evm_step (close_stepped s b a (ground arith)), ground arith)
      by_evm unwinding a = receives (ground arith)

  looping-Moves : s.client ≡ looping → Moves s
  looping-Moves w = elim (Bool-cases s.done_closed) [
    | inl d ↦ (_, client_step (loop_done s w d), ground arith)
    | inr d ↦ elim (before-Moves s.evm refl d (ground arith)) [
      | inl m ↦ m
      | inr (inl (h, a)) ↦ (_, evm_step (select_forward s h a (ground arith)), ground arith)
      | inr (inr a) ↦ (_, loop_stepped s w a (ground arith), ground arith)
    ]
  ]

  client-Moves : (c : Client) → s.client ≡ c → (c ≡ idle) ⊎ Moves s
  client-Moves idle w = inl refl
  client-Moves waiting w = inr (waiting-Moves w)
  client-Moves waited w = inr (
    _,
    client_step (wait_return s 0 w (ground arith) (ground arith) (ground arith)),
    ground arith,
  )
  client-Moves sending w = inr (sending-Moves w)
  client-Moves awaiting w = inr (awaiting-Moves w)
  client-Moves checking w = elim (Bool-cases s.done_closed) [
    | inl d ↦ inr (_, client_step (check_done s w d), ground arith)
    | inr d ↦ inr (_, client_step (check_more s w d), ground arith)
  ]
  client-Moves looping w = inr (looping-Moves w)
  client-Moves (closing b) w = inr (_, client_step (close_step s b w (ground arith)), ground arith)
  client-Moves closing_forward w =
      inr (_, client_step (close_forward s w (ground arith)), ground arith)
  client-Moves closing_toggle w =
      inr (_, client_step (close_toggle s w (ground arith)), ground arith)

onward : {s t u : Debugger} → Reach s t → Reach t u → Reach s u
onward r here = r
onward r (next q e) = next (onward r q) e

abbrev pub Returns : Debugger → Type 0
Returns s = (t : Debugger) × Reach s t × (t.client ≡ idle)

returns : (n : ℕ) (s : Debugger) → weight s < n → Fits s → ToCome s → Returns s
returns zero s w f k = absurd (omega arith)
returns (suc n) s w f k = elim (client-Moves s f k s.client refl) [
  | inl i ↦ (s, here, i)
  | inr (t, e, l) ↦
      let (u, r, i) = returns n t (omega arith) (Step-Fits e f) (Step-ToCome e f k) in
      (u, onward (next here e) r, i)
]

-- If the last call of the hooks, and no other, is a STOP, a RETURN or a fault, then from every
-- state that is reached from a new Debugger by calling Step and Wait only while Done is false, a
-- state outside its methods is reached: no method is stuck.
pub method-Returns :
    (hs : List Hook) (s : Debugger) → ends_final hs ≡ true → Reach (new_debugger hs) s → Returns s
method-Returns hs s o r =
    let (f, k) = Reach-Fits-ToCome (new-Fits hs (ends_last-of-final hs o)) o r in
    returns (weight s + 1) s (omega arith) f k
