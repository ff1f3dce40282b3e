-- ===== src/Toggle.antt =====
-- internal/sync/toggle.go: `Toggle`, a flag that goroutines wait for, as steps of any goroutine.
mod Tests
pub mod Balance
use specops.Base.{ℕ, suc, ◌+◌, ◌≡◌, Bool, true, false, not, Option, none, some}

-- The channel has room for one item; a channel that is not made yet has none. `pending` is the state
-- that a `Set` has stored while it holds the mutex and has yet to send or receive the item.
-- `in_flight` counts the `Wait`s that have received the item and have yet to send it back.
pub record Toggle : Type 0 where
  pub state : Bool
  pub buffer : ℕ
  pub closed : Bool
  pub pending : Option Bool
  pub in_flight : ℕ

-- The zero value.
abbrev pub zero_value : Toggle
zero_value = record { state = false; buffer = 0; closed = false; pending = none; in_flight = 0 }

-- A receive from a closed channel takes what is buffered first. A send on a closed channel is no
-- step: it panics.
pub data Step : Toggle → Toggle → Type 0 where
  set_same : (t : Toggle) → t.pending ≡ none → Step t t
  set_begin :
      (t : Toggle) (b : Bool)
      → t.pending ≡ none
      → t.state ≡ not b
      → Step t (record t { state = b; pending = some b })
  set_send :
      (t : Toggle)
      → t.pending ≡ some true
      → t.closed ≡ false
      → t.buffer ≡ 0
      → Step t (record t { buffer = 1; pending = none })
  set_receive :
      (t : Toggle)
      → t.pending ≡ some false
      → t.buffer ≡ 1
      → Step t (record t { buffer = 0; pending = none })
  set_receive_closed :
      (t : Toggle)
      → t.pending ≡ some false
      → t.closed ≡ true
      → t.buffer ≡ 0
      → Step t (record t { pending = none })
  wait_cancelled : (t : Toggle) → Step t t
  wait_receive :
      (t : Toggle) → t.buffer ≡ 1 → Step t (record t { buffer = 0; in_flight = t.in_flight + 1 })
  wait_closed : (t : Toggle) → t.closed ≡ true → t.buffer ≡ 0 → Step t t
  wait_return :
      (t : Toggle) (n : ℕ)
      → t.in_flight ≡ suc n
      → t.closed ≡ false
      → t.buffer ≡ 0
      → Step t (record t { buffer = 1; in_flight = n })
  close : (t : Toggle) → t.closed ≡ false → Step t (record t { closed = true })

pub data Reach (s : Toggle) : Toggle → Type 0 where
  here : Reach s s
  next : {t u : Toggle} → Reach s t → Step t u → Reach s u
