-- ===== src/Toggle/Balance.antt =====
-- internal/sync/toggle.go: the items of a Toggle, and what `Set` and `Wait` can do.
use specops.Base.{
  ℕ, zero, suc, ◌+◌, ◌<◌, ◌≡◌, refl, Bool, true, false, not, Option, none, some, ◌⊎◌, inl, inr,
  arith, if◌then◌else◌, subst,
}
use specops.Toggle.{
  Toggle, zero_value, Step, set_same, set_begin, set_send, set_receive, set_receive_closed,
  wait_cancelled, wait_receive, wait_closed, wait_return, close, Reach, here, next,
}

-- One item if the state is true and none if it is false; a `Set` that is under way has stored the
-- new state and has yet to change the items.
abbrev pub Balanced : Option Bool → Bool → ℕ → Type 0
Balanced none b n = n ≡ (if b then 1 else 0)
Balanced (some true) b n = (b ≡ true) × (n ≡ 0)
Balanced (some false) b n = (b ≡ false) × (n ≡ 1)

pub record IsOpen (t : Toggle) : Type 0 where
  pub open_or_balanced : t.closed ≡ false → Balanced t.pending t.state (t.buffer + t.in_flight)

begins :
    (p : Option Bool) (s b : Bool) (n : ℕ)
    → p ≡ none
    → s ≡ not b
    → Balanced p s n
    → Balanced (some b) b n
begins none true true n e f h = absurd (cc)
begins none true false n e f h = (refl, h)
begins none false true n e f h = (refl, h)
begins none false false n e f h = absurd (cc)
begins (some x) s b n e f h = absurd (cc)

sent :
    (p : Option Bool) (s : Bool) (m n : ℕ)
    → p ≡ some true
    → m ≡ 0
    → Balanced p s (m + n)
    → Balanced none s (1 + n)
sent none s m n e z h = absurd (cc)
sent (some true) s m n e z (f, h) = rw f (omega arith)
sent (some false) s m n e z h = absurd (cc)

received :
    (p : Option Bool) (s : Bool) (m n : ℕ)
    → p ≡ some false
    → m ≡ 1
    → Balanced p s (m + n)
    → Balanced none s (0 + n)
received none s m n e z h = absurd (cc)
received (some true) s m n e z h = absurd (cc)
received (some false) s m n e z (f, h) = rw f (omega arith)

true_not_false : {A : Type 0} {b : Bool} → b ≡ true → b ≡ false → A
true_not_false e f = absurd (cc)

Step-IsOpen : {t u : Toggle} → Step t u → IsOpen t → IsOpen u
Step-IsOpen (set_same t p) h = h
Step-IsOpen (set_begin t b p e) h = record {
  open_or_balanced = λ c. begins t.pending t.state b _ p e (h.open_or_balanced c);
}
Step-IsOpen (set_send t p c z) h = record {
  open_or_balanced = λ c. sent t.pending t.state t.buffer t.in_flight p z (h.open_or_balanced c);
}
Step-IsOpen (set_receive t p z) h = record {
  open_or_balanced =
      λ c. received t.pending t.state t.buffer t.in_flight p z (h.open_or_balanced c);
}
Step-IsOpen (set_receive_closed t p c z) h = record { open_or_balanced = λ o. true_not_false c o }
Step-IsOpen (wait_cancelled t) h = h
Step-IsOpen (wait_receive t z) h = record {
  open_or_balanced = λ c.
      let e : t.buffer + t.in_flight ≡ 0 + (t.in_flight + 1) = omega arith in
      subst (Balanced t.pending t.state) e (h.open_or_balanced c);
}
Step-IsOpen (wait_closed t c z) h = h
Step-IsOpen (wait_return t n f c z) h = record {
  open_or_balanced = λ c.
      let e : t.buffer + t.in_flight ≡ 1 + n = omega arith in
      subst (Balanced t.pending t.state) e (h.open_or_balanced c);
}
Step-IsOpen (close t c) h = record { open_or_balanced = λ o. absurd (cc) }

Reach-IsOpen : {s t : Toggle} → IsOpen s → Reach s t → IsOpen t
Reach-IsOpen h here = h
Reach-IsOpen h (next r st) = Step-IsOpen st (Reach-IsOpen h r)

zero-IsOpen : IsOpen zero_value
zero-IsOpen = record { open_or_balanced = λ c. refl }

-- In every state of a Toggle that is reached from the zero value and not closed, the items in the
-- channel and with Waits are one if the Toggle is on and none if it is off; while a Set has stored
-- the new state and not changed the items, they are still those of the old state.
pub Reach-Balanced :
    (t : Toggle)
    → Reach zero_value t
    → t.closed ≡ false
    → Balanced t.pending t.state (t.buffer + t.in_flight)
Reach-Balanced t r c = (Reach-IsOpen zero-IsOpen r).open_or_balanced c

-- The `Set` is done: the Toggle is in the new state with the items of that state, and not closed.
abbrev pub HasState : Bool → Toggle → Type 0
HasState b t =
    (t.pending ≡ none)
    × (t.state ≡ b)
    × (t.closed ≡ false)
    × (t.buffer + t.in_flight ≡ (if b then 1 else 0))

-- A `Wait` has sent back the item that it had received, and nothing else has changed.
abbrev pub GivesBack : Toggle → Toggle → Type 0
GivesBack t u =
    (t.in_flight ≡ u.in_flight + 1)
    × (t.buffer ≡ 0)
    × (u.buffer ≡ 1)
    × (u.pending ≡ t.pending)
    × (u.closed ≡ t.closed)

-- A step finishes the `Set`, or one does behind the step of a `Wait` that sends back its item.
abbrev pub SetEnds : Bool → Toggle → Type 0
SetEnds b t =
    ((u : Toggle) × Step t u × HasState b u)
    ⊎ ((u : Toggle) × (v : Toggle) × Step t u × GivesBack t u × Step u v × HasState b v)

-- In every state of a Toggle that is reached from the zero value and not closed, a Set that is
-- under way can be finished without closing the Toggle: by a step, or by one behind the step of a
-- Wait that sends back the item it has received. The Toggle is then in the new state, with one item
-- if that is on and none if it is off.
pub Set-ends :
    (t : Toggle) (b : Bool)
    → Reach zero_value t
    → t.closed ≡ false
    → t.pending ≡ some b
    → SetEnds b t
Set-ends t true r c p =
    let h = subst (λ q. Balanced q t.state (t.buffer + t.in_flight)) p (Reach-Balanced t r c) in
    let z : t.buffer ≡ 0 = omega (arith, h.1) in
    inl (_, set_send t p c z, (refl, h.0, c, omega (arith, h.1)))
Set-ends t false r c p =
    let h = subst (λ q. Balanced q t.state (t.buffer + t.in_flight)) p (Reach-Balanced t r c) in
    by_buffer h.0 h.1 t.buffer refl
  where
    by_buffer :
        t.state ≡ false → t.buffer + t.in_flight ≡ 1 → (n : ℕ) → t.buffer ≡ n → SetEnds false t
    by_buffer s e zero z =
        let f : t.in_flight ≡ suc 0 = omega arith in
        inr (
          _,
          _,
          wait_return t 0 f c z,
          (omega arith, z, refl, refl, refl),
          set_receive _ p refl,
          (refl, s, c, refl),
        )
    by_buffer s e (suc n) z =
        let f : t.buffer ≡ 1 = omega arith in inl (_, set_receive t p f, (refl, s, c, omega arith))

-- A `Wait` that has received the item of a closed Toggle sends on a closed channel.
abbrev pub Panics : Toggle → Type 0
Panics t = (t.closed ≡ true) × (0 < t.in_flight)

-- From a Toggle that is not closed and has its item in the channel a state is reached in which it
-- is closed and a Wait has the item, which it sends on the closed channel.
pub close-Panics :
    (t : Toggle) → t.closed ≡ false → t.buffer ≡ 1 → (u : Toggle) × Reach t u × Panics u
close-Panics t c b = (_, next (next here (close t c)) (wait_receive _ b), (refl, omega arith))
