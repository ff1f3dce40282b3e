-- ===== src/Ui/Highlight.antt =====
-- evmdebug/ui.go: the line of the code that is selected, and the Context that is displayed.
use specops.Base.{
  ℕ, ◌+◌, ◌≡◌, refl, ap, sym, ◌∙◌, Bool, true, false, ◌||◌, ltb, some, List, arith, ◌<◌,
}
use specops.Debugger.{Hook, idle, Debugger, Reach}
use specops.Debugger.Phases.{Fits, Reach-Fits, ends_last}
use specops.Debugger.Shown.{Step-shows}
use specops.Debugger.Counts.{shown}
use specops.Run.Waiting.{begin, begin-Fits, begun}
use specops.Ui.Input.{
  Place, listening, in_forward, at_rune, before_step, in_step, showing, ended, leaving, left,
  in_method, Screen, item_of, item_behind, UiStep, evm_runs, method_runs, press_ctrl_c, press_end,
  press_end_again, forward_returns, press_escape, press_other, rune_space, rune_space_done, rune_q,
  rune_other, enter_step, step_returns, show, leave, leave_again, returns, opened, Session, opening,
  going_on,
}
use specops.Ui.Quiet.{Quiet, EvmStep-Quiet}
use specops.Ui.Session.{Placed, outside, Session-Placed}

-- A Step or a FastForward has let a call through.
abbrev started : Debugger → Bool
started d = ltb 0 d.steps || d.forwarded

-- Where the line has been selected.
abbrev selects : Place → Bool
selects listening = true
selects (in_forward r) = false
selects (at_rune r) = true
selects before_step = true
selects in_step = false
selects showing = true
selects ended = true
selects leaving = false
selects left = false

not_in_method : (pl : Place) → selects pl ≡ true → in_method pl ≡ false
not_in_method pl s = ground arith

abbrev Highlights : Screen → Type 0
Highlights u = selects u.place ≡ true → started u.debugger ≡ true → u.current ≡ item_behind u

abbrev Displays : Screen → Type 0
Displays u =
    u.place ≡ listening
    → started u.debugger ≡ true
    → (c : ℕ) → u.debugger.last.context ≡ some c
    → u.displayed ≡ some c

Quiet-started : (s t : Debugger) → Quiet s t → started t ≡ started s
Quiet-started s t (a, b, c, d, e) = rw c (rw d refl)

UiStep-Highlights :
    {u v : Screen} → Fits u.debugger → Placed u → UiStep u v → Highlights u → Highlights v
UiStep-Highlights f p (evm_runs u d e) k = λ m s.
    let q = EvmStep-Quiet f (outside u p (not_in_method u.place m)) e in
    k m (sym (Quiet-started u.debugger d q) ∙ s) ∙ sym (ap (λ l. item_of u.pc_to_item l.pc + 1) q.1)
UiStep-Highlights f p (method_runs u d n c e) k =
    λ m s. let z = not_in_method u.place m in absurd (cc)
UiStep-Highlights f p (press_ctrl_c u e a b) k = λ m s. k (rw a refl) s
UiStep-Highlights f p (press_end u e a b c) k = λ m s. absurd (cc)
UiStep-Highlights f p (press_end_again u e a b c) k = λ m s. absurd (cc)
UiStep-Highlights f p (forward_returns u n a b) k = λ m s. refl
UiStep-Highlights f p (press_escape u e a b) k = λ m s. k (rw a refl) s
UiStep-Highlights f p (press_other u e a b) k = λ m s. k (rw a refl) s
UiStep-Highlights f p (rune_space u a b) k = λ m s. k (rw a refl) s
UiStep-Highlights f p (rune_space_done u a b) k = λ m s. k (rw a refl) s
UiStep-Highlights f p (rune_q u a) k = λ m s. k (rw a refl) s
UiStep-Highlights f p (rune_other u n a b) k = λ m s. k (rw a refl) s
UiStep-Highlights f p (enter_step u a) k = λ m s. absurd (cc)
UiStep-Highlights f p (step_returns u a b) k = λ m s. refl
UiStep-Highlights f p (show u a) k = λ m s. k (rw a refl) s
UiStep-Highlights f p (leave u a b) k = λ m s. absurd (cc)
UiStep-Highlights f p (leave_again u a b) k = λ m s. absurd (cc)
UiStep-Highlights f p (returns u a b) k = λ m s. absurd (cc)

UiStep-Displays : {u v : Screen} → Fits u.debugger → Placed u → UiStep u v → Displays u → Displays v
UiStep-Displays f p (evm_runs u d e) k = λ m s c x.
    let q = EvmStep-Quiet f (outside u p (rw m refl)) e in
    k m (sym (Quiet-started u.debugger d q) ∙ s) c (sym (ap (λ l. l.context) q.1) ∙ x)
UiStep-Displays f p (method_runs u d n c e) k = λ m. absurd (cc)
UiStep-Displays f p (press_ctrl_c u e a b) k = λ m. absurd (cc)
UiStep-Displays f p (press_end u e a b c) k = λ m. absurd (cc)
UiStep-Displays f p (press_end_again u e a b c) k = λ m. absurd (cc)
UiStep-Displays f p (forward_returns u n a b) k = λ m. absurd (cc)
UiStep-Displays f p (press_escape u e a b) k = λ m. absurd (cc)
UiStep-Displays f p (press_other u e a b) k = λ m. absurd (cc)
UiStep-Displays f p (rune_space u a b) k = λ m. absurd (cc)
UiStep-Displays f p (rune_space_done u a b) k = λ m. absurd (cc)
UiStep-Displays f p (rune_q u a) k = λ m. absurd (cc)
UiStep-Displays f p (rune_other u n a b) k = λ m. absurd (cc)
UiStep-Displays f p (enter_step u a) k = λ m. absurd (cc)
UiStep-Displays f p (step_returns u a b) k = λ m. absurd (cc)
UiStep-Displays f p (show u a) k = λ m s c x. rw x refl
UiStep-Displays f p (leave u a b) k = λ m. absurd (cc)
UiStep-Displays f p (leave_again u a b) k = λ m. absurd (cc)
UiStep-Displays f p (returns u a b) k = λ m. absurd (cc)

UiStep-map : {u v : Screen} → UiStep u v → v.pc_to_item ≡ u.pc_to_item
UiStep-map (evm_runs u d e) = refl
UiStep-map (method_runs u d n c e) = refl
UiStep-map (press_ctrl_c u e a b) = refl
UiStep-map (press_end u e a b c) = refl
UiStep-map (press_end_again u e a b c) = refl
UiStep-map (forward_returns u n a b) = refl
UiStep-map (press_escape u e a b) = refl
UiStep-map (press_other u e a b) = refl
UiStep-map (rune_space u a b) = refl
UiStep-map (rune_space_done u a b) = refl
UiStep-map (rune_q u a) = refl
UiStep-map (rune_other u n a b) = refl
UiStep-map (enter_step u a) = refl
UiStep-map (step_returns u a b) = refl
UiStep-map (show u a) = refl
UiStep-map (leave u a b) = refl
UiStep-map (leave_again u a b) = refl
UiStep-map (returns u a b) = refl

Session-map : {u v : Screen} → Session u v → v.pc_to_item ≡ u.pc_to_item
Session-map opening = refl
Session-map (going_on q e) = UiStep-map e ∙ Session-map q

module _ (hs : List Hook) (o : ends_last hs ≡ true) where
  Session-keeps :
      {d : Debugger} (m : List (ℕ × ℕ)) {u : Screen}
      → Reach (begin hs) d
      → d.client ≡ idle
      → started d ≡ false
      → Session (opened m d) u
      → Highlights u × Displays u
  Session-keeps m r i n opening = (λ p s. absurd (cc), λ p s. absurd (cc))
  Session-keeps m r i n (going_on q e) =
      let (r', p) = Session-Placed hs o m r i q in
      let f = Reach-Fits (begin-Fits hs o) r' in
      let (k, l) = Session-keeps m r i n q in (UiStep-Highlights f p e k, UiStep-Displays f p e l)

  -- What is selected and displayed behind a Step.
  pub listening-shows :
      (d : Debugger) (m : List (ℕ × ℕ)) (u : Screen) (c : ℕ)
      → Reach (begin hs) d
      → d.client ≡ idle
      → d.steps ≡ 0
      → d.forwarded ≡ false
      → Session (opened m d) u
      → u.place ≡ listening
      → 0 < u.debugger.steps
      → u.debugger.forwarded ≡ false
      → (shown hs u.debugger.steps).context ≡ some c
      → (u.current ≡ item_of m (shown hs u.debugger.steps).pc + 1) × (u.displayed ≡ some c)
  listening-shows d m u c r i z n q l w g x =
      let b : started d ≡ false = rw z (rw n refl) in
      let (k, j) = Session-keeps m r i b q in
      let (r', p) = Session-Placed hs o m r i q in
      let s : started u.debugger ≡ true = ground arith in
      let e = (Step-shows hs u.debugger o (begun r') g (outside u p (rw l refl))).0 in
      (
        k (rw l refl) s
            ∙ ap (λ v. item_of u.pc_to_item v.pc + 1) e
            ∙ ap (λ v. item_of v (shown hs u.debugger.steps).pc + 1) (Session-map q),
        j l s c (ap (λ v. v.context) e ∙ x),
      )
