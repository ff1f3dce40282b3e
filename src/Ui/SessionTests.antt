-- ===== src/Ui/SessionTests.antt =====
-- The interface on ADD and STOP: a space, and Ctrl-C with the FastForward that follows.
use specops.Base.{ℕ, ◌≡◌, refl, true, false, none, some, List, [], ◌∷◌, ◌++◌, ok, get_elem?, arith}
use specops.Debugger.{
  Hook, on_op_code, zero_captured, is_final, selecting, idle, Debugger, set_on_begin, set_on_send,
  select_forward, close_done, set_off_begin, set_off_receive, close_stepped, wait_receive,
  wait_return, check_more, loop_done, close_step, close_toggle, evm_step, client_step, hand_step,
  hand_stepped, Reach, here, next,
}
use specops.Debugger.Safe.{Panics}
use specops.Run.Waiting.{begin}
use specops.Ui.{Listing, instruction, end_of_code, populate_code}
use specops.Ui.Code.{part, lines_of}
use specops.Ui.Input.{
  ctrl_c, other_key, Event, space, Screen, UiStep, method_runs, press_ctrl_c, press_other,
  rune_space, enter_step, step_returns, show, leave, returns, opened, Session, opening, going_on,
}
use specops.Ui.Session.{Session-not-Panics, left-Done}
use specops.Ui.Selected.{listening-selects}

abbrev call_at : ℕ → ℕ → Hook
call_at pc o = on_op_code (record zero_captured { pc = pc; op = o; context = some 5 })

abbrev add : Hook
add = call_at 0 1

abbrev stop : Hook
stop = call_at 1 0

abbrev calls : List Hook
calls = add ∷ stop ∷ []

add_not_final : is_final add ≡ false
unfolding is_final
add_not_final = refl

stop_final : is_final stop ≡ true
unfolding is_final
stop_final = refl

-- Wait has returned.
abbrev held : Debugger
held = record (begin (stop ∷ [])) {
  evm = selecting add;
  client = idle;
  blocking = record { state = true; buffer = 1; closed = false; pending = none; in_flight = 0 };
}

held_reached : Reach (begin calls) held
held_reached =
    next
      (next
        (next (next here (evm_step (set_on_begin _ add (stop ∷ []) refl refl refl refl)))
          (evm_step (set_on_send _ add refl refl refl refl)))
        (client_step (wait_receive _ refl refl)))
      (client_step (wait_return _ 0 refl refl refl refl))

abbrev listing : Listing
listing = record {
  lines = instruction 1 [] ∷ instruction 0 [] ∷ end_of_code ∷ [];
  pc_to_item = (0, 0) ∷ (1, 1) ∷ [];
}

abbrev start : Screen
start = opened listing.pc_to_item held

record Shown : Type 0 where
  at : Screen
  session : Session start at

abbrev onto : (s : Shown) {u : Screen} → UiStep s.at u → Shown
onto s {u} e = record { at = u; session = going_on s.session e }

abbrev pressed : Event
pressed = record { key = other_key; rune = space }

abbrev in_call : Shown
in_call =
    onto
      (onto (onto (record { at = start; session = opening }) (press_other _ pressed refl refl))
        (rune_space _ refl refl))
      (enter_step _ refl)

abbrev stepped : Shown
stepped =
    onto
      (onto
        (onto (onto in_call (method_runs _ _ refl refl (hand_step _ add refl refl refl)))
          (method_runs _ _ refl refl (evm_step (set_off_begin _ add refl add_not_final refl refl))))
        (method_runs _ _ refl refl (evm_step (set_off_receive _ false refl refl refl))))
      (method_runs _ _ refl refl (hand_stepped _ refl refl refl))

abbrev waited_for : Shown
waited_for =
    onto
      (onto
        (onto
          (onto (onto stepped (method_runs _ _ refl refl (client_step (check_more _ refl refl))))
            (method_runs _ _ refl refl (evm_step (set_on_begin _ stop [] refl refl refl refl))))
          (method_runs _ _ refl refl (evm_step (set_on_send _ stop refl refl refl refl))))
        (method_runs _ _ refl refl (client_step (wait_receive _ refl refl))))
      (method_runs _ _ refl refl (client_step (wait_return _ 0 refl refl refl refl)))

abbrev listening_again : Shown
listening_again = onto (onto waited_for (step_returns _ refl refl)) (show _ refl)

code_listed : populate_code (part (1 ∷ 0 ∷ []) []) ≡ ok listing
unfolding populate_code
code_listed = refl

listening-selects_example :
    (get_elem? listing.lines listening_again.at.current
      ≡ get_elem? (lines_of ((0, []) ∷ []) ++ end_of_code ∷ []) 0)
    × (listening_again.at.displayed ≡ some 5)
unfolding is_final
listening-selects_example =
    listening-selects calls [] (1, []) ((0, []) ∷ []) listing held listening_again.at 5 refl
      (refl, (refl, tt)) code_listed held_reached refl refl refl listening_again.session refl
      (omega arith) refl refl refl

Session-not-Panics_example : ¬ Panics listening_again.at.debugger
unfolding is_final
Session-not-Panics_example =
    Session-not-Panics calls refl held listing.pc_to_item listening_again.at held_reached refl
      listening_again.session

-- Ctrl-C, and the FastForward of RunTerminalDebugger.
abbrev forwarded : Shown
forwarded =
    onto
      (onto
        (onto
          (onto
            (onto listening_again (press_ctrl_c _ (record { key = ctrl_c; rune = 3 }) refl refl))
            (leave _ refl refl))
          (method_runs _ _ refl refl (evm_step (select_forward _ stop refl refl))))
        (method_runs _ _ refl refl (evm_step (close_done _ stop refl stop_final refl))))
      (method_runs _ _ refl refl (evm_step (close_stepped _ false refl refl)))

abbrev returned : Shown
returned =
    onto
      (onto
        (onto (onto forwarded (method_runs _ _ refl refl (client_step (loop_done _ refl refl))))
          (method_runs _ _ refl refl (client_step (close_step _ false refl refl))))
        (method_runs _ _ refl refl (client_step (close_toggle _ refl refl))))
      (returns _ refl refl)

left-Done_example : returned.at.debugger.done_closed ≡ true
unfolding is_final
left-Done_example =
    left-Done calls refl held listing.pc_to_item returned.at held_reached refl returned.session refl
