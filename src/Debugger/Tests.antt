-- ===== src/Debugger/Tests.antt =====
-- A Debugger that steps through ADD and STOP, one that runs through them, and one at SELFDESTRUCT.
use specops.Base.{ℕ, ◌≡◌, refl, true, false, some, List, [], ◌∷◌, length, get_elem?, arith}
use specops.Debugger.{
  Hook, on_op_code, zero_captured, is_final, selecting, looping, Debugger, new_debugger,
  set_on_begin, set_on_send, select_forward, close_done, set_off_begin, set_off_receive,
  close_stepped, call_step, wait_receive, wait_return, check_more, call_forward, loop_done,
  close_step, close_toggle, evm_step, client_step, hand_step, hand_stepped, Reach, here, next,
}
use specops.Debugger.Safe.{Panics, Reach-not-Panics}
use specops.Debugger.Counts.{shown, final_at}
use specops.Debugger.Shown.{Step-shows, Step-blocks, FastForward-shows}
use specops.Debugger.Ends.{Returns, method-Returns}
use specops.Debugger.Endless.{FastForward-loops}

abbrev at_op : ℕ → Hook
at_op o = on_op_code (record zero_captured { op = o })

-- ADD, STOP.
abbrev two : List Hook
two = at_op 1 ∷ at_op 0 ∷ []

-- SELFDESTRUCT.
abbrev destruct : List Hook
destruct = at_op 0xff ∷ []

record Reached (hs : List Hook) : Type 0 where
  at : Debugger
  reach : Reach (new_debugger hs) at

-- Step lets the first call through.
abbrev first_step : (hs : List Hook) (h : Hook) (rest : List Hook) → hs ≡ h ∷ rest → Reached hs
first_step hs h rest e = record {
  at = _;
  reach =
      next
        (next
          (next (next here (client_step (call_step _ refl refl)))
            (evm_step (set_on_begin _ h rest refl e refl refl)))
          (evm_step (set_on_send _ h refl refl refl refl)))
        (hand_step _ h refl refl refl);
}

abbrev stepped_once :
    (hs : List Hook) (h : Hook) (rest : List Hook) → hs ≡ h ∷ rest → is_final h ≡ false → Reached hs
stepped_once hs h rest e n = record {
  at = _;
  reach =
      next
        (next (next (first_step hs h rest e).reach (evm_step (set_off_begin _ h refl n refl refl)))
          (evm_step (set_off_receive _ false refl refl refl)))
        (hand_stepped _ refl refl refl);
}

add_not_final : is_final (at_op 1) ≡ false
unfolding is_final
add_not_final = refl

stop_final : is_final (at_op 0) ≡ true
unfolding is_final
stop_final = refl

destruct_not_final : is_final (at_op 0xff) ≡ false
unfolding is_final
destruct_not_final = refl

-- Step has returned, before STOP.
abbrev after_add : Reached two
after_add = record {
  at = _;
  reach =
      next
        (next
          (next
            (next
              (next (stepped_once two (at_op 1) (at_op 0 ∷ []) refl add_not_final).reach
                (client_step (check_more _ refl refl)))
              (evm_step (set_on_begin _ (at_op 0) [] refl refl refl refl)))
            (evm_step (set_on_send _ (at_op 0) refl refl refl refl)))
          (client_step (wait_receive _ refl refl)))
        (client_step (wait_return _ 0 refl refl refl refl));
}

-- FastForward has returned, from there.
abbrev after_stop : Reached two
after_stop = record {
  at = _;
  reach =
      next
        (next
          (next
            (next
              (next
                (next (next after_add.reach (client_step (call_forward _ refl refl)))
                  (evm_step (select_forward _ (at_op 0) refl refl)))
                (evm_step (close_done _ (at_op 0) refl stop_final refl)))
              (evm_step (close_stepped _ false refl refl)))
            (client_step (loop_done _ refl refl)))
          (client_step (close_step _ false refl refl)))
        (client_step (close_toggle _ refl refl));
}

abbrev after_destruct : Reached destruct
after_destruct = stepped_once destruct (at_op 0xff) [] refl destruct_not_final

abbrev forward_destruct : Reached destruct
forward_destruct = record { at = _; reach = next here (client_step (call_forward _ refl refl)) }

Reach-not-Panics_example : ¬ Panics after_stop.at
unfolding is_final
Reach-not-Panics_example = Reach-not-Panics two after_stop.at refl after_stop.reach

Step-shows_example :
    (after_add.at.last ≡ shown two after_add.at.steps)
    × (after_add.at.done_closed ≡ final_at two after_add.at.steps)
unfolding is_final
Step-shows_example = Step-shows two after_add.at refl after_add.reach refl refl

Step-blocks_example :
    (h : Hook) × (after_add.at.evm ≡ selecting h) × (get_elem? two after_add.at.steps ≡ some h)
unfolding is_final
Step-blocks_example = Step-blocks two after_add.at refl after_add.reach refl refl (omega arith) refl

FastForward-shows_example :
    (after_stop.at.done_closed ≡ true)
    × (after_stop.at.captured ≡ length two)
    × (after_stop.at.last ≡ shown two (length two))
unfolding is_final
FastForward-shows_example = FastForward-shows two after_stop.at refl after_stop.reach refl refl

method-Returns_example : Returns (first_step two (at_op 1) (at_op 0 ∷ []) refl).at
unfolding is_final
method-Returns_example =
    method-Returns two (first_step two (at_op 1) (at_op 0 ∷ []) refl).at refl
      (first_step two (at_op 1) (at_op 0 ∷ []) refl).reach

FastForward-loops_example :
    (forward_destruct.at.done_closed ≡ false) × (forward_destruct.at.client ≡ looping)
unfolding is_final
FastForward-loops_example =
    FastForward-loops destruct forward_destruct.at refl forward_destruct.reach refl
