-- ===== src/Toggle/Tests.antt =====
-- A Toggle that is set, and one that is being reset while a `Wait` has its item.
use specops.Base.{◌+◌, refl, true, false, some, none}
use specops.Toggle.{Toggle, zero_value, set_begin, set_send, wait_receive, Reach, here, next}
use specops.Toggle.Balance.{Balanced, Reach-Balanced, SetEnds, Set-ends, Panics, close-Panics}

abbrev on : Toggle
on = record { state = true; buffer = 1; closed = false; pending = none; in_flight = 0 }

abbrev waited : Toggle
waited = record { state = true; buffer = 0; closed = false; pending = none; in_flight = 1 }

abbrev resetting : Toggle
resetting = record {
  state = false;
  buffer = 0;
  closed = false;
  pending = some false;
  in_flight = 1;
}

on_reached : Reach zero_value on
on_reached = next (next here (set_begin zero_value true refl refl)) (set_send _ refl refl refl)

resetting_reached : Reach zero_value resetting
resetting_reached = next (next on_reached (wait_receive on refl)) (set_begin waited false refl refl)

Reach-Balanced_example :
    Balanced resetting.pending resetting.state (resetting.buffer + resetting.in_flight)
Reach-Balanced_example = Reach-Balanced resetting resetting_reached refl

Set-ends_example : SetEnds false resetting
Set-ends_example = Set-ends resetting false resetting_reached refl refl

close-Panics_example : (u : Toggle) × Reach on u × Panics u
close-Panics_example = close-Panics on refl refl
