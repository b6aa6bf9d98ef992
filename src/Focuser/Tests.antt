-- ===== src/Focuser/Tests.antt =====
-- Runs of the focuser and instances of its theorems.
use dwarf_alp.Prelude.{◌≡◌, ◌≤◌, refl, true, false, none, some, [], ◌∷◌, arith}
use dwarf_alp.Prelude.Int.{pos, negsuc}
use dwarf_alp.Focuser.Moves.{quiet, update}
use dwarf_alp.Focuser.Commands.{
  FocuserState, World, handle_focus_notification, focuser_connect, focuser_disconnect, focuser_halt,
  focuser_move,
}
use dwarf_alp.Focuser.Bounds.{position_bound}
use dwarf_alp.Focuser.Landing.{quiet_turns, quiet_move_lands}
use dwarf_alp.Focuser.Endpoints.{
  Endpoint, endpoint_state, reply_and_session, move, move_absolute, moves_agree,
}

abbrev reached : World
reached = record {
  simulation = false;
  is_dwarf_mini = false;
  uses_v3_protocol = true;
  tolerance = 5;
  ensures_ws = true;
  turns = quiet_turns;
  start = record { drift = none; answer = quiet };
  waits = none ∷ some (pos 90) ∷ some (pos 141) ∷ [];
  stop = update (pos 143);
  nudges = λ k. quiet;
  infinity_pos = some (pos 30000);
}

abbrev unreached : World
unreached = record reached { ensures_ws = false }

abbrev resting : FocuserState
resting = record { connected = true; position = 40; is_moving = false }

abbrev off : FocuserState
off = record { connected = false; position = 40; is_moving = false }

-- A continuous move overshoots, and is nudged back to within the tolerance.
overshoots :
    (focuser_move (pos 90) (some (pos 130)) reached resting).1
    ≡ record { connected = true; position = 135; is_moving = false }
unfolding focuser_move
overshoots = refl

position_bound_example :
    ((focuser_move (pos 90) none reached resting).1.position ≤ 20000)
    × ((focuser_connect reached resting).1.position ≤ 20000)
    × ((focuser_disconnect reached resting).1.position ≤ 20000)
    × ((focuser_halt reached resting).1.position ≤ 20000)
    × ((handle_focus_notification (negsuc 4) resting).position ≤ 20000)
position_bound_example = position_bound (pos 90) none (negsuc 4) reached resting (omega arith)

quiet_move_lands_example :
    focuser_move (negsuc 6) (some (pos 33)) reached resting
    ≡ (false, record { connected = true; position = 33; is_moving = false })
quiet_move_lands_example =
    quiet_move_lands (negsuc 6) 33 reached resting (omega arith) (omega arith) refl refl refl

abbrev linked : Endpoint
linked = record endpoint_state { connected = true }

moves_agree_example :
    reply_and_session (move (pos 33) reached resting linked)
    ≡ reply_and_session (move_absolute (pos 33) reached resting linked)
moves_agree_example = moves_agree (pos 33) reached resting linked (omega arith)
