-- ===== src/Focuser/Moving.antt =====
-- When the focuser of src/dwarf_alpaca/dwarf/session.py reports that it moves or is connected.
use dwarf_alp.Prelude.{
  ℕ, ◌≡◌, Bool, true, false, some, arith, ◌==◌, not, ◌&&◌, ◌||◌, ltb, leb, if◌then◌else◌,
}
use dwarf_alp.Prelude.Int.{ℤ}
use dwarf_alp.Focuser.Moves.{clamp, distance, Run, simulate_focus_move, single_steps}
use dwarf_alp.Focuser.Commands.{
  FocuserState, World, focuser_connect, focuser_halt, finish_move, continuous_run, settle_position,
  focuser_move,
}

finish_moving :
    (is_there : Bool) (world : World) (goal simulated : ℕ) (run : Run) (settled : ℕ)
    (s : FocuserState)
    → (finish_move is_there world goal simulated run settled s).1.is_moving
      ≡ (not is_there && not (world.simulation || world.ensures_ws))
unfolding finish_move
finish_moving is_there world goal simulated run settled s = ground arith

-- When a move ends, by an error too, the focuser reports that it moves exactly where the position is
-- not the target, nothing is simulated and the telescope is not reached.
pub moving_after_move :
    (delta : ℤ) (target : ℤ) (world : World) (s : FocuserState)
    → (focuser_move delta (some target) world s).1.is_moving ≡ (
        not (distance s.position (clamp target) == 0) && not (world.simulation || world.ensures_ws))
unfolding focuser_move
moving_after_move delta target world s =
    let goal = clamp target in
    let steps = distance s.position goal in
    let up = ltb s.position goal in
    let prefer = leb steps 10 || world.is_dwarf_mini in
    let run =
      if prefer
      then single_steps steps up goal world.turns 0 s.position false
      else continuous_run up goal world s.position in
    finish_moving (steps == 0) world goal (simulate_focus_move steps up s.position) run
      (settle_position prefer goal world run) s

halt_unreached :
    (world : World) (s : FocuserState)
    → world.simulation ≡ false
    → world.ensures_ws ≡ false
    → focuser_halt world s ≡ (true, s)
unfolding focuser_halt
halt_unreached world s real unreached = ground arith

-- A move to another position that raises because the telescope is not reached leaves the focuser
-- moving, and a halt, which raises too, does not change that.
pub unreached_move_sticks :
    (delta : ℤ) (target : ℤ) (world : World) (s : FocuserState)
    → (distance s.position (clamp target) == 0) ≡ false
    → world.simulation ≡ false
    → world.ensures_ws ≡ false
    → let s1 = (focuser_move delta (some target) world s).1 in
      (s1.is_moving ≡ true) × (focuser_halt world s1 ≡ (true, s1))
unreached_move_sticks delta target world s apart real unreached =
    let s1 = (focuser_move delta (some target) world s).1 in
    (ground (arith, moving_after_move delta target world s), halt_unreached world s1 real unreached)

-- A connect that raises because the telescope is not reached leaves the focuser connected, and the
-- next connect returns without an error, whether the telescope is reached then or not.
pub connect_unreached :
    (world later : World) (s : FocuserState)
    → s.connected ≡ false
    → world.simulation ≡ false
    → world.ensures_ws ≡ false
    → let (raised, s1) = focuser_connect world s in
      (raised ≡ true) × (s1.connected ≡ true) × (focuser_connect later s1 ≡ (false, s1))
unfolding focuser_connect
connect_unreached world later s off real unreached = (ground arith, ground arith, ground arith)
