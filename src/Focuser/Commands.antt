-- ===== src/Focuser/Commands.antt =====
-- `focuser_connect`, `focuser_disconnect`, `focuser_move`, `focuser_halt` and
-- `_handle_focus_notification` of src/dwarf_alpaca/dwarf/session.py. The time of the last update, which
-- only the log reads, is left out.
use dwarf_alp.Prelude.{
  ℕ, Bool, true, false, not, ◌&&◌, ◌||◌, Option, none, some, List, ◌==◌, leb, ltb, if◌then◌else◌,
}
use dwarf_alp.Prelude.Int.{ℤ, pos, ◌+ℤ◌}
use dwarf_alp.Focuser.Moves.{
  clamp, limit, distance, Answer, send_failed, quiet, update, Turn, Run, notified,
  simulate_focus_move, single_steps, continuous_waits, focus_nudge_to_target,
}

pub record FocuserState : Type 0 where
  pub connected : Bool
  pub position : ℕ
  pub is_moving : Bool

-- The settings that a command reads, and what the telescope does during it.
pub record World : Type 0 where
  pub simulation : Bool
  pub is_dwarf_mini : Bool
  pub uses_v3_protocol : Bool
  pub tolerance : ℕ
  pub ensures_ws : Bool
  pub turns : ℕ → Turn
  pub start : Turn
  pub waits : List (Option ℤ)
  pub stop : Answer
  pub nudges : ℕ → Answer
  pub infinity_pos : Option ℤ

unfoldable pub handle_focus_notification : ℤ → FocuserState → FocuserState
handle_focus_notification told s = record s { position = clamp told; connected = true }

-- Beside the state, whether the call raised.
unfoldable pub focuser_connect : World → FocuserState → Bool × FocuserState
focuser_connect world s =
    let s1 : FocuserState = record s { connected = true; is_moving = false } in
    if s.connected
    then (false, s)
    else if world.simulation
    then (false, s1)
    else if not world.ensures_ws
    then (true, s1)
    else if world.uses_v3_protocol
    then (false, record s1 { position = notified world.infinity_pos s1.position })
    else (false, s1)

unfoldable pub focuser_disconnect : World → FocuserState → Bool × FocuserState
focuser_disconnect world s =
    if not s.connected
    then (false, s)
    else if not world.simulation && not world.ensures_ws
    then (true, s)
    else (false, record s { connected = false; is_moving = false })

unfoldable pub focuser_halt : World → FocuserState → Bool × FocuserState
focuser_halt world s =
    if world.simulation
    then (false, record s { is_moving = false })
    else if not world.ensures_ws
    then (true, s)
    else (
      elim world.stop [ send_failed ↦ true | quiet ↦ false | update v ↦ false ],
      record s { is_moving = false },
    )

-- The branch of continuous motion: start, wait, stop.
unfoldable pub continuous_run : Bool → ℕ → World → ℕ → Run
unfolding continuous_waits
continuous_run up target world position =
    let start = notified world.start.drift position in
    let (after, received) = continuous_waits up target world.waits start false in
    elim world.start.answer [
      | send_failed ↦ record { position = start; received_update = false; has_raised = true }
      | _ ↦ elim world.stop [
        | send_failed ↦ record { position = after; received_update = received; has_raised = true }
        | quiet ↦ record { position = after; received_update = received; has_raised = false }
        | update v ↦ record { position = clamp v; received_update = true; has_raised = false }
      ]
    ]

-- The `else` branch of the `try`.
unfoldable pub settle_position : Bool → ℕ → World → Run → ℕ
unfolding focus_nudge_to_target
settle_position prefer_single_step target world run =
    let position = limit (if run.received_update then run.position else target) in
    if not prefer_single_step
      && ltb 0 world.tolerance
      && ltb world.tolerance (distance position target)
    then limit (focus_nudge_to_target target world.tolerance world.nudges position)
    else position

-- How `focuser_move` goes on when the way is known: whether there is none, and, as far as the branch
-- needs them, where a simulation steps to, the run of the telescope and where its position settles.
unfoldable pub finish_move : Bool → World → ℕ → ℕ → Run → ℕ → FocuserState → Bool × FocuserState
finish_move is_there world goal simulated_position run settled s =
    let simulated : FocuserState = record s { position = simulated_position; is_moving = true } in
    if is_there
    then (false, record s { is_moving = false })
    else if world.simulation
    then (false, record simulated { position = goal; is_moving = false })
    else if not world.ensures_ws
    then (true, record s { is_moving = true })
    else if run.has_raised
    then (true, record s { position = run.position; is_moving = false })
    else (false, record s { position = settled; is_moving = false })

unfoldable pub focuser_move : ℤ → Option ℤ → World → FocuserState → Bool × FocuserState
unfolding simulate_focus_move single_steps continuous_run settle_position finish_move
focuser_move delta target world s =
    let start_position = s.position in
    let goal = clamp (elim target [ none ↦ pos start_position +ℤ delta | some t ↦ t ]) in
    let steps = distance start_position goal in
    let up = ltb start_position goal in
    let prefer_single_step = leb steps 10 || world.is_dwarf_mini in
    let run =
      if prefer_single_step
      then single_steps steps up goal world.turns 0 start_position false
      else continuous_run up goal world start_position in
    finish_move (steps == 0) world goal (simulate_focus_move steps up start_position) run
      (settle_position prefer_single_step goal world run) s
