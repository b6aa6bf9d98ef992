-- ===== src/Telescope/Manual.antt =====
-- `telescope_move_axis`, `telescope_stop_axis`, `_send_manual_vector`, `_send_joystick_stop` and
-- `_halt_manual_motion` of src/dwarf_alpaca/dwarf/session.py. `F` is the type of floating-point numbers.
-- The endpoint lets no axis but 0 and 1 through. Angle and length of the vector sent are left out: a
-- command names the rates that they stand for.
use dwarf_alp.Prelude.{◌≡◌, Bool, true, false, not, ◌&&◌, List, ◌∷◌, if◌then◌else◌}

pub data Axis : Type 0 where
  right_ascension declination : Axis

pub data Command (F : Type 0) : Type 0 where
  joystick : F → F → Command F
  joystick_stop : Command F

-- What is used of the numbers: the tests `abs(rate) < 1e-6` and `magnitude < 1e-6`, where the
-- magnitude is that of the rates with the polarity of their axes, and the bounds of a rate.
pub record Rates (F : Type 0) : Type 0 where
  pub nought : F
  pub is_negligible : F → Bool
  pub is_still : F → F → Bool
  pub clamp : F → F

-- The magnitude of one rate and nought is that rate, and nought is negligible.
pub record IsMagnitude {F : Type 0} (ops : Rates F) : Type 0 where
  pub nought_negligible : ops.is_negligible ops.nought ≡ true
  pub first : (a : F) → ops.is_still a ops.nought ≡ ops.is_negligible a
  pub second : (a : F) → ops.is_still ops.nought a ≡ ops.is_negligible a

-- The manual motion of a session, with the commands handed to the telescope, the latest one first.
pub record Manual (F : Type 0) : Type 0 where
  pub simulation : Bool
  pub rate_0 : F
  pub rate_1 : F
  pub joystick_active : Bool
  pub sent : List (Command F)

-- How a command ends: acknowledged, refused with a code, or with no answer.
pub data Ending : Type 0 where
  acknowledged refused lost : Ending

abbrev pub is_acknowledged : Ending → Bool
is_acknowledged acknowledged = true
is_acknowledged refused = false
is_acknowledged lost = false

-- Whether the connection is there, and how the command of a call ends.
pub record Exchange : Type 0 where
  pub reached : Bool
  pub ending : Ending

module _ {F : Type 0} (ops : Rates F) where
  abbrev pub rate_of : Axis → Manual F → F
  rate_of right_ascension s = s.rate_0
  rate_of declination s = s.rate_1

  abbrev pub set_rate : Axis → F → Manual F → Manual F
  set_rate right_ascension rate s = record s { rate_0 = rate }
  set_rate declination rate s = record s { rate_1 = rate }

  -- Beside the state, whether the call raised.
  unfoldable pub send_joystick_stop : Ending → Manual F → Bool × Manual F
  send_joystick_stop ending s = (
    not (is_acknowledged ending),
    record s {
      sent = joystick_stop ∷ s.sent;
      joystick_active = not (is_acknowledged ending) && s.joystick_active;
    },
  )

  unfoldable pub send_manual_vector : Ending → Manual F → Bool × Manual F
  unfolding send_joystick_stop
  send_manual_vector ending s =
      if ops.is_still s.rate_0 s.rate_1
      then (if s.joystick_active then send_joystick_stop ending s else (false, s))
      else (
        not (is_acknowledged ending),
        record s {
          sent = joystick s.rate_0 s.rate_1 ∷ s.sent;
          joystick_active = if is_acknowledged ending then true else s.joystick_active;
        },
      )

  -- Behind the connection of `telescope_stop_axis`.
  unfoldable pub stop_axis : Axis → Ending → Manual F → Bool × Manual F
  unfolding send_manual_vector
  stop_axis axis ending s =
      if ops.is_negligible (rate_of axis s) && not s.joystick_active
      then (false, s)
      else send_manual_vector ending (set_rate axis ops.nought s)

  unfoldable pub telescope_stop_axis : Axis → Exchange → Manual F → Bool × Manual F
  unfolding stop_axis
  telescope_stop_axis axis world s =
      if s.simulation
      then (false, set_rate axis ops.nought s)
      else if not world.reached
      then (true, s)
      else stop_axis axis world.ending s

  unfoldable pub telescope_move_axis : Axis → F → Exchange → Manual F → Bool × Manual F
  unfolding telescope_stop_axis send_manual_vector
  telescope_move_axis axis rate world s =
      let clamped = ops.clamp rate in
      if s.simulation
      then (false, set_rate axis (if ops.is_negligible clamped then ops.nought else clamped) s)
      else if ops.is_negligible clamped
      then telescope_stop_axis axis world s
      else if not world.reached
      then (true, s)
      else send_manual_vector world.ending (set_rate axis clamped s)

  -- `_halt_manual_motion`: both axes, whether the first raises or not.
  unfoldable pub halt_manual_motion : Bool → Ending → Ending → Manual F → Bool × Manual F
  halt_manual_motion reached first second s =
      if s.simulation
      then (false, s)
      else if not reached
      then (true, s)
      else (false, (stop_axis declination second (stop_axis right_ascension first s).1).1)
