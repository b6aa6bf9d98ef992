-- ===== src/Telescope/Slew.antt =====
-- The requests of src/dwarf_alpaca/devices/telescope.py that move the telescope or end its motion, and
-- the task that waits for a slew. Each request is carried through before the next one; a task that is
-- cancelled is gone. Altitude and azimuth, which only their requests read, are left out.
use dwarf_alp.Prelude.{Bool, true, false, not, ◌&&◌, ◌||◌, Option, none, some, if◌then◌else◌}
use dwarf_alp.Sharing.Session.{Task, no_task, running}
use dwarf_alp.Sharing.Wheel.{Answer, response, http_error, unhandled}
use dwarf_alp.Telescope.Manual.{Axis, right_ascension, declination}

pub record TelescopeState (F : Type 0) : Type 0 where
  pub connected : Bool
  pub ra : F
  pub dec : F
  pub target_ra : Option F
  pub target_dec : Option F
  pub slewing : Bool
  pub declination_rate : F
  pub right_ascension_rate : F
  pub using_simulation : Bool
  pub slew_task : Task

-- What is used of the numbers: the ranges of the coordinates and the rates, the conversion from
-- degrees, half the way to a target, the tests `abs(rate) > 0.0`, and what the simulated motion makes of
-- a coordinate in a time.
pub record Sky (F : Type 0) : Type 0 where
  pub nought : F
  pub is_hours : F → Bool
  pub is_degrees : F → Bool
  pub to_hours : F → F
  pub is_declination : F → Bool
  pub is_rate : F → Bool
  pub has_rate : F → Bool
  pub half_way : F → F → F
  pub towards : F → F → F
  pub drift_ra : F → F → F
  pub drift_dec : F → F → F

-- How a command of the session ends: without an error, by `DwarfCommandError`, by `TimeoutError`, or by
-- another exception.
pub data Ending : Type 0 where
  fine refused timed_out other_error : Ending

module _ {F : Type 0} (sky : Sky F) where
  -- The end of every motion.
  abbrev pub at_rest : TelescopeState F → TelescopeState F
  at_rest s = record s {
    slewing = false;
    right_ascension_rate = sky.nought;
    declination_rate = sky.nought;
  }

  abbrev pub no_target : TelescopeState F → TelescopeState F
  no_target s = record s { target_ra = none; target_dec = none }

  -- The right ascension in hours, where the request gives one.
  unfoldable pub right_ascension_of : F → Option F
  right_ascension_of value =
      if sky.is_hours value
      then some value
      else if sky.is_degrees value
      then some (sky.to_hours value)
      else none

  -- Behind the checks of `slew_to_coordinates_async`.
  unfoldable pub slew_to : Bool → Ending → F → F → TelescopeState F → Answer × TelescopeState F
  slew_to simulated ending target_ra target_dec s =
      let s1 : TelescopeState F = record s {
        using_simulation = simulated;
        target_ra = some target_ra;
        target_dec = some target_dec;
        slewing = true;
      } in
      if simulated
      then (
        response,
        record s1 {
          right_ascension_rate = sky.half_way s.ra target_ra;
          declination_rate = sky.half_way s.dec target_dec;
        },
      )
      else elim ending [
        | fine ↦ (
          response,
          record s1 {
            right_ascension_rate = sky.nought;
            declination_rate = sky.nought;
            slew_task = running;
          },
        )
        | refused ↦ (http_error 502, no_target (at_rest s1))
        | timed_out ↦ (http_error 504, no_target (at_rest s1))
        | other_error ↦ (unhandled, s1)
      ]

  unfoldable pub slew_to_coordinates_async :
      Bool → Ending → F → F → TelescopeState F → Answer × TelescopeState F
  unfolding right_ascension_of slew_to
  slew_to_coordinates_async simulated ending ra dec s =
      if not s.connected then (http_error 400, s) else elim (right_ascension_of ra) [
        | none ↦ (http_error 400, s)
        | some hours ↦
            if not (sky.is_declination dec)
            then (http_error 400, s)
            else slew_to simulated ending hours dec s
      ]

  abbrev pub is_fine : Ending → Bool
  is_fine fine = true
  is_fine refused = false
  is_fine timed_out = false
  is_fine other_error = false

  unfoldable pub abort_slew : Bool → Ending → TelescopeState F → Answer × TelescopeState F
  abort_slew simulated ending s =
      if simulated || is_fine ending
      then (response, at_rest (record s { slew_task = no_task }))
      else (unhandled, s)

  -- `_process_motion`: `over` tells whether a simulated slew has lasted its time, `delta` is the time
  -- since the last update, `passes` whether it is positive.
  unfoldable pub process_motion : Bool → Bool → F → TelescopeState F → TelescopeState F
  process_motion over passes delta s =
      let drifted : TelescopeState F = record s {
        ra =
            if passes && sky.has_rate s.right_ascension_rate then sky.drift_ra s.ra delta else s.ra;
        dec =
            if passes && sky.has_rate s.declination_rate then sky.drift_dec s.dec delta else s.dec;
      } in
      if not s.using_simulation then s else if not s.slewing then drifted else elim s.target_ra [
        | none ↦ drifted
        | some target_ra ↦ elim s.target_dec [
          | none ↦ drifted
          | some target_dec ↦
              if over
              then at_rest (record s { ra = target_ra; dec = target_dec })
              else record s { ra = sky.towards s.ra target_ra; dec = sky.towards s.dec target_dec }
        ]
      ]

  abbrev pub set_rate : Axis → F → TelescopeState F → TelescopeState F
  set_rate right_ascension rate s = record s { right_ascension_rate = rate }
  set_rate declination rate s = record s { declination_rate = rate }

  abbrev pub has_motion : TelescopeState F → Bool
  has_motion s = sky.has_rate s.right_ascension_rate || sky.has_rate s.declination_rate

  -- What `move_axis` sets behind `_process_motion`.
  unfoldable pub apply_move : Axis → F → TelescopeState F → TelescopeState F
  apply_move axis rate s =
      let s1 = set_rate axis rate (no_target (record s { slew_task = no_task })) in
      record s1 { slewing = has_motion s1 }

  -- `move_axis` for an axis that it accepts.
  unfoldable pub move_axis :
      Bool → Ending → Bool → Bool → F → Axis → F → TelescopeState F → Answer × TelescopeState F
  unfolding process_motion apply_move
  move_axis simulated ending over passes delta axis rate s =
      let s1 = process_motion over passes delta (record s { using_simulation = simulated }) in
      let s2 = apply_move axis rate s1 in
      if not s.connected || not (sky.is_rate rate)
      then (http_error 400, s)
      else if simulated || is_fine ending
      then (response, s2)
      else (unhandled, s2)

  -- `_complete_hardware_slew` where it is not cancelled: whether the goto succeeded, or the session is a
  -- simulation or gone.
  unfoldable pub complete_hardware_slew : Bool → F → F → TelescopeState F → TelescopeState F
  complete_hardware_slew success target_ra target_dec s =
      let s1 = at_rest (record s { slew_task = no_task }) in
      if success then record s1 { ra = target_ra; dec = target_dec } else s1

  -- What a disconnect does to the state, around the release of the session.
  unfoldable pub disconnect : Bool → TelescopeState F → TelescopeState F
  disconnect simulated s = record (at_rest (record s { slew_task = no_task })) {
    using_simulation = simulated;
    connected = false;
  }
