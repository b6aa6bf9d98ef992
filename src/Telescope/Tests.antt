-- ===== src/Telescope/Tests.antt =====
-- Runs of the telescope, and instances of its theorems. Rates and coordinates are whole numbers.
use dwarf_alp.Prelude.{
  ℕ, ◌+◌, ◌/◌, ◌≡◌, refl, true, false, ◌⊎◌, not, none, some, [], ◌∷◌, ltb, ◌==◌, arith,
}
use dwarf_alp.Sharing.Session.{no_task}
use dwarf_alp.Telescope.Manual.{
  right_ascension, joystick, joystick_stop, Rates, IsMagnitude, Manual, acknowledged,
  halt_manual_motion,
}
use dwarf_alp.Telescope.Halt.{
  IsAtRest, last_command, halt_ends_motion, stop_one, halt, stop_calls, unanswered_move,
  unanswered_move_runs_on,
}
use dwarf_alp.Telescope.Slew.{
  TelescopeState, Sky, fine, other_error, right_ascension_of, slew_to_coordinates_async,
}
use dwarf_alp.Telescope.Cause.{
  Reason, slewing_has_cause, here, later, slews, IsHung, poll, unhandled_slew_hangs,
}

abbrev rates : Rates ℕ
rates = record {
  nought = 0;
  is_negligible = λ a. a == 0;
  is_still = λ a b. a + b == 0;
  clamp = λ a. a;
}

same_sum : (a : ℕ) → (a + 0 == 0) ≡ (a == 0)
same_sum a = ground arith

zero_sum : (a : ℕ) → (0 + a == 0) ≡ (a == 0)
zero_sum a = ground arith

rates-IsMagnitude : IsMagnitude rates
rates-IsMagnitude = record { nought_negligible = refl; first = same_sum; second = zero_sum }

abbrev idle : Manual ℕ
idle = record { simulation = false; rate_0 = 0; rate_1 = 0; joystick_active = false; sent = [] }

abbrev moving : Manual ℕ
moving = record idle { rate_0 = 3; joystick_active = true; sent = joystick 3 0 ∷ [] }

halt_ends_motion_example :
    IsAtRest rates rates-IsMagnitude
      (halt_manual_motion rates true acknowledged acknowledged moving).1
    × ((moving.joystick_active ≡ false)
        ⊎ (last_command rates rates-IsMagnitude
              (halt_manual_motion rates true acknowledged acknowledged moving).1
            ≡ some joystick_stop))
halt_ends_motion_example = halt_ends_motion rates rates-IsMagnitude moving refl

-- The move is not answered; its axis is stopped, and everything is halted.
unanswered_move_runs_on_example :
    (stop_calls rates rates-IsMagnitude
      (stop_one right_ascension (record { reached = true; ending = acknowledged })
        ∷ halt true acknowledged acknowledged
        ∷ [])
      (unanswered_move rates rates-IsMagnitude right_ascension 3 idle)).sent
    ≡ joystick 3 0 ∷ []
unanswered_move_runs_on_example =
    unanswered_move_runs_on rates rates-IsMagnitude right_ascension 3
      (stop_one right_ascension (record { reached = true; ending = acknowledged })
        ∷ halt true acknowledged acknowledged
        ∷ [])
      idle (refl, refl, refl, refl) refl

abbrev sky : Sky ℕ
sky = record {
  nought = 0;
  is_hours = λ a. ltb a 25;
  is_degrees = λ a. ltb a 361;
  to_hours = λ a. a / 15;
  is_declination = λ a. ltb a 91;
  is_rate = λ a. ltb a 10;
  has_rate = λ a. not (a == 0);
  half_way = λ a b. b / 2;
  towards = λ a b. b;
  drift_ra = λ a b. a + b;
  drift_dec = λ a b. a + b;
}

abbrev still : TelescopeState ℕ
still = record {
  connected = true;
  ra = 0;
  dec = 0;
  target_ra = none;
  target_dec = none;
  slewing = false;
  declination_rate = 0;
  right_ascension_rate = 0;
  using_simulation = false;
  slew_task = no_task;
}

-- A slew to a right ascension of 150 degrees.
abbrev slewing : TelescopeState ℕ
slewing = (slew_to_coordinates_async sky false fine 150 20 still).1

slewing-to : (slewing.target_ra ≡ some 10) × (slewing.slewing ≡ true)
unfolding slew_to_coordinates_async
slewing-to = (refl, refl)

slewing_has_cause_example : Reason sky slewing
slewing_has_cause_example =
    slewing_has_cause sky still slewing refl (later here (slews false fine 150 20 tt))
      (slewing-to.1)

right_ascension_150 : right_ascension_of sky 150 ≡ some 10
unfolding right_ascension_of
right_ascension_150 = refl

unhandled_slew_hangs_example : IsHung sky (
    poll sky
      ((true, true, 1) ∷ (true, true, 2) ∷ [])
      (slew_to_coordinates_async sky false other_error 150 20 still).1)
unhandled_slew_hangs_example =
    unhandled_slew_hangs sky 150 20 10 ((true, true, 1) ∷ (true, true, 2) ∷ []) still refl
      right_ascension_150 refl refl refl
