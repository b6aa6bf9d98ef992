-- ===== src/Telescope/Halt.antt =====
-- When the manual motion of src/dwarf_alpaca/dwarf/session.py comes to an end.
use dwarf_alp.Prelude.{
  ◌≡◌, refl, Bool, true, false, Option, none, some, List, [], ◌∷◌, arith, inl, inr, Bool-cases, ◌⊎◌,
  ◌∙◌,
}
use dwarf_alp.Telescope.Manual.{
  Axis, right_ascension, declination, Command, joystick, joystick_stop, Rates, IsMagnitude, Manual,
  Ending, acknowledged, lost, Exchange, send_joystick_stop, send_manual_vector, stop_axis,
  telescope_stop_axis, telescope_move_axis, halt_manual_motion,
}

module _ {F : Type 0} (ops : Rates F) (laws : IsMagnitude ops) where
  -- The axis has no rate worth a command.
  abbrev IsSlow : F → Type 0
  IsSlow rate = ops.is_negligible rate ≡ true

  -- What an acknowledged stop of the right ascension leaves.
  first_stop :
      (s : Manual F)
      → ops.is_negligible (stop_axis ops right_ascension acknowledged s).1.rate_0 ≡ true
  unfolding stop_axis send_manual_vector send_joystick_stop
  first_stop s = ground (arith, laws.nought_negligible)

  -- The joystick is no more active, and both rates are negligible.
  abbrev pub IsAtRest : Manual F → Type 0
  IsAtRest s =
      (s.joystick_active ≡ false)
      × (ops.is_negligible s.rate_1 ≡ true)
      × (ops.is_negligible s.rate_0 ≡ true)

  -- The command handed over last.
  abbrev pub last_command : Manual F → Option (Command F)
  last_command s = elim s.sent [ [] ↦ none | ◌∷◌ c rest ↦ some c ]

  second_stop :
      (s : Manual F)
      → ops.is_negligible s.rate_0 ≡ true
      → IsAtRest (stop_axis ops declination acknowledged s).1
  unfolding stop_axis send_manual_vector send_joystick_stop
  second_stop s slow = (
    ground (arith, laws.first s.rate_0, slow),
    ground (arith, laws.nought_negligible),
    ground (arith, slow),
  )

  -- The joystick is active, or at rest with its stop as the last command.
  abbrev IsStopping : Manual F → Type 0
  IsStopping s =
      (s.joystick_active ≡ true)
      ⊎ ((s.joystick_active ≡ false)
          × (ops.is_negligible s.rate_1 ≡ true)
          × (last_command s ≡ some joystick_stop))

  first_stop-IsStopping :
      (s : Manual F)
      → s.joystick_active ≡ true
      → IsStopping (stop_axis ops right_ascension acknowledged s).1
  unfolding stop_axis send_manual_vector send_joystick_stop
  first_stop-IsStopping s on = elim (Bool-cases (ops.is_still ops.nought s.rate_1)) [
    | inl q ↦
        inr (
          ground (arith, on, q),
          ground (arith, on, q, laws.second s.rate_1),
          ground (arith, on, q),
        )
    | inr q ↦ inl (ground (arith, on, q))
  ]

  second_stop-last :
      (s : Manual F)
      → ops.is_negligible s.rate_0 ≡ true
      → s.joystick_active ≡ true
      → last_command (stop_axis ops declination acknowledged s).1 ≡ some joystick_stop
  unfolding stop_axis send_manual_vector send_joystick_stop
  second_stop-last s slow on = ground (arith, on, slow, laws.first s.rate_0)

  rest_stop-last :
      (s : Manual F)
      → IsStopping s
      → ops.is_negligible s.rate_0 ≡ true
      → last_command (stop_axis ops declination acknowledged s).1 ≡ some joystick_stop
  unfolding stop_axis
  rest_stop-last s (inl on) slow = second_stop-last s slow on
  rest_stop-last s (inr (off, still, last)) slow = ground (arith, off, still, last)

  -- A halt that reaches a real telescope and whose commands are acknowledged leaves the session with
  -- both rates negligible and the joystick marked as inactive; and where the joystick was marked as
  -- active before, the last command that the telescope got is the one that stops the joystick. A motion
  -- that the session does not know of, since its command was never answered, is not covered.
  pub halt_ends_motion :
      (s : Manual F)
      → s.simulation ≡ false
      → IsAtRest (halt_manual_motion ops true acknowledged acknowledged s).1
        × ((s.joystick_active ≡ false)
            ⊎ (last_command (halt_manual_motion ops true acknowledged acknowledged s).1
                ≡ some joystick_stop))
  unfolding halt_manual_motion
  halt_ends_motion s real =
      let s1 = (stop_axis ops right_ascension acknowledged s).1 in
      simp real (
        second_stop s1 (first_stop s),
        elim (Bool-cases s.joystick_active) [
          | inl on ↦ inr (rest_stop-last s1 (first_stop-IsStopping s on) (first_stop s))
          | inr off ↦ inl off
        ],
      )

  -- A call that is to stop motion: of one axis, or of both.
  pub data StopCall : Type 0 where
    stop_one : Axis → Exchange → StopCall
    halt : Bool → Ending → Ending → StopCall

  unfoldable pub stop_calls : List StopCall → Manual F → Manual F
  stop_calls [] s = s
  stop_calls (stop_one axis world ∷ calls) s =
      stop_calls calls (telescope_stop_axis ops axis world s).1
  stop_calls (halt reached first second ∷ calls) s =
      stop_calls calls (halt_manual_motion ops reached first second s).1

  -- On a real telescope, no joystick is known to be active, and one axis at most has a rate.
  abbrev IsForgotten : Manual F → Type 0
  IsForgotten s =
      (s.simulation ≡ false)
      × (s.joystick_active ≡ false)
      × ((ops.is_negligible s.rate_0 ≡ true) ⊎ (ops.is_negligible s.rate_1 ≡ true))

  -- A call keeps that and sends no command.
  abbrev SendsNone : Manual F → Manual F → Type 0
  SendsNone s t = IsForgotten t × (t.sent ≡ s.sent)

  stop_axis-SendsNone :
      (axis : Axis) (ending : Ending) (s : Manual F)
      → IsForgotten s
      → SendsNone s (stop_axis ops axis ending s).1
  unfolding stop_axis send_manual_vector
  stop_axis-SendsNone right_ascension ending s (real, off, slow) = (
    (
      ground (arith, real, off, slow, laws.second s.rate_1),
      ground (arith, off, slow, laws.second s.rate_1),
      inl (ground (arith, off, slow, laws.second s.rate_1, laws.nought_negligible)),
    ),
    ground (arith, off, slow, laws.second s.rate_1),
  )
  stop_axis-SendsNone declination ending s (real, off, slow) = (
    (
      ground (arith, real, off, slow, laws.first s.rate_0),
      ground (arith, off, slow, laws.first s.rate_0),
      inr (ground (arith, off, slow, laws.first s.rate_0, laws.nought_negligible)),
    ),
    ground (arith, off, slow, laws.first s.rate_0),
  )

  stop_one-SendsNone :
      (axis : Axis) (world : Exchange) (s : Manual F)
      → IsForgotten s
      → SendsNone s (telescope_stop_axis ops axis world s).1
  unfolding telescope_stop_axis
  stop_one-SendsNone axis world s h = elim (Bool-cases world.reached) [
    | inl q ↦ simp (h.0, q) (stop_axis-SendsNone axis world.ending s h)
    | inr q ↦ simp (h.0, q) ((refl, h.1, h.2), refl)
  ]

  halt-SendsNone :
      (reached : Bool) (first second : Ending) (s : Manual F)
      → IsForgotten s
      → SendsNone s (halt_manual_motion ops reached first second s).1
  unfolding halt_manual_motion
  halt-SendsNone false first second s h = simp (h.0) ((refl, h.1, h.2), refl)
  halt-SendsNone true first second s h =
      let s1 = (stop_axis ops right_ascension first s).1 in
      let (h1, sent1) = stop_axis-SendsNone right_ascension first s h in
      let (h2, sent2) = stop_axis-SendsNone declination second s1 h1 in
      simp (h.0) (h2, sent2 ∙ sent1)

  stop_calls-SendsNone :
      (calls : List StopCall) (s : Manual F) → IsForgotten s → (stop_calls calls s).sent ≡ s.sent
  unfolding stop_calls
  stop_calls-SendsNone [] s h = refl
  stop_calls-SendsNone (stop_one axis world ∷ calls) s h =
      let (h1, sent) = stop_one-SendsNone axis world s h in
      stop_calls-SendsNone calls (telescope_stop_axis ops axis world s).1 h1 ∙ sent
  stop_calls-SendsNone (halt reached first second ∷ calls) s h =
      let (h1, sent) = halt-SendsNone reached first second s h in
      stop_calls-SendsNone calls (halt_manual_motion ops reached first second s).1 h1 ∙ sent

  -- A real telescope that nothing moves.
  abbrev pub IsIdle : Manual F → Type 0
  IsIdle s =
      (s.simulation ≡ false)
      × (s.joystick_active ≡ false)
      × (s.rate_0 ≡ ops.nought)
      × (s.rate_1 ≡ ops.nought)

  -- A move whose command is sent and not answered.
  abbrev pub unanswered_move : Axis → F → Manual F → Manual F
  unanswered_move axis rate s =
      (telescope_move_axis ops axis rate (record { reached = true; ending = lost }) s).1

  -- The command of a move that an axis is to make alone.
  abbrev pub move_command : Axis → F → Command F
  move_command right_ascension rate = joystick rate ops.nought
  move_command declination rate = joystick ops.nought rate

  moved-IsForgotten :
      (axis : Axis) (rate : F) (s : Manual F)
      → IsIdle s
      → ops.is_negligible (ops.clamp rate) ≡ false
      → IsForgotten (unanswered_move axis rate s)
        × ((unanswered_move axis rate s).sent ≡ move_command axis (ops.clamp rate) ∷ s.sent)
  unfolding telescope_move_axis send_manual_vector
  moved-IsForgotten right_ascension rate s (real, off, first, second) fast =
      let speed : ops.is_still (ops.clamp rate) ops.nought ≡ false =
        laws.first (ops.clamp rate) ∙ fast in
      (
        (
          ground (arith, real, off, second, fast, speed),
          ground (arith, real, off, second, fast, speed),
          inr (ground (arith, real, off, second, fast, speed, laws.nought_negligible)),
        ),
        ground (arith, real, off, second, fast, speed),
      )
  moved-IsForgotten declination rate s (real, off, first, second) fast =
      let speed : ops.is_still ops.nought (ops.clamp rate) ≡ false =
        laws.second (ops.clamp rate) ∙ fast in
      (
        (
          ground (arith, real, off, first, fast, speed),
          ground (arith, real, off, first, fast, speed),
          inl (ground (arith, real, off, first, fast, speed, laws.nought_negligible)),
        ),
        ground (arith, real, off, first, fast, speed),
      )

  -- A move of one axis of a telescope at rest whose command is handed over but never answered, as
  -- where its answer times out, cannot be ended: whatever stops of an axis and halts follow, and
  -- however they end, no further command is handed to the telescope.
  pub unanswered_move_runs_on :
      (axis : Axis) (rate : F) (calls : List StopCall) (s : Manual F)
      → IsIdle s
      → ops.is_negligible (ops.clamp rate) ≡ false
      → (stop_calls calls (unanswered_move axis rate s)).sent
        ≡ move_command axis (ops.clamp rate) ∷ s.sent
  unanswered_move_runs_on axis rate calls s idle fast =
      let (forgotten, sent) = moved-IsForgotten axis rate s idle fast in
      stop_calls-SendsNone calls (unanswered_move axis rate s) forgotten ∙ sent
