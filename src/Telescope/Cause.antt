-- ===== src/Telescope/Cause.antt =====
-- Why src/dwarf_alpaca/devices/telescope.py reports that the telescope slews.
use dwarf_alp.Prelude.{
  ◌≡◌, refl, ap, ◌∙◌, Bool, true, false, not, ◌&&◌, ◌||◌, Option, none, some, List, [], ◌∷◌, arith,
  subst, sym, inl, inr, Bool-cases,
}
use dwarf_alp.Sharing.Session.{Task, no_task, running, done}
use dwarf_alp.Telescope.Manual.{Axis, right_ascension, declination}
use dwarf_alp.Telescope.Slew.{
  TelescopeState, Sky, Ending, fine, refused, timed_out, other_error, slew_to, right_ascension_of,
  slew_to_coordinates_async, abort_slew, process_motion, move_axis, complete_hardware_slew,
  disconnect, has_motion, apply_move, is_fine,
}

abbrev is_running : Task → Bool
is_running running = true
is_running no_task = false
is_running done = false

abbrev is_some : {A : Type 0} → Option A → Bool
is_some none = false
is_some (some a) = true

module _ {F : Type 0} (sky : Sky F) where
  -- A cause of the slew: the task that waits for the goto, a simulated slew with its target, or a rate of
  -- an axis.
  abbrev pub has_cause : TelescopeState F → Bool
  has_cause s =
      is_running s.slew_task
      || has_motion sky s
      || (s.using_simulation && is_some s.target_ra && is_some s.target_dec)

  -- The telescope slews only for a cause.
  unfoldable pub IsCaused : TelescopeState F → Type 0
  IsCaused s = (not s.slewing || has_cause s) ≡ true

  abbrev IsHandled : Ending → Type 0
  IsHandled other_error = ⊥
  IsHandled _ = Unit {0}

  slew-IsCaused :
      (simulated : Bool) (ending : Ending) (a b : F) (s : TelescopeState F)
      → IsHandled ending
      → IsCaused s
      → IsCaused (slew_to_coordinates_async sky simulated ending a b s).1
  unfolding slew_to_coordinates_async IsCaused
  slew-IsCaused true fine a b s h c = ground (arith, c)
  slew-IsCaused true refused a b s h c = ground (arith, c)
  slew-IsCaused true timed_out a b s h c = ground (arith, c)
  slew-IsCaused true other_error a b s h c = absurd h
  slew-IsCaused false fine a b s h c = ground (arith, c)
  slew-IsCaused false refused a b s h c = ground (arith, c)
  slew-IsCaused false timed_out a b s h c = ground (arith, c)
  slew-IsCaused false other_error a b s h c = absurd h

  motion-IsCaused :
      (over passes : Bool) (delta : F) (s : TelescopeState F)
      → IsCaused s
      → IsCaused (process_motion sky over passes delta s)
  unfolding process_motion IsCaused
  motion-IsCaused over passes delta s c = ground (arith, c)

  abort-IsCaused :
      (simulated : Bool) (ending : Ending) (s : TelescopeState F)
      → IsCaused s
      → IsCaused (abort_slew sky simulated ending s).1
  unfolding abort_slew IsCaused
  abort-IsCaused simulated ending s c = ground (arith, c)

  applied-IsCaused :
      (axis : Axis) (rate : F) (s : TelescopeState F) → IsCaused (apply_move sky axis rate s)
  unfolding apply_move IsCaused
  applied-IsCaused right_ascension rate s = ground arith
  applied-IsCaused declination rate s = ground arith

  move-IsCaused :
      (simulated : Bool) (ending : Ending) (over passes : Bool) (delta : F) (axis : Axis) (rate : F)
      (s : TelescopeState F)
      → IsCaused s
      → IsCaused (move_axis sky simulated ending over passes delta axis rate s).1
  unfolding move_axis
  move-IsCaused simulated ending over passes delta axis rate s c =
      let s1 = process_motion sky over passes delta (record s { using_simulation = simulated }) in
      let moved = applied-IsCaused axis rate s1 in
      elim (Bool-cases (not s.connected || not (sky.is_rate rate))) [
        | inl q ↦ rw q c
        | inr q ↦ elim (Bool-cases (simulated || is_fine sky ending)) [
          | inl f ↦ rw (q, f) moved
          | inr f ↦ rw (q, f) moved
        ]
      ]

  complete-IsCaused :
      (success : Bool) (a b : F) (s : TelescopeState F)
      → IsCaused (complete_hardware_slew sky success a b s)
  unfolding complete_hardware_slew IsCaused
  complete-IsCaused true a b s = refl
  complete-IsCaused false a b s = refl

  disconnect-IsCaused :
      (simulated : Bool) (s : TelescopeState F) → IsCaused (disconnect sky simulated s)
  unfolding disconnect IsCaused
  disconnect-IsCaused simulated s = refl

  -- What happens to the telescope, each carried through before the next one. No exception but those
  -- that `slew_to_coordinates_async` handles ends a slew, and a connect does not change the simulation.
  pub data MotionStep (s : TelescopeState F) : TelescopeState F → Type 0 where
    slews :
        (simulated : Bool) (ending : Ending) (a b : F)
        → IsHandled ending
        → MotionStep s (slew_to_coordinates_async sky simulated ending a b s).1
    aborts :
        (simulated : Bool) (ending : Ending) → MotionStep s (abort_slew sky simulated ending s).1
    polls : (over passes : Bool) (delta : F) → MotionStep s (process_motion sky over passes delta s)
    moves :
        (simulated : Bool) (ending : Ending) (over passes : Bool) (delta : F) (axis : Axis)
        (rate : F)
        → MotionStep s (move_axis sky simulated ending over passes delta axis rate s).1
    completes :
        (success : Bool) (a b : F)
        → s.slew_task ≡ running
        → MotionStep s (complete_hardware_slew sky success a b s)
    connects : MotionStep s (record s { connected = true })
    disconnects : (simulated : Bool) → MotionStep s (disconnect sky simulated s)

  pub data MotionReach (s : TelescopeState F) : TelescopeState F → Type 0 where
    here : MotionReach s s
    later : {t u : TelescopeState F} → MotionReach s t → MotionStep t u → MotionReach s u

  Step-IsCaused : (s t : TelescopeState F) → MotionStep s t → IsCaused s → IsCaused t
  unfolding IsCaused
  Step-IsCaused s t (slews simulated ending a b h) c = slew-IsCaused simulated ending a b s h c
  Step-IsCaused s t (aborts simulated ending) c = abort-IsCaused simulated ending s c
  Step-IsCaused s t (polls over passes delta) c = motion-IsCaused over passes delta s c
  Step-IsCaused s t (moves simulated ending over passes delta axis rate) c =
      move-IsCaused simulated ending over passes delta axis rate s c
  Step-IsCaused s t (completes success a b h) c = complete-IsCaused success a b s
  Step-IsCaused s t connects c = c
  Step-IsCaused s t (disconnects simulated) c = disconnect-IsCaused simulated s

  Reach-IsCaused : {s t : TelescopeState F} → IsCaused s → MotionReach s t → IsCaused t
  Reach-IsCaused c here = c
  Reach-IsCaused c (later {t} {u} r m) = Step-IsCaused t u m (Reach-IsCaused c r)

  -- Why the telescope slews: the task that waits for the goto runs, and whatever way it completes the
  -- telescope no more slews; or it is a simulated slew, and the next poll behind its time ends it; or an
  -- axis has a rate, as in a manual motion, which nothing ends by itself.
  pub data Reason (t : TelescopeState F) : Type 0 where
    by_goto :
        t.slew_task ≡ running
        → ((success : Bool) (a b : F) → (complete_hardware_slew sky success a b t).slewing ≡ false)
        → Reason t
    by_simulation :
        ((passes : Bool) (delta : F) → (process_motion sky true passes delta t).slewing ≡ false)
        → Reason t
    by_rate : has_motion sky t ≡ true → Reason t

  completes_lem :
      (t : TelescopeState F) (success : Bool) (a b : F)
      → (complete_hardware_slew sky success a b t).slewing ≡ false
  unfolding complete_hardware_slew
  completes_lem t true a b = refl
  completes_lem t false a b = refl

  simulated_lem :
      (t : TelescopeState F)
      → t.slewing ≡ true
      → (t.using_simulation && is_some t.target_ra && is_some t.target_dec) ≡ true
      → (passes : Bool) (delta : F) → (process_motion sky true passes delta t).slewing ≡ false
  unfolding process_motion
  simulated_lem t on h passes delta = ground (arith, on, h)

  running_lem : (task : Task) → is_running task ≡ true → task ≡ running
  running_lem running h = refl
  running_lem no_task h = absurd (cc)
  running_lem done h = absurd (cc)

  Reason-cause : (t : TelescopeState F) → t.slewing ≡ true → has_cause t ≡ true → Reason t
  Reason-cause t on cause = elim (Bool-cases (is_running t.slew_task)) [
    | inl q ↦ by_goto (running_lem t.slew_task q) (completes_lem t)
    | inr q ↦ elim (Bool-cases (has_motion sky t)) [
      | inl r ↦ by_rate r
      | inr r ↦ by_simulation (simulated_lem t on (ground (arith, cause, q, r)))
    ]
  ]

  -- From a telescope that does not slew, in every state that requests, polls and ended goto tasks
  -- reach: where the telescope reports that it slews, the task that waits for the goto runs, whose end
  -- ends the slew; or it is a simulated slew, which a poll ends once its time is over; or an axis has a
  -- rate, which a client has to stop, the rate of a move that failed too. This is where no slew ends by
  -- an exception that the request does not handle, and a connect keeps the choice of the simulation.
  pub slewing_has_cause :
      (s t : TelescopeState F) → s.slewing ≡ false → MotionReach s t → t.slewing ≡ true → Reason t
  unfolding IsCaused
  slewing_has_cause s t rest r slewing =
      let start : IsCaused s = ground (arith, rest) in
      Reason-cause t slewing (ground (arith, slewing, Reach-IsCaused {s = s} {t = t} start r))

  unfoldable pub poll : List (Bool × Bool × F) → TelescopeState F → TelescopeState F
  poll [] s = s
  poll ((over, passes, delta) ∷ rest) s = poll rest (process_motion sky over passes delta s)

  poll-real :
      (polled : List (Bool × Bool × F)) (s : TelescopeState F)
      → s.using_simulation ≡ false
      → poll polled s ≡ s
  unfolding poll process_motion
  poll-real [] s real = refl
  poll-real ((over, passes, delta) ∷ rest) s real =
      let same : process_motion sky over passes delta s ≡ s = ground (arith, real) in
      ap (poll rest) same ∙ poll-real rest s real

  -- The telescope reports a slew that nothing ends.
  abbrev pub IsHung : TelescopeState F → Type 0
  IsHung s = (s.slewing ≡ true) × (has_cause s ≡ false)

  -- A slew of a real telescope at rest that ends by an exception which the request does not handle
  -- leaves the telescope slewing for no cause: however often a client polls, it still reports a slew,
  -- and no task will end it.
  pub unhandled_slew_hangs :
      (a b hours : F) (polled : List (Bool × Bool × F)) (s : TelescopeState F)
      → s.connected ≡ true
      → right_ascension_of sky a ≡ some hours
      → sky.is_declination b ≡ true
      → is_running s.slew_task ≡ false
      → has_motion sky s ≡ false
      → IsHung (poll polled (slew_to_coordinates_async sky false other_error a b s).1)
  unfolding slew_to_coordinates_async slew_to
  unhandled_slew_hangs a b hours polled s on ra dec idle still =
      let hung : TelescopeState F = record s {
        using_simulation = false;
        target_ra = some hours;
        target_dec = some b;
        slewing = true;
      } in
      let reached : (slew_to_coordinates_async sky false other_error a b s).1 ≡ hung =
        ground (arith, on, ra, dec) in
      subst IsHung (sym (ap (poll polled) reached ∙ poll-real polled hung refl))
        (refl, ground (arith, idle, still))
