-- ===== src/Focuser/Moves.antt =====
-- The loops of a focus move: `_simulate_focus_move`, the two loops of `focuser_move` and
-- `_focus_nudge_to_target` of src/dwarf_alpaca/dwarf/session.py. What the telescope does while a loop
-- awaits is an argument.
use dwarf_alp.Prelude.{
  ℕ, zero, suc, ◌+◌, ◌-◌, Bool, true, false, Option, none, some, List, [], ◌∷◌, leb, ltb,
  if◌then◌else◌,
}
use dwarf_alp.Prelude.Int.{ℤ, pos, negsuc}

-- `min(position, 20000)`
abbrev pub limit : ℕ → ℕ
limit position = if leb position 20000 then position else 20000

-- `max(0, min(position, 20000))`
abbrev pub clamp : ℤ → ℕ
clamp (pos n) = limit n
clamp (negsuc n) = 0

-- `max(0, min(position + direction, 20000))`, where the direction is up or down by one.
abbrev pub step_position : Bool → ℕ → ℕ
step_position true position = limit (position + 1)
step_position false position = limit (position - 1)

-- `abs(target - position)`
abbrev pub distance : ℕ → ℕ → ℕ
distance position target = (target - position) + (position - target)

-- Whether the target is reached or passed in the direction of the move.
abbrev pub is_reached : Bool → ℕ → ℕ → Bool
is_reached true target position = leb target position
is_reached false target position = leb position target

-- A command and the wait behind it: the command raised, no notification came in time, or one came.
pub data Answer : Type 0 where
  send_failed quiet : Answer
  update : ℤ → Answer

-- A turn of the single-step loop; `drift` is a notification that came in the pause in front of it.
pub record Turn : Type 0 where
  pub drift : Option ℤ
  pub answer : Answer

pub record Run : Type 0 where
  pub position : ℕ
  pub received_update : Bool
  pub has_raised : Bool

-- `_handle_focus_notification`, as far as the position goes.
abbrev pub notified : Option ℤ → ℕ → ℕ
notified none position = position
notified (some v) position = clamp v

-- `for _ in range(steps)` of `_simulate_focus_move`
unfoldable pub simulate_focus_move : ℕ → Bool → ℕ → ℕ
simulate_focus_move zero up position = position
simulate_focus_move (suc steps) up position =
    simulate_focus_move steps up (step_position up position)

-- `for _ in range(steps)` of `focuser_move`; `k` counts the turns.
unfoldable pub single_steps : ℕ → Bool → ℕ → (ℕ → Turn) → ℕ → ℕ → Bool → Run
single_steps zero up target turns k position received = record {
  position = position;
  received_update = received;
  has_raised = false;
}
single_steps (suc steps) up target turns k position received =
    let start = notified (turns k).drift position in
    let quiet_position = step_position up start in
    let quiet_rest = single_steps steps up target turns (k + 1) quiet_position true in
    elim (turns k).answer [
      | send_failed ↦ record { position = start; received_update = received; has_raised = true }
      | quiet ↦
          if is_reached up target quiet_position
          then record { position = quiet_position; received_update = true; has_raised = false }
          else quiet_rest
      | update v ↦
          let rest = single_steps steps up target turns (k + 1) (clamp v) true in
          if is_reached up target (clamp v)
          then record { position = clamp v; received_update = true; has_raised = false }
          else rest
    ]

-- `while True` of `focuser_move`, where the list holds the waits until the deadline: `none` for one
-- that timed out.
unfoldable pub continuous_waits : Bool → ℕ → List (Option ℤ) → ℕ → Bool → ℕ × Bool
continuous_waits up target [] position received = (position, received)
continuous_waits up target (none ∷ waits) position received =
    continuous_waits up target waits position received
continuous_waits up target (some v ∷ waits) position received =
    let rest = continuous_waits up target waits (clamp v) true in
    if is_reached up target (clamp v) then (clamp v, true) else rest

-- `for _ in range(max_iterations)` of `_focus_nudge_to_target`, whose errors its caller swallows.
unfoldable pub nudge_loop : ℕ → ℕ → ℕ → (ℕ → Answer) → ℕ → ℕ → ℕ
nudge_loop zero target tolerance answers k position = position
nudge_loop (suc iterations) target tolerance answers k position =
    let stepped = step_position (ltb position target) position in
    let quiet_rest = nudge_loop iterations target tolerance answers (k + 1) stepped in
    if leb (distance position target) tolerance then position else elim (answers k) [
      | send_failed ↦ position
      | quiet ↦ quiet_rest
      | update v ↦ nudge_loop iterations target tolerance answers (k + 1) (clamp v)
    ]

unfoldable pub focus_nudge_to_target : ℕ → ℕ → (ℕ → Answer) → ℕ → ℕ
unfolding nudge_loop
focus_nudge_to_target target tolerance answers position =
    nudge_loop 60 target tolerance answers 0 position
