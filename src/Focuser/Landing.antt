-- ===== src/Focuser/Landing.antt =====
-- Where a focus move of src/dwarf_alpaca/dwarf/session.py lands when no notification contradicts it.
use dwarf_alp.Prelude.{
  ℕ, zero, suc, ◌+◌, ◌-◌, ◌≤◌, ◌≡◌, refl, ◌∙◌, ap, Bool, true, false, none, some, arith, leb, ltb,
  ◌==◌, ◌||◌, if◌then◌else◌, Bool-cases, inl, inr,
}
use dwarf_alp.Prelude.Int.{ℤ, pos}
use dwarf_alp.Focuser.Moves.{limit, distance, quiet, Turn, Run, simulate_focus_move, single_steps}
use dwarf_alp.Focuser.Commands.{
  FocuserState, World, finish_move, settle_position, continuous_run, focuser_move,
}

-- The simulation steps exactly to the target, from where the session sets it.
simulate_up :
    (steps position : ℕ)
    → position + steps ≤ 20000
    → simulate_focus_move steps true position ≡ position + steps
unfolding simulate_focus_move
simulate_up zero position h = omega arith
simulate_up (suc steps) position h = ground (arith, simulate_up steps (position + 1))

simulate_down :
    (steps position : ℕ)
    → steps ≤ position
    → position ≤ 20000
    → simulate_focus_move steps false position ≡ position - steps
unfolding simulate_focus_move
simulate_down zero position h b = omega arith
simulate_down (suc steps) position h b = ground (arith, simulate_down steps (position - 1))

-- The steps of a simulated move end on its target, for every target and start between 0 and 20000.
pub simulation_lands :
    (start target : ℕ)
    → start ≤ 20000
    → target ≤ 20000
    → simulate_focus_move (distance start target) (ltb start target) start ≡ target
simulation_lands start target hs ht = elim (Bool-cases (ltb start target)) [
  | inl up ↦
      let size : distance start target ≡ target - start = ground arith in
      rw (up, size) (simulate_up (target - start) start (ground arith) ∙ ground arith)
  | inr down ↦
      let size : distance start target ≡ start - target = ground arith in
      rw (down, size) (simulate_down (start - target) start (omega arith) hs ∙ ground arith)
]

-- No notification comes during the move.
abbrev pub quiet_turns : ℕ → Turn
quiet_turns k = record { drift = none; answer = quiet }

single_steps_up :
    (steps position target k : ℕ) (received : Bool)
    → position + suc steps ≡ target
    → target ≤ 20000
    → single_steps (suc steps) true target quiet_turns k position received
      ≡ record { position = target; received_update = true; has_raised = false }
unfolding single_steps
single_steps_up zero position target k received e b = ground arith
single_steps_up (suc steps) position target k received e b =
    ground (arith, single_steps_up steps (position + 1) target (k + 1) true)

single_steps_down :
    (steps position target k : ℕ) (received : Bool)
    → target + suc steps ≡ position
    → position ≤ 20000
    → single_steps (suc steps) false target quiet_turns k position received
      ≡ record { position = target; received_update = true; has_raised = false }
unfolding single_steps
single_steps_down zero position target k received e b = ground arith
single_steps_down (suc steps) position target k received e b =
    ground (arith, single_steps_down steps (position - 1) target (k + 1) true)

single_steps_land :
    (start target : ℕ)
    → start ≤ 20000
    → target ≤ 20000
    → (distance start target == 0) ≡ false
    → single_steps (distance start target) (ltb start target) target quiet_turns 0 start false
      ≡ record { position = target; received_update = true; has_raised = false }
single_steps_land start target hs ht apart = elim (Bool-cases (ltb start target)) [
  | inl up ↦
      let size : distance start target ≡ suc (target - start - 1) = ground arith in
      rw (up, size) (single_steps_up (target - start - 1) start target 0 false (ground arith) ht)
  | inr down ↦
      let size : distance start target ≡ suc (start - target - 1) = ground arith in
      rw (down, size)
        (single_steps_down (start - target - 1) start target 0 false (ground arith) hs)
]

settle_target :
    (target : ℕ) (world : World)
    → target ≤ 20000
    → settle_position true target world
        (record { position = target; received_update = true; has_raised = false })
      ≡ target
unfolding settle_position
settle_target target world h = ground arith

finish_lands :
    (world : World) (target simulated : ℕ) (is_there : Bool) (run : Run) (settled : ℕ)
    (s : FocuserState)
    → world.simulation || world.ensures_ws ≡ true
    → (is_there ≡ true → s.position ≡ target)
    → (is_there ≡ false → run.has_raised ≡ false)
    → (is_there ≡ false → settled ≡ target)
    → finish_move is_there world target simulated run settled s
      ≡ (false, record s { position = target; is_moving = false })
unfolding finish_move
finish_lands world target simulated true run settled s on at ok_run ok_settled =
    ground (arith, at refl)
finish_lands world target simulated false run settled s on at ok_run ok_settled =
    ground (arith, ok_run refl, ok_settled refl)

-- `focuser_move` from the point on where its goal is known.
abbrev moved : World → FocuserState → ℕ → Bool → Bool × FocuserState
moved world s goal prefer =
    let steps = distance s.position goal in
    let up = ltb s.position goal in
    let run =
      if prefer
      then single_steps steps up goal world.turns 0 s.position false
      else continuous_run up goal world s.position in
    finish_move (steps == 0) world goal (simulate_focus_move steps up s.position) run
      (settle_position prefer goal world run) s

-- A move by single steps lands on its target, and is over, when the telescope is reached or simulated
-- and no notification comes meanwhile, for every start and target between 0 and 20000.
pub quiet_move_lands :
    (delta : ℤ) (target : ℕ) (world : World) (s : FocuserState)
    → s.position ≤ 20000
    → target ≤ 20000
    → world.turns ≡ quiet_turns
    → world.simulation || world.ensures_ws ≡ true
    → leb (distance s.position target) 10 || world.is_dwarf_mini ≡ true
    → focuser_move delta (some (pos target)) world s
      ≡ (false, record s { position = target; is_moving = false })
unfolding focuser_move
quiet_move_lands delta target world s hs ht still on single =
    let there : limit target ≡ target = ground arith in
    let steps = distance s.position target in
    let run = single_steps steps (ltb s.position target) target world.turns 0 s.position false in
    let lands : (steps == 0) ≡ false
        → run ≡ record { position = target; received_update = true; has_raised = false } =
      λ apart. rw still (single_steps_land s.position target hs ht apart) in
    ap (λ (goal : ℕ). moved world s goal (leb (distance s.position goal) 10 || world.is_dwarf_mini))
      there
    ∙ ap (moved world s target) single
    ∙ finish_lands world target (simulate_focus_move steps (ltb s.position target) s.position)
        (steps == 0) run (settle_position true target world run) s on (λ e. ground arith)
        (λ e. ap (λ (r : Run). r.has_raised) (lands e))
        (λ e. ap (settle_position true target world) (lands e) ∙ settle_target target world ht)
