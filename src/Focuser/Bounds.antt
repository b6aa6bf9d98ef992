-- ===== src/Focuser/Bounds.antt =====
-- The focus position of src/dwarf_alpaca/dwarf/session.py stays between 0 and 20000.
use dwarf_alp.Prelude.{
  ℕ, zero, suc, ◌+◌, ◌-◌, ◌≤◌, ◌≡◌, Bool, true, false, Option, none, some, List, [], ◌∷◌, arith,
  leb, ltb, if◌then◌else◌, inl, inr, ◌⊎◌, ◌==◌, not, ◌&&◌, refl, ◌||◌,
}
use dwarf_alp.Prelude.Int.{ℤ, pos, negsuc, ◌+ℤ◌}
use dwarf_alp.Focuser.Moves.{
  limit, clamp, step_position, distance, is_reached, Answer, send_failed, quiet, update, Turn, Run,
  notified, simulate_focus_move, single_steps, continuous_waits, nudge_loop, focus_nudge_to_target,
}
use dwarf_alp.Focuser.Commands.{
  FocuserState, World, handle_focus_notification, focuser_connect, focuser_disconnect, focuser_halt,
  continuous_run, settle_position, finish_move, focuser_move,
}

limit_bound : (n : ℕ) → limit n ≤ 20000
limit_bound n = ground arith

clamp_bound : (z : ℤ) → clamp z ≤ 20000
clamp_bound (pos n) = limit_bound n
clamp_bound (negsuc n) = omega arith

step_bound : (up : Bool) (n : ℕ) → step_position up n ≤ 20000
step_bound true n = limit_bound (n + 1)
step_bound false n = limit_bound (n - 1)

notified_bound : (drift : Option ℤ) (n : ℕ) → n ≤ 20000 → notified drift n ≤ 20000
notified_bound none n h = h
notified_bound (some v) n h = clamp_bound v

pub Answer-cases : (a : Answer) → (a ≡ send_failed) ⊎ ((a ≡ quiet) ⊎ ((v : ℤ) × (a ≡ update v)))
Answer-cases send_failed = inl refl
Answer-cases quiet = inr (inl refl)
Answer-cases (update v) = inr (inr (v, refl))

if_bound :
    (b : Bool) (x y : Run)
    → x.position ≤ 20000
    → y.position ≤ 20000
    → (if b then x else y).position ≤ 20000
if_bound true x y p q = p
if_bound false x y p q = q

single_steps_bound :
    (steps : ℕ) (up : Bool) (target : ℕ) (turns : ℕ → Turn) (k position : ℕ) (received : Bool)
    → position ≤ 20000
    → (single_steps steps up target turns k position received).position ≤ 20000
unfolding single_steps
single_steps_bound zero up target turns k position received h = h
single_steps_bound (suc steps) up target turns k position received h =
    let start = notified (turns k).drift position in
    let stepped = step_position up start in
    elim (Answer-cases (turns k).answer) [
      | inl e ↦ rw (single_steps, e) (notified_bound (turns k).drift position h)
      | inr (inl e) ↦
          rw (single_steps, e)
            (if_bound (is_reached up target stepped) _ _ (step_bound up start)
              (single_steps_bound steps up target turns (k + 1) stepped true (step_bound up start)))
      | inr (inr (v, e)) ↦
          rw (single_steps, e)
            (if_bound (is_reached up target (clamp v)) _ _ (clamp_bound v)
              (single_steps_bound steps up target turns (k + 1) (clamp v) true (clamp_bound v)))
    ]

continuous_waits_bound :
    (up : Bool) (target : ℕ) (waits : List (Option ℤ)) (position : ℕ) (received : Bool)
    → position ≤ 20000
    → (continuous_waits up target waits position received).0 ≤ 20000
unfolding continuous_waits
continuous_waits_bound up target [] position received h = h
continuous_waits_bound up target (none ∷ waits) position received h =
    continuous_waits_bound up target waits position received h
continuous_waits_bound up target (some v ∷ waits) position received h =
    ground
      (arith, clamp_bound v, continuous_waits_bound up target waits (clamp v) true (clamp_bound v))

nudge_bound :
    (iterations target tolerance : ℕ) (answers : ℕ → Answer) (k position : ℕ)
    → position ≤ 20000
    → nudge_loop iterations target tolerance answers k position ≤ 20000
unfolding nudge_loop
nudge_bound zero target tolerance answers k position h = h
nudge_bound (suc iterations) target tolerance answers k position h =
    let stepped = step_position (ltb position target) position in
    elim (Answer-cases (answers k)) [
      | inl e ↦ ground (arith)
      | inr (inl e) ↦ ground (
        arith,
        nudge_bound iterations target tolerance answers (k + 1) stepped
            (step_bound (ltb position target) position),
      )
      | inr (inr (v, e)) ↦
          ground (
            arith,
            nudge_bound iterations target tolerance answers (k + 1) (clamp v) (clamp_bound v),
          )
    ]

continuous_run_bound :
    (up : Bool) (target : ℕ) (world : World) (position : ℕ)
    → position ≤ 20000
    → (continuous_run up target world position).position ≤ 20000
unfolding continuous_run
continuous_run_bound up target world position h =
    let start = notified world.start.drift position in
    let hs = notified_bound world.start.drift position h in
    let hw = continuous_waits_bound up target world.waits start false hs in
    elim (Answer-cases world.stop) [
      | inl e ↦ ground (arith, hs, hw)
      | inr (inl e) ↦ ground (arith, hs, hw)
      | inr (inr (v, e)) ↦ ground (arith, hs, hw, clamp_bound v)
    ]

if_le : (b : Bool) (x y : ℕ) → x ≤ 20000 → y ≤ 20000 → (if b then x else y) ≤ 20000
if_le true x y p q = p
if_le false x y p q = q

settle_bound :
    (prefer : Bool) (target : ℕ) (world : World) (run : Run)
    → settle_position prefer target world run ≤ 20000
unfolding settle_position
settle_bound prefer target world run =
    let position = limit (if run.received_update then run.position else target) in
    let nudged = focus_nudge_to_target target world.tolerance world.nudges position in
    if_le (not prefer && ltb 0 world.tolerance && ltb world.tolerance (distance position target))
      (limit nudged) position (limit_bound nudged)
      (limit_bound (if run.received_update then run.position else target))

finish_move_bound :
    (is_there : Bool) (world : World) (goal simulated : ℕ) (run : Run) (settled : ℕ)
    (s : FocuserState)
    → s.position ≤ 20000
    → goal ≤ 20000
    → run.position ≤ 20000
    → settled ≤ 20000
    → (finish_move is_there world goal simulated run settled s).1.position ≤ 20000
unfolding finish_move
finish_move_bound is_there world goal simulated run settled s h hg hr hs = ground arith

focuser_move_bound :
    (delta : ℤ) (target : Option ℤ) (world : World) (s : FocuserState)
    → s.position ≤ 20000
    → (focuser_move delta target world s).1.position ≤ 20000
unfolding focuser_move
focuser_move_bound delta target world s h =
    let wanted : ℤ = elim target [ none ↦ pos s.position +ℤ delta | some t ↦ t ] in
    let goal = clamp wanted in
    let steps = distance s.position goal in
    let up = ltb s.position goal in
    let prefer = leb steps 10 || world.is_dwarf_mini in
    let single = single_steps steps up goal world.turns 0 s.position false in
    let continuous = continuous_run up goal world s.position in
    let run = if prefer then single else continuous in
    let run_bound =
      if_bound prefer single continuous
        (single_steps_bound steps up goal world.turns 0 s.position false h)
        (continuous_run_bound up goal world s.position h) in
    finish_move_bound (steps == 0) world goal (simulate_focus_move steps up s.position) run
      (settle_position prefer goal world run) s h (clamp_bound wanted) run_bound
      (settle_bound prefer goal world run)

-- Every focus command and every notification keeps the position between 0 and 20000, whatever the
-- telescope does and whether the command raises or not.
pub position_bound :
    (delta : ℤ) (target : Option ℤ) (told : ℤ) (world : World) (s : FocuserState)
    → s.position ≤ 20000
    → ((focuser_move delta target world s).1.position ≤ 20000)
      × ((focuser_connect world s).1.position ≤ 20000)
      × ((focuser_disconnect world s).1.position ≤ 20000)
      × ((focuser_halt world s).1.position ≤ 20000)
      × ((handle_focus_notification told s).position ≤ 20000)
unfolding focuser_move focuser_connect focuser_disconnect focuser_halt handle_focus_notification
position_bound delta target told world s h = (
  focuser_move_bound delta target world s h,
  ground (arith, notified_bound world.infinity_pos s.position h),
  ground arith,
  ground arith,
  clamp_bound told,
)
