-- ===== src/Focuser/Endpoints.antt =====
-- The requests that move the focuser, src/dwarf_alpaca/devices/focuser.py, in front of the session.
use dwarf_alp.Prelude.{
  ℕ, suc, ◌+◌, ◌≡◌, ◌≤◌, refl, ◌∙◌, ap, Bool, true, false, not, ◌&&◌, some, arith, ◌==◌, ltb,
  if◌then◌else◌,
}
use dwarf_alp.Prelude.Int.{ℤ, pos, negsuc, sub_ℕ, ◌+ℤ◌}
use dwarf_alp.Focuser.Commands.{FocuserState, World, focuser_move}

-- `FocuserState` of the endpoints.
pub record Endpoint : Type 0 where
  pub connected : Bool
  pub position : ℕ
  pub is_moving : Bool
  pub max_step : ℕ
  pub max_increment : ℕ
  pub absolute : Bool

-- The values that the module sets; no request changes the last three.
abbrev pub endpoint_state : Endpoint
endpoint_state = record {
  connected = false;
  position = 0;
  is_moving = false;
  max_step = 20000;
  max_increment = 20000;
  absolute = true;
}

pub data Reply : Type 0 where
  done not_connected out_of_range exceeds_increment session_failed : Reply

-- `abs(z)`
abbrev pub magnitude : ℤ → ℕ
magnitude (pos n) = n
magnitude (negsuc n) = suc n

-- `target < 0 or target > max_step`
abbrev pub is_outside : ℤ → ℕ → Bool
is_outside (pos n) max_step = ltb max_step n
is_outside (negsuc n) max_step = true

-- `target - position`
abbrev pub delta_to : ℤ → ℕ → ℤ
delta_to (pos n) position = sub_ℕ n position
delta_to (negsuc n) position = negsuc (n + position)

-- `state.position = runtime.position` and so on.
unfoldable pub synchronised : FocuserState → Endpoint → Endpoint
synchronised s d = record d {
  position = s.position;
  is_moving = s.is_moving;
  connected = s.connected;
}

-- The session's move and what the endpoint copies behind it.
unfoldable pub run_move :
    ℤ → ℤ → World → FocuserState → Endpoint → Reply × (FocuserState × Endpoint)
unfolding focuser_move synchronised
run_move delta target world s d =
    let (raised, s1) = focuser_move delta (some target) world s in
    if raised
    then (session_failed, (s1, record d { is_moving = true }))
    else (done, (s1, synchronised s1 d))

unfoldable pub move : ℤ → World → FocuserState → Endpoint → Reply × (FocuserState × Endpoint)
unfolding run_move
move requested world s d =
    let d1 = synchronised s d in
    let target = if d.absolute then requested else pos s.position +ℤ requested in
    let delta = if d.absolute then delta_to requested s.position else requested in
    if not d.connected
    then (not_connected, (s, d))
    else if not d.absolute && ltb d.max_increment (magnitude delta)
    then (exceeds_increment, (s, d1))
    else if is_outside target d.max_step
    then (out_of_range, (s, d1))
    else if magnitude delta == 0
    then (done, (s, d1))
    else if not (d.max_increment == 0) && ltb d.max_increment (magnitude delta)
    then (exceeds_increment, (s, d1))
    else run_move delta target world s d1

unfoldable pub move_absolute :
    ℤ → World → FocuserState → Endpoint → Reply × (FocuserState × Endpoint)
unfolding run_move
move_absolute target world s d =
    let d1 = synchronised s d in
    let delta = delta_to target s.position in
    if not d.connected
    then (not_connected, (s, d))
    else if is_outside target d.max_step
    then (out_of_range, (s, d))
    else if magnitude delta == 0
    then (done, (s, d1))
    else run_move delta target world s d1

delta_small :
    (target : ℤ) (position max_step : ℕ)
    → position ≤ max_step
    → is_outside target max_step ≡ false
    → ltb max_step (magnitude (delta_to target position)) ≡ false
delta_small (pos n) position max_step h inside = ground arith
delta_small (negsuc n) position max_step h inside = absurd (cc)

-- The first and the second part of what a request gives.
abbrev pub reply_and_session : Reply × (FocuserState × Endpoint) → Reply × FocuserState
reply_and_session r = (r.0, r.1.0)

branches_agree :
    (connected outside still over : Bool) (s : FocuserState) (d d1 : Endpoint)
    (run : Reply × (FocuserState × Endpoint))
    → (outside ≡ false → over ≡ false)
    → reply_and_session (
        if not connected
        then (not_connected, (s, d))
        else if outside
        then (out_of_range, (s, d1))
        else if still
        then (done, (s, d1))
        else if over
        then (exceeds_increment, (s, d1))
        else run)
      ≡ reply_and_session (
          if not connected
          then (not_connected, (s, d))
          else if outside
          then (out_of_range, (s, d))
          else if still
          then (done, (s, d1))
          else run)
branches_agree false outside still over s d d1 run h = refl
branches_agree true true still over s d d1 run h = refl
branches_agree true false true over s d d1 run h = refl
branches_agree true false false over s d d1 run h = rw (h refl)

-- While moves are absolute and the largest increment is the largest step, which is how the module sets
-- them, the two move requests answer the same and do the same to the session, for every requested
-- position and every position of the session in range.
pub moves_agree :
    (requested : ℤ) (world : World) (s : FocuserState) (endpoint : Endpoint)
    → s.position ≤ endpoint.max_step
    → let d : Endpoint = record endpoint { max_increment = endpoint.max_step; absolute = true } in
      reply_and_session (move requested world s d)
      ≡ reply_and_session (move_absolute requested world s d)
unfolding move move_absolute
moves_agree requested world s endpoint h =
    let d : Endpoint = record endpoint { max_increment = endpoint.max_step; absolute = true } in
    let delta = delta_to requested s.position in
    branches_agree d.connected (is_outside requested d.max_step) (magnitude delta == 0)
      (not (d.max_step == 0) && ltb d.max_step (magnitude delta)) s d (synchronised s d)
      (run_move delta requested world s (synchronised s d))
      (λ inside.
        let small = delta_small requested s.position d.max_step h inside in
        ap (λ (b : Bool). not (d.max_step == 0) && b) small ∙ ground arith)
