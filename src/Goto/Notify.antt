-- ===== src/Goto/Notify.antt =====
-- The notifications that a pending goto waits for: `_handle_goto_state_notification`,
-- `_handle_one_click_goto_state_notification` and `_handle_tracking_state_notification` of
-- src/dwarf_alpaca/dwarf/session.py. Protobuf's parsers and `str.strip` are parameters.
use dwarf_alp.Prelude.{
  ℕ, Bool, true, false, not, ◌&&◌, ◌||◌, Option, none, some, List, [], ◌∷◌, ◌==◌, leb,
  if◌then◌else◌,
}
use dwarf_alp.Prelude.Int.{ℤ, pos, negsuc}
use dwarf_alp.Goto.State.{
  success, one_click_tracking_running, tracking_running, GotoState, or_none, is_dso, resolve_goto,
}

-- `_AstroState`
pub data AstroState : Type 0 where
  astro_idle astro_running astro_stopping astro_stopped plate_solving : AstroState

-- `_AstroState(value)`, where `none` is its `ValueError`.
abbrev pub astro_state : ℤ → Option AstroState
astro_state (negsuc n) = none
astro_state (pos n) =
    if n == 0
    then some astro_idle
    else if n == 1
    then some astro_running
    else if n == 2
    then some astro_stopping
    else if n == 3
    then some astro_stopped
    else if n == 4
    then some plate_solving
    else none

abbrev pub is_moving : AstroState → Bool
is_moving astro_idle = false
is_moving astro_running = true
is_moving astro_stopping = true
is_moving astro_stopped = false
is_moving plate_solving = true

-- `_OperationState`
pub data OperationState : Type 0 where
  idle running stopping stopped : OperationState

abbrev pub operation_state : ℤ → Option OperationState
operation_state (negsuc n) = none
operation_state (pos n) =
    if n == 0
    then some idle
    else if n == 1
    then some running
    else if n == 2
    then some stopping
    else if n == 3
    then some stopped
    else none

-- `ResNotifyStateAstroTracking`
pub record Tracking : Type 0 where
  pub state : ℤ
  pub target_name : List ℕ

-- The `current_state` of an `OneClickGotoState`.
pub data OneClickState : Type 0 where
  astro_auto_focus_state astro_calibration_state : ℤ → OneClickState
  astro_goto_state astro_tracking_state : ℤ → List ℕ → OneClickState

-- `phase == "tracking" and state_value == 1`
abbrev pub is_value_one : ℤ → Bool
is_value_one (pos n) = n == 1
is_value_one (negsuc n) = false

-- `state_value in {1, 2, 3, 4}`
abbrev pub is_active_value : ℤ → Bool
is_active_value (pos n) = leb 1 n && leb n 4
is_active_value (negsuc n) = false

module _ {T C M : Type 0} where
  unfoldable pub handle_goto_state_notification :
      (List ℕ → Option ℤ) → List ℕ → GotoState T C M → GotoState T C M
  handle_goto_state_notification parse [] s = s
  handle_goto_state_notification parse (byte ∷ rest) s =
      if s.simulation
      then s
      else if not s.goto_pending || not (is_dso s.last_goto_kind)
      then s
      else elim (parse (byte ∷ rest)) [
        | none ↦ s
        | some state_value ↦ elim (astro_state state_value) [
          | none ↦ s
          | some state ↦
              if is_moving state then record s { goto_waiting_for_tracking = true } else s
        ]
      ]

  -- The two last tests of the one-click handler.
  abbrev pub one_click_phase :
      (List ℕ → List ℕ) → ℕ → OneClickState → GotoState T C M → GotoState T C M
  one_click_phase strip now (astro_auto_focus_state v) s =
      if is_active_value v then record s { goto_waiting_for_tracking = true } else s
  one_click_phase strip now (astro_calibration_state v) s =
      if is_active_value v then record s { goto_waiting_for_tracking = true } else s
  one_click_phase strip now (astro_goto_state v name) s =
      if is_active_value v then record s { goto_waiting_for_tracking = true } else s
  one_click_phase strip now (astro_tracking_state v name) s =
      let target_name : Option (List ℕ) = elim (or_none (strip name)) [
        | none ↦ s.goto_target_name
        | some n ↦ some n
      ] in
      if is_value_one v
      then resolve_goto now success (some (one_click_tracking_running target_name)) true s
      else s

  unfoldable pub handle_one_click_goto_state_notification :
      (List ℕ → Option (Option OneClickState))
      → (List ℕ → List ℕ)
      → ℕ
      → List ℕ
      → GotoState T C M
      → GotoState T C M
  unfolding resolve_goto
  handle_one_click_goto_state_notification parse strip now [] s = s
  handle_one_click_goto_state_notification parse strip now (byte ∷ rest) s =
      elim (parse (byte ∷ rest)) [
        | none ↦ s
        | some current_state ↦ elim current_state [
          | none ↦ s
          | some phase_state ↦
              if not s.goto_pending || not s.one_click_goto_active
              then s
              else one_click_phase strip now phase_state s
        ]
      ]

  unfoldable pub handle_tracking_state_notification :
      (List ℕ → Option Tracking) → ℕ → List ℕ → GotoState T C M → GotoState T C M
  unfolding resolve_goto
  handle_tracking_state_notification parse now [] s = s
  handle_tracking_state_notification parse now (byte ∷ rest) s =
      if s.simulation then s else elim (parse (byte ∷ rest)) [
        | none ↦ s
        | some message ↦ elim (operation_state message.state) [
          | none ↦ s
          | some state ↦
              if not s.goto_pending || not (is_dso s.last_goto_kind) then s else elim state [
                | idle ↦ s
                | running ↦
                    resolve_goto now success (some (tracking_running (or_none message.target_name)))
                      true s
                | stopping ↦ s
                | stopped ↦ s
              ]
        ]
      ]
