-- ===== src/Goto/Commands.antt =====
-- The commands around a goto, `_start_goto_command`, `_start_one_click_goto_command`,
-- `_monitor_one_click_goto_response`, `telescope_abort_slew` and `wait_for_goto_completion` of
-- src/dwarf_alpaca/dwarf/session.py, cut where they await. What they do to the calibration status and
-- to tasks is left out.
use dwarf_alp.Prelude.{
  ℕ, Bool, true, false, not, ◌&&◌, Option, none, some, List, ◌==◌, if◌then◌else◌,
}
use dwarf_alp.Prelude.Int.{ℤ, pos, negsuc}
use dwarf_alp.Goto.State.{
  goto_kind_dso, GotoResult, simulated, failed, timeout, aborted, Reason, slew_aborted,
  one_click_response_timeout, one_click_response_error, one_click_code, GotoState,
  start_one_click_goto_dso, cancel_request, record_goto, resolve_goto, mark_goto_pending,
  cancel_goto,
}

-- How the response of a one-click goto comes: with a code, not in time, or as an error.
pub data Response : Type 0 where
  code : ℤ → Response
  not_in_time response_error : Response

-- `code != protocol_pb2.OK`
abbrev pub is_not_ok : ℤ → Bool
is_not_ok (pos n) = not (n == 0)
is_not_ok (negsuc n) = true

-- What `wait_for_goto_completion` returns first; `unset` is "unknown" in the source.
pub data WaitResult : Type 0 where
  returned : GotoResult → WaitResult
  unset : WaitResult
  no_goto : WaitResult

module _ {T C M : Type 0} where
  -- Behind the `await`, which confirmed the command.
  unfoldable pub start_goto_command : ℕ → T → List ℕ → GotoState T C M → GotoState T C M
  unfolding record_goto mark_goto_pending
  start_goto_command now target target_name s =
      mark_goto_pending now goto_kind_dso target_name
        (record (record_goto now target goto_kind_dso s) { one_click_goto_active = false })

  -- In front of the `await`.
  abbrev pub begin_one_click_goto : GotoState T C M → GotoState T C M
  begin_one_click_goto s = record s { one_click_goto_active = true }

  -- The `await` raised; `busy` tells whether with one of the codes that leave the goto active.
  unfoldable pub one_click_goto_failed : Bool → GotoState T C M → GotoState T C M
  one_click_goto_failed busy s = if busy then s else record s { one_click_goto_active = false }

  unfoldable pub one_click_goto_started : ℕ → T → List ℕ → GotoState T C M → GotoState T C M
  unfolding record_goto mark_goto_pending
  one_click_goto_started now target target_name s =
      record (mark_goto_pending now goto_kind_dso target_name
        (record_goto now target goto_kind_dso s)) { one_click_goto_active = true }

  unfoldable pub monitor_one_click_goto_response : ℕ → Response → GotoState T C M → GotoState T C M
  unfolding resolve_goto cancel_request
  monitor_one_click_goto_response now (code value) s =
      if is_not_ok value && s.one_click_goto_active
      then resolve_goto now failed (some (one_click_code value)) false s
      else s
  monitor_one_click_goto_response now not_in_time s =
      let s1 : GotoState T C M = record s {
        ws_client = cancel_request start_one_click_goto_dso s.ws_client;
      } in
      if s1.one_click_goto_active
      then resolve_goto now timeout (some one_click_response_timeout) false s1
      else s1
  monitor_one_click_goto_response now response_error s =
      if s.one_click_goto_active
      then resolve_goto now failed (some one_click_response_error) false s
      else s

  -- In front of the first `await`.
  unfoldable pub telescope_abort_slew : ℕ → GotoState T C M → GotoState T C M
  unfolding cancel_request cancel_goto
  telescope_abort_slew now s = cancel_goto now aborted (some slew_aborted) (
      if s.one_click_goto_active
      then record s { ws_client = cancel_request start_one_click_goto_dso s.ws_client }
      else s)

  -- `none` where the caller awaits the completion event.
  unfoldable pub wait_for_goto_completion : GotoState T C M → Option (WaitResult × Option Reason)
  wait_for_goto_completion s =
      if s.simulation
      then some (returned simulated, none)
      else if not s.goto_pending
      then some (elim s.goto_result [ none ↦ no_goto | some r ↦ returned r ], s.goto_reason)
      else none

  -- When the event is set.
  unfoldable pub goto_completed : GotoState T C M → WaitResult × Option Reason
  goto_completed s = (elim s.goto_result [ none ↦ unset | some r ↦ returned r ], s.goto_reason)
