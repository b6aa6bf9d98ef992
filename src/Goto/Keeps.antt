-- ===== src/Goto/Keeps.antt =====
-- The commands around a goto, src/dwarf_alpaca/dwarf/session.py, keep the invariant of its state.
use dwarf_alp.Prelude.{
  ℕ, ◌≡◌, refl, Bool, true, false, ◌&&◌, Option, some, List, arith, Bool-cases, inl, inr,
  if◌then◌else◌,
}
use dwarf_alp.Goto.State.{
  goto_kind_dso, GotoResult, Reason, needs_no_goto, failed, timeout, aborted, slew_aborted,
  one_click_response_error, one_click_response_timeout, one_click_code, GotoState,
  start_one_click_goto_dso, cancel_request, record_goto, mark_goto_pending, resolve_goto,
  cancel_goto,
}
use dwarf_alp.Goto.Commands.{
  Response, code, not_in_time, response_error, is_not_ok, start_goto_command,
  one_click_goto_started, monitor_one_click_goto_response, telescope_abort_slew,
}
use dwarf_alp.Goto.Invariant.{
  IsGoto, carry, record-IsGoto, active-IsGoto, mark-IsGoto, cancel-IsGoto, cancel_goto-IsGoto,
}
use dwarf_alp.Goto.Changes.{Change, stays, resolves}

module _ {T C M : Type 0} where
  resolve-Change :
      (now : ℕ) (result : GotoResult) (reason : Option Reason) (keep_record : Bool)
      (s : GotoState T C M)
      → needs_no_goto result ≡ false
      → Change s (resolve_goto now result reason keep_record s)
  unfolding resolve_goto
  resolve-Change now result reason keep_record s needs = elim (Bool-cases s.goto_pending) [
    | inl pending ↦ resolves now result reason keep_record pending refl
    | inr over ↦ stays (ground arith)
  ]

  if-Change : (b : Bool) (s t : GotoState T C M) → Change s t → Change s (if b then t else s)
  if-Change true s t c = c
  if-Change false s t c = stays refl

  -- The state in which the monitor decides.
  abbrev pub answered : Response → GotoState T C M → GotoState T C M
  answered (code value) s = s
  answered not_in_time s = record s {
    ws_client = cancel_request start_one_click_goto_dso s.ws_client;
  }
  answered response_error s = s

  pub monitor-Change :
      (now : ℕ) (response : Response) (s : GotoState T C M)
      → Change (answered response s) (monitor_one_click_goto_response now response s)
  unfolding monitor_one_click_goto_response
  monitor-Change now (code value) s =
      if-Change (is_not_ok value && s.one_click_goto_active) s _
        (resolve-Change now failed (some (one_click_code value)) false s refl)
  monitor-Change now not_in_time s =
      let s1 = answered not_in_time s in
      if-Change s1.one_click_goto_active s1 _
        (resolve-Change now timeout (some one_click_response_timeout) false s1 refl)
  monitor-Change now response_error s =
      if-Change s.one_click_goto_active s _
        (resolve-Change now failed (some one_click_response_error) false s refl)

  pub answered-IsGoto :
      (response : Response) (s : GotoState T C M) → IsGoto s → IsGoto (answered response s)
  answered-IsGoto (code value) s v = v
  answered-IsGoto not_in_time s v = cancel-IsGoto start_one_click_goto_dso s v
  answered-IsGoto response_error s v = v

  pub answered_pending :
      (response : Response) (s : GotoState T C M)
      → (answered response s).goto_pending ≡ s.goto_pending
  answered_pending (code value) s = refl
  answered_pending not_in_time s = refl
  answered_pending response_error s = refl

  pub abort-IsGoto :
      (now : ℕ) (s : GotoState T C M) → IsGoto s → IsGoto (telescope_abort_slew now s)
  unfolding telescope_abort_slew
  abort-IsGoto now s v = elim (Bool-cases s.one_click_goto_active) [
    | inl active ↦
        let s1 : GotoState T C M = record s {
          ws_client = cancel_request start_one_click_goto_dso s.ws_client;
        } in
        carry {s = cancel_goto now aborted (some slew_aborted) s1} (ground arith) (
          cancel_goto-IsGoto now aborted (some slew_aborted) s1
            (cancel-IsGoto start_one_click_goto_dso s v))
    | inr inactive ↦
        carry {s = cancel_goto now aborted (some slew_aborted) s} (ground arith)
          (cancel_goto-IsGoto now aborted (some slew_aborted) s v)
  ]

  pub start-IsGoto :
      (now : ℕ) (target : T) (name : List ℕ) (s : GotoState T C M)
      → IsGoto s
      → IsGoto (start_goto_command now target name s)
  unfolding start_goto_command
  start-IsGoto now target name s v =
      let s1 = record_goto now target goto_kind_dso s in
      mark-IsGoto now goto_kind_dso name (record s1 { one_click_goto_active = false })
        (active-IsGoto false s1 (record-IsGoto now target goto_kind_dso s v))

  pub one_click_started-IsGoto :
      (now : ℕ) (target : T) (name : List ℕ) (s : GotoState T C M)
      → IsGoto s
      → IsGoto (one_click_goto_started now target name s)
  unfolding one_click_goto_started
  one_click_started-IsGoto now target name s v =
      let s1 = record_goto now target goto_kind_dso s in
      active-IsGoto true (mark_goto_pending now goto_kind_dso name s1)
        (mark-IsGoto now goto_kind_dso name s1 (record-IsGoto now target goto_kind_dso s v))
