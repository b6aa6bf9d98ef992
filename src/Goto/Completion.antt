-- ===== src/Goto/Completion.antt =====
-- How a goto ends, and what its caller gets: src/dwarf_alpaca/dwarf/session.py.
use dwarf_alp.Prelude.{
  ℕ, ◌≡◌, refl, ◌∙◌, Bool, true, false, Option, none, some, List, [], ◌∷◌, arith, Bool-cases, inl,
  inr,
}
use dwarf_alp.Prelude.Int.{ℤ}
use dwarf_alp.Goto.State.{
  goto_kind_dso, GotoResult, aborted, GotoState, resolve_goto, record_goto, drop_goto_record,
  mark_goto_pending, clear_goto, cancel_goto,
}
use dwarf_alp.Goto.Notify.{Tracking}
use dwarf_alp.Goto.Commands.{
  returned, goto_completed, start_goto_command, one_click_goto_started, one_click_goto_failed,
  telescope_abort_slew,
}
use dwarf_alp.Goto.Invariant.{IsGoto}
use dwarf_alp.Goto.Changes.{Change-result, goto_state-Change, one_click-Change, tracking-Change}
use dwarf_alp.Goto.Steps.{
  Parsers, GotoStep, simulates, starts, begins_one_click, one_click_fails, one_click_starts,
  responds, tells_goto, tells_one_click, tells_tracking, aborts, opens_client, client_moves,
}
use dwarf_alp.Goto.Keeps.{answered, answered_pending, monitor-Change}
use dwarf_alp.Goto.Notices.{
  Notice, IsSlewing, IsThere, some_running, tells_running, handle_notice, handle_notices,
  handle_notice-IsThere, handle_notice_quiet, handle_notice_running,
}

module _ {T C M : Type 0} where
  start-IsSlewing :
      (now : ℕ) (target : T) (name : List ℕ) (s : GotoState T C M)
      → s.simulation ≡ false
      → s.goto_pending ≡ false
      → IsSlewing target (start_goto_command now target name s)
  unfolding start_goto_command mark_goto_pending record_goto
  start-IsSlewing now target name s real idle = record {
    real = ground arith;
    pending = refl;
    of_kind = ground arith;
    aims_at = ground arith;
  }

module _ {T C M : Type 0} (parse_goto : List ℕ → Option ℤ)
    (parse_tracking : List ℕ → Option Tracking) where
  handle_notices-IsThere :
      (target : T) (notices : List Notice) (s : GotoState T C M)
      → IsThere target s
      → IsThere target (handle_notices parse_goto parse_tracking notices s)
  unfolding handle_notices
  handle_notices-IsThere target [] s v = v
  handle_notices-IsThere target (notice ∷ notices) s v =
      handle_notices-IsThere target notices (handle_notice parse_goto parse_tracking notice s)
        (handle_notice-IsThere parse_goto parse_tracking target notice s v)

  handle_notices_running :
      (target : T) (notices : List Notice) (s : GotoState T C M)
      → IsSlewing target s
      → some_running parse_tracking notices ≡ true
      → IsThere target (handle_notices parse_goto parse_tracking notices s)
  unfolding handle_notices
  handle_notices_running target [] s v runs = absurd (cc)
  handle_notices_running target (notice ∷ notices) s v runs =
      let t = handle_notice parse_goto parse_tracking notice s in
      elim (Bool-cases (tells_running parse_tracking notice)) [
        | inl now ↦
            handle_notices-IsThere target notices t
              (handle_notice_running parse_goto parse_tracking target notice s v now)
        | inr later ↦
            handle_notices_running target notices t
              (handle_notice_quiet parse_goto parse_tracking target notice s v later) (ground arith)
      ]

  -- A goto that is started on a real telescope while no other is pending succeeds, whatever
  -- notifications come, as soon as one of them says that tracking runs: it is no more pending, its
  -- event is set, and its target stays recorded.
  pub slew_completes :
      (now : ℕ) (target : T) (name : List ℕ) (notices : List Notice) (s : GotoState T C M)
      → s.simulation ≡ false
      → s.goto_pending ≡ false
      → some_running parse_tracking notices ≡ true
      → IsThere target
          (handle_notices parse_goto parse_tracking notices (start_goto_command now target name s))
  slew_completes now target name notices s real idle runs =
      handle_notices_running target notices (start_goto_command now target name s)
        (start-IsSlewing now target name s real idle) runs

-- The goto ended with a result, which its caller gets.
pub record HasEnded {T C M : Type 0} (s : GotoState T C M) : Type 0 where
  pub result : GotoResult
  pub caller_gets : goto_completed s ≡ (returned result, s.goto_reason)

module _ {T C M : Type 0} where
  ended : (s : GotoState T C M) → ((r : GotoResult) × (s.goto_result ≡ some r)) → HasEnded s
  unfolding goto_completed
  ended s (r, e) = record { result = r; caller_gets = ground arith }

  abort_result :
      (now : ℕ) (s : GotoState T C M)
      → s.goto_pending ≡ true
      → (telescope_abort_slew now s).goto_result ≡ some aborted
  unfolding telescope_abort_slew cancel_goto resolve_goto
  abort_result now s pending = ground arith

  start_pending :
      (now : ℕ) (target : T) (name : List ℕ) (s : GotoState T C M)
      → ((start_goto_command now target name s).goto_pending ≡ true)
        × ((one_click_goto_started now target name s).goto_pending ≡ true)
  unfolding start_goto_command one_click_goto_started mark_goto_pending
  start_pending now target name s = (refl, refl)

  record_goto_pending :
      (now : ℕ) (target : T) (s : GotoState T C M)
      → (record_goto now target goto_kind_dso s).goto_pending ≡ s.goto_pending
  unfolding record_goto
  record_goto_pending now target s = refl

  failed_pending :
      (busy : Bool) (s : GotoState T C M)
      → (one_click_goto_failed busy s).goto_pending ≡ s.goto_pending
  unfolding one_click_goto_failed
  failed_pending busy s = ground arith

  -- Whatever step leaves no goto pending where one was pending leaves a result for the caller that
  -- awaits the completion event. A goto that a new one supersedes is not meant here: the step that does
  -- so leaves the new one pending.
  pub pending_ends_with_result :
      (parsers : Parsers C M) (s t : GotoState T C M)
      → GotoStep parsers s t
      → s.goto_pending ≡ true
      → t.goto_pending ≡ false
      → HasEnded t
  pending_ends_with_result parsers s t (simulates now target on) p q =
      absurd (ground (arith, record_goto_pending now target s))
  pending_ends_with_result parsers s t (starts now target name) p q =
      absurd (ground (arith, (start_pending now target name s).0))
  pending_ends_with_result parsers s t begins_one_click p q = absurd (cc)
  pending_ends_with_result parsers s t (one_click_fails busy) p q =
      absurd (ground (arith, failed_pending busy s))
  pending_ends_with_result parsers s t (one_click_starts now target name) p q =
      absurd (ground (arith, (start_pending now target name s).1))
  pending_ends_with_result parsers s t (responds now response) p q = ended t (
      Change-result (answered response s) t (monitor-Change now response s)
        (answered_pending response s ∙ p) q)
  pending_ends_with_result parsers s t (tells_goto raw) p q =
      ended t (Change-result s t (goto_state-Change parsers.goto_state raw s) p q)
  pending_ends_with_result parsers s t (tells_one_click now raw) p q =
      ended t (Change-result s t (one_click-Change parsers.one_click parsers.strip now raw s) p q)
  pending_ends_with_result parsers s t (tells_tracking now raw) p q =
      ended t (Change-result s t (tracking-Change parsers.tracking now raw s) p q)
  pending_ends_with_result parsers s t (aborts now) p q = ended t (aborted, abort_result now s p)
  pending_ends_with_result parsers s t opens_client p q = absurd (cc)
  pending_ends_with_result parsers s t (client_moves c d e step) p q = absurd (cc)

-- No goto is pending or recorded, and nobody waits for one.
pub record IsClear {T C M : Type 0} (s : GotoState T C M) : Type 0 where
  pub none_pending : s.goto_pending ≡ false
  pub event_set : s.goto_completion_event ≡ true
  pub no_time : s.last_goto_time ≡ none

module _ {T C M : Type 0} where
  -- An abort, in every consistent state, leaves no goto pending and no goto recorded, and sets the event.
  pub abort_clears :
      (now : ℕ) (s : GotoState T C M) → IsGoto s → IsClear (telescope_abort_slew now s)
  unfolding telescope_abort_slew cancel_goto resolve_goto clear_goto drop_goto_record
  abort_clears now s v = record {
    none_pending = ground (arith, v.event_tells);
    event_set = ground (arith, v.event_tells);
    no_time = ground (arith, v.event_tells);
  }
