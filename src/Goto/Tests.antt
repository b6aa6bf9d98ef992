-- ===== src/Goto/Tests.antt =====
-- Runs of the goto state and instances of its theorems. A target is a number, and a notification is a
-- byte that gives the state.
use dwarf_alp.Prelude.{ℕ, ◌≡◌, refl, true, false, Option, none, some, List, [], ◌∷◌}
use dwarf_alp.Prelude.Int.{ℤ, pos}
use dwarf_alp.Goto.State.{success, GotoState, mark_goto_pending, record_goto, resolve_goto}
use dwarf_alp.Goto.Notify.{Tracking, handle_tracking_state_notification}
use dwarf_alp.Goto.Commands.{start_goto_command, returned, goto_completed}
use dwarf_alp.Goto.Invariant.{IsGoto}
use dwarf_alp.Goto.Steps.{
  Parsers, starts, tells_tracking, GotoReach, here, next, initial_goto, reachable-IsGoto,
}
use dwarf_alp.Goto.Notices.{IsThere, Notice, goto_notice, tracking_notice, handle_notices}
use dwarf_alp.Goto.Completion.{slew_completes, HasEnded, pending_ends_with_result}
use dwarf_alp.Goto.Superseded.{IsLost, superseding_goto_hangs}

abbrev parse_goto : List ℕ → Option ℤ
parse_goto [] = none
parse_goto (byte ∷ rest) = some (pos byte)

abbrev parse_tracking : List ℕ → Option Tracking
parse_tracking [] = none
parse_tracking (byte ∷ rest) = some (record { state = pos byte; target_name = rest })

abbrev parsers : Parsers ℕ ℕ
parsers = record {
  response = λ cls raw. some cls;
  goto_state = parse_goto;
  one_click = λ raw. none;
  tracking = parse_tracking;
  strip = λ name. name;
}

abbrev start : GotoState ℕ ℕ ℕ
start = initial_goto parsers false

abbrev m31 : List ℕ
m31 = 77 ∷ 51 ∷ 49 ∷ []

abbrev slewing : GotoState ℕ ℕ ℕ
slewing = start_goto_command 100 31 m31 start

-- Running, plate solving, and then tracking.
abbrev notices : List Notice
notices =
    goto_notice (1 ∷ [])
    ∷ tracking_notice 101 (0 ∷ [])
    ∷ goto_notice (4 ∷ [])
    ∷ tracking_notice 130 (1 ∷ [])
    ∷ []

is_pending : slewing.goto_pending ≡ true
unfolding start_goto_command mark_goto_pending
is_pending = refl

ends_well :
    (goto_completed (handle_tracking_state_notification parse_tracking 130 (1 ∷ []) slewing)).0
    ≡ returned success
unfolding start_goto_command mark_goto_pending record_goto handle_tracking_state_notification
    resolve_goto goto_completed
ends_well = refl

abbrev slewing_reached : GotoReach parsers start slewing
slewing_reached = next here (starts 100 31 m31)

reachable-IsGoto_example : IsGoto slewing
reachable-IsGoto_example = reachable-IsGoto parsers false slewing slewing_reached

slew_completes_example : IsThere 31 (handle_notices parse_goto parse_tracking notices slewing)
slew_completes_example =
    slew_completes parse_goto parse_tracking 100 31 m31 notices start refl refl refl

superseding_goto_hangs_example :
    IsLost
      (handle_notices parse_goto parse_tracking notices (start_goto_command 110 42 m31 slewing))
superseding_goto_hangs_example =
    superseding_goto_hangs parse_goto parse_tracking 110 42 m31 notices slewing is_pending

over : (handle_tracking_state_notification parse_tracking 130 (1 ∷ []) slewing).goto_pending ≡ false
unfolding start_goto_command mark_goto_pending record_goto handle_tracking_state_notification
    resolve_goto
over = refl

pending_ends_with_result_example :
    HasEnded (handle_tracking_state_notification parse_tracking 130 (1 ∷ []) slewing)
pending_ends_with_result_example =
    pending_ends_with_result parsers slewing
      (handle_tracking_state_notification parse_tracking 130 (1 ∷ []) slewing)
      (tells_tracking 130 (1 ∷ [])) is_pending over
