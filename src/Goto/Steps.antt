-- ===== src/Goto/Steps.antt =====
-- Every interleaving of what happens to the goto state of a session, src/dwarf_alpaca/dwarf/session.py,
-- and to its websocket client.
use dwarf_alp.Prelude.{ℕ, ◌≡◌, refl, subst, Bool, true, false, Option, none, some, List}
use dwarf_alp.Prelude.Int.{ℤ}
use dwarf_alp.Ws.Client.{Client}
use dwarf_alp.Ws.Invariant.{IsConsistent}
use dwarf_alp.Ws.Steps.{Step, Step-IsConsistent, initial, initial-IsConsistent}
use dwarf_alp.Goto.State.{goto_kind_dso, GotoState, record_goto}
use dwarf_alp.Goto.Notify.{
  Tracking, OneClickState, handle_goto_state_notification, handle_one_click_goto_state_notification,
  handle_tracking_state_notification,
}
use dwarf_alp.Goto.Commands.{
  Response, start_goto_command, begin_one_click_goto, one_click_goto_failed, one_click_goto_started,
  monitor_one_click_goto_response, telescope_abort_slew,
}
use dwarf_alp.Goto.Invariant.{IsGoto, IsConsistentClient, record-IsGoto, active-IsGoto}
use dwarf_alp.Goto.Changes.{Change-IsGoto, goto_state-Change, one_click-Change, tracking-Change}
use dwarf_alp.Goto.Keeps.{
  answered, monitor-Change, answered-IsGoto, abort-IsGoto, start-IsGoto, one_click_started-IsGoto,
}

-- The parsers of the four kinds of packets, and `str.strip`.
pub record Parsers (C M : Type 0) : Type 0 where
  pub response : C → List ℕ → Option M
  pub goto_state : List ℕ → Option ℤ
  pub one_click : List ℕ → Option (Option OneClickState)
  pub tracking : List ℕ → Option Tracking
  pub strip : List ℕ → List ℕ

module _ {T C M : Type 0} (parsers : Parsers C M) where
  pub data GotoStep (s : GotoState T C M) : GotoState T C M → Type 0 where
    simulates :
        (now : ℕ) (target : T)
        → s.simulation ≡ true
        → GotoStep s (record_goto now target goto_kind_dso s)
    starts :
        (now : ℕ) (target : T) (name : List ℕ) → GotoStep s (start_goto_command now target name s)
    begins_one_click : GotoStep s (begin_one_click_goto s)
    one_click_fails : (busy : Bool) → GotoStep s (one_click_goto_failed busy s)
    one_click_starts :
        (now : ℕ) (target : T) (name : List ℕ)
        → GotoStep s (one_click_goto_started now target name s)
    responds :
        (now : ℕ) (response : Response)
        → GotoStep s (monitor_one_click_goto_response now response s)
    tells_goto :
        (raw : List ℕ) → GotoStep s (handle_goto_state_notification parsers.goto_state raw s)
    tells_one_click :
        (now : ℕ) (raw : List ℕ)
        → GotoStep s
            (handle_one_click_goto_state_notification parsers.one_click parsers.strip now raw s)
    tells_tracking :
        (now : ℕ) (raw : List ℕ)
        → GotoStep s (handle_tracking_state_notification parsers.tracking now raw s)
    aborts : (now : ℕ) → GotoStep s (telescope_abort_slew now s)
    opens_client : GotoStep s (record s { ws_client = some (initial parsers.response) })
    client_moves :
        (c d : Client C M)
        → s.ws_client ≡ some c
        → Step parsers.response c d
        → GotoStep s (record s { ws_client = some d })

  pub data GotoReach (s : GotoState T C M) : GotoState T C M → Type 0 where
    here : GotoReach s s
    next : {t u : GotoState T C M} → GotoReach s t → GotoStep t u → GotoReach s u

  client-IsGoto :
      (s : GotoState T C M) (d : Client C M)
      → IsGoto s
      → IsConsistent d
      → IsGoto (record s { ws_client = some d })
  client-IsGoto s d v w = record {
    event_tells = v.event_tells;
    only_pending_waits = v.only_pending_waits;
    only_pending_timed = v.only_pending_timed;
    client = w;
  }

  failed-IsGoto :
      (busy : Bool) (s : GotoState T C M) → IsGoto s → IsGoto (one_click_goto_failed busy s)
  unfolding one_click_goto_failed
  failed-IsGoto true s v = v
  failed-IsGoto false s v = active-IsGoto false s v

  pub GotoStep-IsGoto : {s t : GotoState T C M} → GotoStep s t → IsGoto s → IsGoto t
  GotoStep-IsGoto {s} (simulates now target on) v = record-IsGoto now target goto_kind_dso s v
  GotoStep-IsGoto {s} (starts now target name) v = start-IsGoto now target name s v
  GotoStep-IsGoto {s} begins_one_click v = active-IsGoto true s v
  GotoStep-IsGoto {s} (one_click_fails busy) v = failed-IsGoto busy s v
  GotoStep-IsGoto {s} (one_click_starts now target name) v =
      one_click_started-IsGoto now target name s v
  GotoStep-IsGoto {s} (responds now response) v =
      Change-IsGoto (answered response s) _ (monitor-Change now response s)
        (answered-IsGoto response s v)
  GotoStep-IsGoto {s} (tells_goto raw) v =
      Change-IsGoto s _ (goto_state-Change parsers.goto_state raw s) v
  GotoStep-IsGoto {s} (tells_one_click now raw) v =
      Change-IsGoto s _ (one_click-Change parsers.one_click parsers.strip now raw s) v
  GotoStep-IsGoto {s} (tells_tracking now raw) v =
      Change-IsGoto s _ (tracking-Change parsers.tracking now raw s) v
  GotoStep-IsGoto {s} (aborts now) v = abort-IsGoto now s v
  GotoStep-IsGoto {s} opens_client v =
      client-IsGoto s (initial parsers.response) v (initial-IsConsistent parsers.response)
  GotoStep-IsGoto {s} (client_moves c d e step) v =
      client-IsGoto s d v
        (Step-IsConsistent parsers.response step (subst IsConsistentClient e v.client))

  -- `__init__`
  abbrev pub initial_goto : Bool → GotoState T C M
  initial_goto simulation = record {
    simulation = simulation;
    last_goto_time = none;
    last_goto_target = none;
    last_goto_kind = none;
    goto_completion_event = true;
    goto_result = none;
    goto_reason = none;
    goto_pending = false;
    goto_waiting_for_tracking = false;
    goto_target_name = none;
    goto_start_time = none;
    one_click_goto_active = false;
    ws_client = none;
  }

  -- After any interleaving of commands, notifications, responses, aborts and steps of the websocket
  -- client, the completion event is set exactly when no goto is pending, so that a caller never waits
  -- for a goto that is over; only a pending goto waits for tracking or has a start time; and the
  -- client's tables are consistent.
  pub reachable-IsGoto :
      (simulation : Bool) (s : GotoState T C M) → GotoReach (initial_goto simulation) s → IsGoto s
  reachable-IsGoto simulation s here = record {
    event_tells = refl;
    only_pending_waits = refl;
    only_pending_timed = λ _. refl;
    client = tt;
  }
  reachable-IsGoto simulation s (next {t} r step) =
      GotoStep-IsGoto step (reachable-IsGoto simulation t r)
