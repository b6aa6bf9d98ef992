-- ===== src/Goto/Notices.antt =====
-- Sequences of the notifications that a goto waits for, src/dwarf_alpaca/dwarf/session.py.
use dwarf_alp.Prelude.{
  ℕ, ◌≡◌, subst, Bool, true, false, ◌||◌, Option, none, some, List, [], ◌∷◌, arith,
}
use dwarf_alp.Prelude.Int.{ℤ}
use dwarf_alp.Goto.State.{goto_kind_dso, success, GotoState, resolve_goto}
use dwarf_alp.Goto.Notify.{
  Tracking, OperationState, idle, running, stopping, stopped, operation_state,
  handle_goto_state_notification, handle_tracking_state_notification,
}

abbrev is_running : OperationState → Bool
is_running idle = false
is_running running = true
is_running stopping = false
is_running stopped = false

-- The notifications of a goto that is no one-click goto, with the time at which they come.
pub data Notice : Type 0 where
  goto_notice : List ℕ → Notice
  tracking_notice : ℕ → List ℕ → Notice

-- A goto to the target is under way.
pub record IsSlewing {T C M : Type 0} (target : T) (s : GotoState T C M) : Type 0 where
  pub real : s.simulation ≡ false
  pub pending : s.goto_pending ≡ true
  pub of_kind : s.last_goto_kind ≡ some goto_kind_dso
  pub aims_at : s.last_goto_target ≡ some target

-- A goto to the target has succeeded, and its record was kept.
pub record IsThere {T C M : Type 0} (target : T) (s : GotoState T C M) : Type 0 where
  pub over : s.goto_pending ≡ false
  pub event_set : s.goto_completion_event ≡ true
  pub succeeded : s.goto_result ≡ some success
  pub aimed_at : s.last_goto_target ≡ some target
  pub kept_kind : s.last_goto_kind ≡ some goto_kind_dso

module _ (parse_tracking : List ℕ → Option Tracking) where
  -- Whether a notification says that tracking runs.
  abbrev pub tells_running : Notice → Bool
  tells_running (goto_notice raw) = false
  tells_running (tracking_notice now []) = false
  tells_running (tracking_notice now (byte ∷ rest)) = elim (parse_tracking (byte ∷ rest)) [
    | none ↦ false
    | some message ↦ elim (operation_state message.state) [
      | none ↦ false
      | some state ↦ is_running state
    ]
  ]

  abbrev pub some_running : List Notice → Bool
  some_running [] = false
  some_running (notice ∷ notices) = tells_running notice || some_running notices

module _ {T C M : Type 0} (parse_goto : List ℕ → Option ℤ)
    (parse_tracking : List ℕ → Option Tracking) where
  unfoldable pub handle_notice : Notice → GotoState T C M → GotoState T C M
  handle_notice (goto_notice raw) s = handle_goto_state_notification parse_goto raw s
  handle_notice (tracking_notice now raw) s =
      handle_tracking_state_notification parse_tracking now raw s

  unfoldable pub handle_notices : List Notice → GotoState T C M → GotoState T C M
  handle_notices [] s = s
  handle_notices (notice ∷ notices) s = handle_notices notices (handle_notice notice s)

  pub handle_notice-IsThere :
      (target : T) (notice : Notice) (s : GotoState T C M)
      → IsThere target s
      → IsThere target (handle_notice notice s)
  unfolding handle_notice handle_goto_state_notification handle_tracking_state_notification
  handle_notice-IsThere target (goto_notice []) s v = v
  handle_notice-IsThere target (goto_notice (byte ∷ rest)) s v =
      subst (IsThere target) (ground (arith, v.over)) v
  handle_notice-IsThere target (tracking_notice now []) s v = v
  handle_notice-IsThere target (tracking_notice now (byte ∷ rest)) s v =
      subst (IsThere target) (ground (arith, v.over)) v

  pub handle_notice_quiet :
      (target : T) (notice : Notice) (s : GotoState T C M)
      → IsSlewing target s
      → tells_running parse_tracking notice ≡ false
      → IsSlewing target (handle_notice notice s)
  unfolding handle_notice handle_goto_state_notification handle_tracking_state_notification
  handle_notice_quiet target (goto_notice []) s v quiet = v
  handle_notice_quiet target (goto_notice (byte ∷ rest)) s v quiet = record {
    real = ground (arith, v.real);
    pending = ground (arith, v.pending);
    of_kind = ground (arith, v.of_kind);
    aims_at = ground (arith, v.aims_at);
  }
  handle_notice_quiet target (tracking_notice now []) s v quiet = v
  handle_notice_quiet target (tracking_notice now (byte ∷ rest)) s v quiet =
      subst (IsSlewing target) (ground arith) v

  pub handle_notice_running :
      (target : T) (notice : Notice) (s : GotoState T C M)
      → IsSlewing target s
      → tells_running parse_tracking notice ≡ true
      → IsThere target (handle_notice notice s)
  unfolding handle_notice handle_tracking_state_notification resolve_goto
  handle_notice_running target (goto_notice raw) s v runs = absurd (cc)
  handle_notice_running target (tracking_notice now []) s v runs = absurd (cc)
  handle_notice_running target (tracking_notice now (byte ∷ rest)) s v runs = record {
    over = ground (arith, v.real, v.pending, v.of_kind);
    event_set = ground (arith, v.real, v.pending, v.of_kind);
    succeeded = ground (arith, v.real, v.pending, v.of_kind);
    aimed_at = ground (arith, v.real, v.pending, v.of_kind, v.aims_at);
    kept_kind = ground (arith, v.real, v.pending, v.of_kind);
  }
