-- ===== src/Goto/State.antt =====
-- The goto state of a session and the methods that keep it, src/dwarf_alpaca/dwarf/session.py.
-- Targets are a parameter `T` (pairs of floating-point numbers), a string is the list of its code
-- points, and one reading of the clock serves a whole method.
use dwarf_alp.Prelude.{
  ℕ, Bool, true, false, not, ◌&&◌, Option, none, some, List, [], ◌∷◌, if◌then◌else◌,
}
use dwarf_alp.Prelude.Int.{ℤ}
use dwarf_alp.Ws.Dict.{Key}
use dwarf_alp.Ws.Client.{Client, cancel_pending}

-- The only kind of goto that the session starts, `_GOTO_KIND_DSO`.
pub data Kind : Type 0 where
  goto_kind_dso : Kind

pub data GotoResult : Type 0 where
  success simulated superseded failed timeout aborted : GotoResult

pub data Reason : Type 0 where
  new_goto_started slew_aborted one_click_response_timeout one_click_response_error : Reason
  one_click_tracking_running tracking_running : Option (List ℕ) → Reason
  one_click_code : ℤ → Reason

pub record GotoState (T C M : Type 0) : Type 0 where
  pub simulation : Bool
  pub last_goto_time : Option ℕ
  pub last_goto_target : Option T
  pub last_goto_kind : Option Kind
  pub goto_completion_event : Bool
  pub goto_result : Option GotoResult
  pub goto_reason : Option Reason
  pub goto_pending : Bool
  pub goto_waiting_for_tracking : Bool
  pub goto_target_name : Option (List ℕ)
  pub goto_start_time : Option ℕ
  pub one_click_goto_active : Bool
  pub ws_client : Option (Client C M)

-- (MODULE_ASTRO, CMD_ASTRO_START_GOTO_DSO)
abbrev pub start_goto_dso : Key
start_goto_dso = record { module_id = 3; command_id = 11002 }

-- (MODULE_ASTRO, CMD_ASTRO_START_ONE_CLICK_GOTO_DSO)
abbrev pub start_one_click_goto_dso : Key
start_one_click_goto_dso = record { module_id = 3; command_id = 11013 }

-- `result in {"success", "simulation"}`
abbrev pub needs_no_goto : GotoResult → Bool
needs_no_goto success = true
needs_no_goto simulated = true
needs_no_goto superseded = false
needs_no_goto failed = false
needs_no_goto timeout = false
needs_no_goto aborted = false

-- `name or None`
abbrev pub or_none : List ℕ → Option (List ℕ)
or_none [] = none
or_none (x ∷ xs) = some (x ∷ xs)

-- `kind == _GOTO_KIND_DSO`
abbrev pub is_dso : Option Kind → Bool
is_dso none = false
is_dso (some goto_kind_dso) = true

module _ {C M : Type 0} where
  -- `self._ws_client.cancel_pending(*key)`, where there is a client.
  unfoldable pub cancel_request : Key → Option (Client C M) → Option (Client C M)
  unfolding cancel_pending
  cancel_request key none = none
  cancel_request key (some ws) = some (cancel_pending key none ws).1

module _ {T C M : Type 0} where
  unfoldable pub record_goto : ℕ → T → Kind → GotoState T C M → GotoState T C M
  record_goto now target kind s = record s {
    last_goto_time = some now;
    last_goto_target = some target;
    last_goto_kind = some kind;
  }

  unfoldable pub drop_goto_record : GotoState T C M → GotoState T C M
  drop_goto_record s = record s {
    last_goto_time = none;
    last_goto_target = none;
    last_goto_kind = none;
    goto_target_name = none;
  }

  unfoldable pub resolve_goto :
      ℕ → GotoResult → Option Reason → Bool → GotoState T C M → GotoState T C M
  unfolding drop_goto_record cancel_request
  resolve_goto now result reason keep_record s =
      if not s.goto_pending && not (needs_no_goto result)
      then s
      else let s1 : GotoState T C M = record s {
        goto_pending = false;
        goto_waiting_for_tracking = false;
        one_click_goto_active = false;
        goto_result = some result;
        goto_reason = reason;
        goto_start_time = none;
      } in
        let s2 : GotoState T C M =
          if keep_record then record s1 { last_goto_time = some now } else drop_goto_record s1 in
        record s2 {
          ws_client = cancel_request start_goto_dso s2.ws_client;
          goto_completion_event = true;
          goto_target_name = none;
        }

  unfoldable pub mark_goto_pending : ℕ → Kind → List ℕ → GotoState T C M → GotoState T C M
  unfolding resolve_goto
  mark_goto_pending now kind target_name s =
      let s1 : GotoState T C M =
        if s.goto_pending then resolve_goto now superseded (some new_goto_started) false s else s in
      record s1 {
        goto_pending = true;
        goto_waiting_for_tracking = is_dso (some kind) && not s1.simulation;
        goto_result = none;
        goto_reason = none;
        goto_target_name = or_none target_name;
        goto_start_time = some now;
        goto_completion_event = false;
      }

  unfoldable pub clear_goto : GotoState T C M → GotoState T C M
  unfolding drop_goto_record
  clear_goto s = elim s.last_goto_time [
    | none ↦ s
    | some _ ↦ drop_goto_record (record s {
      goto_completion_event = true;
      goto_pending = false;
      goto_waiting_for_tracking = false;
    })
  ]

  unfoldable pub cancel_goto : ℕ → GotoResult → Option Reason → GotoState T C M → GotoState T C M
  unfolding resolve_goto clear_goto
  cancel_goto now result reason s =
      if s.goto_pending then resolve_goto now result reason false s else clear_goto s
