-- ===== src/Goto/Superseded.antt =====
-- A goto that is started while another one is pending: src/dwarf_alpaca/dwarf/session.py.
use dwarf_alp.Prelude.{ℕ, ◌≡◌, refl, sym, subst, ap, ◌∙◌, true, Option, none, List, [], ◌∷◌, arith}
use dwarf_alp.Prelude.Int.{ℤ}
use dwarf_alp.Goto.State.{GotoState, record_goto, drop_goto_record, mark_goto_pending, resolve_goto}
use dwarf_alp.Goto.Notify.{
  Tracking, handle_goto_state_notification, handle_tracking_state_notification,
}
use dwarf_alp.Goto.Commands.{start_goto_command}
use dwarf_alp.Goto.Notices.{Notice, goto_notice, tracking_notice, handle_notice, handle_notices}

-- A goto is pending without a record of its target, its time and its kind.
pub record IsLost {T C M : Type 0} (s : GotoState T C M) : Type 0 where
  pub pending : s.goto_pending ≡ true
  pub no_result : s.goto_result ≡ none
  pub no_target : s.last_goto_target ≡ none
  pub no_time : s.last_goto_time ≡ none
  pub no_kind : s.last_goto_kind ≡ none

module _ {T C M : Type 0} (parse_goto : List ℕ → Option ℤ)
    (parse_tracking : List ℕ → Option Tracking) where
  start-IsLost :
      (now : ℕ) (target : T) (name : List ℕ) (s : GotoState T C M)
      → s.goto_pending ≡ true
      → IsLost (start_goto_command now target name s)
  unfolding start_goto_command mark_goto_pending record_goto resolve_goto drop_goto_record
  start-IsLost now target name s pending = record {
    pending = refl;
    no_result = refl;
    no_target = ground arith;
    no_time = ground arith;
    no_kind = ground arith;
  }

  notice_ignored :
      (notice : Notice) (s : GotoState T C M)
      → IsLost s
      → handle_notice parse_goto parse_tracking notice s ≡ s
  unfolding handle_notice handle_goto_state_notification handle_tracking_state_notification
  notice_ignored (goto_notice []) s v = refl
  notice_ignored (goto_notice (byte ∷ rest)) s v = ground (arith, v.no_kind)
  notice_ignored (tracking_notice now []) s v = refl
  notice_ignored (tracking_notice now (byte ∷ rest)) s v = ground (arith, v.no_kind)

  notices_ignored :
      (notices : List Notice) (s : GotoState T C M)
      → IsLost s
      → handle_notices parse_goto parse_tracking notices s ≡ s
  unfolding handle_notices
  notices_ignored [] s v = refl
  notices_ignored (notice ∷ notices) s v =
      ap (handle_notices parse_goto parse_tracking notices) (notice_ignored notice s v)
      ∙ notices_ignored notices s v

  -- A goto that is started while another one is pending loses its own record, and no sequence of goto
  -- and tracking notifications completes it: it stays pending without a result.
  pub superseding_goto_hangs :
      (now : ℕ) (target : T) (name : List ℕ) (notices : List Notice) (s : GotoState T C M)
      → s.goto_pending ≡ true
      → IsLost
          (handle_notices parse_goto parse_tracking notices (start_goto_command now target name s))
  superseding_goto_hangs now target name notices s pending =
      let t = start_goto_command now target name s in
      let lost = start-IsLost now target name s pending in
      subst IsLost (sym (notices_ignored notices t lost)) lost
