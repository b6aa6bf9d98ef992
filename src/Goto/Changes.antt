-- ===== src/Goto/Changes.antt =====
-- What the notification handlers and the response monitor of src/dwarf_alpaca/dwarf/session.py can do
-- to the goto state.
use dwarf_alp.Prelude.{
  ℕ, ◌≡◌, refl, subst, Bool, true, false, not, ◌||◌, Option, none, some, List, [], ◌∷◌, arith,
  Bool-cases, Option-cases, inl, inr, if◌then◌else◌,
}
use dwarf_alp.Prelude.Int.{ℤ}
use dwarf_alp.Goto.State.{
  GotoResult, success, Reason, one_click_tracking_running, tracking_running, GotoState, or_none,
  is_dso, resolve_goto,
}
use dwarf_alp.Goto.Notify.{
  Tracking, OneClickState, astro_auto_focus_state, astro_calibration_state, astro_goto_state,
  astro_tracking_state, astro_state, is_moving, operation_state, OperationState, idle, running,
  stopping, stopped, is_value_one, is_active_value, handle_goto_state_notification, one_click_phase,
  handle_one_click_goto_state_notification, handle_tracking_state_notification,
}
use dwarf_alp.Goto.Invariant.{IsGoto, carry, waiting-IsGoto, resolve-IsGoto}

-- Nothing, a flag, or the resolution of a pending goto.
pub data Change {T C M : Type 0} (s t : GotoState T C M) : Type 0 where
  stays : t ≡ s → Change s t
  waits : s.goto_pending ≡ true → t ≡ record s { goto_waiting_for_tracking = true } → Change s t
  resolves :
      (now : ℕ) (result : GotoResult) (reason : Option Reason) (keep_record : Bool)
      → s.goto_pending ≡ true
      → t ≡ resolve_goto now result reason keep_record s
      → Change s t

module _ {T C M : Type 0} where
  pub Change-IsGoto : (s t : GotoState T C M) → Change s t → IsGoto s → IsGoto t
  Change-IsGoto s t (stays e) v = carry e v
  Change-IsGoto s t (waits pending e) v = carry e (waiting-IsGoto s pending v)
  Change-IsGoto s t (resolves now result reason keep_record pending e) v =
      carry e (resolve-IsGoto now result reason keep_record s pending v)

  resolved_has_result :
      (now : ℕ) (result : GotoResult) (reason : Option Reason) (keep_record : Bool)
      (s : GotoState T C M)
      → s.goto_pending ≡ true
      → (resolve_goto now result reason keep_record s).goto_result ≡ some result
  unfolding resolve_goto
  resolved_has_result now result reason keep_record s pending = ground arith

  pub Change-result :
      (s t : GotoState T C M)
      → Change s t
      → s.goto_pending ≡ true
      → t.goto_pending ≡ false
      → (r : GotoResult) × (t.goto_result ≡ some r)
  Change-result s t (stays e) pending over = absurd (ground arith)
  Change-result s t (waits was e) pending over = absurd (ground arith)
  Change-result s t (resolves now result reason keep_record was e) pending over =
      (result, ground (arith, resolved_has_result now result reason keep_record s was))

  pub goto_state-Change :
      (parse : List ℕ → Option ℤ) (raw : List ℕ) (s : GotoState T C M)
      → Change s (handle_goto_state_notification parse raw s)
  unfolding handle_goto_state_notification
  goto_state-Change parse [] s = stays refl
  goto_state-Change parse (byte ∷ rest) s = elim (Bool-cases s.simulation) [
    | inl on ↦ stays (ground arith)
    | inr off ↦ elim (Bool-cases (not s.goto_pending || not (is_dso s.last_goto_kind))) [
      | inl other ↦ stays (ground arith)
      | inr mine ↦ elim (Option-cases (parse (byte ∷ rest))) [
        | inl e ↦ stays (ground arith)
        | inr (value, e) ↦ elim (Option-cases (astro_state value)) [
          | inl e1 ↦ stays (ground arith)
          | inr (state, e1) ↦ elim (Bool-cases (is_moving state)) [
            | inl moving ↦ waits (ground arith) (ground arith)
            | inr still ↦ stays (ground arith)
          ]
        ]
      ]
    ]
  ]

  wait_if :
      (b : Bool) (s : GotoState T C M)
      → s.goto_pending ≡ true
      → Change s (if b then record s { goto_waiting_for_tracking = true } else s)
  wait_if true s pending = waits pending refl
  wait_if false s pending = stays refl

  phase-Change :
      (strip : List ℕ → List ℕ) (now : ℕ) (phase_state : OneClickState) (s : GotoState T C M)
      → s.goto_pending ≡ true
      → Change s (one_click_phase strip now phase_state s)
  phase-Change strip now (astro_auto_focus_state v) s pending =
      wait_if (is_active_value v) s pending
  phase-Change strip now (astro_calibration_state v) s pending =
      wait_if (is_active_value v) s pending
  phase-Change strip now (astro_goto_state v name) s pending = wait_if (is_active_value v) s pending
  phase-Change strip now (astro_tracking_state v name) s pending =
      let target_name : Option (List ℕ) = elim (or_none (strip name)) [
        | none ↦ s.goto_target_name
        | some n ↦ some n
      ] in
      elim (Bool-cases (is_value_one v)) [
        | inl runs ↦
            resolves now success (some (one_click_tracking_running target_name)) true pending
              (ground arith)
        | inr other ↦ stays (ground arith)
      ]

  pub one_click-Change :
      (parse : List ℕ → Option (Option OneClickState)) (strip : List ℕ → List ℕ) (now : ℕ)
      (raw : List ℕ) (s : GotoState T C M)
      → Change s (handle_one_click_goto_state_notification parse strip now raw s)
  unfolding handle_one_click_goto_state_notification
  one_click-Change parse strip now [] s = stays refl
  one_click-Change parse strip now (byte ∷ rest) s = elim (Option-cases (parse (byte ∷ rest))) [
    | inl e ↦ stays (ground arith)
    | inr (current_state, e) ↦ elim (Option-cases current_state) [
      | inl e1 ↦ stays (ground arith)
      | inr (phase_state, e1) ↦
          elim (Bool-cases (not s.goto_pending || not s.one_click_goto_active)) [
            | inl other ↦ stays (ground arith)
            | inr mine ↦
                subst (Change s) (ground arith)
                  (phase-Change strip now phase_state s (ground arith))
          ]
    ]
  ]

  tracking_state-Change :
      (parse : List ℕ → Option Tracking) (now byte : ℕ) (rest : List ℕ) (message : Tracking)
      (state : OperationState) (s : GotoState T C M)
      → parse (byte ∷ rest) ≡ some message
      → operation_state message.state ≡ some state
      → s.simulation ≡ false
      → (not s.goto_pending || not (is_dso s.last_goto_kind)) ≡ false
      → Change s (handle_tracking_state_notification parse now (byte ∷ rest) s)
  unfolding handle_tracking_state_notification
  tracking_state-Change parse now byte rest message idle s e e1 off mine = stays (ground arith)
  tracking_state-Change parse now byte rest message running s e e1 off mine =
      resolves now success (some (tracking_running (or_none message.target_name))) true
        (ground arith) (ground arith)
  tracking_state-Change parse now byte rest message stopping s e e1 off mine = stays (ground arith)
  tracking_state-Change parse now byte rest message stopped s e e1 off mine = stays (ground arith)

  pub tracking-Change :
      (parse : List ℕ → Option Tracking) (now : ℕ) (raw : List ℕ) (s : GotoState T C M)
      → Change s (handle_tracking_state_notification parse now raw s)
  unfolding handle_tracking_state_notification
  tracking-Change parse now [] s = stays refl
  tracking-Change parse now (byte ∷ rest) s = elim (Bool-cases s.simulation) [
    | inl on ↦ stays (ground arith)
    | inr off ↦ elim (Option-cases (parse (byte ∷ rest))) [
      | inl e ↦ stays (ground arith)
      | inr (message, e) ↦ elim (Option-cases (operation_state message.state)) [
        | inl e1 ↦ stays (ground arith)
        | inr (state, e1) ↦
            elim (Bool-cases (not s.goto_pending || not (is_dso s.last_goto_kind))) [
              | inl other ↦ stays (ground arith)
              | inr mine ↦ tracking_state-Change parse now byte rest message state s e e1 off mine
            ]
      ]
    ]
  ]
