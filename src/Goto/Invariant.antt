-- ===== src/Goto/Invariant.antt =====
-- The invariant of the goto state of a session, src/dwarf_alpaca/dwarf/session.py, under each of its
-- methods.
use dwarf_alp.Prelude.{
  ℕ, ◌≡◌, refl, sym, subst, Bool, true, false, not, ◌&&◌, Option, none, some, List, arith,
  Bool-cases, Option-cases, inl, inr, if◌then◌else◌,
}
use dwarf_alp.Ws.Dict.{Key}
use dwarf_alp.Ws.Client.{Client}
use dwarf_alp.Ws.Invariant.{IsConsistent, cancel-IsConsistent}
use dwarf_alp.Goto.State.{
  Kind, GotoResult, Reason, GotoState, start_goto_dso, cancel_request, record_goto,
  drop_goto_record, resolve_goto, mark_goto_pending, clear_goto, cancel_goto,
}

abbrev pub IsConsistentClient : {C M : Type 0} → Option (Client C M) → Type 0
IsConsistentClient none = Unit
IsConsistentClient (some ws) = IsConsistent ws

-- The completion event is set exactly when no goto is pending, only a pending goto waits for tracking
-- or has a start time, and the websocket client is consistent.
pub record IsGoto {T C M : Type 0} (s : GotoState T C M) : Type 0 where
  pub event_tells : s.goto_completion_event ≡ not s.goto_pending
  pub only_pending_waits : s.goto_waiting_for_tracking && not s.goto_pending ≡ false
  pub only_pending_timed : s.goto_pending ≡ false → s.goto_start_time ≡ none
  pub client : IsConsistentClient s.ws_client

module _ {C M : Type 0} where
  pub cancel_request-IsConsistent :
      (key : Key) (ws : Option (Client C M))
      → IsConsistentClient ws
      → IsConsistentClient (cancel_request key ws)
  unfolding cancel_request
  cancel_request-IsConsistent key none v = tt
  cancel_request-IsConsistent key (some ws) v = cancel-IsConsistent key none ws v

module _ {T C M : Type 0} where
  pub carry : {s t : GotoState T C M} → t ≡ s → IsGoto s → IsGoto t
  carry e v = subst IsGoto (sym e) v

  pub cancel-IsGoto :
      (key : Key) (s : GotoState T C M)
      → IsGoto s
      → IsGoto (record s { ws_client = cancel_request key s.ws_client })
  cancel-IsGoto key s v = record {
    event_tells = v.event_tells;
    only_pending_waits = v.only_pending_waits;
    only_pending_timed = v.only_pending_timed;
    client = cancel_request-IsConsistent key s.ws_client v.client;
  }

  -- The state behind a resolution.
  pub resolved : ℕ → GotoResult → Option Reason → Bool → GotoState T C M → GotoState T C M
  resolved now result reason keep_record s = record s {
    goto_pending = false;
    goto_waiting_for_tracking = false;
    one_click_goto_active = false;
    goto_result = some result;
    goto_reason = reason;
    goto_start_time = none;
    last_goto_time = if keep_record then some now else none;
    last_goto_target = if keep_record then s.last_goto_target else none;
    last_goto_kind = if keep_record then s.last_goto_kind else none;
    ws_client = cancel_request start_goto_dso s.ws_client;
    goto_completion_event = true;
    goto_target_name = none;
  }

  pub resolve_goto_pending :
      (now : ℕ) (result : GotoResult) (reason : Option Reason) (keep_record : Bool)
      (s : GotoState T C M)
      → s.goto_pending ≡ true
      → resolve_goto now result reason keep_record s ≡ resolved now result reason keep_record s
  unfolding resolve_goto resolved drop_goto_record
  resolve_goto_pending now result reason true s pending = ground arith
  resolve_goto_pending now result reason false s pending = ground arith

  resolved-IsGoto :
      (now : ℕ) (result : GotoResult) (reason : Option Reason) (keep_record : Bool)
      (s : GotoState T C M)
      → IsGoto s
      → IsGoto (resolved now result reason keep_record s)
  unfolding resolved
  resolved-IsGoto now result reason keep_record s v = record {
    event_tells = refl;
    only_pending_waits = refl;
    only_pending_timed = λ _. refl;
    client = cancel_request-IsConsistent start_goto_dso s.ws_client v.client;
  }

  pub resolve-IsGoto :
      (now : ℕ) (result : GotoResult) (reason : Option Reason) (keep_record : Bool)
      (s : GotoState T C M)
      → s.goto_pending ≡ true
      → IsGoto s
      → IsGoto (resolve_goto now result reason keep_record s)
  resolve-IsGoto now result reason keep_record s pending v =
      carry (resolve_goto_pending now result reason keep_record s pending)
        (resolved-IsGoto now result reason keep_record s v)

  pub record-IsGoto :
      (now : ℕ) (target : T) (kind : Kind) (s : GotoState T C M)
      → IsGoto s
      → IsGoto (record_goto now target kind s)
  unfolding record_goto
  record-IsGoto now target kind s v = record {
    event_tells = v.event_tells;
    only_pending_waits = v.only_pending_waits;
    only_pending_timed = v.only_pending_timed;
    client = v.client;
  }

  pub active-IsGoto :
      (active : Bool) (s : GotoState T C M)
      → IsGoto s
      → IsGoto (record s { one_click_goto_active = active })
  active-IsGoto active s v = record {
    event_tells = v.event_tells;
    only_pending_waits = v.only_pending_waits;
    only_pending_timed = v.only_pending_timed;
    client = v.client;
  }

  pub waiting-IsGoto :
      (s : GotoState T C M)
      → s.goto_pending ≡ true
      → IsGoto s
      → IsGoto (record s { goto_waiting_for_tracking = true })
  waiting-IsGoto s pending v = record {
    event_tells = v.event_tells;
    only_pending_waits = ground arith;
    only_pending_timed = v.only_pending_timed;
    client = v.client;
  }

  -- The client of a state in which the older goto, where there is one, was superseded.
  mark_client :
      (now : ℕ) (kind : Kind) (name : List ℕ) (s : GotoState T C M)
      → (mark_goto_pending now kind name s).ws_client
        ≡ (if s.goto_pending then cancel_request start_goto_dso s.ws_client else s.ws_client)
  unfolding mark_goto_pending resolve_goto drop_goto_record
  mark_client now kind name s = ground arith

  pub mark-IsGoto :
      (now : ℕ) (kind : Kind) (name : List ℕ) (s : GotoState T C M)
      → IsGoto s
      → IsGoto (mark_goto_pending now kind name s)
  unfolding mark_goto_pending
  mark-IsGoto now kind name s v = record {
    event_tells = refl;
    only_pending_waits = ground arith;
    only_pending_timed = λ h. absurd (cc);
    client =
        subst IsConsistentClient (sym (mark_client now kind name s))
          (elim s.goto_pending
            as (λ b.
              IsConsistentClient
                (if b then cancel_request start_goto_dso s.ws_client else s.ws_client)) [
                  | true ↦ cancel_request-IsConsistent start_goto_dso s.ws_client v.client
                  | false ↦ v.client
                ]);
  }

  pub clear-IsGoto :
      (s : GotoState T C M) → s.goto_pending ≡ false → IsGoto s → IsGoto (clear_goto s)
  unfolding clear_goto drop_goto_record
  clear-IsGoto s idle v = elim (Option-cases s.last_goto_time) [
    | inl e ↦ carry (ground arith) v
    | inr (time, e) ↦
        carry
          {s = record s {
            goto_completion_event = true;
            goto_pending = false;
            goto_waiting_for_tracking = false;
            last_goto_time = none;
            last_goto_target = none;
            last_goto_kind = none;
            goto_target_name = none;
          }}
          (ground arith)
          (record {
            event_tells = refl;
            only_pending_waits = refl;
            only_pending_timed = λ _. v.only_pending_timed idle;
            client = v.client;
          })
  ]

  pub cancel_goto-IsGoto :
      (now : ℕ) (result : GotoResult) (reason : Option Reason) (s : GotoState T C M)
      → IsGoto s
      → IsGoto (cancel_goto now result reason s)
  unfolding cancel_goto
  cancel_goto-IsGoto now result reason s v = elim (Bool-cases s.goto_pending) [
    | inl pending ↦ carry (ground arith) (resolve-IsGoto now result reason false s pending v)
    | inr idle ↦ carry (ground arith) (clear-IsGoto s idle v)
  ]
