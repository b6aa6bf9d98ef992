-- ===== src/Ws/Invariant.antt =====
-- The invariant of `DwarfWsClient`, src/dwarf_alpaca/dwarf/ws_client.py, under each of its operations.
use dwarf_alp.Prelude.{
  ℕ, ◌<◌, ◌≡◌, sym, subst, Bool, true, false, Option, some, List, [], ◌∷◌, ◌++◌, arith, Bool-cases,
  Option-cases, inl, inr, length, length-append, length-set, get_elem?, set, if◌then◌else◌,
}
use dwarf_alp.Ws.Dict.{
  Key, key_eq_iff, Dict, lookup, insert, erase, contains, lookup-insert, lookup-erase,
}
use dwarf_alp.Ws.Client.{
  open_conn, connected, PendingRequest, Client, is_no_conn, no_conn, Error, Future, waiting,
  cancelled, result, exception, closed_ok, reader_failed, Packet, done_at, reason_future,
  drop_aliases, add_aliases, pop_pending_request, connect, register_request, cancel_pending,
  flush_pending, close,
}
use dwarf_alp.Ws.Receive.{
  take_target, dispatch_packet, packet_key, is_response, parsed, ReaderEnd, reader_cancelled,
  exhausted, failed, reader_end, Wake, future_done, time_over, own_task_cancelled, finish_request,
}
use dwarf_alp.Ws.Tables.{IsLinked, pop-IsLinked, erase-IsLinked, register-IsLinked}

-- Aliases lead to pending requests, and each pending request has a future of its own.
pub record IsConsistent {C M : Type 0} (s : Client C M) : Type 0 where
  pub linked : IsLinked s.pending s.pending_aliases
  pub bounded :
      (k : Key) (p : PendingRequest C) → lookup k s.pending ≡ some p → p.future < length s.futures
  pub own :
      (k j : Key) (p q : PendingRequest C)
      → lookup k s.pending ≡ some p
      → lookup j s.pending ≡ some q
      → p.future ≡ q.future
      → k ≡ j

-- A write to a future that is not done.
abbrev pub settle : {M : Type 0} → ℕ → Future M → List (Future M) → List (Future M)
settle i f futures = if done_at i futures then futures else set futures i f

pub length-settle :
    {M : Type 0} (i : ℕ) (f : Future M) (futures : List (Future M))
    → length (settle i f futures) ≡ length futures
length-settle i f futures = ground (arith, length-set futures i f)

module _ {C M : Type 0} where
  carry : {s t : Client C M} → s ≡ t → IsConsistent t → IsConsistent s
  carry e v = subst IsConsistent (sym e) v

  -- Completing a future leaves the tables alone.
  pub settle-IsConsistent :
      (s : Client C M) (i : ℕ) (f : Future M)
      → IsConsistent s
      → IsConsistent (record s { futures = settle i f s.futures })
  settle-IsConsistent s i f v = record {
    linked = v.linked;
    bounded = λ k p e. rw (length-settle i f s.futures) (v.bounded k p e);
    own = v.own;
  }

  pub pop-IsConsistent :
      (key : Key) (s : Client C M) → IsConsistent s → IsConsistent (pop_pending_request key s).1
  unfolding pop_pending_request
  pop-IsConsistent key s v = elim (Option-cases (lookup key s.pending)) [
    | inl e ↦ carry (ground arith) v
    | inr (p, e) ↦
        let t : Client C M = record s {
          pending = erase key s.pending;
          pending_aliases = drop_aliases key p.alternate_responses s.pending_aliases;
        } in
        let w : IsConsistent t = record {
          linked = pop-IsLinked key p s.pending s.pending_aliases e v.linked;
          bounded = λ k q h. v.bounded k q (ground (arith, lookup-erase key k s.pending));
          own = λ k j q r h g.
              v.own k j q r (ground (arith, lookup-erase key k s.pending))
                (ground (arith, lookup-erase key j s.pending));
        } in
        carry {t = t} (ground arith) w
  ]

  -- The tables after a new request got in.
  added-IsConsistent :
      (key : Key) (cls : C) (alternates : Dict C) (s : Client C M)
      → contains key s.pending ≡ false
      → IsConsistent s
      → IsConsistent (record s {
        pending =
            insert key
              (record {
                future = length s.futures;
                response_cls = cls;
                alternate_responses = alternates;
              })
              s.pending;
        pending_aliases = add_aliases key alternates s.pending_aliases;
        futures = s.futures ++ (waiting ∷ []);
      })
  added-IsConsistent key cls alternates s free v =
      let p : PendingRequest C = record {
        future = length s.futures;
        response_cls = cls;
        alternate_responses = alternates;
      } in
      record {
        linked =
            register-IsLinked key p s.pending s.pending_aliases (unfold contains in ground arith)
              v.linked;
        bounded = λ k q h. ground (
          arith,
          lookup-insert key k p s.pending,
          v.bounded k q,
          length-append s.futures (waiting ∷ []),
        );
        own = λ k j q r h g e. ground (
          arith,
          lookup-insert key k p s.pending,
          lookup-insert key j p s.pending,
          key_eq_iff key k,
          key_eq_iff key j,
          v.own k j q r,
          v.bounded k q,
          v.bounded j r,
        );
      }

  pub connect-IsConsistent :
      (reachable : Bool) (s : Client C M) → IsConsistent s → IsConsistent (connect reachable s).1
  unfolding connect
  connect-IsConsistent reachable s v =
      let t : Client C M = record s { conn = open_conn; connected_event = true } in
      let w : IsConsistent t = record { linked = v.linked; bounded = v.bounded; own = v.own } in
      elim (Bool-cases (connected s)) [
        | inl e ↦ carry (ground arith) v
        | inr e ↦ elim (Bool-cases reachable) [
          | inl r ↦ carry {t = t} (ground arith) w
          | inr r ↦ carry (ground arith) v
        ]
      ]

  pub register-IsConsistent :
      (key : Key) (cls : C) (alternates : Dict C) (s : Client C M)
      → IsConsistent s
      → IsConsistent (register_request key cls alternates s).1
  unfolding register_request
  register-IsConsistent key cls alternates s v = elim (Bool-cases (is_no_conn s.conn)) [
    | inl off ↦ carry (ground arith) v
    | inr on ↦ elim (Bool-cases (contains key s.pending)) [
      | inl busy ↦ carry (ground arith) v
      | inr free ↦ carry (ground arith) (added-IsConsistent key cls alternates s free v)
    ]
  ]

  pub cancel-IsConsistent :
      (key : Key) (reason : Option Error) (s : Client C M)
      → IsConsistent s
      → IsConsistent (cancel_pending key reason s).1
  unfolding cancel_pending
  cancel-IsConsistent key reason s v =
      let t = (pop_pending_request key s).1 in
      let w : IsConsistent t = pop-IsConsistent key s v in
      elim (Option-cases (pop_pending_request key s).0) [
        | inl e ↦ carry (ground arith) w
        | inr (p, e) ↦
            carry (ground arith) (settle-IsConsistent t p.future (reason_future reason) w)
      ]

  aliases-IsConsistent :
      (key : Key) (s : Client C M)
      → IsConsistent s
      → IsConsistent (record s { pending_aliases = erase key s.pending_aliases })
  aliases-IsConsistent key s v = record {
    linked = erase-IsLinked key s.pending s.pending_aliases v.linked;
    bounded = v.bounded;
    own = v.own;
  }

  take_target-IsConsistent :
      (packet : Packet) (s : Client C M) → IsConsistent s → IsConsistent (take_target packet s).1
  unfolding take_target
  take_target-IsConsistent packet s v =
      let key = packet_key packet in
      elim (Option-cases (lookup key s.pending_aliases)) [
        | inr (original_key, e) ↦ carry (ground arith) (
            pop-IsConsistent original_key
              (record s { pending_aliases = erase key s.pending_aliases })
              (aliases-IsConsistent key s v))
        | inl e ↦ elim (Bool-cases (is_response packet)) [
          | inl response ↦ carry (ground arith) (pop-IsConsistent key s v)
          | inr other ↦ carry (ground arith) v
        ]
      ]

  pub dispatch-IsConsistent :
      (parse : C → List ℕ → Option M) (packet : Packet) (s : Client C M)
      → IsConsistent s
      → IsConsistent (dispatch_packet parse packet s).1
  unfolding dispatch_packet
  dispatch-IsConsistent parse packet s v =
      let t = (take_target packet s).1 in
      let w : IsConsistent t = take_target-IsConsistent packet s v in
      elim (Option-cases (take_target packet s).0) [
        | inl e ↦ carry (ground arith) w
        | inr ((p, cls), e) ↦
            carry (ground arith)
              (settle-IsConsistent t p.future (parsed parse cls packet.payload) w)
      ]

  pub flush-IsConsistent : (error : Error) (s : Client C M) → IsConsistent (flush_pending error s)
  unfolding flush_pending lookup
  flush-IsConsistent error s = record {
    linked = record { leads = λ a k h. absurd (unfold lookup in cc) };
    bounded = λ k p h. absurd (cc);
    own = λ k j p q h g e. absurd (cc);
  }

  pub close-IsConsistent : (s : Client C M) → IsConsistent (close s)
  unfolding close
  close-IsConsistent s =
      flush-IsConsistent closed_ok (record s { conn = no_conn; connected_event = false })

  unlinked-IsConsistent :
      (s : Client C M)
      → IsConsistent s
      → IsConsistent (record s { conn = no_conn; connected_event = false })
  unlinked-IsConsistent s v = record { linked = v.linked; bounded = v.bounded; own = v.own }

  pub reader_end-IsConsistent :
      (how : ReaderEnd) (s : Client C M) → IsConsistent s → IsConsistent (reader_end how s)
  unfolding reader_end
  reader_end-IsConsistent reader_cancelled s v = unlinked-IsConsistent s v
  reader_end-IsConsistent exhausted s v = unlinked-IsConsistent s v
  reader_end-IsConsistent (failed e) s v =
      flush-IsConsistent (reader_failed e) (record s { conn = no_conn; connected_event = false })

  pub finish-IsConsistent :
      (wake : Wake) (key : Key) (future : ℕ) (s : Client C M)
      → IsConsistent s
      → IsConsistent (finish_request wake key future s).1
  unfolding finish_request
  finish-IsConsistent time_over key future s v =
      pop-IsConsistent key (record s { futures = settle future cancelled s.futures })
        (settle-IsConsistent s future cancelled v)
  finish-IsConsistent own_task_cancelled key future s v = settle-IsConsistent s future cancelled v
  finish-IsConsistent future_done key future s v =
      elim (Option-cases (get_elem? s.futures future)) [
        | inl e ↦ carry (ground arith) v
        | inr (waiting, e) ↦ carry (ground arith) v
        | inr (cancelled, e) ↦ carry (ground arith) v
        | inr (result m, e) ↦ carry (ground arith) v
        | inr (exception x, e) ↦ carry (ground arith) (pop-IsConsistent key s v)
      ]
