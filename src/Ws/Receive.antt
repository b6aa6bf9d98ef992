-- ===== src/Ws/Receive.antt =====
-- The receiving side of `DwarfWsClient`, src/dwarf_alpaca/dwarf/ws_client.py: the dispatch of a
-- packet, the end of the reader, and the wake-up of a caller that awaits its response.
use dwarf_alp.Prelude.{
  ℕ, Bool, false, ◌||◌, Option, none, some, List, ◌==◌, if◌then◌else◌, get_elem?, set,
}
use dwarf_alp.Ws.Dict.{Key, lookup, erase}
use dwarf_alp.Ws.Client.{
  type_request_response, type_notification, type_notification_response, Error, decode_failed,
  timed_out, task_cancelled, not_done, reader_failed, Future, waiting, cancelled, result, exception,
  Outcome, ok, raised, PendingRequest, Client, no_conn, Packet, done_at, pop_pending_request,
  flush_pending,
}

abbrev pub packet_key : Packet → Key
packet_key packet = record { module_id = packet.module_id; command_id = packet.cmd }

abbrev pub is_response : Packet → Bool
is_response packet =
    packet.type == type_request_response || packet.type == type_notification_response

abbrev class_for : {C : Type 0} → Key → PendingRequest C → C
class_for key p = elim (lookup key p.alternate_responses) [ none ↦ p.response_cls | some c ↦ c ]

module _ {C M : Type 0} where
  -- The request that a packet answers and the class of its message, taken out of the tables.
  unfoldable pub take_target : Packet → Client C M → Option (PendingRequest C × C) × Client C M
  unfolding pop_pending_request
  take_target packet s =
      let key = packet_key packet in
      elim (lookup key s.pending_aliases) [
        | some original_key ↦
            let (pending, s1) =
              pop_pending_request original_key
                (record s { pending_aliases = erase key s.pending_aliases }) in
            (elim pending [ none ↦ none | some p ↦ some (p, class_for key p) ], s1)
        | none ↦
            if is_response packet
            then (let (pending, s1) = pop_pending_request key s in
                (elim pending [ none ↦ none | some p ↦ some (p, p.response_cls) ], s1))
            else (none, s)
      ]

module _ {C M : Type 0} (parse : C → List ℕ → Option M) where
  -- What the future of the request gets: the message, or the error of its parser.
  abbrev pub parsed : C → List ℕ → Future M
  parsed cls raw_data = elim (parse cls raw_data) [
    | none ↦ exception decode_failed
    | some m ↦ result m
  ]

  -- Beside the new state, whether the notification handlers are called.
  unfoldable pub dispatch_packet : Packet → Client C M → Bool × Client C M
  unfolding take_target
  dispatch_packet packet s =
      let (target, s1) = take_target packet s in
      let notifies = packet.type == type_notification in
      elim target [
        | none ↦ (notifies, s1)
        | some (p, cls) ↦ (
          notifies,
          record s1 {
            futures =
                if done_at p.future s1.futures
                then s1.futures
                else set s1.futures p.future (parsed cls packet.payload);
          },
        )
      ]

-- How the reader's loop ends: cancelled, at the regular end of the connection, or by an error.
pub data ReaderEnd : Type 0 where
  reader_cancelled exhausted : ReaderEnd
  failed : ℕ → ReaderEnd

-- How a caller in `send_request` goes on: its future is done, the time is over, or its own task is
-- cancelled.
pub data Wake : Type 0 where
  future_done time_over own_task_cancelled : Wake

-- `future.cancel()`, which leaves a future that is done as it is.
abbrev pub cancel_future : {M : Type 0} → ℕ → List (Future M) → List (Future M)
cancel_future i futures = if done_at i futures then futures else set futures i cancelled

module _ {C M : Type 0} where
  unfoldable pub reader_end : ReaderEnd → Client C M → Client C M
  unfolding flush_pending
  reader_end reader_cancelled s = record s { conn = no_conn; connected_event = false }
  reader_end exhausted s = record s { conn = no_conn; connected_event = false }
  reader_end (failed e) s =
      flush_pending (reader_failed e) (record s { conn = no_conn; connected_event = false })

  -- `except Exception: self._pop_pending_request(key); raise`; a `CancelledError` is no `Exception`.
  abbrev give_up : Key → Error → Client C M → Outcome M × Client C M
  give_up key e s = (raised e, (pop_pending_request key s).1)

  -- `return await asyncio.wait_for(future, timeout)`, which cancels a future that it stops waiting for.
  unfoldable pub finish_request : Wake → Key → ℕ → Client C M → Outcome M × Client C M
  unfolding pop_pending_request
  finish_request future_done key future s = elim (get_elem? s.futures future) [
    | none ↦ (raised not_done, s)
    | some f ↦ elim f [
      | waiting ↦ (raised not_done, s)
      | cancelled ↦ (raised task_cancelled, s)
      | result m ↦ (ok m, s)
      | exception e ↦ give_up key e s
    ]
  ]
  finish_request time_over key future s =
      give_up key timed_out (record s { futures = cancel_future future s.futures })
  finish_request own_task_cancelled key future s =
      (raised task_cancelled, record s { futures = cancel_future future s.futures })
