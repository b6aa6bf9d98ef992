-- ===== src/Ws/Client.antt =====
-- `DwarfWsClient` of src/dwarf_alpaca/dwarf/ws_client.py: the requests that wait for a response, the
-- aliases under which a response may come, and the futures that callers await. Message classes and
-- their parser belong to protobuf and are parameters. An `await` ends a step: what runs between two
-- of them is one function here, and Ws/Steps interleaves them.
use dwarf_alp.Prelude.{
  ℕ, Bool, true, false, Option, none, some, List, [], ◌∷◌, ◌++◌, if◌then◌else◌, length, get_elem?,
  set,
}
use dwarf_alp.Ws.Dict.{Key, key_eq, Dict, lookup, insert, erase, contains}

abbrev pub type_request : ℕ
type_request = 0

abbrev pub type_request_response : ℕ
type_request_response = 1

abbrev pub type_notification : ℕ
type_notification = 2

abbrev pub type_notification_response : ℕ
type_notification_response = 3

-- The exceptions that a future or a call ends with.
pub data Error : Type 0 where
  unavailable already_pending send_failed decode_failed closed_ok : Error
  timed_out task_cancelled not_done : Error
  reader_failed given : ℕ → Error

-- `asyncio.Future`
pub data Future (M : Type 0) : Type 0 where
  waiting cancelled : Future M
  result : M → Future M
  exception : Error → Future M

abbrev pub is_done : {M : Type 0} → Future M → Bool
is_done waiting = false
is_done cancelled = true
is_done (result m) = true
is_done (exception e) = true

pub data Outcome (A : Type 0) : Type 0 where
  ok : A → Outcome A
  raised : Error → Outcome A

-- `_PendingRequest`; a future is named by its place in the list of all futures.
pub record PendingRequest (C : Type 0) : Type 0 where
  pub future : ℕ
  pub response_cls : C
  pub alternate_responses : Dict C

-- `self._conn`: `None`, or a connection that is open or that is closed.
pub data Conn : Type 0 where
  no_conn open_conn closed_conn : Conn

-- `not self._conn`
abbrev pub is_no_conn : Conn → Bool
is_no_conn no_conn = true
is_no_conn open_conn = false
is_no_conn closed_conn = false

pub record Client (C M : Type 0) : Type 0 where
  pub conn : Conn
  pub pending : Dict (PendingRequest C)
  pub pending_aliases : Dict Key
  pub connected_event : Bool
  pub futures : List (Future M)

-- `WsPacket`, as far as dispatching reads it.
pub record Packet : Type 0 where
  pub module_id : ℕ
  pub cmd : ℕ
  pub type : ℕ
  pub payload : List ℕ

-- `future.cancel()` without a reason, `future.set_exception(reason)` with one.
abbrev pub reason_future : {M : Type 0} → Option Error → Future M
reason_future none = cancelled
reason_future (some e) = exception e

-- `future.done()`; a future is the place in the list of all futures.
abbrev pub done_at : {M : Type 0} → ℕ → List (Future M) → Bool
done_at i futures = elim (get_elem? futures i) [ none ↦ true | some g ↦ is_done g ]

-- `if self._pending_aliases.get(alias_key) == key: self._pending_aliases.pop(alias_key, None)`
unfoldable pub drop_alias : Key → Key → Dict Key → Dict Key
drop_alias key alias_key aliases = elim (lookup alias_key aliases) [
  | none ↦ aliases
  | some target ↦ if key_eq target key then erase alias_key aliases else aliases
]

module _ {C : Type 0} where
  -- `for alias_key in pending.alternate_responses`
  unfoldable pub drop_aliases : Key → Dict C → Dict Key → Dict Key
  unfolding drop_alias
  drop_aliases key [] aliases = aliases
  drop_aliases key ((alias_key, cls) ∷ alternates) aliases =
      drop_aliases key alternates (drop_alias key alias_key aliases)

  -- `for alias_key in alternates: self._pending_aliases[alias_key] = key`
  unfoldable pub add_aliases : Key → Dict C → Dict Key → Dict Key
  add_aliases key [] aliases = aliases
  add_aliases key ((alias_key, cls) ∷ alternates) aliases =
      add_aliases key alternates (insert alias_key key aliases)

-- `connected`
abbrev pub connected : {C M : Type 0} → Client C M → Bool
connected s = elim s.conn [ no_conn ↦ false | open_conn ↦ true | closed_conn ↦ false ]

module _ {C M : Type 0} where
  unfoldable pub pop_pending_request : Key → Client C M → Option (PendingRequest C) × Client C M
  pop_pending_request key s = elim (lookup key s.pending) [
    | none ↦ (none, s)
    | some p ↦ (
      some p,
      record s {
        pending = erase key s.pending;
        pending_aliases = drop_aliases key p.alternate_responses s.pending_aliases;
      },
    )
  ]

  -- `connect`; `reachable` tells whether opening a socket would succeed.
  unfoldable pub connect : Bool → Client C M → Outcome (Unit {0}) × Client C M
  connect reachable s =
      if connected s
      then (ok tt, s)
      else if reachable
      then (ok tt, record s { conn = open_conn; connected_event = true })
      else (raised unavailable, s)

  -- `begin_request` between the connection and the send.
  unfoldable pub register_request : Key → C → Dict C → Client C M → Outcome ℕ × Client C M
  register_request key cls alternates s =
      if is_no_conn s.conn
      then (raised unavailable, s)
      else if contains key s.pending
      then (raised already_pending, s)
      else (
        ok (length s.futures),
        record s {
          pending =
              insert key
                (record {
                  future = length s.futures;
                  response_cls = cls;
                  alternate_responses = alternates;
                })
                s.pending;
          pending_aliases = add_aliases key alternates s.pending_aliases;
          futures = s.futures ++ (waiting ∷ []);
        },
      )

  -- `begin_request` when nothing else runs at its `await`s; `sent` is the outcome of the send.
  unfoldable pub begin_request :
      Bool → Bool → Key → C → Dict C → Client C M → Outcome ℕ × Client C M
  unfolding connect register_request pop_pending_request
  begin_request reachable sent key cls alternates s =
      let (opened, s1) = connect reachable s in
      elim opened [
        | raised e ↦ (raised e, s1)
        | ok _ ↦
            let (registered, s2) = register_request key cls alternates s1 in
            elim registered [
              | raised e ↦ (raised e, s2)
              | ok future ↦
                  if sent
                  then (ok future, s2)
                  else (raised send_failed, (pop_pending_request key s2).1)
            ]
      ]

  unfoldable pub cancel_pending : Key → Option Error → Client C M → Bool × Client C M
  unfolding pop_pending_request
  cancel_pending key reason s =
      let (pending, s1) = pop_pending_request key s in
      elim pending [
        | none ↦ (false, s1)
        | some p ↦ (
          true,
          record s1 {
            futures =
                if done_at p.future s1.futures
                then s1.futures
                else set s1.futures p.future (reason_future reason);
          },
        )
      ]

  -- `for pending in self._pending.values(): ... set_exception(error)`
  unfoldable pub fail_all : Error → Dict (PendingRequest C) → List (Future M) → List (Future M)
  fail_all error [] futures = futures
  fail_all error ((key, p) ∷ rest) futures =
      fail_all error rest
        (if done_at p.future futures then futures else set futures p.future (exception error))

  unfoldable pub flush_pending : Error → Client C M → Client C M
  unfolding fail_all
  flush_pending error s = record s {
    pending = [];
    pending_aliases = [];
    futures = fail_all error s.pending s.futures;
  }

  unfoldable pub close : Client C M → Client C M
  unfolding flush_pending
  close s = flush_pending closed_ok (record s { conn = no_conn; connected_event = false })
