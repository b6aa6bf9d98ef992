-- ===== src/Ws/Lost.antt =====
-- `begin_request` and `send_request` of src/dwarf_alpaca/dwarf/ws_client.py under a key that is in use.
use dwarf_alp.Prelude.{◌≡◌, true, false, arith, length}
use dwarf_alp.Ws.Dict.{Key, key_eq_refl, Dict, contains, lookup-insert}
use dwarf_alp.Ws.Client.{
  Client, connected, already_pending, cancelled, raised, register_request, begin_request,
}
use dwarf_alp.Ws.Invariant.{settle}
use dwarf_alp.Ws.Receive.{own_task_cancelled, finish_request}

-- A second request under a key that is pending is refused, and the tables stay as they are.
pub register_busy :
    {C M : Type 0} (key : Key) (cls : C) (alternates : Dict C) (s : Client C M)
    → connected s ≡ true
    → contains key s.pending ≡ true
    → register_request key cls alternates s ≡ (raised already_pending, s)
unfolding register_request
register_busy key cls alternates s on busy = ground arith

begin_fresh :
    {C M : Type 0} (key : Key) (cls : C) (alternates : Dict C) (s : Client C M)
    → connected s ≡ true
    → contains key s.pending ≡ false
    → (connected (begin_request true true key cls alternates s).1 ≡ true)
      × (contains key (begin_request true true key cls alternates s).1.pending ≡ true)
unfolding begin_request contains
begin_fresh key cls alternates s on free = (
  ground arith,
  ground (
    arith,
    lookup-insert key key
        (record { future = length s.futures; response_cls = cls; alternate_responses = alternates })
        s.pending,
    key_eq_refl key,
  ),
)

begin_busy :
    {C M : Type 0} (key : Key) (cls : C) (alternates : Dict C) (s : Client C M)
    → connected s ≡ true
    → contains key s.pending ≡ true
    → begin_request true true key cls alternates s ≡ (raised already_pending, s)
unfolding begin_request
begin_busy key cls alternates s on busy = ground arith

-- A caller whose own task is cancelled leaves its request in the table: until an answer or a flush,
-- no request can be made under that key.
pub cancelled_task_blocks_key :
    {C M : Type 0} (key : Key) (cls cls' : C) (alternates alternates' : Dict C) (s : Client C M)
    → connected s ≡ true
    → contains key s.pending ≡ false
    → let s1 = (begin_request true true key cls alternates s).1 in
      let s2 = (finish_request own_task_cancelled key (length s.futures) s1).1 in
      begin_request true true key cls' alternates' s2 ≡ (raised already_pending, s2)
unfolding begin_request finish_request
cancelled_task_blocks_key key cls cls' alternates alternates' s on free =
    let s1 = (begin_request true true key cls alternates s).1 in
    let (on1, busy1) = begin_fresh key cls alternates s on free in
    begin_busy key cls' alternates'
      (record s1 { futures = settle (length s.futures) cancelled s1.futures }) on1 busy1
