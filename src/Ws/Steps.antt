-- ===== src/Ws/Steps.antt =====
-- Every interleaving of the operations of `DwarfWsClient`, src/dwarf_alpaca/dwarf/ws_client.py.
use dwarf_alp.Prelude.{ℕ, Bool, false, Option, List, []}
use dwarf_alp.Ws.Dict.{Key, Dict, lookup}
use dwarf_alp.Ws.Client.{
  Conn, no_conn, open_conn, closed_conn, Client, Error, Packet, pop_pending_request, connect,
  register_request, cancel_pending, close,
}
use dwarf_alp.Ws.Receive.{dispatch_packet, ReaderEnd, reader_end, Wake, finish_request}
use dwarf_alp.Ws.Invariant.{
  IsConsistent, connect-IsConsistent, register-IsConsistent, pop-IsConsistent,
  dispatch-IsConsistent, cancel-IsConsistent, close-IsConsistent, reader_end-IsConsistent,
  finish-IsConsistent,
}

abbrev pub dropped : Conn → Conn
dropped no_conn = no_conn
dropped open_conn = closed_conn
dropped closed_conn = closed_conn

module _ {C M : Type 0} (parse : C → List ℕ → Option M) where
  -- The peer or the network closes the connection, which the client learns later.
  abbrev pub drop : Client C M → Client C M
  drop s = record s { conn = dropped s.conn }

  -- What can happen between two `await`s, whoever does it.
  pub data Step (s : Client C M) : Client C M → Type 0 where
    connects : (reachable : Bool) → Step s (connect reachable s).1
    drops : Step s (drop s)
    registers :
        (key : Key) (cls : C) (alternates : Dict C)
        → Step s (register_request key cls alternates s).1
    send_fails : (key : Key) → Step s (pop_pending_request key s).1
    receives : (packet : Packet) → Step s (dispatch_packet parse packet s).1
    cancels : (key : Key) (reason : Option Error) → Step s (cancel_pending key reason s).1
    closes : Step s (close s)
    reader_ends : (how : ReaderEnd) → Step s (reader_end how s)
    wakes : (wake : Wake) (key : Key) (future : ℕ) → Step s (finish_request wake key future s).1

  pub data Reach (s : Client C M) : Client C M → Type 0 where
    here : Reach s s
    next : {t u : Client C M} → Reach s t → Step t u → Reach s u

  pub Step-IsConsistent : {s t : Client C M} → Step s t → IsConsistent s → IsConsistent t
  Step-IsConsistent {s} (connects r) v = connect-IsConsistent r s v
  Step-IsConsistent {s} drops v = record { linked = v.linked; bounded = v.bounded; own = v.own }
  Step-IsConsistent {s} (registers k c a) v = register-IsConsistent k c a s v
  Step-IsConsistent {s} (send_fails k) v = pop-IsConsistent k s v
  Step-IsConsistent {s} (receives p) v = dispatch-IsConsistent parse p s v
  Step-IsConsistent {s} (cancels k r) v = cancel-IsConsistent k r s v
  Step-IsConsistent {s} closes v = close-IsConsistent s
  Step-IsConsistent {s} (reader_ends how) v = reader_end-IsConsistent how s v
  Step-IsConsistent {s} (wakes w k f) v = finish-IsConsistent w k f s v

  Reach-IsConsistent : {s t : Client C M} → IsConsistent s → Reach s t → IsConsistent t
  Reach-IsConsistent v here = v
  Reach-IsConsistent v (next r st) = Step-IsConsistent st (Reach-IsConsistent v r)

  -- `__init__`
  abbrev pub initial : Client C M
  initial = record {
    conn = no_conn;
    pending = [];
    pending_aliases = [];
    connected_event = false;
    futures = [];
  }

  pub initial-IsConsistent : IsConsistent initial
  unfolding lookup
  initial-IsConsistent = record {
    linked = record { leads = λ a k h. absurd (cc) };
    bounded = λ k p h. absurd (cc);
    own = λ k j p q h g e. absurd (cc);
  }

  -- In every state that a client can reach, each alias leads to a pending request that lists it, and
  -- two pending requests never share a future.
  pub reachable-IsConsistent : (s : Client C M) → Reach initial s → IsConsistent s
  reachable-IsConsistent s r = Reach-IsConsistent initial-IsConsistent r
