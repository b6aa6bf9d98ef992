-- ===== src/Ws/Tests.antt =====
-- Runs of the websocket client and instances of its theorems. Message classes are numbers, and every
-- parse gives the first byte.
use dwarf_alp.Prelude.{ℕ, ◌≡◌, refl, true, false, List, [], ◌∷◌, Option, some, none, get_elem?}
use dwarf_alp.Ws.Dict.{Key, lookup, insert, contains, key_eq}
use dwarf_alp.Ws.Client.{
  PendingRequest, Client, connected, waiting, result, Packet, type_request_response,
  type_notification, connect, add_aliases, register_request, is_no_conn, Future, is_done, closed_ok,
  flush_pending,
}
use dwarf_alp.Ws.Receive.{dispatch_packet}
use dwarf_alp.Ws.Invariant.{IsConsistent}
use dwarf_alp.Ws.Steps.{
  connects, registers, receives, Reach, here, next, initial, reachable-IsConsistent,
}
use dwarf_alp.Ws.Futures.{Keeps, Step-Keeps}
use dwarf_alp.Ws.Answers.{flush_settles}
use dwarf_alp.Ws.Requests.{IsServed, request-IsServed}

abbrev parse : ℕ → List ℕ → Option ℕ
parse cls [] = none
parse cls (byte ∷ rest) = some byte

abbrev goto_key : Key
goto_key = record { module_id = 3; command_id = 11002 }

abbrev notify_key : Key
notify_key = record { module_id = 9; command_id = 15235 }

abbrev start : Client ℕ ℕ
start = initial parse

-- A request is under way, which a notification may answer too.
abbrev asked : Client ℕ ℕ
asked = (register_request goto_key 5 ((notify_key, 6) ∷ []) (connect true start).1).1

abbrev the_request : PendingRequest ℕ
the_request = record { future = 0; response_cls = 5; alternate_responses = (notify_key, 6) ∷ [] }

abbrev asked_reached : Reach parse start asked
asked_reached = next (next here (connects true)) (registers goto_key 5 ((notify_key, 6) ∷ []))

abbrev answer : Packet
answer = record { module_id = 3; cmd = 11002; type = type_request_response; payload = 42 ∷ [] }

abbrev notice : Packet
notice = record { module_id = 9; cmd = 15235; type = type_notification; payload = 43 ∷ [] }

answer_arrives : (dispatch_packet parse answer asked).1.futures ≡ result 42 ∷ []
unfolding dispatch_packet register_request connect contains key_eq insert add_aliases
answer_arrives = refl

reachable-IsConsistent_example : IsConsistent asked
reachable-IsConsistent_example = reachable-IsConsistent parse asked asked_reached

Step-Keeps_example : Keeps asked.futures (dispatch_packet parse answer asked).1.futures
Step-Keeps_example = Step-Keeps parse asked (dispatch_packet parse answer asked).1 (receives answer)

pending_request : lookup goto_key asked.pending ≡ some the_request
unfolding lookup connect register_request contains insert key_eq add_aliases
pending_request = refl

no_alias : lookup goto_key asked.pending_aliases ≡ none
unfolding lookup connect register_request contains insert key_eq add_aliases
no_alias = refl

alias : lookup notify_key asked.pending_aliases ≡ some goto_key
unfolding lookup connect register_request contains insert key_eq add_aliases
alias = refl

still_waiting : get_elem? asked.futures 0 ≡ some waiting
unfolding connect register_request contains
still_waiting = refl

abbrev online : Client ℕ ℕ
online = (connect true start).1

is_online : is_no_conn online.conn ≡ false
unfolding connect
is_online = refl

key_free : contains goto_key online.pending ≡ false
unfolding connect contains
key_free = refl

request-IsServed_example :
    IsServed online
      (dispatch_packet parse answer (register_request goto_key 5 ((notify_key, 6) ∷ []) online).1).1
      goto_key
      42
request-IsServed_example =
    request-IsServed parse goto_key 5 ((notify_key, 6) ∷ []) answer 42 online is_online key_free
      no_alias refl refl refl

flush_settles_example :
    (g : Future ℕ) × (get_elem? (flush_pending closed_ok asked).futures 0 ≡ some g)
    × (is_done g ≡ true)
    × (contains goto_key (flush_pending closed_ok asked).pending ≡ false)
    × (contains goto_key (flush_pending closed_ok asked).pending_aliases ≡ false)
flush_settles_example =
    flush_settles closed_ok asked goto_key the_request
      (reachable-IsConsistent parse asked asked_reached) pending_request

busy : contains goto_key asked.pending ≡ true
unfolding lookup connect register_request contains insert key_eq add_aliases
busy = refl

on : connected asked ≡ true
unfolding connect register_request contains
on = refl
