-- ===== src/Ws/Requests.antt =====
-- A request of `DwarfWsClient`, src/dwarf_alpaca/dwarf/ws_client.py, from its start to its answer.
use dwarf_alp.Prelude.{
  ℕ, ◌≡◌, ◌≢◌, refl, sym, subst, ◌∙◌, true, false, Option, none, some, List, [], ◌∷◌, ◌++◌, arith,
  length, get_elem?, get_elem?-set_self, get_elem?-set_ne, lt_of_get_elem?,
}
use dwarf_alp.Ws.Dict.{Key, key_eq, key_eq_refl, Dict, lookup, insert, contains, lookup-insert}
use dwarf_alp.Ws.Client.{
  add_aliases, PendingRequest, Client, is_no_conn, Future, waiting, result, ok, Packet,
  register_request,
}
use dwarf_alp.Ws.Receive.{
  dispatch_packet, packet_key, is_response, parsed, future_done, finish_request,
}
use dwarf_alp.Ws.Futures.{get_elem?-append_left}
use dwarf_alp.Ws.Answers.{IsAnswered, dispatch_answers}

module _ {M : Type 0} where
  last_waiting : (l : List (Future M)) → get_elem? (l ++ (waiting ∷ [])) (length l) ≡ some waiting
  last_waiting [] = refl
  last_waiting (x ∷ l) = ground (arith, last_waiting l)

module _ {C M : Type 0} where
  finish_result :
      (key : Key) (future : ℕ) (m : M) (t : Client C M)
      → get_elem? t.futures future ≡ some (result m)
      → finish_request future_done key future t ≡ (ok m, t)
  unfolding finish_request
  finish_result key future m t e = rw (finish_request, e) refl

  -- What a caller of `send_request` sees of a request that was registered in `s`, once `t` has
  -- dispatched its answer: it gets the message, the key is free for the next request, the requests
  -- under other keys are as before, and so are the futures of all earlier requests.
  pub record IsServed (s t : Client C M) (key : Key) (m : M) : Type 0 where
    pub returns : finish_request future_done key (length s.futures) t ≡ (ok m, t)
    pub is_free : contains key t.pending ≡ false
    pub others : (j : Key) → key_eq key j ≡ false → lookup j t.pending ≡ lookup j s.pending
    pub earlier :
        (i : ℕ) (f : Future M) → get_elem? s.futures i ≡ some f → get_elem? t.futures i ≡ some f

  abbrev new_request : C → Dict C → Client C M → PendingRequest C
  new_request cls alternates s = record {
    future = length s.futures;
    response_cls = cls;
    alternate_responses = alternates;
  }

  -- What `register_request` makes of a connected client in which the key is free.
  abbrev added : Key → C → Dict C → Client C M → Client C M
  added key cls alternates s = record s {
    pending = insert key (new_request cls alternates s) s.pending;
    pending_aliases = add_aliases key alternates s.pending_aliases;
    futures = s.futures ++ (waiting ∷ []);
  }

  registered-added :
      (key : Key) (cls : C) (alternates : Dict C) (s : Client C M)
      → is_no_conn s.conn ≡ false
      → contains key s.pending ≡ false
      → (register_request key cls alternates s).1 ≡ added key cls alternates s
  unfolding register_request
  registered-added key cls alternates s online free = rw (online, free) refl

  answered-IsServed :
      (key : Key) (cls : C) (alternates : Dict C) (s t : Client C M) (m : M)
      → IsAnswered (added key cls alternates s) t key (new_request cls alternates s) (result m)
      → IsServed s t key m
  unfolding contains
  answered-IsServed key cls alternates s t m a =
      let n = length s.futures in
      let own : get_elem? (s.futures ++ (waiting ∷ [])) n ≡ some waiting = last_waiting s.futures in
      let before = lt_of_get_elem? (s.futures ++ (waiting ∷ [])) n waiting own in
      record {
        returns =
            finish_result key n m t (rw (a.answered) (get_elem?-set_self _ n (result m) before));
        is_free = ground (arith, a.removed key, key_eq_refl key);
        others = λ j apart. ground (
          arith,
          a.removed j,
          apart,
          lookup-insert key j (new_request cls alternates s) s.pending,
        );
        earlier = λ i f e.
            let far : n ≢ i = λ q. absurd (omega (arith, q, lt_of_get_elem? s.futures i f e)) in
            rw (a.answered) (
              get_elem?-set_ne (s.futures ++ (waiting ∷ [])) (result m) far
              ∙ get_elem?-append_left s.futures (waiting ∷ []) i f e);
      }

module _ {C M : Type 0} (parse : C → List ℕ → Option M) where
  -- A request that is registered on a connection, under a key that is free and, then, no alias, and
  -- whose answer comes next, parsed as the message `m`, is served: its caller gets `m`, its key is free
  -- again, and neither the requests under other keys nor the futures of earlier ones change.
  pub request-IsServed :
      (key : Key) (cls : C) (alternates : Dict C) (packet : Packet) (m : M) (s : Client C M)
      → is_no_conn s.conn ≡ false
      → contains key s.pending ≡ false
      → lookup key (register_request key cls alternates s).1.pending_aliases ≡ none
      → is_response packet ≡ true
      → packet_key packet ≡ key
      → parse cls packet.payload ≡ some m
      → IsServed s (dispatch_packet parse packet (register_request key cls alternates s).1).1 key m
  request-IsServed key cls alternates packet m s online free no_alias response same gives =
      let s1 = added key cls alternates s in
      let p = new_request cls alternates s in
      let eq = registered-added key cls alternates s online free in
      let alias : lookup (packet_key packet) s1.pending_aliases ≡ none =
        subst (λ (k : Key). lookup k s1.pending_aliases ≡ none) (sym same)
          (subst (λ (t : Client C M). lookup key t.pending_aliases ≡ none) eq no_alias) in
      let found : lookup (packet_key packet) s1.pending ≡ some p =
        subst (λ (k : Key). lookup k s1.pending ≡ some p) (sym same)
          (ground (arith, lookup-insert key key p s.pending, key_eq_refl key)) in
      let answer =
        dispatch_answers parse packet s1 p response alias found (last_waiting s.futures) in
      let got : parsed parse cls packet.payload ≡ result m = rw (parsed, gives) refl in
      let t = (dispatch_packet parse packet s1).1 in
      let answer1 : IsAnswered s1 t key p (parsed parse cls packet.payload) =
        subst (λ (k : Key). IsAnswered s1 t k p (parsed parse cls packet.payload)) same answer in
      subst (λ (u : Client C M). IsServed s (dispatch_packet parse packet u).1 key m) (sym eq)
        (answered-IsServed key cls alternates s t m
          (subst (λ (f : Future M). IsAnswered s1 t key p f) got answer1))
