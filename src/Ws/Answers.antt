-- ===== src/Ws/Answers.antt =====
-- What a caller of `DwarfWsClient`, src/dwarf_alpaca/dwarf/ws_client.py, gets: answers and failures.
use dwarf_alp.Prelude.{
  ℕ, ◌<◌, ◌≡◌, refl, sym, subst, ap, ◌∙◌, ◌≢◌, true, false, Option, none, some, List, [], ◌∷◌,
  arith, length, get_elem?, set, get_elem?-set_ne, get_elem?-set_self, Bool-cases, Option-cases,
  inl, inr, if◌then◌else◌, get_elem?-in_range, lt_of_get_elem?,
}
use dwarf_alp.Ws.Dict.{Key, key_eq, Dict, lookup, erase, contains, lookup-erase}
use dwarf_alp.Ws.Client.{
  PendingRequest, Client, Error, Future, waiting, cancelled, result, exception, is_done, Packet,
  pop_pending_request, fail_all, flush_pending,
}
use dwarf_alp.Ws.Receive.{take_target, dispatch_packet, packet_key, is_response, parsed}
use dwarf_alp.Ws.Invariant.{IsConsistent, length-settle, settle}
use dwarf_alp.Ws.Futures.{Keeps-settle, Keeps-fail_all}

module _ {M : Type 0} where
  get_elem?-settle :
      (i : ℕ) (f : Future M) (l : List (Future M))
      → get_elem? l i ≡ some waiting
      → get_elem? (settle i f l) i ≡ some f
  get_elem?-settle i f l e =
      ground (arith, get_elem?-set_self l i f (lt_of_get_elem? l i waiting e))

  get_elem?-settle_ne :
      (i j : ℕ) (f : Future M) (l : List (Future M))
      → i ≢ j
      → get_elem? (settle i f l) j ≡ get_elem? l j
  get_elem?-settle_ne i j f l apart = ground (arith, get_elem?-set_ne l f apart)

  settle-is_done :
      (i : ℕ) (f : Future M) (l : List (Future M))
      → is_done f ≡ true
      → i < length l
      → (g : Future M) × (get_elem? (settle i f l) i ≡ some g) × (is_done g ≡ true)
  settle-is_done i f l d h = let (g, e) = get_elem?-in_range l i h in settle_found g e
    where
      settle_found :
          (g : Future M)
          → get_elem? l i ≡ some g
          → (g' : Future M) × (get_elem? (settle i f l) i ≡ some g') × (is_done g' ≡ true)
      settle_found waiting e = (f, get_elem?-settle i f l e, d)
      settle_found cancelled e = (cancelled, (Keeps-settle i f l).at i cancelled e refl, refl)
      settle_found (result m) e = (result m, (Keeps-settle i f l).at i (result m) e refl, refl)
      settle_found (exception x) e =
          (exception x, (Keeps-settle i f l).at i (exception x) e refl, refl)

module _ {C M : Type 0} where
  fail_all_settles :
      (error : Error) (pending : Dict (PendingRequest C)) (l : List (Future M)) (k : Key)
      (p : PendingRequest C)
      → lookup k pending ≡ some p
      → p.future < length l
      → (g : Future M) × (get_elem? (fail_all error pending l) p.future ≡ some g)
        × (is_done g ≡ true)
  unfolding fail_all lookup
  fail_all_settles error [] l k p e h = absurd (cc)
  fail_all_settles error ((key, q) ∷ rest) l k p e h = elim (Bool-cases (key_eq key k)) [
    | inl mine ↦
        let l' = settle q.future (exception error) l in
        let it : q ≡ p = ground arith in
        let (g, at, d) = settle-is_done p.future (exception error) l refl h in
        let at' : get_elem? l' p.future ≡ some g =
          ap (λ (r : PendingRequest C). get_elem? (settle r.future (exception error) l) p.future) it
          ∙ at in
        (g, (Keeps-fail_all error rest l').at p.future g at' d, d)
    | inr other ↦
        fail_all_settles error rest (settle q.future (exception error) l) k p (ground arith)
          (rw (length-settle q.future (exception error) l) h)
  ]

  -- Where the client's tables are consistent, a flush lets no caller wait for ever: the future of every
  -- request that was pending is done, and its key is neither pending nor an alias.
  pub flush_settles :
      (error : Error) (s : Client C M) (k : Key) (p : PendingRequest C)
      → IsConsistent s
      → lookup k s.pending ≡ some p
      → (g : Future M) × (get_elem? (flush_pending error s).futures p.future ≡ some g)
        × (is_done g ≡ true)
        × (contains k (flush_pending error s).pending ≡ false)
        × (contains k (flush_pending error s).pending_aliases ≡ false)
  unfolding flush_pending contains
  flush_settles error s k p v e =
      let (g, at, d) = fail_all_settles error s.pending s.futures k p e (v.bounded k p e) in
      (g, at, d, refl, refl)

  pop_found :
      (key : Key) (p : PendingRequest C) (s : Client C M)
      → lookup key s.pending ≡ some p
      → ((pop_pending_request key s).0 ≡ some p)
        × ((pop_pending_request key s).1.pending ≡ erase key s.pending)
        × ((pop_pending_request key s).1.futures ≡ s.futures)
  unfolding pop_pending_request
  pop_found key p s e = (ground arith, ground arith, ground arith)

-- The outcome of dispatching a packet that answers the request `p` under the key `k`: its future gets
-- `f`, its key leaves the table, and nothing else changes in either.
pub record IsAnswered {C M : Type 0} (s t : Client C M) (k : Key) (p : PendingRequest C)
    (f : Future M) : Type 0 where
  pub answered : t.futures ≡ set s.futures p.future f
  pub removed : (j : Key) → lookup j t.pending ≡ (if key_eq k j then none else lookup j s.pending)

module _ {C M : Type 0} (parse : C → List ℕ → Option M) where
  settle_waiting :
      (i : ℕ) (f : Future M) (l : List (Future M))
      → get_elem? l i ≡ some waiting
      → settle i f l ≡ set l i f
  settle_waiting i f l e = ground arith

  IsAnswered-target :
      (s s1 : Client C M) (k : Key) (p : PendingRequest C) (f : Future M)
      → get_elem? s.futures p.future ≡ some waiting
      → s1.pending ≡ erase k s.pending
      → s1.futures ≡ s.futures
      → IsAnswered s (record s1 { futures = settle p.future f s1.futures }) k p f
  IsAnswered-target s s1 k p f w ep ef = record {
    answered = rw ef (settle_waiting p.future f s.futures w);
    removed = λ j. rw ep (lookup-erase k j s.pending);
  }

  dispatch-target :
      (packet : Packet) (s s1 : Client C M) (p : PendingRequest C) (cls : C)
      → take_target packet s ≡ (some (p, cls), s1)
      → (dispatch_packet parse packet s).1
        ≡ record s1 { futures = settle p.future (parsed parse cls packet.payload) s1.futures }
  unfolding dispatch_packet
  dispatch-target packet s s1 p cls e = ground arith

  dispatch-IsAnswered :
      (packet : Packet) (s s1 : Client C M) (k : Key) (p : PendingRequest C) (cls : C)
      → take_target packet s ≡ (some (p, cls), s1)
      → get_elem? s.futures p.future ≡ some waiting
      → s1.pending ≡ erase k s.pending
      → s1.futures ≡ s.futures
      → IsAnswered s (dispatch_packet parse packet s).1 k p (parsed parse cls packet.payload)
  dispatch-IsAnswered packet s s1 k p cls e w ep ef =
      let f = parsed parse cls packet.payload in
      subst (λ x. IsAnswered s x k p f) (sym (dispatch-target packet s s1 p cls e))
        (IsAnswered-target s s1 k p f w ep ef)

  -- A response under the key of a pending request, which is no alias, completes its future with the
  -- parsed message, takes the request out, and touches no other request and no other future.
  pub dispatch_answers :
      (packet : Packet) (s : Client C M) (p : PendingRequest C)
      → is_response packet ≡ true
      → lookup (packet_key packet) s.pending_aliases ≡ none
      → lookup (packet_key packet) s.pending ≡ some p
      → get_elem? s.futures p.future ≡ some waiting
      → IsAnswered s
          (dispatch_packet parse packet s).1
          (packet_key packet)
          p
          (parsed parse p.response_cls packet.payload)
  unfolding take_target
  dispatch_answers packet s p response no_alias found w =
      let key = packet_key packet in
      let (e0, e1, e2) = pop_found key p s found in
      dispatch-IsAnswered packet s (pop_pending_request key s).1 key p p.response_cls (ground arith)
        w e1 e2

  take_target_alias :
      (packet : Packet) (s s1 : Client C M) (k : Key) (p : PendingRequest C) (cls : C)
      → lookup (packet_key packet) s.pending_aliases ≡ some k
      → pop_pending_request k
          (record s { pending_aliases = erase (packet_key packet) s.pending_aliases })
        ≡ (some p, s1)
      → lookup (packet_key packet) p.alternate_responses ≡ some cls
      → take_target packet s ≡ (some (p, cls), s1)
  unfolding take_target
  take_target_alias packet s s1 k p cls e popped listed = ground arith

  -- A packet of any type under an alias that leads to the key `k` answers the request that is pending
  -- under `k` in a consistent state whose future still waits, with a message of the class that the
  -- request lists for this alias.
  pub dispatch_answers_alias :
      (packet : Packet) (s : Client C M) (k : Key) (p : PendingRequest C)
      → IsConsistent s
      → lookup (packet_key packet) s.pending_aliases ≡ some k
      → lookup k s.pending ≡ some p
      → get_elem? s.futures p.future ≡ some waiting
      → (cls : C) × (lookup (packet_key packet) p.alternate_responses ≡ some cls)
        × IsAnswered s (dispatch_packet parse packet s).1 k p (parsed parse cls packet.payload)
  unfolding contains
  dispatch_answers_alias packet s k p v e found w =
      let key = packet_key packet in
      let l = v.linked.leads key k e in
      let same : l.request ≡ p = ground (arith, l.is_pending) in
      let s0 : Client C M = record s { pending_aliases = erase key s.pending_aliases } in
      let (e0, e1, e2) = pop_found k p s0 found in
      let listing : contains key p.alternate_responses ≡ true =
        subst (λ (q : PendingRequest C). contains key q.alternate_responses ≡ true) same l.lists in
      elim (Option-cases (lookup key p.alternate_responses)) [
        | inl missing ↦ absurd (ground arith)
        | inr (cls, listed) ↦ (
          cls,
          listed,
          dispatch-IsAnswered packet s (pop_pending_request k s0).1 k p cls
              (take_target_alias packet s (pop_pending_request k s0).1 k p cls e
                (ground (arith, e0)) listed)
              w e1 e2,
        )
      ]
