-- ===== src/Ws/Futures.antt =====
-- The futures of `DwarfWsClient`, src/dwarf_alpaca/dwarf/ws_client.py: a future is completed once, so
-- that `set_result` and `set_exception` never meet a future that is done.
use dwarf_alp.Prelude.{
  ℕ, zero, suc, ◌≡◌, sym, subst, ◌∙◌, ◌≢◌, true, Option, some, List, [], ◌∷◌, ◌++◌, arith,
  get_elem?, get_elem?-set_ne, ◌==◌, ==_iff, Bool-cases, Option-cases, inl, inr,
}
use mathlib.Core.Bool.{false≢true}
use dwarf_alp.Ws.Dict.{Key, Dict, lookup, erase, contains}
use dwarf_alp.Ws.Client.{
  PendingRequest, Client, is_no_conn, Error, Future, waiting, cancelled, exception, closed_ok,
  reader_failed, is_done, Packet, reason_future, pop_pending_request, connect, register_request,
  cancel_pending, fail_all, flush_pending, close,
}
use dwarf_alp.Ws.Receive.{
  take_target, dispatch_packet, packet_key, parsed, ReaderEnd, reader_cancelled, exhausted, failed,
  reader_end, Wake, future_done, time_over, own_task_cancelled, finish_request,
}
use dwarf_alp.Ws.Invariant.{settle}
use dwarf_alp.Ws.Steps.{
  Step, connects, drops, registers, send_fails, receives, cancels, closes, reader_ends, wakes,
}

module _ {M : Type 0} where
  -- What is done in the first list is the same in the second.
  pub record Keeps (before after : List (Future M)) : Type 0 where
    pub at :
        (j : ℕ) (g : Future M)
        → get_elem? before j ≡ some g
        → is_done g ≡ true
        → get_elem? after j ≡ some g

  Keeps-refl : (l : List (Future M)) → Keeps l l
  Keeps-refl l = record { at = λ j g e d. e }

  carry : {l m n : List (Future M)} → n ≡ m → Keeps l m → Keeps l n
  carry {l} e k = subst (λ x. Keeps l x) (sym e) k

  same : {l n : List (Future M)} → n ≡ l → Keeps l n
  same {l} e = carry e (Keeps-refl l)

  settle_done :
      (i : ℕ) (f : Future M) (l : List (Future M)) (g : Future M)
      → get_elem? l i ≡ some g
      → is_done g ≡ true
      → settle i f l ≡ l
  settle_done i f l g e d = ground arith

  pub Keeps-settle : (i : ℕ) (f : Future M) (l : List (Future M)) → Keeps l (settle i f l)
  Keeps-settle i f l = record { at = go }
    where
      go :
          (j : ℕ) (g : Future M)
          → get_elem? l j ≡ some g
          → is_done g ≡ true
          → get_elem? (settle i f l) j ≡ some g
      go j g e d = elim (Bool-cases (i == j)) [
        | inl same ↦
            let at_i : get_elem? l i ≡ some g = rw ((==_iff i j).0 same) e in
            rw (settle_done i f l g at_i d) e
        | inr other ↦
            let apart : i ≢ j = λ p. false≢true (sym other ∙ (==_iff i j).1 p) in
            ground (arith, get_elem?-set_ne l f apart)
      ]

  pub get_elem?-append_left :
      (l r : List (Future M)) (j : ℕ) (g : Future M)
      → get_elem? l j ≡ some g
      → get_elem? (l ++ r) j ≡ some g
  get_elem?-append_left [] r j g e = cc
  get_elem?-append_left (x ∷ l) r zero g e = e
  get_elem?-append_left (x ∷ l) r (suc j) g e = get_elem?-append_left l r j g e

module _ {C M : Type 0} where
  pub Keeps-fail_all :
      (error : Error) (pending : Dict (PendingRequest C)) (l : List (Future M))
      → Keeps l (fail_all error pending l)
  unfolding fail_all
  Keeps-fail_all error [] l = Keeps-refl l
  Keeps-fail_all error ((key, p) ∷ rest) l = record {
    at = λ j g e d.
        (Keeps-fail_all error rest (settle p.future (exception error) l)).at j g
          ((Keeps-settle p.future (exception error) l).at j g e d) d;
  }

  futures-pop : (key : Key) (s : Client C M) → (pop_pending_request key s).1.futures ≡ s.futures
  unfolding pop_pending_request
  futures-pop key s = ground arith

  futures-take_target :
      (packet : Packet) (s : Client C M) → (take_target packet s).1.futures ≡ s.futures
  unfolding take_target
  futures-take_target packet s =
      let key = packet_key packet in
      elim (Option-cases (lookup key s.pending_aliases)) [
        | inr (original_key, e) ↦ ground (
          arith,
          futures-pop original_key (record s { pending_aliases = erase key s.pending_aliases }),
        )
        | inl e ↦ ground (arith, futures-pop key s)
      ]

  Keeps-register :
      (key : Key) (cls : C) (alternates : Dict C) (s : Client C M)
      → Keeps s.futures (register_request key cls alternates s).1.futures
  unfolding register_request
  Keeps-register key cls alternates s =
      let added : Keeps s.futures (s.futures ++ (waiting ∷ [])) = record {
        at = λ j g e d. get_elem?-append_left s.futures (waiting ∷ []) j g e;
      } in
      elim (Bool-cases (is_no_conn s.conn)) [
        | inl off ↦ same (ground arith)
        | inr on ↦ elim (Bool-cases (contains key s.pending)) [
          | inl busy ↦ same (ground arith)
          | inr free ↦ carry (ground arith) added
        ]
      ]

  Keeps-cancel :
      (key : Key) (reason : Option Error) (s : Client C M)
      → Keeps s.futures (cancel_pending key reason s).1.futures
  unfolding cancel_pending
  Keeps-cancel key reason s = elim (Option-cases (pop_pending_request key s).0) [
    | inl e ↦ same (ground (arith, futures-pop key s))
    | inr (p, e) ↦
        carry (ground (arith, futures-pop key s))
          (Keeps-settle p.future (reason_future reason) s.futures)
  ]

  Keeps-dispatch :
      (parse : C → List ℕ → Option M) (packet : Packet) (s : Client C M)
      → Keeps s.futures (dispatch_packet parse packet s).1.futures
  unfolding dispatch_packet
  Keeps-dispatch parse packet s = elim (Option-cases (take_target packet s).0) [
    | inl e ↦ same (ground (arith, futures-take_target packet s))
    | inr ((p, cls), e) ↦
        carry (ground (arith, futures-take_target packet s))
          (Keeps-settle p.future (parsed parse cls packet.payload) s.futures)
  ]

  Keeps-reader_end : (how : ReaderEnd) (s : Client C M) → Keeps s.futures (reader_end how s).futures
  unfolding reader_end flush_pending
  Keeps-reader_end reader_cancelled s = Keeps-refl s.futures
  Keeps-reader_end exhausted s = Keeps-refl s.futures
  Keeps-reader_end (failed e) s = Keeps-fail_all (reader_failed e) s.pending s.futures

  Keeps-finish :
      (wake : Wake) (key : Key) (future : ℕ) (s : Client C M)
      → Keeps s.futures (finish_request wake key future s).1.futures
  unfolding finish_request
  Keeps-finish time_over key future s =
      carry (futures-pop key (record s { futures = settle future cancelled s.futures }))
        (Keeps-settle future cancelled s.futures)
  Keeps-finish own_task_cancelled key future s = Keeps-settle future cancelled s.futures
  Keeps-finish future_done key future s = same (ground (arith, futures-pop key s))

  -- Whatever step the client makes, a future that is done keeps its result: an answer, a failing
  -- reader, a flush and a cancellation of a request each test first whether its future is done.
  pub Step-Keeps :
      (parse : C → List ℕ → Option M) (s t : Client C M)
      → Step parse s t
      → Keeps s.futures t.futures
  unfolding connect close flush_pending
  Step-Keeps parse s t (connects r) = same (ground arith)
  Step-Keeps parse s t drops = Keeps-refl s.futures
  Step-Keeps parse s t (registers k c a) = Keeps-register k c a s
  Step-Keeps parse s t (send_fails k) = same (futures-pop k s)
  Step-Keeps parse s t (receives p) = Keeps-dispatch parse p s
  Step-Keeps parse s t (cancels k r) = Keeps-cancel k r s
  Step-Keeps parse s t closes = Keeps-fail_all closed_ok s.pending s.futures
  Step-Keeps parse s t (reader_ends how) = Keeps-reader_end how s
  Step-Keeps parse s t (wakes w k f) = Keeps-finish w k f s
