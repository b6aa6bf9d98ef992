-- ===== src/Sharing/Release.antt =====
-- The counts of src/dwarf_alpaca/dwarf/session.py against a list of the devices that hold the session: `acquire`, `release` and `shutdown`.
use dwarf_alp.Prelude.{
  ◌+◌, ◌-◌, ◌≡◌, refl, sym, subst, ap, ◌⊎◌, Bool, true, false, not, ◌&&◌, ◌||◌, List, [], ◌∷◌,
  arith, if◌then◌else◌, Bool-cases, inl, inr,
}
use dwarf_alp.Ws.Client.{connect, is_no_conn, close}
use dwarf_alp.Sharing.Session.{
  DeviceName, Refs, no_refs, count, set_count, is_unused, Session, World, set_refs, ensure_ws,
  acquire, close_session, release, shutdown, finish_shutdown, ensure_master_lock,
  ensure_temperature_monitor_task, reset_connection, release_master_lock, close_clients,
  cancel_capture_protocol_tasks, no_task, running, done, Task,
}
use dwarf_alp.Sharing.Holders.{
  Holds, remove, is_nil, is_unused-is_nil, Holds-acquire, Holds-release, Holds-undone,
  no_refs-Holds, if_true, if_false,
}

-- The calls of the session that change who holds it.
pub data Call (C M : Type 0) : Type 0 where
  acquire_call release_call : World C M → DeviceName → Call C M
  shutdown_call : World C M → Call C M

module _ {C M : Type 0} where
  unfoldable pub run : Call C M → Session C M → Bool × Session C M
  unfolding acquire release shutdown
  run (acquire_call world d) s = acquire world d s
  run (release_call world d) s = (false, release world d s)
  run (shutdown_call world) s = shutdown world s

  -- What a call does to the holders, by whether it raised.
  abbrev pub holders : Call C M → Bool → List DeviceName → List DeviceName
  holders (acquire_call world d) failed bag = if failed then bag else d ∷ bag
  holders (release_call world d) failed bag = remove d bag
  holders (shutdown_call world) failed bag = if failed then bag else []

  -- No connection, no pending request, no lock, no task of a capture.
  pub record IsClosed (s : Session C M) : Type 0 where
    pub no_socket : is_no_conn s.ws_client.conn ≡ true
    pub no_request : s.ws_client.pending ≡ []
    pub no_http : s.http_open ≡ false
    pub no_lock : s.master_lock_acquired ≡ false
    pub no_calibration : s.calibration_task ≡ no_task
    pub no_start : s.capture_start_response_task ≡ no_task
    pub no_stop : s.capture_stop_response_task ≡ no_task

  -- What a call does to the connection, by whether it raised and by the holders that are left: an
  -- `acquire` leaves the HTTP client; a release that leaves some leaves both clients; a release or a
  -- shutdown that leaves none closes everything, except in a simulation; a shutdown that raises leaves
  -- all but the capture task.
  abbrev pub Connection : Call C M → Bool → List DeviceName → Session C M → Session C M → Type 0
  Connection (acquire_call world d) failed bag s t = t.http_open ≡ s.http_open
  Connection (release_call world d) failed bag s t =
      if s.simulation || not (is_nil bag)
      then (t.ws_client ≡ s.ws_client) × (t.http_open ≡ s.http_open)
      else IsClosed t
  Connection (shutdown_call world) failed bag s t =
      if failed
      then t ≡ record s { capture_task = done }
      else if s.simulation
      then t.http_open ≡ s.http_open
      else IsClosed t

  pub ensure_ws-refs : (world : World C M) (s : Session C M) → (ensure_ws world s).1.refs ≡ s.refs
  unfolding ensure_ws connect reset_connection ensure_master_lock ensure_temperature_monitor_task
  ensure_ws-refs world s = ground arith

  pub close_session-refs :
      (world : World C M) (s : Session C M) → (close_session world s).refs ≡ s.refs
  unfolding close_session close_clients release_master_lock connect cancel_capture_protocol_tasks
  close_session-refs world s = ground arith

  close_session-IsClosed :
      (world : World C M) (s : Session C M)
      → s.simulation ≡ false
      → IsClosed (close_session world s)
  unfolding close_session close_clients release_master_lock connect cancel_capture_protocol_tasks
      close
  close_session-IsClosed world s h = record {
    no_socket = ground (arith, h);
    no_request = ground (arith, h);
    no_http = ground (arith, h);
    no_lock = ground (arith, h);
    no_calibration = ground (arith, h);
    no_start = ground (arith, h);
    no_stop = ground (arith, h);
  }

  finish_shutdown-IsClosed :
      (world : World C M) (s : Session C M)
      → s.simulation ≡ false
      → IsClosed (finish_shutdown world s)
  unfolding finish_shutdown close_clients release_master_lock connect cancel_capture_protocol_tasks
      close
  finish_shutdown-IsClosed world s h = record {
    no_socket = ground (arith, h);
    no_request = ground (arith, h);
    no_http = ground (arith, h);
    no_lock = ground (arith, h);
    no_calibration = ground (arith, h);
    no_start = ground (arith, h);
    no_stop = ground (arith, h);
  }

  ensure_ws-http_open :
      (world : World C M) (s : Session C M) → (ensure_ws world s).1.http_open ≡ s.http_open
  unfolding ensure_ws connect reset_connection ensure_master_lock ensure_temperature_monitor_task
  ensure_ws-http_open world s = ground arith

  -- What the theorem below says of one call.
  abbrev pub Refines : Call C M → List DeviceName → Session C M → Bool × Session C M → Type 0
  Refines c bag s (failed, t) =
      Holds (holders c failed bag) t.refs × Connection c failed (holders c failed bag) s t

  acquire-Refines :
      (world : World C M) (d : DeviceName) (bag : List DeviceName) (s : Session C M)
      → Holds bag s.refs
      → Refines (acquire_call world d) bag s (acquire world d s)
  unfolding acquire set_refs
  acquire-Refines world d bag s h =
      let s0 : Session C M = set_refs d (count d s.refs + 1) s in
      let s1 = (ensure_ws world s0).1 in
      let undone : Session C M = set_refs d (count d s1.refs - 1) s1 in
      let result : Bool → Bool × Session C M = λ b. if b then (true, undone) else (false, s1) in
      let refs : s1.refs ≡ set_count d (count d s.refs + 1) s.refs = ensure_ws-refs world s0 in
      elim (Bool-cases (ensure_ws world s0).0) [
        | inl e ↦ subst (Refines (acquire_call world d) bag s) (ap result (sym e)) (
          subst (λ (r : Refs). Holds bag (set_count d (count d r - 1) r)) (sym refs)
              (Holds-undone bag d s.refs h),
          ensure_ws-http_open world s0,
        )
        | inr e ↦ subst (Refines (acquire_call world d) bag s) (ap result (sym e)) (
          subst (Holds (d ∷ bag)) (sym refs) (Holds-acquire bag d s.refs h),
          ensure_ws-http_open world s0,
        )
      ]

  release-Refines :
      (world : World C M) (d : DeviceName) (bag : List DeviceName) (s : Session C M)
      → Holds bag s.refs
      → Refines (release_call world d) bag s (false, release world d s)
  unfolding release set_refs
  release-Refines world d bag s h =
      let s1 : Session C M = set_refs d (count d s.refs - 1) s in
      let left = Holds-release bag d s.refs h in
      let test : Bool = not s1.simulation && is_unused s1.refs in
      let result : Bool → Session C M = λ b. if b then close_session world s1 else s1 in
      let unused = is_unused-is_nil (remove d bag) s1.refs left in
      let R : Session C M → Type 0 = λ t. Refines (release_call world d) bag s (false, t) in
      let kept = s.simulation || not (is_nil (remove d bag)) in
      elim (Bool-cases test) [
        | inl e ↦
            let real : s.simulation ≡ false = ground (arith, e) in
            let closes : kept ≡ false = ground (arith, e, unused) in
            subst R (ap result (sym e)) (
              subst (Holds (remove d bag)) (sym (close_session-refs world s1)) left,
              if_false kept _ (IsClosed (close_session world s1)) closes
                  (close_session-IsClosed world s1 real),
            )
        | inr e ↦
            let keeps : kept ≡ true = ground (arith, e, unused) in
            subst R (ap result (sym e)) (
              left,
              if_true kept ((s1.ws_client ≡ s.ws_client) × (s1.http_open ≡ s.http_open))
                  (IsClosed s1) keeps (refl, refl),
            )
      ]

  shutdown-cases :
      (world : World C M) (s : Session C M)
      → (shutdown world s ≡ (true, record s { capture_task = done }))
        ⊎ (shutdown world s ≡ (false, finish_shutdown world s))
  unfolding shutdown
  shutdown-cases world s = go s.capture_task world.capture_raises
    where
      ended : Session C M
      ended = record s { capture_task = done }

      go :
          (t : Task) (raises : Bool)
          → (◌≡◌ {A = Bool × Session C M}
              (elim t [
                | running ↦ if raises then (true, ended) else (false, finish_shutdown world s)
                | no_task ↦ (false, finish_shutdown world s)
                | done ↦ (false, finish_shutdown world s)
              ])
              (true, ended))
            ⊎ (◌≡◌ {A = Bool × Session C M}
                (elim t [
                  | running ↦ if raises then (true, ended) else (false, finish_shutdown world s)
                  | no_task ↦ (false, finish_shutdown world s)
                  | done ↦ (false, finish_shutdown world s)
                ])
                (false, finish_shutdown world s))
      go no_task raises = inr refl
      go done raises = inr refl
      go running true = inl refl
      go running false = inr refl

  finish_shutdown-refs :
      (world : World C M) (s : Session C M) → (finish_shutdown world s).refs ≡ no_refs
  unfolding finish_shutdown
  finish_shutdown-refs world s = ground arith

  finish_shutdown-http_open :
      (world : World C M) (s : Session C M)
      → s.simulation ≡ true
      → (finish_shutdown world s).http_open ≡ s.http_open
  unfolding finish_shutdown close_clients release_master_lock connect cancel_capture_protocol_tasks
  finish_shutdown-http_open world s h = ground (arith, h)

  shutdown-Refines :
      (world : World C M) (bag : List DeviceName) (s : Session C M)
      → Holds bag s.refs
      → Refines (shutdown_call world) bag s (shutdown world s)
  unfolding shutdown
  shutdown-Refines world bag s h = elim (shutdown-cases world s) [
    | inl e ↦ subst (Refines (shutdown_call world) bag s) (sym e) (h, refl)
    | inr e ↦ subst (Refines (shutdown_call world) bag s) (sym e) (
      subst (Holds []) (sym (finish_shutdown-refs world s)) no_refs-Holds,
      elim (Bool-cases s.simulation) [
        | inl simulated ↦
            if_true s.simulation _ (IsClosed (finish_shutdown world s)) simulated
              (finish_shutdown-http_open world s simulated)
        | inr real ↦
            if_false s.simulation ((finish_shutdown world s).http_open ≡ s.http_open) _ real
              (finish_shutdown-IsClosed world s real)
      ],
    )
  ]

  -- The session's counts implement a list of the devices that hold it: an `acquire` adds its device, or
  -- changes nothing where it raises; a `release` takes one occurrence of its device out; a `shutdown`
  -- empties the list, or leaves all of the session but the capture task where it raises. An acquire
  -- leaves the HTTP client as it was (a command in it that times out may close the websocket). A release
  -- that leaves some holder leaves both clients as they are. A release that leaves none, and a shutdown
  -- that does not raise, close the websocket and the HTTP client, drop the master lock and leave no
  -- pending request, no calibration and no monitor of a capture, except in a simulation.
  pub calls_refine :
      (c : Call C M) (bag : List DeviceName) (s : Session C M)
      → Holds bag s.refs
      → Refines c bag s (run c s)
  unfolding run
  calls_refine (acquire_call world d) bag s h = acquire-Refines world d bag s h
  calls_refine (release_call world d) bag s h = release-Refines world d bag s h
  calls_refine (shutdown_call world) bag s h = shutdown-Refines world bag s h
