-- ===== src/Sharing/FocuserShare.antt =====
-- The request of src/dwarf_alpaca/devices/focuser.py that connects the focuser to the shared session.
use dwarf_alp.Prelude.{◌+◌, ◌-◌, ◌≡◌, Bool, true, false, arith, if◌then◌else◌}
use dwarf_alp.Focuser.Commands.{FocuserState, focuser_connect, focuser_disconnect}
use dwarf_alp.Focuser.Commands as Focuser
use dwarf_alp.Focuser.Endpoints.{Endpoint, synchronised}
use dwarf_alp.Sharing.Session.{DeviceName, Session, World, acquire, release}
use dwarf_alp.Sharing.Counts.{count-acquire, count-release}
use dwarf_alp.Sharing.Wheel.{Answer, response, unhandled}

pub record Focusing (C M : Type 0) : Type 0 where
  pub session : Session C M
  pub focuser : FocuserState
  pub endpoint : Endpoint

module _ {C M : Type 0} where
  -- `put_connected`; `world` is what happens around the session's counts, `focus` around the focuser's
  -- command.
  unfoldable pub put_focuser_connected :
      World C M → Focuser.World → Bool → Focusing C M → Answer × Focusing C M
  unfolding acquire release focuser_connect focuser_disconnect synchronised
  put_focuser_connected world focus true s =
      let (failed, session) = acquire world DeviceName.focuser s.session in
      let s1 : Focusing C M = record s { session = session } in
      let (raised, focuser) = focuser_connect focus s.focuser in
      let s2 : Focusing C M = record s1 { focuser = focuser } in
      if failed
      then (unhandled, s1)
      else if raised
      then (unhandled, s2)
      else (response, record s2 { endpoint = synchronised focuser s.endpoint })
  put_focuser_connected world focus false s =
      let (raised, focuser) = focuser_disconnect focus s.focuser in
      let s1 : Focusing C M = record s { focuser = focuser } in
      let s2 : Focusing C M = record s1 {
        session = release world DeviceName.focuser s.session;
        endpoint = synchronised focuser s.endpoint;
      } in
      if raised then (unhandled, s1) else (response, s2)

  connect-count :
      (world : World C M) (focus : Focuser.World) (s : Focusing C M)
      → (put_focuser_connected world focus true s).0 ≡ response
      → (put_focuser_connected world focus true s).1.session.refs.focuser
        ≡ s.session.refs.focuser + 1
  unfolding put_focuser_connected
  connect-count world focus s h =
      ground (arith, h, count-acquire world DeviceName.focuser DeviceName.focuser s.session)

  disconnect-count :
      (world : World C M) (focus : Focuser.World) (s : Focusing C M)
      → (put_focuser_connected world focus false s).0 ≡ response
      → ((put_focuser_connected world focus false s).1.session.refs.focuser
          ≡ s.session.refs.focuser - 1)
        × ((put_focuser_connected world focus false s).1.endpoint.connected ≡ false)
  unfolding put_focuser_connected focuser_disconnect synchronised
  disconnect-count world focus s h = (
    ground (arith, h, count-release world DeviceName.focuser DeviceName.focuser s.session),
    ground (arith, h),
  )

  abbrev pub connected_twice :
      World C M → World C M → Focuser.World → Focuser.World → Focusing C M → Focusing C M
  connected_twice w1 w2 f1 f2 s =
      (put_focuser_connected w2 f2 true (put_focuser_connected w1 f1 true s).1).1

  -- A focuser that is connected twice and then disconnected, each request answered with success, is
  -- disconnected but still holds a reference to the session more than before.
  pub connect_twice_leaks :
      (w1 w2 w3 : World C M) (f1 f2 f3 : Focuser.World) (s : Focusing C M)
      → (put_focuser_connected w1 f1 true s).0 ≡ response
      → (put_focuser_connected w2 f2 true (put_focuser_connected w1 f1 true s).1).0 ≡ response
      → (put_focuser_connected w3 f3 false (connected_twice w1 w2 f1 f2 s)).0 ≡ response
      → ((put_focuser_connected w3 f3 false (connected_twice w1 w2 f1 f2 s)).1.endpoint.connected
          ≡ false)
        × ((put_focuser_connected w3 f3 false
              (connected_twice w1 w2 f1 f2 s)).1.session.refs.focuser
            ≡ s.session.refs.focuser + 1)
  connect_twice_leaks w1 w2 w3 f1 f2 f3 s p q r =
      let s1 = (put_focuser_connected w1 f1 true s).1 in
      let s2 = (put_focuser_connected w2 f2 true s1).1 in
      let (count, off) = disconnect-count w3 f3 s2 r in
      (off, omega (arith, connect-count w1 f1 s p, connect-count w2 f2 s1 q, count))
