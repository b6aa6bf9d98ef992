-- ===== src/Camera/Steps.antt =====
-- The camera of src/dwarf_alpaca/devices/camera.py and the shared session in every state that they reach.
use dwarf_alp.Prelude.{◌≡◌, true, false, arith, if◌then◌else◌, ap}
use dwarf_alp.Sharing.Session.{DeviceName, Refs, no_refs, World, acquire, release}
use dwarf_alp.Sharing.Holders.{same_device}
use dwarf_alp.Sharing.Counts.{count-acquire, count-release}
use dwarf_alp.Camera.Connect.{Link, LinkWorld, put_camera_connected}
use dwarf_alp.Camera.Latch.{camera_count, IsLatched, connect-IsLatched, disconnect-IsLatched}

module _ {C M F I : Type 0} where
  -- The connect requests of the camera, what the other devices do, and what else happens to the
  -- camera, such as its exposures. The capture that a disconnect cancels ends without an error.
  pub data LinkStep (s : Link C M F I) : Link C M F I → Type 0 where
    connects : (world : LinkWorld C M) → LinkStep s (put_camera_connected world true s).1
    disconnects :
        (world : LinkWorld C M)
        → world.capture_raises ≡ false
        → LinkStep s (put_camera_connected world false s).1
    other_acquires :
        (world : World C M) (d : DeviceName)
        → same_device d DeviceName.camera ≡ false
        → LinkStep s (record s { session = (acquire world d s.session).1 })
    other_releases :
        (world : World C M) (d : DeviceName)
        → same_device d DeviceName.camera ≡ false
        → LinkStep s (record s { session = release world d s.session })
    works :
        (t : Link C M F I)
        → t.session.refs ≡ s.session.refs
        → t.camera.connected ≡ s.camera.connected
        → t.device.connected ≡ s.device.connected
        → LinkStep s t

  LinkStep-IsLatched : (s t : Link C M F I) → LinkStep s t → IsLatched s → IsLatched t
  unfolding IsLatched
  LinkStep-IsLatched s t (connects world) h = unfold IsLatched in connect-IsLatched world s h
  LinkStep-IsLatched s t (disconnects world quiet) h = disconnect-IsLatched world s quiet h
  LinkStep-IsLatched s t (other_acquires world d other) (h, k) =
      (ground (arith, h, other, count-acquire world d DeviceName.camera s.session), k)
  LinkStep-IsLatched s t (other_releases world d other) (h, k) =
      (ground (arith, h, other, count-release world d DeviceName.camera s.session), k)
  LinkStep-IsLatched s t (works u r c d) (h, k) =
      (ground (arith, h, c, ap (λ (v : Refs). v.camera) r), ground (arith, k, c, d))

  pub data LinkReach (s : Link C M F I) : Link C M F I → Type 0 where
    here : LinkReach s s
    later : {t u : Link C M F I} → LinkReach s t → LinkStep t u → LinkReach s u

  Reach-IsLatched : {s t : Link C M F I} → IsLatched s → LinkReach s t → IsLatched t
  Reach-IsLatched h here = h
  Reach-IsLatched h (later {t} {u} r m) = LinkStep-IsLatched t u m (Reach-IsLatched h r)

  -- In every state that an unused session and a disconnected camera reach, the camera has one
  -- reference to the session while the session says that it is connected and none otherwise, whatever
  -- requests failed. This is where the captures that a disconnect cancels end without an error.
  pub reachable_camera-IsLatched :
      (s t : Link C M F I)
      → s.session.refs ≡ no_refs
      → s.camera.connected ≡ false
      → LinkReach s t
      → camera_count t ≡ (if t.camera.connected then 1 else 0)
  unfolding IsLatched
  reachable_camera-IsLatched s t unused off r =
      let start : IsLatched s =
        (ground (arith, off, ap (λ (v : Refs). v.camera) unused), ground (arith, off)) in
      (Reach-IsLatched {s = s} {t = t} start r).0
