-- ===== src/Camera/Connect.antt =====
-- `camera_connect` and `camera_disconnect` of src/dwarf_alpaca/dwarf/session.py and the connect request
-- of src/dwarf_alpaca/devices/camera.py, in front of the shared session. `_connect_lock` makes each
-- request one step. The capture task is the camera's; what `camera_connect` leaves in the settings of
-- the stream is left out.
use dwarf_alp.Prelude.{Bool, true, false, not, ◌&&◌, ◌||◌, Option, none, some, if◌then◌else◌}
use dwarf_alp.Sharing.Session.{
  Session, World, DeviceName, acquire, release, ensure_ws, no_task, done,
}
use dwarf_alp.Sharing.Wheel.{Answer, response, http_error, unhandled}
use dwarf_alp.Camera.Device as Device
use dwarf_alp.Camera.Capture.{CameraState, is_running}

pub record Link (C M F I : Type 0) : Type 0 where
  pub session : Session C M
  pub camera : CameraState F I
  pub device : Device.CameraState

-- How an exchange fails: the connection is closed, because another client holds the telescope or not,
-- it times out, or otherwise.
pub data ConnectFailure : Type 0 where
  connection_closed : Bool → ConnectFailure
  timed_out other_failure : ConnectFailure

-- What happens outside during a request: how the command that enters the camera ends, the one that
-- sets the preview and the older one that opens the camera, and whether the cancelled capture or the
-- connection for the older close command raises.
pub record LinkWorld (C M : Type 0) : Type 0 where
  pub uses_v3 : Bool
  pub on_acquire : World C M
  pub on_connect : World C M
  pub on_disconnect : World C M
  pub on_release : World C M
  pub unreached : ConnectFailure
  pub enters : Option ConnectFailure
  pub previews : Option ConnectFailure
  pub opens : Option ConnectFailure
  pub capture_raises : Bool

-- The commands behind the connection. A camera that does not acknowledge that it is entered is
-- entered all the same.
unfoldable pub open_camera : {C M : Type 0} → LinkWorld C M → Option ConnectFailure
open_camera world = if not world.uses_v3 then world.opens else elim world.enters [
  | none ↦ world.previews
  | some timed_out ↦ world.previews
  | some (connection_closed occupied) ↦ some (connection_closed occupied)
  | some other_failure ↦ some other_failure
]

-- What the handlers of a failed connect answer.
abbrev pub connect_answer : ConnectFailure → Answer
connect_answer (connection_closed occupied) = http_error (if occupied then 409 else 502)
connect_answer timed_out = http_error 504
connect_answer other_failure = unhandled

module _ {C M F I : Type 0} where
  abbrev pub set_connected : Bool → Link C M F I → Link C M F I
  set_connected b s = record s { camera = record s.camera { connected = b } }

  -- Beside the state, how the call raised.
  unfoldable pub camera_connect :
      LinkWorld C M → Link C M F I → Option ConnectFailure × Link C M F I
  unfolding ensure_ws open_camera
  camera_connect world s =
      let (failed, session) = ensure_ws world.on_connect s.session in
      let s1 : Link C M F I = record s { session = session } in
      if s.session.simulation
      then (none, set_connected true s)
      else if failed
      then (some world.unreached, s1)
      else elim (open_camera world) [ none ↦ (none, set_connected true s1) | some e ↦ (some e, s1) ]

  -- Beside the state, whether the call raised.
  unfoldable pub camera_disconnect : LinkWorld C M → Link C M F I → Bool × Link C M F I
  unfolding ensure_ws
  camera_disconnect world s =
      let off : Link C M F I = record s {
        camera = record s.camera {
          capture_task = no_task;
          connected = false;
          image = none;
          start_time = none;
        };
      } in
      let (failed, session) = ensure_ws world.on_disconnect s.session in
      if is_running s.camera.capture_task && world.capture_raises
      then (true, record s { camera = record s.camera { capture_task = done } })
      else if s.session.simulation || world.uses_v3
      then (false, off)
      else (failed, record off { session = session })

  unfoldable pub release_camera : LinkWorld C M → Link C M F I → Link C M F I
  unfolding release
  release_camera world s = record s {
    session = release world.on_release DeviceName.camera s.session;
  }

  -- `state.connected = runtime.connected`
  abbrev pub report_connected : Link C M F I → Link C M F I
  report_connected s = record s { device = record s.device { connected = s.camera.connected } }

  -- Behind `acquire`.
  unfoldable pub finish_connect : LinkWorld C M → Link C M F I → Answer × Link C M F I
  unfolding camera_connect release_camera
  finish_connect world s =
      let (failed, s1) = camera_connect world s in
      elim failed [
        | none ↦ (response, report_connected s1)
        | some e ↦ (connect_answer e, release_camera world s1)
      ]

  unfoldable pub put_camera_connected : LinkWorld C M → Bool → Link C M F I → Answer × Link C M F I
  unfolding acquire finish_connect camera_disconnect release_camera
  put_camera_connected world true s =
      let (failed, session) = acquire world.on_acquire DeviceName.camera s.session in
      let s1 : Link C M F I = record s { session = session } in
      if s.device.connected && s.camera.connected
      then (response, s)
      else if failed
      then (unhandled, s1)
      else finish_connect world s1
  put_camera_connected world false s =
      let (failed, s1) = camera_disconnect world s in
      let s2 = release_camera world s1 in
      if not (s.device.connected || s.camera.connected)
      then (response, report_connected s)
      else if failed
      then (unhandled, s2)
      else (response, report_connected s2)
