-- ===== src/Camera/Endpoint.antt =====
-- The requests of src/dwarf_alpaca/devices/camera.py that start and abort an exposure and that tell how
-- far it is, in front of the session's workflow.
use dwarf_alp.Prelude.{ℕ, Bool, true, false, not, ◌&&◌, ◌||◌, Option, none, some, if◌then◌else◌}
use dwarf_alp.Prelude.Int.{ℤ, pos, eq_ℤ}
use dwarf_alp.Profile.{CameraProfile}
use dwarf_alp.Sharing.Wheel.{Answer, response, http_error, unhandled}
use dwarf_alp.Camera.Device.{sync_state_to_profile, choose_frame_count}
use dwarf_alp.Camera.Device as Device
use dwarf_alp.Camera.Capture.{
  CapturePhase, configuring, waiting_for_dark, starting, exposing, processing, transferring, ready,
  aborting, failed, unknown, configuration, CameraState, Setup, command_failed, timed_out,
  configuration_error, capture_busy, photo_failed, runtime_error, other_error, Run, returned,
  raised, Await,
}
use dwarf_alp.Camera.Start.{World, camera_start_exposure, function_busy}
use dwarf_alp.Camera.Fetch.{camera_abort_exposure, is_some}

-- The settings of the device and the session's state of the camera.
pub record Camera (F I : Type 0) : Type 0 where
  pub device : Device.CameraState
  pub session : CameraState F I

-- A request to start an exposure: the duration with its tests, the light, whether missing dark frames
-- are accepted, and the first frame count given.
pub record Request (F : Type 0) : Type 0 where
  pub duration : F
  pub is_positive : Bool
  pub is_within_limits : Bool
  pub light : Bool
  pub continue_without_dark : Bool
  pub frame_count : Option ℤ

abbrev pub is_ready : CapturePhase → Bool
is_ready ready = true
is_ready _ = false

module _ {F I : Type 0} where
  -- What the handlers of `start_exposure` answer, and do to the session's state.
  unfoldable pub answer_start : Run (CameraState F I) → Answer × CameraState F I
  answer_start (returned s) = (response, s)
  answer_start (raised (command_failed code) s) = (
    http_error (if eq_ℤ code function_busy then 409 else 502),
    record s { capture_phase = failed; start_time = none },
  )
  answer_start (raised timed_out s) =
      (http_error 504, record s { capture_phase = unknown; start_time = none })
  answer_start (raised photo_failed s) = (http_error 502, s)
  answer_start (raised capture_busy s) = (http_error 409, s)
  answer_start (raised configuration_error s) = (
    http_error 422,
    record s { capture_phase = failed; start_time = none; last_error = some configuration },
  )
  answer_start (raised runtime_error s) = (unhandled, s)
  answer_start (raised other_error s) = (unhandled, s)

  -- What `start_exposure` asks of the session before it starts.
  unfoldable pub request_capture : Device.CameraState → CameraState F I → CameraState F I
  request_capture device s = record s {
    requested_gain = some (pos device.gain);
    requested_bin = (device.bin_x, device.bin_y);
    requested_frame_count = device.frame_count;
  }

  unfoldable pub start_exposure :
      CameraProfile → Setup → World F I → Request F → Camera F I → Answer × Camera F I
  unfolding sync_state_to_profile choose_frame_count request_capture camera_start_exposure
      answer_start
  start_exposure profile setup world request s =
      let synced = sync_state_to_profile profile s.device in
      let (counted, device) = choose_frame_count request.frame_count synced in
      let (answer, session) = answer_start (
        camera_start_exposure setup world request.duration request.light
          request.continue_without_dark (request_capture device s.session)) in
      if not s.device.connected || not request.is_positive
      then (http_error 400, s)
      else if not request.is_within_limits
      then (http_error 400, record s { device = synced })
      else elim counted [
        | response ↦ (answer, record { device = device; session = session })
        | refused ↦ (refused, record s { device = device })
      ]

  unfoldable pub abort_exposure :
      Setup
      → Await (CameraState F I)
      → Await (CameraState F I)
      → ℕ
      → CameraState F I
      → Answer × CameraState F I
  unfolding camera_abort_exposure
  abort_exposure setup cancelled stop now s =
      elim (camera_abort_exposure setup cancelled stop now s) [
        | returned t ↦ (response, t)
        | raised configuration_error t ↦ (http_error 400, t)
        | raised e t ↦ (unhandled, t)
      ]

  -- `get_image_ready`
  unfoldable pub get_image_ready : CameraState F I → Bool
  get_image_ready s = is_ready s.capture_phase && is_some s.image

  -- `get_camera_state`: idle, exposing, reading out, or ready.
  unfoldable pub get_camera_state : Camera F I → ℕ
  unfolding get_image_ready
  get_camera_state s =
      if not s.device.connected
      then 0
      else if get_image_ready s.session
      then 4
      else elim s.session.capture_phase [
        | processing ↦ 3
        | transferring ↦ 3
        | configuring ↦ 2
        | waiting_for_dark ↦ 2
        | starting ↦ 2
        | exposing ↦ 2
        | aborting ↦ 2
        | unknown ↦ 2
        | other ↦ 0
      ]
