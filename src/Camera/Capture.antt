-- ===== src/Camera/Capture.antt =====
-- `CapturePhase` and `CameraState` of src/dwarf_alpaca/dwarf/session.py, and the first steps of
-- `camera_start_exposure`. `F` is the type of floating-point numbers, `I` that of images; times and
-- capture ids are numbers. Fields that only the log and the description of an image read, and those
-- that name the entries of the album and of FTP, are left out.
use dwarf_alp.Prelude.{ℕ, max, Bool, true, false, not, ◌&&◌, Option, none, some, if◌then◌else◌}
use dwarf_alp.Prelude.Int.{ℤ}
use dwarf_alp.Sharing.Session.{Task, no_task, running, done}

pub data CapturePhase : Type 0 where
  idle configuring waiting_for_dark starting exposing processing : CapturePhase
  transferring ready aborting failed unknown : CapturePhase

pub data CaptureMode : Type 0 where
  astro photo : CaptureMode

-- What `last_error` says.
pub data LastError : Type 0 where
  command_error : ℤ → LastError
  dark_check_error : ℤ → LastError
  mini_dark_calibration_unverified dark_missing timeout photo_start_failed astro_busy : LastError
  configuration aborted ftp_timeout ftp_decode_failed album_failed : LastError

pub data DarkStatus : Type 0 where
  unknown ready missing : DarkStatus
  error : ℤ → DarkStatus

pub record CameraState (F I : Type 0) : Type 0 where
  pub connected : Bool
  pub start_time : Option ℕ
  pub duration : F
  pub light : Bool
  pub capture_mode : CaptureMode
  pub image : Option I
  pub capture_task : Task
  pub last_start_time : Option ℕ
  pub last_end_time : Option ℕ
  pub image_timestamp : Option ℕ
  pub last_error : Option LastError
  pub dark_status : DarkStatus
  pub applied_duration : Option F
  pub reported_duration : Option F
  pub requested_gain : Option ℤ
  pub applied_gain_value : Option ℤ
  pub requested_bin : ℕ × ℕ
  pub applied_bin : Option (ℕ × ℕ)
  pub requested_frame_count : ℕ
  pub applied_frame_count : Option ℕ
  pub capture_id : Option ℕ
  pub capture_phase : CapturePhase
  pub progress_total_count : Option ℕ
  pub progress_current_count : ℕ
  pub capture_frame_complete_event : Bool

-- What the session's settings and its telescope say of a capture. `mini_capture_mode` is what
-- `_resolve_mini_capture_mode` returns.
pub record Setup : Type 0 where
  pub simulation : Bool
  pub is_mini : Bool
  pub uses_v3 : Bool
  pub mini_capture_mode : CaptureMode
  pub allow_unverified_direct_photo : Bool
  pub go_live_before_exposure : Bool

-- What a call raises: `DwarfCommandError` with its code, `TimeoutError`, the session's two errors, a
-- failed photo, another `RuntimeError`, or an exception that is none of these.
pub data Failure : Type 0 where
  command_failed : ℤ → Failure
  timed_out configuration_error capture_busy photo_failed runtime_error other_error : Failure

pub data Run (S : Type 0) : Type 0 where
  returned : S → Run S
  raised : Failure → S → Run S

infixl 5 ◌>>=◌
abbrev pub ◌>>=◌ : {S : Type 0} → Run S → (S → Run S) → Run S
returned s >>= f = f s
raised e s >>= f = raised e s

-- What an `await` meets: what other tasks do to the state meanwhile, and how it ends.
pub record Await (S : Type 0) : Type 0 where
  pub meanwhile : S → S
  pub failure : Option Failure

abbrev pub wait : {S : Type 0} → Await S → S → Run S
wait a s = elim a.failure [ none ↦ returned (a.meanwhile s) | some e ↦ raised e (a.meanwhile s) ]

-- The phases in which `camera_start_exposure` refuses a second exposure.
abbrev pub is_busy : CapturePhase → Bool
is_busy configuring = true
is_busy waiting_for_dark = true
is_busy starting = true
is_busy exposing = true
is_busy processing = true
is_busy transferring = true
is_busy aborting = true
is_busy _ = false

abbrev pub is_running : Task → Bool
is_running running = true
is_running no_task = false
is_running done = false

abbrev pub is_photo : CaptureMode → Bool
is_photo photo = true
is_photo astro = false

module _ {F I : Type 0} where
  -- The checks at the start of `camera_start_exposure`.
  unfoldable pub check_start : Setup → Bool → CameraState F I → Run (CameraState F I)
  check_start setup light s =
      if is_running s.capture_task
      then raised capture_busy s
      else if is_busy s.capture_phase
      then raised capture_busy s
      else if setup.is_mini && not light
      then raised configuration_error
          (record s { capture_phase = failed; last_error = some mini_dark_calibration_unverified })
      else returned s

  -- What the start of a capture sets, up to its first `await`.
  unfoldable pub begin_capture : Setup → ℕ → ℕ → F → Bool → CameraState F I → CameraState F I
  begin_capture setup id now duration light s = record s {
    capture_id = some id;
    capture_phase = configuring;
    duration = duration;
    light = light;
    start_time = some now;
    last_start_time = some now;
    last_end_time = none;
    image_timestamp = none;
    last_error = none;
    image = none;
    applied_duration = none;
    reported_duration = none;
    applied_gain_value = none;
    applied_bin = none;
    applied_frame_count = none;
    progress_total_count = none;
    progress_current_count = 0;
    capture_frame_complete_event = false;
    capture_mode = if setup.is_mini then setup.mini_capture_mode else astro;
    requested_frame_count = max 1 s.requested_frame_count;
  }

  -- `_simulate_capture` behind its sleep, and what `camera_start_exposure` sets behind it.
  unfoldable pub finish_simulation : I → ℕ → F → ℕ → CameraState F I → CameraState F I
  finish_simulation grid now duration frames s = record s {
    image = some grid;
    image_timestamp = some now;
    last_end_time = some now;
    start_time = none;
    capture_task = no_task;
    applied_duration = some duration;
    applied_gain_value = s.requested_gain;
    applied_bin = some s.requested_bin;
    applied_frame_count = some frames;
    capture_phase = ready;
  }
