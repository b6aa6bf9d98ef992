-- ===== src/Camera/Tests.antt =====
-- Runs of the camera, and instances of its theorems. Durations and images are numbers.
use dwarf_alp.Prelude.{ℕ, ◌≡◌, refl, true, false, none, some, [], arith, if◌then◌else◌}
use dwarf_alp.Prelude.Int.{pos}
use dwarf_alp.Profile.{dwarf3, dwarfmini}
use dwarf_alp.Ws.Dict.{lookup}
use dwarf_alp.Ws.Client.{no_conn}
use dwarf_alp.Sharing.Session as Sharing
use dwarf_alp.Sharing.Session.{no_task, running, no_refs}
use dwarf_alp.Sharing.Wheel.{http_error}
use dwarf_alp.Camera.Device as Device
use dwarf_alp.Camera.Device.{
  initial_camera, sync_state_to_profile, set_start_x, set_num_x, fit_subframe,
}
use dwarf_alp.Camera.Window as Window
use dwarf_alp.Camera.Window.{
  IsSound, IsWithin, sets_start_x, reads_image, Requests-IsWithin, SticksOut, sync-SticksOut,
  SticksOut, sync-SticksOut, FitsSensor, fit_subframe-FitsSensor,
}
use dwarf_alp.Camera.Capture.{
  idle, exposing, astro, photo, unknown, CameraState, Setup, timed_out, command_failed, Await,
  is_photo,
}
use dwarf_alp.Camera.Start.{World, camera_start_exposure, function_busy}
use dwarf_alp.Camera.Fetch.{Transfer, photo_at, camera_abort_exposure, finish_abort, fetch_capture}
use dwarf_alp.Camera.Endpoint.{answer_start, abort_exposure, request_capture}
use dwarf_alp.Camera.Refusal.{IsFree, IsAlone, refused_start-IsFree}
use dwarf_alp.Camera.Blocked.{
  IsBlocked, Returns, IsCutShort, IsLeftStarting, IsAborted, aborted_start_blocks,
}
use dwarf_alp.Camera.Completes.{Keeps, IsQuiet, IsExposing, HasFrame, exposure_completes}
use dwarf_alp.Camera.Abort.{ResetsOrFails, abort_resets}
use dwarf_alp.Camera.Photo as Photo
use dwarf_alp.Camera.Photo.{IsPhotoRefused, LeavesRequest, failed_photo_sticks}
use dwarf_alp.Camera.Connect.{Link, LinkWorld, put_camera_connected}
use dwarf_alp.Camera.Connect as Connect
use dwarf_alp.Camera.Latch.{camera_count}
use dwarf_alp.Camera.Steps as Steps
use dwarf_alp.Camera.Steps.{reachable_camera-IsLatched, connects}

dwarf3-IsSound : IsSound dwarf3.camera
dwarf3-IsSound = record {
  wide = omega arith;
  high = omega arith;
  binned = omega arith;
  gains = omega arith;
}

abbrev synced : Device.CameraState
synced = sync_state_to_profile dwarf3.camera initial_camera

Requests-IsWithin_example :
    IsWithin dwarf3.camera (fit_subframe dwarf3.camera (set_start_x (pos 3000) synced).1)
Requests-IsWithin_example =
    Requests-IsWithin dwarf3-IsSound (fit_subframe dwarf3.camera (set_start_x (pos 3000) synced).1)
      (Window.next (Window.next Window.here (sets_start_x (pos 3000))) reads_image)

start_x-shrinks : (set_start_x (pos 3000) synced).1.subframe_width ≡ 856
unfolding set_start_x sync_state_to_profile initial_camera
start_x-shrinks = refl

abbrev cropped : Device.CameraState
cropped = record initial_camera { subframe_start_x = 1000; subframe_width = 1500 }

cropped-SticksOut : SticksOut (sync_state_to_profile dwarfmini.camera cropped)
cropped-SticksOut =
    sync-SticksOut dwarfmini.camera cropped (omega arith) (omega arith) (omega arith) (omega arith)

abbrev setup : Setup
setup = record {
  simulation = false;
  is_mini = false;
  uses_v3 = false;
  mini_capture_mode = astro;
  allow_unverified_direct_photo = false;
  go_live_before_exposure = true;
}

abbrev state : CameraState ℕ ℕ
state = record {
  connected = true;
  start_time = none;
  duration = 0;
  light = true;
  capture_mode = astro;
  image = none;
  capture_task = no_task;
  last_start_time = none;
  last_end_time = none;
  image_timestamp = none;
  last_error = none;
  dark_status = unknown;
  applied_duration = none;
  reported_duration = none;
  requested_gain = none;
  applied_gain_value = none;
  requested_bin = (1, 1);
  applied_bin = none;
  requested_frame_count = 1;
  applied_frame_count = none;
  capture_id = none;
  capture_phase = idle;
  progress_total_count = none;
  progress_current_count = 0;
  capture_frame_complete_event = false;
}

abbrev calm : Await (CameraState ℕ ℕ)
calm = record { meanwhile = λ s. s; failure = none }

abbrev world : World ℕ ℕ
world = record {
  new_id = 7;
  now = 100;
  simulated = 5;
  simulated_at = 101;
  connects = calm;
  sleeps = λ s. s;
  applies_settings = calm;
  takes_photo_baseline = calm;
  photo_raw = calm;
  photo_fallback = calm;
  goes_live = λ s. s;
  checks_dark = λ s. s;
  dark_frames = some (pos 0);
  configures = calm;
  takes_baseline = calm;
  starts = calm;
}

-- The frame 9 comes by FTP.
abbrev moves : Transfer ℕ ℕ
moves = record {
  rounds = [];
  waits = λ s. s;
  stops = λ s. s;
  photo = photo_at 9 200;
  baseline = none;
  last_file = none;
  same_file = λ a b. false;
  polls = [];
  download = λ e. none;
  goes_live = λ s. s;
  now = 201;
}

same-Keeps : (s : CameraState ℕ ℕ) → Keeps s s
same-Keeps s = record { phase = refl; id = refl; task = refl; mode = refl }

world-IsQuiet : IsQuiet world false
world-IsQuiet = record {
  connects = refl;
  applies_settings = (refl, same-Keeps);
  goes_live = same-Keeps;
  checks_dark = same-Keeps;
  dark = refl;
  configures = (refl, same-Keeps);
  takes_baseline = (refl, same-Keeps);
  starts = (refl, same-Keeps);
}

exposure_completes_example :
    Returns
      (λ t. IsExposing 7 t × HasFrame 9 (fetch_capture setup moves t))
      (camera_start_exposure setup world 30 true false state)
exposure_completes_example =
    exposure_completes setup world moves 30 true false 9 200 state world-IsQuiet refl refl refl
      (refl, refl) refl (λ t. refl)

-- The telescope refuses the start since it is busy.
abbrev busy_world : World ℕ ℕ
busy_world = record world {
  starts = record { meanwhile = λ s. s; failure = some (command_failed function_busy) };
}

busy_world-IsAlone : IsAlone busy_world
busy_world-IsAlone = record {
  connects = (λ s h. h, tt);
  applies_settings = (λ s h. h, tt);
  keeps_mode = λ s. refl;
  goes_live = λ s h. h;
  checks_dark = λ s h. h;
  configures = (λ s h. h, tt);
  takes_baseline = (λ s h. h, tt);
  starts = (λ s h. h, tt);
}

busy_answer :
    (answer_start (camera_start_exposure setup busy_world 30 true false state)).0 ≡ http_error 409
unfolding answer_start camera_start_exposure
busy_answer = refl

refused_start-IsFree_example :
    IsFree (answer_start (camera_start_exposure setup busy_world 30 true false state)).1
refused_start-IsFree_example =
    refused_start-IsFree setup busy_world 30 true false state 409 busy_world-IsAlone refl
      (refl, refl) busy_answer

-- The exposure is aborted while the settings are applied.
abbrev aborting_world : World ℕ ℕ
aborting_world = record world {
  applies_settings = record {
    meanwhile = λ s. (abort_exposure setup calm calm 100 s).1;
    failure = none;
  };
}

abort-IsAborted :
    (s : CameraState ℕ ℕ)
    → is_photo s.capture_mode ≡ false
    → IsAborted (abort_exposure setup calm calm 100 s).1
unfolding abort_exposure camera_abort_exposure finish_abort
abort-IsAborted s mode = ground (arith, mode)

aborting_world-IsCutShort : IsCutShort aborting_world
aborting_world-IsCutShort = record {
  connected = refl;
  applied = refl;
  aborted = abort-IsAborted;
  goes_live = λ s h. h;
  dark = refl;
  checks_dark = λ s h. h;
  configured = refl;
  configures = λ s h. h;
  based = refl;
  takes_baseline = λ s h. h;
  keeps_phase = λ s. refl;
}

aborted_start_blocks_example :
    Returns
      (λ t. IsLeftStarting t × IsBlocked t)
      (camera_start_exposure setup aborting_world 30 true false state)
aborted_start_blocks_example =
    aborted_start_blocks aborting_world aborting_world-IsCutShort setup 30 true false state refl
      refl refl (refl, refl)

abbrev exposing_state : CameraState ℕ ℕ
exposing_state = record state {
  capture_phase = exposing;
  capture_id = some 7;
  capture_task = running;
  image = some 3;
}

abort_resets_example : ResetsOrFails calm (camera_abort_exposure setup calm calm 100 exposing_state)
abort_resets_example = abort_resets setup calm calm 100 exposing_state refl refl

abbrev mini : Setup
mini = record setup {
  is_mini = true;
  mini_capture_mode = photo;
  allow_unverified_direct_photo = true;
}

-- The raw photo is refused, and the other command is not answered.
abbrev photo_world : World ℕ ℕ
photo_world = record world {
  photo_raw = record { meanwhile = λ s. s; failure = some (command_failed (pos 5)) };
  photo_fallback = record { meanwhile = λ s. s; failure = some timed_out };
}

same-LeavesRequest : LeavesRequest {F = ℕ} {I = ℕ} (λ s. s)
same-LeavesRequest s = (refl, refl, same-Keeps s)

photo_world-IsPhotoRefused : IsPhotoRefused photo_world
photo_world-IsPhotoRefused = record {
  connected = refl;
  connects = same-LeavesRequest;
  applied = refl;
  applies_settings = same-LeavesRequest;
  based = refl;
  takes_baseline = same-LeavesRequest;
  raw_failed = (command_failed (pos 5), refl, tt);
  raw = same-LeavesRequest;
  fallback_failed = (timed_out, refl);
  fallback = same-LeavesRequest;
}

-- What the failed photo leaves, and another start behind it.
abbrev failed_photo : CameraState ℕ ℕ
failed_photo = (answer_start (camera_start_exposure mini photo_world 30 true false state)).1

abbrev tried_again : CameraState ℕ ℕ
tried_again =
    (answer_start (
      camera_start_exposure setup world 20 true false
        (request_capture initial_camera failed_photo))).1

failed_photo_sticks_example :
    ((answer_start (camera_start_exposure mini photo_world 30 true false state)).0 ≡ http_error 502)
    × IsBlocked tried_again
    × ((cancelled stop : Await (CameraState ℕ ℕ)) (now : ℕ)
        → abort_exposure mini cancelled stop now tried_again ≡ (http_error 400, tried_again))
failed_photo_sticks_example =
    failed_photo_sticks mini photo_world 30 false state tried_again refl refl refl refl (refl, refl)
      refl refl photo_world-IsPhotoRefused
      (Photo.next Photo.here (Photo.starts initial_camera setup world 20 true false))

abbrev session_world : Sharing.World ℕ ℕ
session_world = record {
  reachable = true;
  granted = true;
  bootstrapped = true;
  traffic = λ c. c;
  capture_raises = false;
  dwarf_ap_ip = 1;
  refreshes_temperature = true;
}

-- The commands go through.
abbrev link_world : LinkWorld ℕ ℕ
link_world = record {
  uses_v3 = false;
  on_acquire = session_world;
  on_connect = session_world;
  on_disconnect = session_world;
  on_release = session_world;
  unreached = Connect.timed_out;
  enters = none;
  previews = none;
  opens = none;
  capture_raises = false;
}

-- The telescope does not answer the command that opens the camera.
abbrev silent_world : LinkWorld ℕ ℕ
silent_world = record link_world { opens = some Connect.timed_out }

abbrev link : Link ℕ ℕ ℕ ℕ
link = record {
  session = record {
    simulation = false;
    refs = no_refs;
    ws_client = record {
      conn = no_conn;
      pending = [];
      pending_aliases = [];
      connected_event = false;
      futures = [];
    };
    http_open = true;
    master_lock_acquired = false;
    ws_bootstrapped = false;
    last_calibration_time = none;
    last_calibration_ip = none;
    calibration_task = no_task;
    capture_start_response_task = no_task;
    capture_stop_response_task = no_task;
    capture_task = no_task;
    temperature_task = no_task;
    one_click_response_task = no_task;
  };
  camera = record state { connected = false };
  device = initial_camera;
}

-- A connect that is not answered, and another that is.
abbrev refused_link : Link ℕ ℕ ℕ ℕ
refused_link = (put_camera_connected silent_world true link).1

abbrev connected_link : Link ℕ ℕ ℕ ℕ
connected_link = (put_camera_connected link_world true refused_link).1

connected_link-on :
    ((put_camera_connected silent_world true link).0 ≡ http_error 504)
    × (connected_link.camera.connected ≡ true)
unfolding put_camera_connected initial_camera lookup
connected_link-on = (refl, refl)

reachable_camera-IsLatched_example :
    camera_count connected_link ≡ (if connected_link.camera.connected then 1 else 0)
reachable_camera-IsLatched_example =
    reachable_camera-IsLatched link connected_link refl refl
      (Steps.later (Steps.later Steps.here (connects silent_world)) (connects link_world))
