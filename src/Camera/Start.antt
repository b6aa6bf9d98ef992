-- ===== src/Camera/Start.antt =====
-- `camera_start_exposure`, `_ensure_dark_library` and `_start_photo_capture` of
-- src/dwarf_alpaca/dwarf/session.py. Each `await` is a place where other tasks may change the state and
-- where the call may fail; what the exchanges with the telescope do besides is left out.
use dwarf_alp.Prelude.{
  ℕ, max, Bool, true, false, not, ◌&&◌, ◌||◌, Option, none, some, ◌==◌, if◌then◌else◌,
}
use dwarf_alp.Prelude.Int.{ℤ, pos, negsuc, eq_ℤ}
use dwarf_alp.Sharing.Session.{running}
use dwarf_alp.Camera.Capture.{
  CapturePhase, waiting_for_dark, starting, exposing, failed, LastError, command_error,
  dark_check_error, dark_missing, timeout, photo_start_failed, astro_busy, unknown, ready, missing,
  error, CameraState, Setup, Failure, command_failed, timed_out, configuration_error, photo_failed,
  Run, returned, raised, ◌>>=◌, Await, wait, is_photo, check_start, begin_capture,
  finish_simulation,
}

-- What happens during one call: its awaits in their order, the code that the check of the dark
-- frames returns (`none` where it fails), and the simulated image with its time.
pub record World (F I : Type 0) : Type 0 where
  pub new_id : ℕ
  pub now : ℕ
  pub simulated : I
  pub simulated_at : ℕ
  pub connects : Await (CameraState F I)
  pub sleeps : CameraState F I → CameraState F I
  pub applies_settings : Await (CameraState F I)
  pub takes_photo_baseline : Await (CameraState F I)
  pub photo_raw : Await (CameraState F I)
  pub photo_fallback : Await (CameraState F I)
  pub goes_live : CameraState F I → CameraState F I
  pub checks_dark : CameraState F I → CameraState F I
  pub dark_frames : Option ℤ
  pub configures : Await (CameraState F I)
  pub takes_baseline : Await (CameraState F I)
  pub starts : Await (CameraState F I)

-- `CODE_ASTRO_FUNCTION_BUSY` and `CODE_ASTRO_DARK_NOT_FOUND`
abbrev pub function_busy : ℤ
function_busy = negsuc 11500

abbrev pub dark_not_found : ℤ
dark_not_found = negsuc 11502

abbrev pub is_starting : CapturePhase → Bool
is_starting starting = true
is_starting _ = false

abbrev pub same_id : Option ℕ → ℕ → Bool
same_id none id = false
same_id (some a) id = a == id

-- How `camera_start_exposure` notes that the photo did not start.
abbrev pub photo_error : Failure → LastError
photo_error (command_failed code) = command_error code
photo_error timed_out = timeout
photo_error _ = photo_start_failed

-- How it notes that the capture did not start, where it does.
abbrev pub start_error : Failure → Option LastError → Option LastError
start_error (command_failed code) e =
    if eq_ℤ code function_busy then some astro_busy else some (command_error code)
start_error timed_out e = some timeout
start_error _ e = e

module _ {F I : Type 0} where
  -- `_ensure_dark_library` behind its check. The error of the dark frames is noted by its handler.
  unfoldable pub ensure_dark_library : Bool → Option ℤ → CameraState F I → Run (CameraState F I)
  ensure_dark_library continue none s =
      let s1 : CameraState F I = record s { dark_status = unknown } in
      if continue
      then returned (record s1 { last_error = some dark_missing })
      else raised configuration_error s1
  ensure_dark_library continue (some code) s =
      let status = if eq_ℤ code dark_not_found then missing else error code in
      if eq_ℤ code (pos 0)
      then returned (record s {
        dark_status = ready;
        last_error = elim s.last_error [ some dark_missing ↦ none | e ↦ e ];
      })
      else if continue
      then returned (record s { dark_status = status; last_error = some dark_missing })
      else raised (command_failed code)
          (record s { dark_status = status; last_error = some (dark_check_error code) })

  -- `_start_photo_capture` with its fallback; a fallback that fails is a photo that did not start.
  unfoldable pub start_photo_capture : Setup → World F I → CameraState F I → Run (CameraState F I)
  start_photo_capture setup world s =
      let s1 = world.photo_raw.meanwhile s in
      let s2 = world.photo_fallback.meanwhile s1 in
      let fallback : Run (CameraState F I) = elim world.photo_fallback.failure [
        | none ↦ returned s2
        | some e ↦ raised photo_failed s2
      ] in
      elim world.photo_raw.failure [
        | none ↦ returned s1
        | some timed_out ↦ if setup.is_mini then fallback else raised timed_out s1
        | some (command_failed code) ↦
            if setup.is_mini then fallback else raised (command_failed code) s1
        | some e ↦ raised e s1
      ]

  -- The handlers of a photo that did not start, and what follows where it did.
  unfoldable pub photo_started : Run (CameraState F I) → Run (CameraState F I)
  photo_started (raised e s) = raised e (record s { last_error = some (photo_error e) })
  photo_started (returned s) =
      returned (record s { last_error = none; capture_phase = exposing; capture_task = running })

  -- `frames` is the count at the start of the capture.
  unfoldable pub start_photo : Setup → World F I → ℕ → CameraState F I → Run (CameraState F I)
  unfolding start_photo_capture photo_started
  start_photo setup world frames s =
      if not (frames == 1) || not (s.requested_bin.0 == 1 && s.requested_bin.1 == 1)
      then raised configuration_error s
      else wait world.takes_photo_baseline s >>= λ s1.
          photo_started (start_photo_capture setup world s1)

  -- Whether another task has taken over since the capture `id` began.
  unfoldable pub is_superseded : ℕ → CameraState F I → Bool
  is_superseded id s = not (same_id s.capture_id id) || not (is_starting s.capture_phase)

  -- The handlers of a capture that did not start, and what follows where it did.
  unfoldable pub astro_started : ℕ → Run (CameraState F I) → Run (CameraState F I)
  unfolding is_superseded
  astro_started id (raised e s) = raised e (record s {
    last_error = start_error e s.last_error;
    capture_id = none;
    capture_phase = failed;
    start_time = none;
  })
  astro_started id (returned s) =
      if is_superseded id s
      then returned s
      else returned
          (record s { last_error = none; capture_phase = exposing; capture_task = running })

  -- Behind the baseline: the capture starts unless another task has taken over.
  unfoldable pub guarded_start : World F I → CameraState F I → Run (CameraState F I)
  unfolding is_superseded astro_started
  guarded_start world s =
      if is_superseded world.new_id s
      then returned s
      else astro_started world.new_id (wait world.starts s)

  unfoldable pub take_baseline : World F I → CameraState F I → Run (CameraState F I)
  unfolding guarded_start
  take_baseline world s =
      wait world.takes_baseline (record s { capture_phase = starting }) >>= guarded_start world

  -- Behind the check of the dark frames.
  unfoldable pub launch : World F I → CameraState F I → Run (CameraState F I)
  unfolding take_baseline
  launch world s = wait world.configures s >>= take_baseline world

  unfoldable pub start_astro :
      Setup → World F I → Bool → Bool → CameraState F I → Run (CameraState F I)
  unfolding ensure_dark_library launch
  start_astro setup world light continue s =
      let live = if light && setup.go_live_before_exposure then world.goes_live s else s in
      let dark = world.checks_dark (record live { capture_phase = waiting_for_dark }) in
      if light
      then ensure_dark_library continue world.dark_frames dark >>= launch world
      else launch world live

  -- Behind `_ensure_selected_filter`.
  unfoldable pub start_workflow :
      Setup → World F I → ℕ → Bool → Bool → CameraState F I → Run (CameraState F I)
  unfolding start_photo start_astro
  start_workflow setup world frames light continue s =
      let s1 : CameraState F I = record s {
        requested_bin = (max 1 s.requested_bin.0, max 1 s.requested_bin.1);
      } in
      if setup.is_mini && is_photo s1.capture_mode
      then start_photo setup world frames s1
      else start_astro setup world light continue s1

  -- Behind the resets, on a real telescope.
  unfoldable pub start_real :
      Setup → World F I → ℕ → Bool → Bool → CameraState F I → Run (CameraState F I)
  unfolding start_workflow
  start_real setup world frames light continue s =
      if is_photo s.capture_mode && not setup.allow_unverified_direct_photo
      then raised configuration_error s
      else wait world.applies_settings s >>= start_workflow setup world frames light continue

  unfoldable pub camera_start_exposure :
      Setup → World F I → F → Bool → Bool → CameraState F I → Run (CameraState F I)
  unfolding check_start begin_capture finish_simulation start_real
  camera_start_exposure setup world duration light continue s = do
    s1 ← check_start setup light s
    if setup.simulation
        then returned (
            finish_simulation world.simulated world.simulated_at duration
              (max 1 s1.requested_frame_count)
              (world.sleeps (begin_capture setup world.new_id world.now duration light s1)))
        else wait world.connects s1 >>= λ s2.
            start_real setup world (max 1 s2.requested_frame_count) light continue
              (begin_capture setup world.new_id world.now duration light s2)
