-- ===== src/Camera/Photo.antt =====
-- A photo that does not start, in the photo workflow of src/dwarf_alpaca/dwarf/session.py and behind the
-- requests of src/dwarf_alpaca/devices/camera.py.
use dwarf_alp.Prelude.{ℕ, max, ◌≡◌, refl, Bool, true, false, not, ◌&&◌, none, some, arith, ap, ◌∙◌}
use dwarf_alp.Sharing.Wheel.{http_error}
use dwarf_alp.Camera.Device as Device
use dwarf_alp.Camera.Capture.{
  configuring, CameraState, Setup, Failure, timed_out, command_failed, configuration_error,
  capture_busy, runtime_error, other_error, photo_failed, Run, returned, raised, Await, wait,
  is_busy, is_photo, photo, check_start, begin_capture,
}
use dwarf_alp.Camera.Start.{
  World, start_photo_capture, photo_started, start_photo, start_workflow, start_real,
  camera_start_exposure,
}
use dwarf_alp.Camera.Fetch.{camera_abort_exposure}
use dwarf_alp.Camera.Endpoint.{answer_start, request_capture, abort_exposure}
use dwarf_alp.Camera.Refusal.{IsFree}
use dwarf_alp.Camera.Blocked.{IsBlocked, busy-IsBlocked}
use dwarf_alp.Camera.Completes.{Keeps}

-- A command times out, or the telescope refuses it with an error code.
abbrev pub IsCommandFailure : Failure → Type 0
IsCommandFailure timed_out = Unit {0}
IsCommandFailure (command_failed code) = Unit {0}
IsCommandFailure _ = ⊥

module _ {F I : Type 0} where
  -- Other tasks also leave the binning and the frame count that were asked for.
  abbrev pub LeavesRequest : (CameraState F I → CameraState F I) → Type 0
  LeavesRequest f =
      (s : CameraState F I)
      → ((f s).requested_bin ≡ s.requested_bin)
        × ((f s).requested_frame_count ≡ s.requested_frame_count)
        × Keeps s (f s)

  -- The exchanges before the photo succeed and nothing is disturbed; neither photo command works.
  pub record IsPhotoRefused (world : World F I) : Type 0 where
    pub connected : world.connects.failure ≡ none
    pub connects : LeavesRequest world.connects.meanwhile
    pub applied : world.applies_settings.failure ≡ none
    pub applies_settings : LeavesRequest world.applies_settings.meanwhile
    pub based : world.takes_photo_baseline.failure ≡ none
    pub takes_baseline : LeavesRequest world.takes_photo_baseline.meanwhile
    pub raw_failed : (e : Failure) × (world.photo_raw.failure ≡ some e) × IsCommandFailure e
    pub raw : LeavesRequest world.photo_raw.meanwhile
    pub fallback_failed : (e : Failure) × (world.photo_fallback.failure ≡ some e)
    pub fallback : LeavesRequest world.photo_fallback.meanwhile

  -- The phase is configuring, in the photo workflow.
  abbrev pub IsStuck : CameraState F I → Type 0
  IsStuck s = (s.capture_phase ≡ configuring) × (s.capture_mode ≡ photo)

  -- The run raises the failed photo and leaves the camera stuck.
  abbrev FailsStuck : Run (CameraState F I) → Type 0
  FailsStuck (returned s) = ⊥
  FailsStuck (raised e s) = (e ≡ photo_failed) × IsStuck s

  -- What the requests to start and to abort an exposure do to a real telescope's camera.
  pub data Attempt (s : CameraState F I) : CameraState F I → Type 0 where
    starts :
        (device : Device.CameraState) (setup : Setup) (world : World F I) (duration : F)
        (light continue : Bool)
        → Attempt s
            (answer_start (
              camera_start_exposure setup world duration light continue
                (request_capture device s))).1
    aborts :
        (setup : Setup) (cancelled stop : Await (CameraState F I)) (now : ℕ)
        → setup.simulation ≡ false
        → Attempt s (abort_exposure setup cancelled stop now s).1

  pub data Attempts (s : CameraState F I) : CameraState F I → Type 0 where
    here : Attempts s s
    next : {t u : CameraState F I} → Attempts s t → Attempt t u → Attempts s u

  abort_refused :
      (setup : Setup) (cancelled stop : Await (CameraState F I)) (now : ℕ) (s : CameraState F I)
      → setup.simulation ≡ false
      → is_photo s.capture_mode ≡ true
      → abort_exposure setup cancelled stop now s ≡ (http_error 400, s)
  unfolding abort_exposure camera_abort_exposure
  abort_refused setup cancelled stop now s real mode =
      let refused : (not setup.simulation && is_photo s.capture_mode) ≡ true = ground arith in
      rw (abort_exposure, refused) refl

  Attempt-IsStuck : {s t : CameraState F I} → Attempt s t → IsStuck s → IsStuck t
  unfolding answer_start request_capture
  Attempt-IsStuck {s} (starts device setup world duration light continue) (phase, mode) =
      rw
        (busy-IsBlocked (request_capture device s) (ap is_busy phase) setup world duration light
          continue)
        (phase, mode)
  Attempt-IsStuck {s} (aborts setup cancelled stop now real) (phase, mode) =
      rw (abort_refused setup cancelled stop now s real (ap is_photo mode)) (phase, mode)

  Attempts-IsStuck : {s t : CameraState F I} → Attempts s t → IsStuck s → IsStuck t
  Attempts-IsStuck here h = h
  Attempts-IsStuck (next r a) h = Attempt-IsStuck a (Attempts-IsStuck r h)

  photo_capture-FailsStuck :
      (setup : Setup) (world : World F I) (s : CameraState F I)
      → setup.is_mini ≡ true
      → IsPhotoRefused world
      → IsStuck s
      → FailsStuck (photo_started (start_photo_capture setup world s))
  unfolding start_photo_capture photo_started
  photo_capture-FailsStuck setup world s mini refused (phase, mode) =
      let s1 = world.photo_raw.meanwhile s in
      let (_, _, first) = refused.raw s in
      let (_, _, second) = refused.fallback s1 in
      let left : IsStuck (world.photo_fallback.meanwhile s1) =
        (second.phase ∙ first.phase ∙ phase, second.mode ∙ first.mode ∙ mode) in
      fails refused.raw_failed.0 refused.raw_failed.1 refused.raw_failed.2 left
    where
      fails :
          (e : Failure)
          → world.photo_raw.failure ≡ some e
          → IsCommandFailure e
          → IsStuck (world.photo_fallback.meanwhile (world.photo_raw.meanwhile s))
          → FailsStuck (photo_started (start_photo_capture setup world s))
      fails timed_out q c left =
          rw (start_photo_capture, q, mini, refused.fallback_failed.1) (refl, left)
      fails (command_failed code) q c left =
          rw (start_photo_capture, q, mini, refused.fallback_failed.1) (refl, left)
      fails configuration_error q c left = absurd c
      fails capture_busy q c left = absurd c
      fails photo_failed q c left = absurd c
      fails runtime_error q c left = absurd c
      fails other_error q c left = absurd c

  start_photo-FailsStuck :
      (setup : Setup) (world : World F I) (s : CameraState F I)
      → setup.is_mini ≡ true
      → IsPhotoRefused world
      → IsStuck s
      → s.requested_bin ≡ (1, 1)
      → FailsStuck (start_photo setup world 1 s)
  unfolding start_photo
  start_photo-FailsStuck setup world s mini refused (phase, mode) bins =
      let (_, _, kept) = refused.takes_baseline s in
      let t = world.takes_photo_baseline.meanwhile s in
      rw (bins, refused.based, wait)
        (photo_capture-FailsStuck setup world t mini refused (kept.phase ∙ phase, kept.mode ∙ mode))

  start_workflow-FailsStuck :
      (setup : Setup) (world : World F I) (continue : Bool) (s : CameraState F I)
      → setup.is_mini ≡ true
      → IsPhotoRefused world
      → IsStuck s
      → s.requested_bin ≡ (1, 1)
      → FailsStuck (start_workflow setup world 1 true continue s)
  unfolding start_workflow
  start_workflow-FailsStuck setup world continue s mini refused (phase, mode) bins =
      let s1 : CameraState F I = record s {
        requested_bin = (max 1 s.requested_bin.0, max 1 s.requested_bin.1);
      } in
      let bins1 : s1.requested_bin ≡ (1, 1) = ap (λ (b : ℕ × ℕ). (max 1 b.0, max 1 b.1)) bins in
      let chosen : (setup.is_mini && is_photo s.capture_mode) ≡ true = ground arith in
      rw chosen (start_photo-FailsStuck setup world s1 mini refused (phase, mode) bins1)

  start_real-FailsStuck :
      (setup : Setup) (world : World F I) (frames : ℕ) (continue : Bool) (s : CameraState F I)
      → setup.is_mini ≡ true
      → setup.allow_unverified_direct_photo ≡ true
      → IsPhotoRefused world
      → IsStuck s
      → s.requested_bin ≡ (1, 1)
      → frames ≡ 1
      → FailsStuck (start_real setup world frames true continue s)
  unfolding start_real
  start_real-FailsStuck setup world frames continue s mini allowed refused (phase, mode) bins one =
      let t = world.applies_settings.meanwhile s in
      let (bins1, _, kept) = refused.applies_settings s in
      let open_mode : (is_photo s.capture_mode && not setup.allow_unverified_direct_photo) ≡ false =
        ground arith in
      rw (open_mode, refused.applied, wait, one)
        (start_workflow-FailsStuck setup world continue t mini refused
          (kept.phase ∙ phase, kept.mode ∙ mode) (bins1 ∙ bins))

  start-FailsStuck :
      (setup : Setup) (world : World F I) (duration : F) (continue : Bool) (s : CameraState F I)
      → setup.simulation ≡ false
      → setup.is_mini ≡ true
      → setup.mini_capture_mode ≡ photo
      → setup.allow_unverified_direct_photo ≡ true
      → IsFree s
      → s.requested_bin ≡ (1, 1)
      → s.requested_frame_count ≡ 1
      → IsPhotoRefused world
      → FailsStuck (camera_start_exposure setup world duration true continue s)
  unfolding camera_start_exposure check_start begin_capture
  start-FailsStuck setup world duration continue s real mini mode allowed (n, b) bins one refused =
      let s1 = world.connects.meanwhile s in
      let (bins1, count1, _) = refused.connects s in
      let s2 = begin_capture setup world.new_id world.now duration true s1 in
      let unlit : (setup.is_mini && not true) ≡ false = ground arith in
      rw (n, b, unlit, real, refused.connected, wait)
        (start_real-FailsStuck setup world (max 1 s1.requested_frame_count) continue s2 mini allowed
          refused (refl, ground arith) (bins1 ∙ bins) (omega (arith, count1, one)))

  answer-IsStuck :
      (r : Run (CameraState F I))
      → FailsStuck r
      → ((answer_start r).0 ≡ http_error 502) × IsStuck (answer_start r).1
  unfolding answer_start
  answer-IsStuck (returned s) h = absurd h
  answer-IsStuck (raised e s) (failed, h) = rw failed (refl, h)

  -- Where the raw photo command of a DWARF mini in its photo workflow times out or is refused with an
  -- error code, and the second photo command fails too, the request is answered with the HTTP error
  -- 502, and no sequence of requests to start and to abort exposures ends this: after each of them every
  -- start is refused as a second exposure and every abort of the telescope's capture with the HTTP error
  -- 400. This is for one frame without binning, where the camera was free and no
  -- other task changes its phase, its mode or what was asked for.
  pub failed_photo_sticks :
      (setup : Setup) (world : World F I) (duration : F) (continue : Bool) (s t : CameraState F I)
      → setup.simulation ≡ false
      → setup.is_mini ≡ true
      → setup.mini_capture_mode ≡ photo
      → setup.allow_unverified_direct_photo ≡ true
      → IsFree s
      → s.requested_bin ≡ (1, 1)
      → s.requested_frame_count ≡ 1
      → IsPhotoRefused world
      → Attempts (answer_start (camera_start_exposure setup world duration true continue s)).1 t
      → ((answer_start (camera_start_exposure setup world duration true continue s)).0
          ≡ http_error 502)
        × IsBlocked t
        × ((cancelled stop : Await (CameraState F I)) (now : ℕ)
            → abort_exposure setup cancelled stop now t ≡ (http_error 400, t))
  failed_photo_sticks setup world duration continue s t real mini mode allowed free bins one refused
        r =
      let fails =
        start-FailsStuck setup world duration continue s real mini mode allowed free bins one
          refused in
      let (answer, stuck) =
        answer-IsStuck (camera_start_exposure setup world duration true continue s) fails in
      let (phase, photo_mode) = Attempts-IsStuck r stuck in
      (
        answer,
        busy-IsBlocked t (ap is_busy phase),
        λ cancelled stop now.
            abort_refused setup cancelled stop now t real (ap is_photo photo_mode),
      )
