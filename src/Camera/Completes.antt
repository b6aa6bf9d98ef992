-- ===== src/Camera/Completes.antt =====
-- An exposure that nothing disturbs, in the workflow of
-- src/dwarf_alpaca/dwarf/session.py.
use dwarf_alp.Prelude.{
  ℕ, max, ◌≡◌, refl, Bool, true, false, not, ◌&&◌, Option, none, some, arith, if◌then◌else◌, inl,
  inr, Bool-cases, ap, ◌∙◌, subst, sym,
}
use dwarf_alp.Prelude.Int.{ℤ, pos, eq_ℤ}
use dwarf_alp.Sharing.Session.{running}
use dwarf_alp.Camera.Capture.{
  starting, exposing, waiting_for_dark, transferring, CameraState, Setup, Run, returned, raised,
  Await, wait, is_photo, astro, check_start, begin_capture,
}
use dwarf_alp.Camera.Start.{
  World, ensure_dark_library, astro_started, guarded_start, take_baseline, launch, start_astro,
  start_workflow, start_real, camera_start_exposure, is_superseded,
}
use dwarf_alp.Camera.Fetch.{
  Transfer, photo_at, store_frame, attempt_ftp_capture, transfer, finish_fetch, fetch_capture,
  camera_readout,
}
use dwarf_alp.Camera.Endpoint.{get_image_ready}
use dwarf_alp.Camera.Refusal.{IsFree}
use dwarf_alp.Camera.Blocked.{Returns, >>=-Returns, wait-Returns}

-- The dark frames are there, or the request goes on without them.
abbrev pub IsDarkAccepted : Bool → Option ℤ → Type 0
IsDarkAccepted true code = Unit {0}
IsDarkAccepted false code = code ≡ some (pos 0)

module _ {F I : Type 0} where
  -- What other tasks leave alone while a capture starts.
  pub record Keeps (s t : CameraState F I) : Type 0 where
    pub phase : t.capture_phase ≡ s.capture_phase
    pub id : t.capture_id ≡ s.capture_id
    pub task : t.capture_task ≡ s.capture_task
    pub mode : t.capture_mode ≡ s.capture_mode

  abbrev pub Leaves : (CameraState F I → CameraState F I) → Type 0
  Leaves f = (s : CameraState F I) → Keeps s (f s)

  -- The await ends without an error and nothing is disturbed meanwhile.
  abbrev pub GoesWell : Await (CameraState F I) → Type 0
  GoesWell a = (a.failure ≡ none) × Leaves a.meanwhile

  pub record IsQuiet (world : World F I) (continue : Bool) : Type 0 where
    pub connects : world.connects.failure ≡ none
    pub applies_settings : GoesWell world.applies_settings
    pub goes_live : Leaves world.goes_live
    pub checks_dark : Leaves world.checks_dark
    pub dark : IsDarkAccepted continue world.dark_frames
    pub configures : GoesWell world.configures
    pub takes_baseline : GoesWell world.takes_baseline
    pub starts : GoesWell world.starts

  -- The capture `id` runs.
  abbrev pub IsExposing : ℕ → CameraState F I → Type 0
  IsExposing id s =
      (s.capture_phase ≡ exposing)
      × (s.capture_id ≡ some id)
      × (s.capture_task ≡ running)
      × (s.last_error ≡ none)

  module _ (world : World F I) (continue : Bool) (quiet : IsQuiet world continue) where
    abbrev IsOurs : CameraState F I → Type 0
    IsOurs s = (s.capture_id ≡ some world.new_id) × (is_photo s.capture_mode ≡ false)

    abbrev IsOursStarting : CameraState F I → Type 0
    IsOursStarting s = (s.capture_phase ≡ starting) × (s.capture_id ≡ some world.new_id)

    ours-not_superseded :
        (s : CameraState F I) → IsOursStarting s → is_superseded world.new_id s ≡ false
    unfolding is_superseded
    ours-not_superseded s (phase, id) = rw (phase, id) (ground arith)

    guarded_start-IsExposing :
        (s : CameraState F I)
        → IsOursStarting s
        → Returns (IsExposing world.new_id) (guarded_start world s)
    unfolding guarded_start astro_started
    guarded_start-IsExposing s ours =
        let t = world.starts.meanwhile s in
        let kept = quiet.starts.1 s in
        let later : IsOursStarting t = (kept.phase ∙ ours.0, kept.id ∙ ours.1) in
        rw (ours-not_superseded s ours, quiet.starts.0, wait, ours-not_superseded t later)
          (refl, later.1, refl, refl)

    launch-IsExposing :
        (s : CameraState F I) → IsOurs s → Returns (IsExposing world.new_id) (launch world s)
    unfolding launch take_baseline
    launch-IsExposing s ours =
        let t = world.configures.meanwhile s in
        let kept = quiet.configures.1 s in
        let t1 : CameraState F I = record t { capture_phase = starting } in
        let kept1 = quiet.takes_baseline.1 t1 in
        rw (quiet.configures.0, wait, quiet.takes_baseline.0, wait)
          (guarded_start-IsExposing (world.takes_baseline.meanwhile t1)
            (kept1.phase, kept1.id ∙ kept.id ∙ ours.0))

    dark-IsOurs :
        (c : Bool) (code : Option ℤ) (s : CameraState F I)
        → IsDarkAccepted c code
        → IsOurs s
        → Returns IsOurs (ensure_dark_library c code s)
    unfolding ensure_dark_library
    dark-IsOurs true none s accepted ours = ours
    dark-IsOurs true (some code) s accepted ours = elim (Bool-cases (eq_ℤ code (pos 0))) [
      | inl q ↦ rw q ours
      | inr q ↦ rw q ours
    ]
    dark-IsOurs false code s accepted ours = rw accepted ours

    Leaves-IsOurs :
        (f : CameraState F I → CameraState F I) (s : CameraState F I)
        → Leaves f
        → IsOurs s
        → IsOurs (f s)
    Leaves-IsOurs f s leaves ours = ((leaves s).id ∙ ours.0, ap is_photo (leaves s).mode ∙ ours.1)

    start_astro-IsExposing :
        (setup : Setup) (light : Bool) (s : CameraState F I)
        → IsOurs s
        → Returns (IsExposing world.new_id) (start_astro setup world light continue s)
    unfolding start_astro
    start_astro-IsExposing setup false s ours = launch-IsExposing s ours
    start_astro-IsExposing setup true s ours =
        let live = if setup.go_live_before_exposure then world.goes_live s else s in
        let live-ours : IsOurs live = elim (Bool-cases setup.go_live_before_exposure) [
          | inl q ↦ rw q (Leaves-IsOurs world.goes_live s quiet.goes_live ours)
          | inr q ↦ rw q ours
        ] in
        let before : CameraState F I = record live { capture_phase = waiting_for_dark } in
        let dark = world.checks_dark before in
        >>=-Returns IsOurs (IsExposing world.new_id)
          (ensure_dark_library continue world.dark_frames dark) (launch world)
          (dark-IsOurs continue world.dark_frames dark quiet.dark
            (Leaves-IsOurs world.checks_dark before quiet.checks_dark live-ours))
          launch-IsExposing

    start_workflow-IsExposing :
        (setup : Setup) (frames : ℕ) (light : Bool) (s : CameraState F I)
        → IsOurs s
        → Returns (IsExposing world.new_id) (start_workflow setup world frames light continue s)
    unfolding start_workflow
    start_workflow-IsExposing setup frames light s ours =
        let s1 : CameraState F I = record s {
          requested_bin = (max 1 s.requested_bin.0, max 1 s.requested_bin.1);
        } in
        let rest = start_astro-IsExposing setup light s1 ours in
        elim (Bool-cases setup.is_mini) [ inl q ↦ rw (q, ours.1) rest | inr q ↦ rw q rest ]

    start_real-IsExposing :
        (setup : Setup) (frames : ℕ) (light : Bool) (s : CameraState F I)
        → IsOurs s
        → Returns (IsExposing world.new_id) (start_real setup world frames light continue s)
    unfolding start_real
    start_real-IsExposing setup frames light s ours = rw ours.1 (
        >>=-Returns IsOurs (IsExposing world.new_id) (wait world.applies_settings s)
          (start_workflow setup world frames light continue)
          (wait-Returns IsOurs world.applies_settings s quiet.applies_settings.0
            (Leaves-IsOurs world.applies_settings.meanwhile s quiet.applies_settings.1 ours))
          (start_workflow-IsExposing setup frames light))

    pub start-IsExposing :
        (setup : Setup) (duration : F) (light : Bool) (s : CameraState F I)
        → setup.simulation ≡ false
        → setup.mini_capture_mode ≡ astro
        → (setup.is_mini && not light) ≡ false
        → IsFree s
        → Returns
            (IsExposing world.new_id)
            (camera_start_exposure setup world duration light continue s)
    unfolding camera_start_exposure check_start begin_capture
    start-IsExposing setup duration light s real mode lit (n, b) =
        let s1 = world.connects.meanwhile s in
        let s2 = begin_capture setup world.new_id world.now duration light s1 in
        rw (n, b, lit, real, quiet.connects, wait)
          (start_real-IsExposing setup (max 1 s1.requested_frame_count) light s2
            (refl, ground arith))

  -- The frame can be read, the camera reports that it is ready, and it takes the next exposure.
  abbrev pub HasFrame : I → CameraState F I → Type 0
  HasFrame frame s = (camera_readout s ≡ some frame) × (get_image_ready s ≡ true) × IsFree s

  finish-HasFrame :
      (world : Transfer F I) (live : Bool) (frame : I) (s : CameraState F I)
      → ((t : CameraState F I) → (world.goes_live t).image ≡ t.image)
      → s.image ≡ some frame
      → HasFrame frame (finish_fetch world live true s)
  unfolding finish_fetch camera_readout get_image_ready
  finish-HasFrame world true frame s keeps e =
      (keeps s ∙ e, ground (arith, keeps s, e), (refl, refl))
  finish-HasFrame world false frame s keeps e = (e, ground (arith, e), (refl, refl))

  transfer-stores :
      (world : Transfer F I) (live : Bool) (frame : I) (time : ℕ) (s : CameraState F I)
      → world.photo ≡ photo_at frame time
      → ((transfer world live s).0 ≡ true) × ((transfer world live s).1.image ≡ some frame)
  unfolding transfer attempt_ftp_capture store_frame
  transfer-stores world live frame time s e = rw e (refl, refl)

  fetch-HasFrame :
      (setup : Setup) (world : Transfer F I) (frame : I) (time : ℕ) (s : CameraState F I)
      → setup.simulation ≡ false
      → world.photo ≡ photo_at frame time
      → ((t : CameraState F I) → (world.goes_live t).image ≡ t.image)
      → HasFrame frame (fetch_capture setup world s)
  unfolding fetch_capture
  fetch-HasFrame setup world frame time s real photo live =
      let live_mode = not (is_photo s.capture_mode) in
      let moved = transfer world live_mode (record s { capture_phase = transferring }) in
      let (captured, stored) =
        transfer-stores world live_mode frame time (record s { capture_phase = transferring })
          photo in
      rw real (
        subst (λ (b : Bool). HasFrame frame (finish_fetch world live_mode b moved.1)) (sym captured)
          (finish-HasFrame world live_mode frame moved.1 live stored))

  -- An exposure on a real telescope in the astro workflow whose start nothing disturbs returns without
  -- an error and with its capture running; once FTP has brought a frame, that frame can be read, the
  -- camera reports that it is ready, and it takes the next exposure. This is where the camera was free,
  -- the exchanges succeed, the dark frames are there or not asked for, and going live keeps the frame.
  pub exposure_completes :
      (setup : Setup) (world : World F I) (moves : Transfer F I) (duration : F)
      (light continue : Bool) (frame : I) (time : ℕ) (s : CameraState F I)
      → IsQuiet world continue
      → setup.simulation ≡ false
      → setup.mini_capture_mode ≡ astro
      → (setup.is_mini && not light) ≡ false
      → IsFree s
      → moves.photo ≡ photo_at frame time
      → ((t : CameraState F I) → (moves.goes_live t).image ≡ t.image)
      → Returns
          (λ t. IsExposing world.new_id t × HasFrame frame (fetch_capture setup moves t))
          (camera_start_exposure setup world duration light continue s)
  exposure_completes setup world moves duration light continue frame time s quiet real mode lit free
        photo live =
      and_then (camera_start_exposure setup world duration light continue s)
        (start-IsExposing world continue quiet setup duration light s real mode lit free)
    where
      and_then :
          (r : Run (CameraState F I))
          → Returns (IsExposing world.new_id) r
          → Returns
              (λ t. IsExposing world.new_id t × HasFrame frame (fetch_capture setup moves t))
              r
      and_then (returned t) h = (h, fetch-HasFrame setup moves frame time t real photo live)
      and_then (raised e t) h = h
