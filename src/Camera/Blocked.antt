-- ===== src/Camera/Blocked.antt =====
-- Starts after which src/dwarf_alpaca/dwarf/session.py refuses every further exposure.
use dwarf_alp.Prelude.{
  ℕ, max, ◌≡◌, Bool, true, false, not, ◌&&◌, none, some, arith, inl, inr, Bool-cases, ap,
}
use dwarf_alp.Prelude.Int.{pos}
use dwarf_alp.Camera.Capture.{
  starting, CameraState, Setup, capture_busy, Run, returned, raised, ◌>>=◌, Await, wait, is_busy,
  is_running, is_photo, astro, check_start, begin_capture,
}
use dwarf_alp.Camera.Start.{
  World, ensure_dark_library, guarded_start, take_baseline, launch, start_astro, start_workflow,
  start_real, camera_start_exposure, is_superseded,
}
use dwarf_alp.Camera.Refusal.{IsFree}

module _ {F I : Type 0} where
  -- Every start is refused as a second one and changes nothing.
  abbrev pub IsBlocked : CameraState F I → Type 0
  IsBlocked s =
      (setup : Setup) (world : World F I) (duration : F) (light continue : Bool)
      → camera_start_exposure setup world duration light continue s ≡ raised capture_busy s

  pub busy-IsBlocked : (s : CameraState F I) → is_busy s.capture_phase ≡ true → IsBlocked s
  unfolding camera_start_exposure check_start
  busy-IsBlocked s busy setup world duration light continue =
      elim (Bool-cases (is_running s.capture_task)) [ inl q ↦ rw q | inr q ↦ rw (q, busy) ]

  -- The run returns, in a state with the property.
  abbrev pub Returns : (CameraState F I → Type 0) → Run (CameraState F I) → Type 0
  Returns P (returned s) = P s
  Returns P (raised e s) = ⊥

  pub >>=-Returns :
      (P Q : CameraState F I → Type 0) (r : Run (CameraState F I))
      (f : CameraState F I → Run (CameraState F I))
      → Returns P r
      → ((s : CameraState F I) → P s → Returns Q (f s))
      → Returns Q (r >>= f)
  >>=-Returns P Q (returned s) f p h = h s p
  >>=-Returns P Q (raised e s) f p h = absurd p

  pub wait-Returns :
      (P : CameraState F I → Type 0) (a : Await (CameraState F I)) (s : CameraState F I)
      → a.failure ≡ none
      → P (a.meanwhile s)
      → Returns P (wait a s)
  wait-Returns P a s e p = rw (e, wait) p

  -- What an abort leaves of a start that goes on.
  abbrev pub IsAborted : CameraState F I → Type 0
  IsAborted s =
      (s.capture_id ≡ none)
      × (is_running s.capture_task ≡ false)
      × (is_photo s.capture_mode ≡ false)

  abbrev pub KeepsAbort : (CameraState F I → CameraState F I) → Type 0
  KeepsAbort f = (s : CameraState F I) → IsAborted s → IsAborted (f s)

  -- The exchanges of a start succeed; the exposure is aborted while its settings are applied, and
  -- nothing else starts.
  pub record IsCutShort (world : World F I) : Type 0 where
    pub connected : world.connects.failure ≡ none
    pub applied : world.applies_settings.failure ≡ none
    pub aborted :
        (s : CameraState F I)
        → is_photo s.capture_mode ≡ false
        → IsAborted (world.applies_settings.meanwhile s)
    pub goes_live : KeepsAbort world.goes_live
    pub dark : world.dark_frames ≡ some (pos 0)
    pub checks_dark : KeepsAbort world.checks_dark
    pub configured : world.configures.failure ≡ none
    pub configures : KeepsAbort world.configures.meanwhile
    pub based : world.takes_baseline.failure ≡ none
    pub takes_baseline : KeepsAbort world.takes_baseline.meanwhile
    pub keeps_phase :
        (s : CameraState F I) → (world.takes_baseline.meanwhile s).capture_phase ≡ s.capture_phase

  -- The phase stays, and no capture runs.
  abbrev pub IsLeftStarting : CameraState F I → Type 0
  IsLeftStarting s = (s.capture_phase ≡ starting) × (is_running s.capture_task ≡ false)

  module _ (world : World F I) (cut : IsCutShort world) where
    guarded_start-IsLeft :
        (s : CameraState F I)
        → IsAborted s
        → s.capture_phase ≡ starting
        → Returns IsLeftStarting (guarded_start world s)
    unfolding guarded_start is_superseded
    guarded_start-IsLeft s (no_id, free, mode) phase = simp no_id (phase, free)

    launch-IsLeft : (s : CameraState F I) → IsAborted s → Returns IsLeftStarting (launch world s)
    unfolding launch take_baseline
    launch-IsLeft s a =
        >>=-Returns IsAborted IsLeftStarting (wait world.configures s) (take_baseline world)
          (wait-Returns IsAborted world.configures s cut.configured (cut.configures s a))
          λ t b.
            let t1 : CameraState F I = record t { capture_phase = starting } in
            >>=-Returns (λ u. IsAborted u × (u.capture_phase ≡ starting)) IsLeftStarting
              (wait world.takes_baseline t1) (guarded_start world)
              (wait-Returns (λ u. IsAborted u × (u.capture_phase ≡ starting)) world.takes_baseline
                t1 cut.based (cut.takes_baseline t1 b, cut.keeps_phase t1))
              λ u c. guarded_start-IsLeft u c.0 c.1

    start_astro-IsLeft :
        (setup : Setup) (light continue : Bool) (s : CameraState F I)
        → IsAborted s
        → Returns IsLeftStarting (start_astro setup world light continue s)
    unfolding start_astro ensure_dark_library
    start_astro-IsLeft setup false continue s a = launch-IsLeft s a
    start_astro-IsLeft setup true continue s a = elim (Bool-cases setup.go_live_before_exposure) [
      | inl q ↦ rw (q, cut.dark) (launch-IsLeft _ (cut.checks_dark _ (cut.goes_live s a)))
      | inr q ↦ rw (q, cut.dark) (launch-IsLeft _ (cut.checks_dark _ a))
    ]

    start_workflow-IsLeft :
        (setup : Setup) (frames : ℕ) (light continue : Bool) (s : CameraState F I)
        → IsAborted s
        → Returns IsLeftStarting (start_workflow setup world frames light continue s)
    unfolding start_workflow
    start_workflow-IsLeft setup frames light continue s a =
        let s1 : CameraState F I = record s {
          requested_bin = (max 1 s.requested_bin.0, max 1 s.requested_bin.1);
        } in
        let rest = start_astro-IsLeft setup light continue s1 a in
        elim (Bool-cases setup.is_mini) [ inl q ↦ rw (q, a.2) rest | inr q ↦ rw q rest ]

    start_real-IsLeft :
        (setup : Setup) (frames : ℕ) (light continue : Bool) (s : CameraState F I)
        → is_photo s.capture_mode ≡ false
        → Returns IsLeftStarting (start_real setup world frames light continue s)
    unfolding start_real
    start_real-IsLeft setup frames light continue s mode = rw mode (
        >>=-Returns IsAborted IsLeftStarting (wait world.applies_settings s)
          (start_workflow setup world frames light continue)
          (wait-Returns IsAborted world.applies_settings s cut.applied (cut.aborted s mode))
          (start_workflow-IsLeft setup frames light continue))

    -- A start whose exposure is aborted while its settings are applied returns without an error, and
    -- leaves the phase at starting with no capture running; every further start is then refused as a
    -- second one. This is for a real telescope in the astro workflow whose camera was free, where the
    -- exchanges succeed and nothing else starts.
    pub aborted_start_blocks :
        (setup : Setup) (duration : F) (light continue : Bool) (s : CameraState F I)
        → setup.simulation ≡ false
        → setup.mini_capture_mode ≡ astro
        → (setup.is_mini && not light) ≡ false
        → IsFree s
        → Returns
            (λ t. IsLeftStarting t × IsBlocked t)
            (camera_start_exposure setup world duration light continue s)
    unfolding camera_start_exposure check_start begin_capture
    aborted_start_blocks setup duration light continue s real mode lit (n, b) =
        let P : CameraState F I → Type 0 = λ t. IsLeftStarting t × IsBlocked t in
        let s1 = world.connects.meanwhile s in
        let s2 = begin_capture setup world.new_id world.now duration light s1 in
        let r = start_real setup world (max 1 s1.requested_frame_count) light continue s2 in
        let left : Returns IsLeftStarting r =
          start_real-IsLeft setup (max 1 s1.requested_frame_count) light continue s2
            (ground arith) in
        rw (n, b, lit, real, cut.connected, wait) (blocks r left)
      where
        blocks :
            (r : Run (CameraState F I))
            → Returns IsLeftStarting r
            → Returns (λ t. IsLeftStarting t × IsBlocked t) r
        blocks (returned t) h = (h, busy-IsBlocked t (ap is_busy h.0))
        blocks (raised e t) h = h
