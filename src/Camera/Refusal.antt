-- ===== src/Camera/Refusal.antt =====
-- What a start of an exposure that is refused leaves, src/dwarf_alpaca/devices/camera.py in front of
-- `camera_start_exposure`.
use dwarf_alp.Prelude.{
  ℕ, ◌≡◌, refl, Bool, true, false, not, ◌&&◌, if◌then◌else◌, Option, none, some, arith, inl, inr,
  Bool-cases, Option-cases, ap, subst, ◌∙◌, max,
}
use dwarf_alp.Prelude.Int.{ℤ, pos, eq_ℤ}
use dwarf_alp.Sharing.Wheel.{http_error}
use dwarf_alp.Camera.Capture.{
  CameraState, Setup, Failure, command_failed, timed_out, configuration_error, capture_busy,
  photo_failed, runtime_error, other_error, Run, returned, raised, ◌>>=◌, Await, wait, is_busy,
  is_running, is_photo, astro, starting, waiting_for_dark, check_start, begin_capture,
}
use dwarf_alp.Camera.Start.{
  World, ensure_dark_library, astro_started, guarded_start, take_baseline, launch, start_astro,
  start_workflow, start_real, camera_start_exposure, is_superseded,
}
use dwarf_alp.Camera.Endpoint.{answer_start}

-- What an exchange with the telescope can raise.
abbrev pub IsExchangeFailure : Failure → Type 0
IsExchangeFailure capture_busy = ⊥
IsExchangeFailure photo_failed = ⊥
IsExchangeFailure _ = Unit {0}

abbrev pub FailsOutside : Option Failure → Type 0
FailsOutside none = Unit {0}
FailsOutside (some e) = IsExchangeFailure e

module _ {F I : Type 0} where
  abbrev pub HasNoTask : CameraState F I → Type 0
  HasNoTask s = is_running s.capture_task ≡ false

  -- The next exposure is not refused as a second one.
  abbrev pub IsFree : CameraState F I → Type 0
  IsFree s = (is_running s.capture_task ≡ false) × (is_busy s.capture_phase ≡ false)

  -- No other task starts a capture meanwhile.
  abbrev pub StartsNone : (CameraState F I → CameraState F I) → Type 0
  StartsNone f = (s : CameraState F I) → HasNoTask s → HasNoTask (f s)

  abbrev pub StartsNoneIn : Await (CameraState F I) → Type 0
  StartsNoneIn a = StartsNone a.meanwhile × FailsOutside a.failure

  -- No await of a call starts another capture, and the settings leave the capture mode.
  pub record IsAlone (world : World F I) : Type 0 where
    pub connects : StartsNoneIn world.connects
    pub applies_settings : StartsNoneIn world.applies_settings
    pub keeps_mode :
        (s : CameraState F I) → (world.applies_settings.meanwhile s).capture_mode ≡ s.capture_mode
    pub goes_live : StartsNone world.goes_live
    pub checks_dark : StartsNone world.checks_dark
    pub configures : StartsNoneIn world.configures
    pub takes_baseline : StartsNoneIn world.takes_baseline
    pub starts : StartsNoneIn world.starts

  -- A run that raises leaves no capture running, and the failure is one of an exchange.
  abbrev Refuses : Run (CameraState F I) → Type 0
  Refuses (returned s) = Unit {0}
  Refuses (raised e s) = HasNoTask s × IsExchangeFailure e

  -- The same, and where the run returns no capture runs either.
  abbrev Passes : Run (CameraState F I) → Type 0
  Passes (returned s) = HasNoTask s
  Passes (raised e s) = HasNoTask s × IsExchangeFailure e

  wait-Passes :
      (a : Await (CameraState F I)) (s : CameraState F I)
      → StartsNoneIn a
      → HasNoTask s
      → Passes (wait a s)
  wait-Passes a s h n = go a.failure h.1
    where
      go :
          (f : Option Failure)
          → FailsOutside f
          → Passes (elim f [ none ↦ returned (a.meanwhile s) | some e ↦ raised e (a.meanwhile s) ])
      go none h' = h.0 s n
      go (some e) h' = (h.0 s n, h')

  >>=-Refuses :
      (r : Run (CameraState F I)) (f : CameraState F I → Run (CameraState F I))
      → Passes r
      → ((s : CameraState F I) → HasNoTask s → Refuses (f s))
      → Refuses (r >>= f)
  >>=-Refuses (returned s) f p h = h s p
  >>=-Refuses (raised e s) f p h = p

  astro_started-Refuses :
      (id : ℕ) (r : Run (CameraState F I)) → Passes r → Refuses (astro_started id r)
  unfolding astro_started
  astro_started-Refuses id (raised e s) p = p
  astro_started-Refuses id (returned s) p = elim (Bool-cases (is_superseded id s)) [
    | inl q ↦ rw q tt
    | inr q ↦ rw q tt
  ]

  guarded_start-Refuses :
      (world : World F I)
      → IsAlone world
      → (s : CameraState F I) → HasNoTask s
      → Refuses (guarded_start world s)
  unfolding guarded_start
  guarded_start-Refuses world alone s n = elim (Bool-cases (is_superseded world.new_id s)) [
    | inl q ↦ rw q tt
    | inr q ↦ rw q (
        astro_started-Refuses world.new_id (wait world.starts s)
          (wait-Passes world.starts s alone.starts n))
  ]

  take_baseline-Refuses :
      (world : World F I)
      → IsAlone world
      → (s : CameraState F I) → HasNoTask s
      → Refuses (take_baseline world s)
  unfolding take_baseline
  take_baseline-Refuses world alone s n =
      let s1 : CameraState F I = record s { capture_phase = starting } in
      >>=-Refuses (wait world.takes_baseline s1) (guarded_start world)
        (wait-Passes world.takes_baseline s1 alone.takes_baseline n)
        (guarded_start-Refuses world alone)

  launch-Refuses :
      (world : World F I)
      → IsAlone world
      → (s : CameraState F I) → HasNoTask s
      → Refuses (launch world s)
  unfolding launch
  launch-Refuses world alone s n =
      >>=-Refuses (wait world.configures s) (take_baseline world)
        (wait-Passes world.configures s alone.configures n) (take_baseline-Refuses world alone)

  dark-Passes :
      (continue : Bool) (code : Option ℤ) (s : CameraState F I)
      → HasNoTask s
      → Passes (ensure_dark_library continue code s)
  unfolding ensure_dark_library
  dark-Passes true none s n = n
  dark-Passes false none s n = (n, tt)
  dark-Passes true (some code) s n = elim (Bool-cases (eq_ℤ code (pos 0))) [
    | inl q ↦ rw q n
    | inr q ↦ rw q n
  ]
  dark-Passes false (some code) s n = elim (Bool-cases (eq_ℤ code (pos 0))) [
    | inl q ↦ rw q n
    | inr q ↦ rw q (n, tt)
  ]

  live-HasNoTask :
      (b : Bool) (f : CameraState F I → CameraState F I) (s : CameraState F I)
      → StartsNone f
      → HasNoTask s
      → HasNoTask (if b then f s else s)
  live-HasNoTask true f s h n = h s n
  live-HasNoTask false f s h n = n

  start_astro-Refuses :
      (setup : Setup) (world : World F I) (light continue : Bool)
      → IsAlone world
      → (s : CameraState F I) → HasNoTask s
      → Refuses (start_astro setup world light continue s)
  unfolding start_astro
  start_astro-Refuses setup world true continue alone s n =
      let live = if setup.go_live_before_exposure then world.goes_live s else s in
      let m = live-HasNoTask setup.go_live_before_exposure world.goes_live s alone.goes_live n in
      let dark = world.checks_dark (record live { capture_phase = waiting_for_dark }) in
      >>=-Refuses (ensure_dark_library continue world.dark_frames dark) (launch world)
        (dark-Passes continue world.dark_frames dark
          (alone.checks_dark (record live { capture_phase = waiting_for_dark }) m))
        (launch-Refuses world alone)
  start_astro-Refuses setup world false continue alone s n = launch-Refuses world alone s n

  start_workflow-Refuses :
      (setup : Setup) (world : World F I) (frames : ℕ) (light continue : Bool)
      → IsAlone world
      → (s : CameraState F I) → HasNoTask s
      → is_photo s.capture_mode ≡ false
      → Refuses (start_workflow setup world frames light continue s)
  unfolding start_workflow
  start_workflow-Refuses setup world frames light continue alone s n mode =
      let s1 : CameraState F I = record s {
        requested_bin = (max 1 s.requested_bin.0, max 1 s.requested_bin.1);
      } in
      let rest = start_astro-Refuses setup world light continue alone s1 n in
      elim (Bool-cases setup.is_mini) [ inl q ↦ rw (q, mode) rest | inr q ↦ rw q rest ]

  start_real-Refuses :
      (setup : Setup) (world : World F I) (frames : ℕ) (light continue : Bool)
      → IsAlone world
      → (s : CameraState F I) → HasNoTask s
      → is_photo s.capture_mode ≡ false
      → Refuses (start_real setup world frames light continue s)
  unfolding start_real
  start_real-Refuses setup world frames light continue alone s n mode =
      rw mode (go world.applies_settings alone.applies_settings alone.keeps_mode)
    where
      go :
          (a : Await (CameraState F I))
          → StartsNoneIn a
          → ((t : CameraState F I) → (a.meanwhile t).capture_mode ≡ t.capture_mode)
          → Refuses (wait a s >>= start_workflow setup world frames light continue)
      go a h keeps = elim (Option-cases a.failure) [
        | inl q ↦
            rw (q, wait)
              (start_workflow-Refuses setup world frames light continue alone (a.meanwhile s)
                (h.0 s n) (ap is_photo (keeps s) ∙ mode))
        | inr (e, q) ↦ rw (q, wait) (h.0 s n, subst FailsOutside q h.1)
      ]

  check_start-Passes :
      (setup : Setup) (light : Bool) (s : CameraState F I)
      → IsFree s
      → Passes (check_start setup light s)
  unfolding check_start
  check_start-Passes setup light s (n, b) = elim (Bool-cases (setup.is_mini && not light)) [
    | inl q ↦ rw (n, b, q) (n, tt)
    | inr q ↦ rw (n, b, q) n
  ]

  -- Behind the connection.
  behind_connect-Refuses :
      (setup : Setup) (world : World F I) (duration : F) (light continue : Bool)
      → IsAlone world
      → setup.mini_capture_mode ≡ astro
      → (s : CameraState F I) → HasNoTask s
      → Refuses (
          wait world.connects s >>= λ t.
          start_real setup world
            (max 1 t.requested_frame_count)
            light
            continue
            (begin_capture setup world.new_id world.now duration light t))
  unfolding begin_capture
  behind_connect-Refuses setup world duration light continue alone mode s n =
      >>=-Refuses (wait world.connects s) _ (wait-Passes world.connects s alone.connects n) λ t m.
        start_real-Refuses setup world (max 1 t.requested_frame_count) light continue alone
          (begin_capture setup world.new_id world.now duration light t) m (ground arith)

  start-Refuses :
      (setup : Setup) (world : World F I) (duration : F) (light continue : Bool)
      → IsAlone world
      → setup.mini_capture_mode ≡ astro
      → (s : CameraState F I) → IsFree s
      → Refuses (camera_start_exposure setup world duration light continue s)
  unfolding camera_start_exposure
  start-Refuses setup world duration light continue alone mode s free =
      >>=-Refuses (check_start setup light s) _ (check_start-Passes setup light s free) λ s1 n1.
        elim (Bool-cases setup.simulation) [
          | inl q ↦ rw q tt
          | inr q ↦
              rw q (behind_connect-Refuses setup world duration light continue alone mode s1 n1)
        ]

module _ {F I : Type 0} where
  answer-IsFree :
      (r : Run (CameraState F I)) (n : ℕ)
      → Refuses r
      → (answer_start r).0 ≡ http_error n
      → IsFree (answer_start r).1
  unfolding answer_start
  answer-IsFree (returned s) n p h = absurd (cc)
  answer-IsFree (raised (command_failed code) s) n p h = (p.0, refl)
  answer-IsFree (raised timed_out s) n p h = (p.0, refl)
  answer-IsFree (raised configuration_error s) n p h = (p.0, refl)
  answer-IsFree (raised photo_failed s) n p h = absurd p.1
  answer-IsFree (raised capture_busy s) n p h = absurd p.1
  answer-IsFree (raised runtime_error s) n p h = absurd (cc)
  answer-IsFree (raised other_error s) n p h = absurd (cc)

  -- In the astro workflow, a start that is answered with an HTTP error leaves the camera free, so that
  -- the next start is not refused as a second one. This is where the camera was free and no other task
  -- starts a capture or changes the capture mode meanwhile, and where the exchanges with the telescope
  -- fail only by errors of their own.
  pub refused_start-IsFree :
      (setup : Setup) (world : World F I) (duration : F) (light continue : Bool)
      (s : CameraState F I) (n : ℕ)
      → IsAlone world
      → setup.mini_capture_mode ≡ astro
      → IsFree s
      → (answer_start (camera_start_exposure setup world duration light continue s)).0
        ≡ http_error n
      → IsFree (answer_start (camera_start_exposure setup world duration light continue s)).1
  refused_start-IsFree setup world duration light continue s n alone mode free h =
      answer-IsFree (camera_start_exposure setup world duration light continue s) n
        (start-Refuses setup world duration light continue alone mode s free) h
