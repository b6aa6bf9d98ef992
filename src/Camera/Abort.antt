-- ===== src/Camera/Abort.antt =====
-- What `camera_abort_exposure` of src/dwarf_alpaca/dwarf/session.py leaves.
use dwarf_alp.Prelude.{
  ℕ, ◌≡◌, ◌≢◌, refl, false, not, ◌&&◌, none, arith, inl, inr, Bool-cases, Option-cases,
}
use dwarf_alp.Sharing.Session.{done}
use dwarf_alp.Camera.Capture.{
  aborting, CameraState, Setup, configuration_error, Run, returned, raised, Await, wait, is_running,
  is_photo,
}
use dwarf_alp.Camera.Fetch.{camera_abort_exposure, finish_abort}
use dwarf_alp.Camera.Endpoint.{get_image_ready}
use dwarf_alp.Camera.Refusal.{IsFree}

module _ {F I : Type 0} where
  -- No frame, no running capture, and the next exposure is accepted.
  abbrev pub IsReset : CameraState F I → Type 0
  IsReset s = (s.image ≡ none) × (get_image_ready s ≡ false) × IsFree s

  -- The run returns with everything reset, or raises a configuration error since the exchange that
  -- stops the capture failed.
  abbrev pub ResetsOrFails : Await (CameraState F I) → Run (CameraState F I) → Type 0
  ResetsOrFails stop (returned s) = IsReset s
  ResetsOrFails stop (raised e s) = (e ≡ configuration_error) × (stop.failure ≢ none)

  finish_abort-resets :
      (setup : Setup) (stop : Await (CameraState F I)) (now : ℕ) (s : CameraState F I)
      → ResetsOrFails stop (finish_abort setup stop now s)
  unfolding finish_abort get_image_ready
  finish_abort-resets setup stop now s = elim (Bool-cases setup.simulation) [
    | inl q ↦ rw q (refl, refl, (refl, refl))
    | inr q ↦ elim (Option-cases stop.failure) [
      | inl f ↦ rw (q, f) (refl, refl, (refl, refl))
      | inr (e, f) ↦ rw (q, f) (refl, λ h. cc)
    ]
  ]

  -- In the astro workflow an abort whose capture task ends without an error leaves no frame, reports no
  -- image, and lets the next exposure start, whatever the state was and whatever other tasks do
  -- meanwhile; only where the exchange that stops the capture fails it raises, a configuration error.
  pub abort_resets :
      (setup : Setup) (cancelled stop : Await (CameraState F I)) (now : ℕ) (s : CameraState F I)
      → is_photo s.capture_mode ≡ false
      → cancelled.failure ≡ none
      → ResetsOrFails stop (camera_abort_exposure setup cancelled stop now s)
  unfolding camera_abort_exposure
  abort_resets setup cancelled stop now s mode fine =
      let s1 : CameraState F I = record s { capture_id = none; capture_phase = aborting } in
      let resets = finish_abort-resets setup stop now in
      let unrefused : (not setup.simulation && is_photo s.capture_mode) ≡ false = ground arith in
      elim (Bool-cases (is_running s.capture_task)) [
        | inl q ↦
            rw (unrefused, q, fine, wait)
              (resets (cancelled.meanwhile (record s1 { capture_task = done })))
        | inr q ↦ rw (unrefused, q) (resets s1)
      ]
