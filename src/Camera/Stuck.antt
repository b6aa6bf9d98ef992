-- ===== src/Camera/Stuck.antt =====
-- A failure of the connection after which src/dwarf_alpaca/dwarf/session.py refuses every further
-- exposure.
use dwarf_alp.Prelude.{◌≡◌, refl, Bool, false, not, ◌&&◌, none, some, arith, ap}
use dwarf_alp.Sharing.Wheel.{unhandled}
use dwarf_alp.Camera.Capture.{
  CameraState, Setup, other_error, wait, is_busy, is_photo, astro, check_start, begin_capture,
}
use dwarf_alp.Camera.Start.{World, start_real, camera_start_exposure}
use dwarf_alp.Camera.Endpoint.{answer_start}
use dwarf_alp.Camera.Refusal.{IsFree}
use dwarf_alp.Camera.Blocked.{IsBlocked, busy-IsBlocked}
use dwarf_alp.Camera.Completes.{Leaves}

module _ {F I : Type 0} where
  -- A start during whose settings an exception escapes that is no `RuntimeError`, such as a closed
  -- connection, is answered by no handler and leaves the camera so that every further start is refused
  -- as a second one. This is for a real telescope in the astro workflow whose camera was free and whose
  -- phase no other task changes meanwhile.
  pub lost_connection_blocks :
      (setup : Setup) (world : World F I) (duration : F) (light continue : Bool)
      (s : CameraState F I)
      → setup.simulation ≡ false
      → setup.mini_capture_mode ≡ astro
      → (setup.is_mini && not light) ≡ false
      → IsFree s
      → world.connects.failure ≡ none
      → world.applies_settings.failure ≡ some other_error
      → Leaves world.applies_settings.meanwhile
      → ((answer_start (camera_start_exposure setup world duration light continue s)).0 ≡ unhandled)
        × IsBlocked (answer_start (camera_start_exposure setup world duration light continue s)).1
  unfolding camera_start_exposure check_start begin_capture start_real answer_start
  lost_connection_blocks setup world duration light continue s real mode lit (n, b) fine lost
        leaves =
      let s2 =
        begin_capture setup world.new_id world.now duration light (world.connects.meanwhile s) in
      let astro_mode : is_photo s2.capture_mode ≡ false = ground arith in
      rw (n, b, lit, real, fine, wait, astro_mode, lost)
        (refl, busy-IsBlocked (world.applies_settings.meanwhile s2) (ap is_busy (leaves s2).phase))
