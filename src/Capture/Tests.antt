-- ===== src/Capture/Tests.antt =====
-- Runs of the notification handlers and instances of their theorems.
use dwarf_alp.Prelude.{◌≡◌, refl, ℕ, true, false, none, some, [], ◌∷◌, List, arith, ◌&&◌, leb, max}
use dwarf_alp.Prelude.Int.{pos, negsuc}
use dwarf_alp.Wire.Fields.{decode_com_res_with_int_value}
use dwarf_alp.Wire.Fields.Message.{Field, varint, encode_message}
use dwarf_alp.Capture.Notify.{
  CaptureState, CaptureProgress, idle, handle_battery_notification,
  handle_astro_capture_state_notification, reset_progress,
}
use dwarf_alp.Capture.Ready.{capture_state-message}
use dwarf_alp.Capture.Progress.{handle_all, most_frames, last_total, progress_completes}

abbrev state : CaptureState ℕ
state = record {
  battery_percent = none;
  last_battery_time = none;
  calibration_status = idle;
  calibration_detail = none;
  calibration_azimuth = none;
  calibration_altitude = none;
  calibration_result_event = false;
  last_calibration_time = none;
  last_calibration_ip = none;
  astro_capture_operation_state = some (pos 1);
  astro_capture_ready_event = false;
  capture_start_evidence_event = false;
  capture_frame_complete_event = false;
  has_capture_id = true;
  requested_frame_count = 3;
  progress_total_count = none;
  progress_current_count = 0;
}

-- Field 1 with the value 120.
battery_full : (handle_battery_notification 9 (8 ∷ 120 ∷ []) state).battery_percent ≡ some 100
unfolding handle_battery_notification decode_com_res_with_int_value
battery_full = refl

abbrev camera_only : List Field
camera_only = varint 2 1 ∷ []

-- An idle state with a camera type is no state at all to the handler.
camera_only_ignored :
    handle_astro_capture_state_notification (encode_message camera_only) state ≡ state
unfolding handle_astro_capture_state_notification
camera_only_ignored = capture_state-message camera_only state (omega arith)

abbrev is_stopped : List Field
is_stopped = varint 1 3 ∷ varint 2 1 ∷ []

abbrev messages : List CaptureProgress
messages =
    record { total_count = pos 3; current_count = pos 1 }
    ∷ record { total_count = negsuc 0; current_count = pos 3 }
    ∷ record { total_count = pos 0; current_count = pos 2 }
    ∷ []

progress_completes_example :
    ((handle_all messages (reset_progress state)).progress_current_count ≡ most_frames messages)
    × ((handle_all messages (reset_progress state)).progress_total_count ≡ last_total none messages)
    × ((handle_all messages (reset_progress state)).capture_frame_complete_event
        ≡ (state.has_capture_id && leb (max 1 state.requested_frame_count) (most_frames messages)))
progress_completes_example = progress_completes messages state
