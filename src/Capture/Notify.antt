-- ===== src/Capture/Notify.antt =====
-- The handlers of battery, calibration, capture state and capture progress notifications of
-- src/dwarf_alpaca/dwarf/session.py. protobuf parses the last three; an event is a Boolean. The times
-- that only the log reads are left out.
use dwarf_alp.Prelude.{
  ℕ, Bool, true, false, ◌&&◌, ◌||◌, Option, none, some, List, [], ◌∷◌, ◌==◌, ltb, leb, max, min,
  if◌then◌else◌,
}
use dwarf_alp.Prelude.Int.{ℤ, pos, negsuc, pos_part}
use dwarf_alp.Wire.Fields.{Loop, done, stuck, decode_com_res_with_int_value}

-- What `AstroCalibrationState.state` says.
pub data CalibrationStatus : Type 0 where
  idle running stopping stopped plate_solving unknown successful : CalibrationStatus

-- `_calibration_detail`: how often plate solving was tried, or the result.
pub data CalibrationDetail (F : Type 0) : Type 0 where
  attempt : ℤ → CalibrationDetail F
  at : F → F → CalibrationDetail F

-- `ProgressCaptureRawLiveStacking`, as far as it is used.
pub record CaptureProgress : Type 0 where
  pub total_count : ℤ
  pub current_count : ℤ

-- `F` is the type of floating-point numbers; times and addresses are numbers.
pub record CaptureState (F : Type 0) : Type 0 where
  pub battery_percent : Option ℕ
  pub last_battery_time : Option ℕ
  pub calibration_status : CalibrationStatus
  pub calibration_detail : Option (CalibrationDetail F)
  pub calibration_azimuth : Option F
  pub calibration_altitude : Option F
  pub calibration_result_event : Bool
  pub last_calibration_time : Option ℕ
  pub last_calibration_ip : Option ℕ
  pub astro_capture_operation_state : Option ℤ
  pub astro_capture_ready_event : Bool
  pub capture_start_evidence_event : Bool
  pub capture_frame_complete_event : Bool
  pub has_capture_id : Bool
  pub requested_frame_count : ℕ
  pub progress_total_count : Option ℕ
  pub progress_current_count : ℕ

abbrev pub is_empty : List ℕ → Bool
is_empty [] = true
is_empty (b ∷ rest) = false

-- What the reader returns; it does not run out of fuel.
abbrev pub decoded : Loop (Option ℤ) → Option ℤ
decoded (done value) = value
decoded stuck = none

-- `max(0, min(100, percent))`
abbrev pub percent_of : ℤ → ℕ
percent_of value = min 100 (pos_part value)

abbrev pub calibration_status_of : ℤ → CalibrationStatus
calibration_status_of (negsuc n) = unknown
calibration_status_of (pos n) =
    if n == 0
    then idle
    else if n == 1
    then running
    else if n == 2
    then stopping
    else if n == 3
    then stopped
    else if n == 4
    then plate_solving
    else unknown

-- `operation_state in {_OperationState.IDLE, _OperationState.STOPPED}`
abbrev pub is_ready : ℤ → Bool
is_ready (negsuc n) = false
is_ready (pos n) = n == 0 || n == 3

abbrev pub is_positive : ℤ → Bool
is_positive z = ltb 0 (pos_part z)

-- The state that a payload reports: an empty one reports zero.
unfoldable pub reported_state : List ℕ → Option ℤ
reported_state raw =
    if is_empty raw then some (pos 0) else decoded (decode_com_res_with_int_value raw)

module _ {F : Type 0} where
  unfoldable pub handle_battery_notification : ℕ → List ℕ → CaptureState F → CaptureState F
  handle_battery_notification now raw s =
      if is_empty raw then s else elim (decoded (decode_com_res_with_int_value raw)) [
        | none ↦ s
        | some value ↦ record s {
          battery_percent = some (percent_of value);
          last_battery_time = some now;
        }
      ]

  unfoldable pub set_astro_capture_operation_state : ℤ → CaptureState F → CaptureState F
  set_astro_capture_operation_state value s = record s {
    astro_capture_operation_state = some value;
    astro_capture_ready_event = is_ready value;
  }

  unfoldable pub handle_astro_capture_state_notification : List ℕ → CaptureState F → CaptureState F
  unfolding reported_state set_astro_capture_operation_state
  handle_astro_capture_state_notification raw s = elim (reported_state raw) [
    | none ↦ s
    | some value ↦ set_astro_capture_operation_state value s
  ]

  -- `message` is the parsed payload, `none` where it is empty or protobuf refuses it.
  unfoldable pub handle_astro_capture_progress_notification :
      Option CaptureProgress → CaptureState F → CaptureState F
  handle_astro_capture_progress_notification none s = s
  handle_astro_capture_progress_notification (some message) s =
      let current =
        if is_positive message.current_count
        then max s.progress_current_count (pos_part message.current_count)
        else s.progress_current_count in
      let completed = leb (max 1 s.requested_frame_count) current in
      record s {
        progress_total_count =
            if is_positive message.total_count
            then some (pos_part message.total_count)
            else s.progress_total_count;
        progress_current_count = current;
        capture_start_evidence_event = true;
        capture_frame_complete_event =
            s.capture_frame_complete_event || completed && s.has_capture_id;
      }

  -- State and number of attempts of the message, as above.
  unfoldable pub handle_calibration_state_notification :
      Option (ℤ × ℤ) → CaptureState F → CaptureState F
  handle_calibration_state_notification none s = s
  handle_calibration_state_notification (some (state, times)) s = record s {
    calibration_status = calibration_status_of state;
    calibration_detail = elim (calibration_status_of state) [
      | plate_solving ↦ if is_positive times then some (attempt times) else none
      | _ ↦ none
    ];
  }

  -- Azimuth and altitude of the message, as above.
  unfoldable pub handle_calibration_result_notification :
      ℕ → ℕ → Option (F × F) → CaptureState F → CaptureState F
  handle_calibration_result_notification now dwarf_ap_ip none s = s
  handle_calibration_result_notification now dwarf_ap_ip (some (azimuth, altitude)) s = record s {
    calibration_azimuth = some azimuth;
    calibration_altitude = some altitude;
    calibration_status = successful;
    calibration_detail = some (at azimuth altitude);
    calibration_result_event = true;
    last_calibration_time = some now;
    last_calibration_ip = some dwarf_ap_ip;
  }

  -- What the start of an exposure resets of the progress.
  unfoldable pub reset_progress : CaptureState F → CaptureState F
  reset_progress s = record s {
    progress_total_count = none;
    progress_current_count = 0;
    capture_frame_complete_event = false;
  }
