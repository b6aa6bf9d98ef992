-- ===== src/Camera/Window.antt =====
-- The subframe, the binning, the gain and the offset of src/dwarf_alpaca/devices/camera.py in every
-- state that the requests reach.
use dwarf_alp.Prelude.{◌+◌, ◌≤◌, ◌<◌, ◌≡◌, Option, none, some, arith}
use dwarf_alp.Prelude.Int.{ℤ, pos, negsuc}
use dwarf_alp.Profile.{CameraProfile}
use dwarf_alp.Camera.Device.{
  CameraState, whole, initial_camera, sync_state_to_profile, set_gain, set_offset, set_num_x,
  set_num_y, set_start_x, set_start_y, set_bin_x, set_bin_y, fit_subframe, choose_frame_count,
}

-- What the profiles of the three telescopes have.
pub record IsSound (p : CameraProfile) : Type 0 where
  pub wide : 1 ≤ p.resolution_x
  pub high : 1 ≤ p.resolution_y
  pub binned : 1 ≤ p.max_binning
  pub gains : whole p.min_gain_db ≤ whole p.max_gain_db

-- The camera stands at a profile, and its settings lie within it.
pub record IsWithin (p : CameraProfile) (s : CameraState) : Type 0 where
  pub sensor_x : s.sensor_width ≡ p.resolution_x
  pub sensor_y : s.sensor_height ≡ p.resolution_y
  pub subframe_x : s.subframe_start_x + s.subframe_width ≤ s.sensor_width
  pub subframe_y : s.subframe_start_y + s.subframe_height ≤ s.sensor_height
  pub width : 1 ≤ s.subframe_width
  pub height : 1 ≤ s.subframe_height
  pub gain_low : whole p.min_gain_db ≤ s.gain
  pub gain_high : s.gain ≤ whole p.max_gain_db
  pub offset_low : s.offset_min ≤ s.offset
  pub offset_high : s.offset ≤ s.offset_max
  pub bin_x_low : 1 ≤ s.bin_x
  pub bin_x_high : s.bin_x ≤ p.max_binning
  pub bin_y_low : 1 ≤ s.bin_y
  pub bin_y_high : s.bin_y ≤ p.max_binning
  pub frames : 1 ≤ s.frame_count

module _ {p : CameraProfile} (sound : IsSound p) where
  sync-IsWithin : {s : CameraState} → IsWithin p s → IsWithin p (sync_state_to_profile p s)
  unfolding sync_state_to_profile
  sync-IsWithin w = ground arith

  set_gain-IsWithin : {s : CameraState} (v : ℤ) → IsWithin p s → IsWithin p (set_gain p v s).1
  unfolding set_gain
  set_gain-IsWithin (pos v) w = ground arith
  set_gain-IsWithin (negsuc v) w = sync-IsWithin w

  set_offset-IsWithin : {s : CameraState} (v : ℤ) → IsWithin p s → IsWithin p (set_offset v s).1
  unfolding set_offset
  set_offset-IsWithin (pos v) w = ground arith
  set_offset-IsWithin (negsuc v) w = w

  set_num_x-IsWithin : {s : CameraState} (v : ℤ) → IsWithin p s → IsWithin p (set_num_x v s).1
  unfolding set_num_x
  set_num_x-IsWithin (pos v) w = ground arith
  set_num_x-IsWithin (negsuc v) w = w

  set_num_y-IsWithin : {s : CameraState} (v : ℤ) → IsWithin p s → IsWithin p (set_num_y v s).1
  unfolding set_num_y
  set_num_y-IsWithin (pos v) w = ground arith
  set_num_y-IsWithin (negsuc v) w = w

  set_start_x-IsWithin : {s : CameraState} (v : ℤ) → IsWithin p s → IsWithin p (set_start_x v s).1
  unfolding set_start_x
  set_start_x-IsWithin (pos v) w = ground arith
  set_start_x-IsWithin (negsuc v) w = w

  set_start_y-IsWithin : {s : CameraState} (v : ℤ) → IsWithin p s → IsWithin p (set_start_y v s).1
  unfolding set_start_y
  set_start_y-IsWithin (pos v) w = ground arith
  set_start_y-IsWithin (negsuc v) w = w

  set_bin_x-IsWithin : {s : CameraState} (v : ℤ) → IsWithin p s → IsWithin p (set_bin_x p v s).1
  unfolding set_bin_x
  set_bin_x-IsWithin (pos v) w = ground arith
  set_bin_x-IsWithin (negsuc v) w = sync-IsWithin w

  set_bin_y-IsWithin : {s : CameraState} (v : ℤ) → IsWithin p s → IsWithin p (set_bin_y p v s).1
  unfolding set_bin_y
  set_bin_y-IsWithin (pos v) w = ground arith
  set_bin_y-IsWithin (negsuc v) w = sync-IsWithin w

  frame_count-IsWithin :
      {s : CameraState} (v : Option ℤ) → IsWithin p s → IsWithin p (choose_frame_count v s).1
  unfolding choose_frame_count
  frame_count-IsWithin none w = ground arith
  frame_count-IsWithin (some (pos v)) w = ground arith
  frame_count-IsWithin (some (negsuc v)) w = w

  fit-IsWithin : {s : CameraState} → IsWithin p s → IsWithin p (fit_subframe p s)
  unfolding fit_subframe
  fit-IsWithin w = ground arith

  first_sync-IsWithin : IsWithin p (sync_state_to_profile p initial_camera)
  unfolding sync_state_to_profile initial_camera
  first_sync-IsWithin = ground arith

-- The requests that change the settings, and those that only read the profile. The value of
-- `start_exposure` is the frame count.
pub data Request (p : CameraProfile) (s : CameraState) : CameraState → Type 0 where
  reads_profile : Request p s (sync_state_to_profile p s)
  sets_gain : (v : ℤ) → Request p s (set_gain p v s).1
  sets_offset : (v : ℤ) → Request p s (set_offset v s).1
  sets_num_x : (v : ℤ) → Request p s (set_num_x v s).1
  sets_num_y : (v : ℤ) → Request p s (set_num_y v s).1
  sets_start_x : (v : ℤ) → Request p s (set_start_x v s).1
  sets_start_y : (v : ℤ) → Request p s (set_start_y v s).1
  sets_bin_x : (v : ℤ) → Request p s (set_bin_x p v s).1
  sets_bin_y : (v : ℤ) → Request p s (set_bin_y p v s).1
  counts_frames : (v : Option ℤ) → Request p s (choose_frame_count v (sync_state_to_profile p s)).1
  reads_image : Request p s (fit_subframe p s)

pub data Requests (p : CameraProfile) (s : CameraState) : CameraState → Type 0 where
  here : Requests p s s
  next : {t u : CameraState} → Requests p s t → Request p t u → Requests p s u

module _ {p : CameraProfile} (sound : IsSound p) where
  Request-IsWithin : {s t : CameraState} → Request p s t → IsWithin p s → IsWithin p t
  Request-IsWithin reads_profile w = sync-IsWithin sound w
  Request-IsWithin (sets_gain v) w = set_gain-IsWithin sound v w
  Request-IsWithin (sets_offset v) w = set_offset-IsWithin sound v w
  Request-IsWithin (sets_num_x v) w = set_num_x-IsWithin sound v w
  Request-IsWithin (sets_num_y v) w = set_num_y-IsWithin sound v w
  Request-IsWithin (sets_start_x v) w = set_start_x-IsWithin sound v w
  Request-IsWithin (sets_start_y v) w = set_start_y-IsWithin sound v w
  Request-IsWithin (sets_bin_x v) w = set_bin_x-IsWithin sound v w
  Request-IsWithin (sets_bin_y v) w = set_bin_y-IsWithin sound v w
  Request-IsWithin (counts_frames v) w = frame_count-IsWithin sound v (sync-IsWithin sound w)
  Request-IsWithin reads_image w = fit-IsWithin sound w

  -- Once the first request has read the profile, and while it stays the active one, every sequence of
  -- requests, accepted or refused, keeps the subframe inside the sensor and not empty, and gain,
  -- offset, binning and frame count within their limits. This is for a profile with a sensor that is
  -- not empty, a largest binning of at least 1 and gain limits in order.
  pub Requests-IsWithin :
      (s : CameraState) → Requests p (sync_state_to_profile p initial_camera) s → IsWithin p s
  Requests-IsWithin s here = first_sync-IsWithin sound
  Requests-IsWithin s (next {t} r step) = Request-IsWithin step (Requests-IsWithin t r)

-- The subframe reaches out of the sensor.
abbrev pub SticksOut : CameraState → Type 0
SticksOut s = s.sensor_width < s.subframe_start_x + s.subframe_width

-- The subframe is not empty and lies inside the sensor of a profile.
abbrev pub FitsSensor : CameraProfile → CameraState → Type 0
FitsSensor p s =
    (1 ≤ s.subframe_width)
    × (s.subframe_start_x + s.subframe_width ≤ p.resolution_x)
    × (1 ≤ s.subframe_height)
    × (s.subframe_start_y + s.subframe_height ≤ p.resolution_y)

-- A subframe that does not start at 0, is not empty, is no wider than the sensor of a new profile but
-- reaches out of it, still does after the next request that reads the profile.
pub sync-SticksOut :
    (p : CameraProfile) (s : CameraState)
    → 1 ≤ s.subframe_start_x
    → 1 ≤ s.subframe_width
    → s.subframe_width ≤ p.resolution_x
    → p.resolution_x < s.subframe_start_x + s.subframe_width
    → SticksOut (sync_state_to_profile p s)
unfolding sync_state_to_profile
sync-SticksOut p s a b c d = ground arith

-- From whatever state, reading the image leaves a subframe that is not empty and lies inside the
-- sensor, where the sensor of the profile is not empty.
pub fit_subframe-FitsSensor :
    (p : CameraProfile) (s : CameraState)
    → 1 ≤ p.resolution_x
    → 1 ≤ p.resolution_y
    → FitsSensor p (fit_subframe p s)
unfolding fit_subframe
fit_subframe-FitsSensor p s a b = ground arith
