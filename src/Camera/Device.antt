-- ===== src/Camera/Device.antt =====
-- The settings that src/dwarf_alpaca/devices/camera.py keeps of the camera: binning, subframe, gain and
-- offset, with the requests that change them. A request's value is the one that `resolve_parameter`
-- found. Widths and heights are numbers from 0: where the source's difference is negative it is refused
-- or replaced like 0. Temperatures are left out.
use dwarf_alp.Prelude.{
  ℕ, ◌-◌, ◌/◌, ◌^◌, min, max, Bool, false, not, Option, none, some, [], ◌∷◌, ◌&&◌, ◌||◌, ◌==◌, ltb,
  if◌then◌else◌,
}
use dwarf_alp.Prelude.Int.{ℤ, pos, negsuc}
use dwarf_alp.Profile.{Decimal, decimal, CameraProfile}
use dwarf_alp.Sharing.Wheel.{Answer, response, http_error}

pub record CameraState : Type 0 where
  pub connected : Bool
  pub bin_x : ℕ
  pub bin_y : ℕ
  pub sensor_width : ℕ
  pub sensor_height : ℕ
  pub subframe_start_x : ℕ
  pub subframe_start_y : ℕ
  pub subframe_width : ℕ
  pub subframe_height : ℕ
  pub frame_count : ℕ
  pub max_bin_x : ℕ
  pub max_bin_y : ℕ
  pub pixel_size_x : Decimal
  pub pixel_size_y : Decimal
  pub gain : ℕ
  pub gain_min : ℕ
  pub gain_max : ℕ
  pub offset : ℕ
  pub offset_min : ℕ
  pub offset_max : ℕ

-- `int` of a number that is not negative.
abbrev pub whole : Decimal → ℕ
whole (decimal digits places) = digits / 10 ^ places

-- `IMX678_PROFILE` without its noise and its quantum efficiency.
abbrev pub imx678_profile : CameraProfile
imx678_profile = record {
  name = "Sony IMX678 STARVIS 2";
  resolution_x = 3856;
  resolution_y = 2180;
  bits_per_pixel = 16;
  ad_converter_bits = 12;
  max_binning = 2;
  pixel_size_um = decimal 20 1;
  min_gain_db = decimal 0 1;
  max_gain_db = decimal 2000 1;
  min_exposure_s = decimal 1 5;
  max_exposure_s = decimal 1200 1;
  electrons_per_adu = decimal 275 2 ∷ [];
  full_well_capacity_e = decimal 112700 1 ∷ [];
  raw_format = "SRGGB12";
  bayer_pattern = "RGGB";
}

-- `state`, as the module makes it.
unfoldable pub initial_camera : CameraState
initial_camera =
    let sensor = imx678_profile in
    record {
      connected = false;
      bin_x = 1;
      bin_y = 1;
      sensor_width = sensor.resolution_x;
      sensor_height = sensor.resolution_y;
      subframe_start_x = 0;
      subframe_start_y = 0;
      subframe_width = sensor.resolution_x;
      subframe_height = sensor.resolution_y;
      frame_count = 1;
      max_bin_x = sensor.max_binning;
      max_bin_y = sensor.max_binning;
      pixel_size_x = sensor.pixel_size_um;
      pixel_size_y = sensor.pixel_size_um;
      gain = 0;
      gain_min = 0;
      gain_max = whole sensor.max_gain_db;
      offset = 0;
      offset_min = 0;
      offset_max = 255;
    }

-- Whether a subframe's start and size on one axis give way to the whole sensor.
abbrev pub gives_way : ℕ → ℕ → ℕ → ℕ → Bool
gives_way start size previous now = (start == 0 && size == previous) || ltb now size || size == 0

-- `_sync_state_to_profile`
unfoldable pub sync_state_to_profile : CameraProfile → CameraState → CameraState
sync_state_to_profile profile s =
    let wide = gives_way s.subframe_start_x s.subframe_width s.sensor_width profile.resolution_x in
    let high =
      gives_way s.subframe_start_y s.subframe_height s.sensor_height profile.resolution_y in
    record s {
      sensor_width = profile.resolution_x;
      sensor_height = profile.resolution_y;
      max_bin_x = profile.max_binning;
      max_bin_y = profile.max_binning;
      pixel_size_x = profile.pixel_size_um;
      pixel_size_y = profile.pixel_size_um;
      gain_min = whole profile.min_gain_db;
      gain_max = whole profile.max_gain_db;
      subframe_start_x = if wide then 0 else s.subframe_start_x;
      subframe_width = if wide then profile.resolution_x else s.subframe_width;
      subframe_start_y = if high then 0 else s.subframe_start_y;
      subframe_height = if high then profile.resolution_y else s.subframe_height;
      gain = max (whole profile.min_gain_db) (min s.gain (whole profile.max_gain_db));
    }

-- What a request that sets a value does: it is refused where the value is negative or fails the test.
abbrev pub put_value : (ℕ → Bool) → (ℕ → CameraState) → ℤ → CameraState → Answer × CameraState
put_value test write (pos value) s =
    if test value then (response, write value) else (http_error 400, s)
put_value test write (negsuc value) s = (http_error 400, s)

unfoldable pub set_gain : CameraProfile → ℤ → CameraState → Answer × CameraState
unfolding sync_state_to_profile
set_gain profile value s =
    let s1 = sync_state_to_profile profile s in
    put_value (λ v. not (ltb v s1.gain_min || ltb s1.gain_max v)) (λ v. record s1 { gain = v })
      value s1

unfoldable pub set_offset : ℤ → CameraState → Answer × CameraState
set_offset value s =
    put_value (λ v. not (ltb v s.offset_min || ltb s.offset_max v)) (λ v. record s { offset = v })
      value s

unfoldable pub set_num_x : ℤ → CameraState → Answer × CameraState
set_num_x value s =
    let max_width = s.sensor_width - s.subframe_start_x in
    put_value (λ v. not (ltb v 1 || ltb max_width v)) (λ v. record s { subframe_width = v }) value s

unfoldable pub set_num_y : ℤ → CameraState → Answer × CameraState
set_num_y value s =
    let max_height = s.sensor_height - s.subframe_start_y in
    put_value (λ v. not (ltb v 1 || ltb max_height v)) (λ v. record s { subframe_height = v }) value
      s

unfoldable pub set_start_x : ℤ → CameraState → Answer × CameraState
set_start_x value s =
    put_value (λ v. ltb v s.sensor_width)
      (λ v. record s {
        subframe_start_x = v;
        subframe_width = min s.subframe_width (s.sensor_width - v);
      })
      value s

unfoldable pub set_start_y : ℤ → CameraState → Answer × CameraState
set_start_y value s =
    put_value (λ v. ltb v s.sensor_height)
      (λ v. record s {
        subframe_start_y = v;
        subframe_height = min s.subframe_height (s.sensor_height - v);
      })
      value s

unfoldable pub set_bin_x : CameraProfile → ℤ → CameraState → Answer × CameraState
unfolding sync_state_to_profile
set_bin_x profile value s =
    let s1 = sync_state_to_profile profile s in
    put_value (λ v. not (ltb v 1 || ltb s1.max_bin_x v)) (λ v. record s1 { bin_x = v }) value s1

unfoldable pub set_bin_y : CameraProfile → ℤ → CameraState → Answer × CameraState
unfolding sync_state_to_profile
set_bin_y profile value s =
    let s1 = sync_state_to_profile profile s in
    put_value (λ v. not (ltb v 1 || ltb s1.max_bin_y v)) (λ v. record s1 { bin_y = v }) value s1

-- The part of `get_image_bytes` that fits the subframe into the sensor.
unfoldable pub fit_subframe : CameraProfile → CameraState → CameraState
unfolding sync_state_to_profile
fit_subframe profile s =
    let s1 = sync_state_to_profile profile s in
    let width = min s1.subframe_width (s1.sensor_width - s1.subframe_start_x) in
    let height = min s1.subframe_height (s1.sensor_height - s1.subframe_start_y) in
    record s1 {
      subframe_start_x = if width == 0 then 0 else s1.subframe_start_x;
      subframe_width = if width == 0 then s1.sensor_width else width;
      subframe_start_y = if height == 0 then 0 else s1.subframe_start_y;
      subframe_height = if height == 0 then s1.sensor_height else height;
    }

-- `frame_count` in `start_exposure`; `requested` is the first count that the request gives.
unfoldable pub choose_frame_count : Option ℤ → CameraState → Answer × CameraState
choose_frame_count none s = (response, record s { frame_count = max s.frame_count 1 })
choose_frame_count (some requested) s =
    put_value (λ v. not (ltb v 1)) (λ v. record s { frame_count = v }) requested s
