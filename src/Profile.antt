-- ===== src/Profile.antt =====
-- The device profiles of src/dwarf_alpaca/device_profile.py and the model names of
-- src/dwarf_alpaca/config/settings.py. A number with a decimal point is kept as it is written. The
-- string methods of Python that collapse a model name are a parameter.
pub mod Devices
pub mod Consistent
mod Tests
use dwarf_alp.Prelude.{ℕ, ◌||◌, Bool, true, false, List, [], ◌∷◌, Option, none, some, if◌then◌else◌}
use Prim.Native.String.{String}
use text.Mathlib.Text.{◌==◌}

-- `decimal 145 2` is 1.45.
pub data Decimal : Type 0 where
  decimal : ℕ → ℕ → Decimal

pub record CameraProfile : Type 0 where
  pub name : String
  pub resolution_x : ℕ
  pub resolution_y : ℕ
  pub bits_per_pixel : ℕ
  pub ad_converter_bits : ℕ
  pub max_binning : ℕ
  pub pixel_size_um : Decimal
  pub min_gain_db : Decimal
  pub max_gain_db : Decimal
  pub min_exposure_s : Decimal
  pub max_exposure_s : Decimal
  pub electrons_per_adu : List Decimal
  pub full_well_capacity_e : List Decimal
  pub raw_format : String
  pub bayer_pattern : String

pub record ProtocolProfile : Type 0 where
  pub family : String
  pub ws_major_version : ℕ
  pub ws_minor_version : ℕ
  pub ws_device_id : ℕ
  pub camera_commands : String
  pub focus_commands : String
  pub supports_runtime_discovery : Bool

pub record CaptureCapabilities : Type 0 where
  pub default_workflow : String
  pub supports_astro_workflow : Bool
  pub supports_direct_photo : Bool
  pub supports_fits : Bool
  pub supports_binning : Bool
  pub supports_frame_count : Bool
  pub supports_progress_notifications : Bool
  pub supports_observation_notifications : Bool
  pub supports_stop : Bool
  pub supports_abort : Bool

pub record FilterCapabilities : Type 0 where
  pub labels : List String
  pub firmware_indices : List ℕ
  pub control_path : String
  pub runtime_discovery : Bool

pub record DeviceProfile : Type 0 where
  pub model_id : String
  pub display_name : String
  pub ws_client_id : String
  pub has_filterwheel : Bool
  pub camera : CameraProfile
  pub protocol : ProtocolProfile
  pub capture : CaptureCapabilities
  pub filters : FilterCapabilities

abbrev pub dwarf3 : DeviceProfile
dwarf3 = record {
  model_id = "dwarf3";
  display_name = "DWARF 3";
  ws_client_id = "0000DAF3-0000-1000-8000-00805F9B34FB";
  has_filterwheel = true;
  camera = record {
    name = "Sony IMX678 STARVIS 2";
    resolution_x = 3856;
    resolution_y = 2180;
    bits_per_pixel = 16;
    ad_converter_bits = 12;
    max_binning = 2;
    pixel_size_um = decimal 20 1;
    min_gain_db = decimal 0 1;
    max_gain_db = decimal 2000 1;
    min_exposure_s = decimal 1 5;
    max_exposure_s = decimal 1200 1;
    electrons_per_adu = decimal 275 2 ∷ [];
    full_well_capacity_e = decimal 112700 1 ∷ [];
    raw_format = "SRGGB12";
    bayer_pattern = "RGGB";
  };
  protocol = record {
    family = "v3";
    ws_major_version = 1;
    ws_minor_version = 20;
    ws_device_id = 4;
    camera_commands = "v3";
    focus_commands = "v3";
    supports_runtime_discovery = true;
  };
  capture = record {
    default_workflow = "astro";
    supports_astro_workflow = true;
    supports_direct_photo = true;
    supports_fits = true;
    supports_binning = true;
    supports_frame_count = true;
    supports_progress_notifications = true;
    supports_observation_notifications = true;
    supports_stop = false;
    supports_abort = true;
  };
  filters = record {
    labels = "VIS Filter" ∷ "Astro Filter" ∷ "Duo-Band Filter" ∷ [];
    firmware_indices = 0 ∷ 1 ∷ 2 ∷ [];
    control_path = "v3-camera-param";
    runtime_discovery = false;
  };
}

abbrev pub dwarfmini : DeviceProfile
dwarfmini = record {
  model_id = "dwarfmini";
  display_name = "DWARF mini";
  ws_client_id = "0000DAF4-0000-1000-8000-00805F9B34FB";
  has_filterwheel = true;
  camera = record {
    name = "Sony IMX662";
    resolution_x = 1920;
    resolution_y = 1080;
    bits_per_pixel = 16;
    ad_converter_bits = 12;
    max_binning = 1;
    pixel_size_um = decimal 29 1;
    min_gain_db = decimal 400 1;
    max_gain_db = decimal 1000 1;
    min_exposure_s = decimal 10 1;
    max_exposure_s = decimal 1800 1;
    electrons_per_adu = decimal 275 2 ∷ [];
    full_well_capacity_e = decimal 112700 1 ∷ [];
    raw_format = "SRGGB12";
    bayer_pattern = "RGGB";
  };
  protocol = record {
    family = "v3";
    ws_major_version = 1;
    ws_minor_version = 20;
    ws_device_id = 4;
    camera_commands = "v3";
    focus_commands = "v3";
    supports_runtime_discovery = true;
  };
  capture = record {
    default_workflow = "astro";
    supports_astro_workflow = true;
    supports_direct_photo = true;
    supports_fits = true;
    supports_binning = true;
    supports_frame_count = true;
    supports_progress_notifications = true;
    supports_observation_notifications = true;
    supports_stop = false;
    supports_abort = true;
  };
  filters = record {
    labels = "Astro" ∷ "Duo-Band" ∷ [];
    firmware_indices = 1 ∷ 2 ∷ [];
    control_path = "astro-start-ir-index";
    runtime_discovery = false;
  };
}

abbrev pub dwarf2 : DeviceProfile
dwarf2 = record {
  model_id = "dwarf2";
  display_name = "DWARF 2";
  ws_client_id = "0000DAF2-0000-1000-8000-00805F9B34FB";
  has_filterwheel = false;
  camera = record {
    name = "Sony IMX415";
    resolution_x = 3840;
    resolution_y = 2160;
    bits_per_pixel = 16;
    ad_converter_bits = 12;
    max_binning = 2;
    pixel_size_um = decimal 145 2;
    min_gain_db = decimal 0 1;
    max_gain_db = decimal 2000 1;
    min_exposure_s = decimal 1 5;
    max_exposure_s = decimal 1200 1;
    electrons_per_adu = decimal 275 2 ∷ [];
    full_well_capacity_e = decimal 112700 1 ∷ [];
    raw_format = "SRGGB12";
    bayer_pattern = "RGGB";
  };
  protocol = record {
    family = "v3";
    ws_major_version = 1;
    ws_minor_version = 20;
    ws_device_id = 4;
    camera_commands = "v3";
    focus_commands = "v3";
    supports_runtime_discovery = true;
  };
  capture = record {
    default_workflow = "astro";
    supports_astro_workflow = true;
    supports_direct_photo = true;
    supports_fits = true;
    supports_binning = true;
    supports_frame_count = true;
    supports_progress_notifications = true;
    supports_observation_notifications = true;
    supports_stop = false;
    supports_abort = true;
  };
  filters = record {
    labels = [];
    firmware_indices = [];
    control_path = "none";
    runtime_discovery = false;
  };
}

-- `_PROFILES.get(model_id, _DWARF3)`
unfoldable pub profile_of : String → DeviceProfile
profile_of model_id =
    if model_id == "dwarf3"
    then dwarf3
    else if model_id == "dwarfmini"
    then dwarfmini
    else if model_id == "dwarf2"
    then dwarf2
    else dwarf3

module _ (collapse : Option String → String) where
  unfoldable pub normalize_dwarf_device_model : Option String → String
  normalize_dwarf_device_model value =
      let collapsed = collapse value in
      if collapsed == "dwarf mini"
        || collapsed == "mini"
        || collapsed == "dwarfmini"
        || collapsed == "dwarf4"
        || collapsed == "dwarf 4"
      then "dwarfmini"
      else if collapsed == "dwarf 2" || collapsed == "dwarf2"
      then "dwarf2"
      else if collapsed == "dwarf 3" || collapsed == "dwarf3"
      then "dwarf3"
      else "dwarf3"

  unfoldable pub get_device_profile : Option String → DeviceProfile
  unfolding normalize_dwarf_device_model profile_of
  get_device_profile model = profile_of (normalize_dwarf_device_model model)
