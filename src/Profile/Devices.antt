-- ===== src/Profile/Devices.antt =====
-- `build_device_list` of src/dwarf_alpaca/device_profile.py.
use dwarf_alp.Prelude.{ℕ, List, [], ◌∷◌, if◌then◌else◌}
use Prim.Native.String.{String, ◌++◌}
use dwarf_alp.Profile.{DeviceProfile}

pub record Device : Type 0 where
  pub device_name : String
  pub device_type : String
  pub device_number : ℕ
  pub unique_id : String

abbrev pub telescope : String → String → Device
telescope name prefix = record {
  device_name = name ++ " Telescope";
  device_type = "Telescope";
  device_number = 0;
  unique_id = prefix ++ "-Telescope";
}

abbrev pub camera_device : String → String → Device
camera_device name prefix = record {
  device_name = name ++ " Camera";
  device_type = "Camera";
  device_number = 0;
  unique_id = prefix ++ "-Camera";
}

abbrev pub focuser : String → String → Device
focuser name prefix = record {
  device_name = name ++ " Focuser";
  device_type = "Focuser";
  device_number = 0;
  unique_id = prefix ++ "-Focuser";
}

abbrev pub filter_wheel : String → String → Device
filter_wheel name prefix = record {
  device_name = name ++ " Filter Wheel";
  device_type = "FilterWheel";
  device_number = 0;
  unique_id = prefix ++ "-FilterWheel";
}

-- `remove_spaces` is `.replace(" ", "")`.
unfoldable pub build_device_list : (String → String) → DeviceProfile → List Device
build_device_list remove_spaces profile =
    let name = profile.display_name in
    let server_prefix = remove_spaces name in
    telescope name server_prefix
    ∷ camera_device name server_prefix
    ∷ focuser name server_prefix
    ∷ (if profile.has_filterwheel then filter_wheel name server_prefix ∷ [] else [])
