-- ===== src/Profile/Consistent.antt =====
-- The profiles of src/dwarf_alpaca/device_profile.py agree with themselves and with the model names.
use dwarf_alp.Prelude.{
  ◌≡◌, refl, Bool, true, false, not, ◌||◌, List, [], ◌∷◌, Option, length, leb, if◌then◌else◌,
}
use Prim.Native.String.{String}
use text.Mathlib.Text.{◌==◌}
use dwarf_alp.Profile.{
  DeviceProfile, dwarf3, dwarfmini, dwarf2, profile_of, normalize_dwarf_device_model,
  get_device_profile,
}
use dwarf_alp.Profile.Devices.{Device, build_device_list}

abbrev offers_filter_wheel : List Device → Bool
offers_filter_wheel [] = false
offers_filter_wheel (device ∷ devices) =
    device.device_type == "FilterWheel" || offers_filter_wheel devices

-- A label for each index of the firmware; filters, a way to choose one and an Alpaca device for them
-- exactly where the telescope has a filter wheel.
pub record IsConsistentProfile (remove_spaces : String → String) (p : DeviceProfile) : Type 0 where
  pub as_many : length p.filters.labels ≡ length p.filters.firmware_indices
  pub labelled : leb 1 (length p.filters.labels) ≡ p.has_filterwheel
  pub controlled : p.filters.control_path == "none" ≡ not p.has_filterwheel
  pub offered : offers_filter_wheel (build_device_list remove_spaces p) ≡ p.has_filterwheel

module _ (collapse : Option String → String) (remove_spaces : String → String) where
  model_cases :
      (P : DeviceProfile → String → Type 0)
      → P dwarf3 "dwarf3"
      → P dwarfmini "dwarfmini"
      → P dwarf2 "dwarf2"
      → (model : Option String)
      → P (get_device_profile collapse model) (normalize_dwarf_device_model collapse model)
  unfolding get_device_profile normalize_dwarf_device_model profile_of
  model_cases P three mini two model =
      let c = collapse model in
      named
        (c == "dwarf mini" || c == "mini" || c == "dwarfmini" || c == "dwarf4" || c == "dwarf 4")
        (c == "dwarf 2" || c == "dwarf2") (c == "dwarf 3" || c == "dwarf3")
    where
      named :
          (a b d : Bool)
          → let m : String =
              if a then "dwarfmini" else if b then "dwarf2" else if d then "dwarf3" else "dwarf3" in
            P (profile_of m) m
      named true b d = mini
      named false true d = two
      named false false true = three
      named false false false = three

  -- Whatever the model name, the profile that is found is the one of the normalised name, and it is
  -- consistent.
  pub profile_consistent :
      (model : Option String)
      → ((get_device_profile collapse model).model_id ≡ normalize_dwarf_device_model collapse model)
        × IsConsistentProfile remove_spaces (get_device_profile collapse model)
  unfolding build_device_list
  profile_consistent model =
      model_cases (λ p m. (p.model_id ≡ m) × IsConsistentProfile remove_spaces p)
        (refl, record { as_many = refl; labelled = refl; controlled = refl; offered = refl })
        (refl, record { as_many = refl; labelled = refl; controlled = refl; offered = refl })
        (refl, record { as_many = refl; labelled = refl; controlled = refl; offered = refl }) model
