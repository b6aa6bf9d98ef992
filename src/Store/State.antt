-- ===== src/Store/State.antt =====
-- `ConnectivityState` and `StateStore` of src/dwarf_alpaca/dwarf/state.py. A file is the JSON document
-- that it holds; reading what was written gives it back.
use dwarf_alp.Prelude.{
  ℕ, zero, suc, Bool, true, false, not, ◌&&◌, ◌||◌, Option, none, some, List, [], ◌∷◌,
  if◌then◌else◌,
}
use dwarf_alp.Prelude.Int.{pos, negsuc}
use dwarf_alp.Exposure.Json.{
  Text, Json, null, boolean, int, float, text, array, object, Fields, end, field, codes, text_eq,
  get,
}
use dwarf_alp.Exposure.Floats.{Python, le}

-- The first three fields are read as they stand.
pub record ConnectivityState (F : Type 0) : Type 0 where
  pub sta_ip : Json F
  pub last_error : Json F
  pub mode : Json F
  pub wifi_credentials : List (Text × Text)
  pub last_device_address : Option Text
  pub device_model : Option Text
  pub timezone_name : Option Text
  pub site_latitude : Option F
  pub site_longitude : Option F

-- What `load` returns or raises: the state it had, a new one, the `TypeError` of a call with an unknown
-- name, or the `OverflowError` of a coordinate that is an integer too large for a float.
pub data Loaded (F : Type 0) : Type 0 where
  kept type_error overflow_error : Loaded F
  loaded : ConnectivityState F → Loaded F

abbrev pub is_blank : Text → Bool
is_blank [] = true
is_blank (c ∷ rest) = false

-- `sanitized_name or None`
abbrev pub text_or_none : Text → Option Text
text_or_none [] = none
text_or_none (c ∷ rest) = some (c ∷ rest)

abbrev pub known_keys : List Text
known_keys =
    codes "sta_ip"
    ∷ codes "last_error"
    ∷ codes "mode"
    ∷ codes "wifi_credentials"
    ∷ codes "last_device_address"
    ∷ codes "device_model"
    ∷ codes "timezone_name"
    ∷ codes "site_latitude"
    ∷ codes "site_longitude"
    ∷ []

abbrev pub stands_in : Text → List Text → Bool
stands_in key [] = false
stands_in key (k ∷ keys) = text_eq key k || stands_in key keys

module _ {F : Type 0} where
  -- `ConnectivityState(**data)` takes these names; the legacy one was dropped before.
  unfoldable pub has_unknown_key : Fields F → Bool
  has_unknown_key end = false
  has_unknown_key (field key value rest) =
      not (stands_in key known_keys || text_eq key (codes "timezone_offset_hours"))
      || has_unknown_key rest

  -- `data.setdefault(key, default)`, read back.
  unfoldable pub or_default : Json F → Option (Json F) → Json F
  or_default default none = default
  or_default default (some value) = value

  -- The loop over `raw_credentials`.
  unfoldable pub load_passwords : Fields F → List (Text × Text)
  load_passwords end = []
  load_passwords (field ssid (text password) rest) =
      if is_blank password then load_passwords rest else (ssid, password) ∷ load_passwords rest
  load_passwords (field ssid null rest) = load_passwords rest
  load_passwords (field ssid (boolean b) rest) = load_passwords rest
  load_passwords (field ssid (int z) rest) = load_passwords rest
  load_passwords (field ssid (float f) rest) = load_passwords rest
  load_passwords (field ssid (array xs) rest) = load_passwords rest
  load_passwords (field ssid (object fs) rest) = load_passwords rest

  unfoldable pub load_credentials : Option (Json F) → List (Text × Text)
  unfolding load_passwords
  load_credentials (some (object fs)) = load_passwords fs
  load_credentials _ = []

  -- `None` where the value is no string.
  unfoldable pub load_text : Option (Json F) → Option Text
  load_text (some (text t)) = some t
  load_text _ = none

  -- `json.dump` of an optional value.
  unfoldable pub dump_text : Option Text → Json F
  dump_text none = null
  dump_text (some t) = text t

  unfoldable pub dump_number : Option F → Json F
  dump_number none = null
  dump_number (some f) = float f

  unfoldable pub dump_credentials : List (Text × Text) → Fields F
  dump_credentials [] = end
  dump_credentials ((ssid, password) ∷ rest) = field ssid (text password) (dump_credentials rest)

-- `if isinstance(password, str) and password`
unfoldable pub sanitize_credentials : List (Text × Text) → List (Text × Text)
sanitize_credentials [] = []
sanitize_credentials ((ssid, password) ∷ rest) =
    if is_blank password
    then sanitize_credentials rest
    else (ssid, password) ∷ sanitize_credentials rest

module _ {F : Type 0} (py : Python F) where
  -- `minimum <= value <= maximum`, for bounds of the same distance from zero.
  unfoldable pub in_bounds : ℕ → F → Bool
  in_bounds zero value = le py (py.of_int (pos 0)) value && le py value (py.of_int (pos 0))
  in_bounds (suc n) value =
      le py (py.of_int (negsuc n)) value && le py value (py.of_int (pos (suc n)))

  unfoldable pub limit_number : ℕ → F → Option F
  unfolding in_bounds
  limit_number bound value = if in_bounds bound value then some value else none

  -- A coordinate for which `float` does not raise.
  unfoldable pub load_number : ℕ → Option (Json F) → Option F
  unfolding limit_number
  load_number bound (some (boolean true)) = limit_number bound (py.of_int (pos 1))
  load_number bound (some (boolean false)) = limit_number bound (py.of_int (pos 0))
  load_number bound (some (int z)) = limit_number bound (py.of_int z)
  load_number bound (some (float f)) = limit_number bound f
  load_number bound _ = none

  -- Whether `float(raw_value)` raises.
  unfoldable pub overflows : Option (Json F) → Bool
  overflows (some (int z)) = py.is_large z
  overflows _ = false

  unfoldable pub load_timezone : Option (Json F) → Option Text
  load_timezone (some (text t)) = text_or_none (py.strip t)
  load_timezone _ = none

  unfoldable pub load_fields : Fields F → ConnectivityState F
  unfolding or_default load_credentials load_text load_number load_timezone
  load_fields fs = record {
    sta_ip = or_default null (get (codes "sta_ip") fs);
    last_error = or_default null (get (codes "last_error") fs);
    mode = or_default (text (codes "unknown")) (get (codes "mode") fs);
    wifi_credentials = load_credentials (get (codes "wifi_credentials") fs);
    last_device_address = load_text (get (codes "last_device_address") fs);
    device_model = load_text (get (codes "device_model") fs);
    timezone_name = load_timezone (get (codes "timezone_name") fs);
    site_latitude = load_number 90 (get (codes "site_latitude") fs);
    site_longitude = load_number 180 (get (codes "site_longitude") fs);
  }

  -- `load`; there is no document where the file is missing or holds no JSON.
  unfoldable pub load : Option (Json F) → Loaded F
  unfolding has_unknown_key load_fields overflows
  load (some (object fs)) =
      if overflows (get (codes "site_latitude") fs) || overflows (get (codes "site_longitude") fs)
      then overflow_error
      else if has_unknown_key fs
      then type_error
      else loaded (load_fields fs)
  load none = kept
  load (some null) = kept
  load (some (boolean b)) = kept
  load (some (int z)) = kept
  load (some (float f)) = kept
  load (some (text t)) = kept
  load (some (array xs)) = kept

  unfoldable pub sanitize_timezone : Option Text → Option Text
  sanitize_timezone none = none
  sanitize_timezone (some t) = text_or_none (py.strip t)

  unfoldable pub sanitize_number : ℕ → Option F → Option F
  unfolding limit_number
  sanitize_number bound none = none
  sanitize_number bound (some value) = limit_number bound value

  -- The state that `save` writes and keeps.
  unfoldable pub sanitized : ConnectivityState F → ConnectivityState F
  unfolding sanitize_credentials sanitize_timezone sanitize_number
  sanitized s = record s {
    wifi_credentials = sanitize_credentials s.wifi_credentials;
    timezone_name = sanitize_timezone s.timezone_name;
    site_latitude = sanitize_number 90 s.site_latitude;
    site_longitude = sanitize_number 180 s.site_longitude;
  }

  unfoldable pub dump : ConnectivityState F → Json F
  unfolding dump_text dump_number dump_credentials
  dump s = object (
      field (codes "sta_ip") s.sta_ip (
        field (codes "last_error") s.last_error (
          field (codes "mode") s.mode (
            field (codes "wifi_credentials") (object (dump_credentials s.wifi_credentials)) (
              field (codes "last_device_address") (dump_text s.last_device_address) (
                field (codes "device_model") (dump_text s.device_model) (
                  field (codes "timezone_name") (dump_text s.timezone_name) (
                    field (codes "site_latitude") (dump_number s.site_latitude)
                      (field (codes "site_longitude") (dump_number s.site_longitude) end)))))))))

  -- `save`: the file's document and the state of the store.
  unfoldable pub save : ConnectivityState F → Json F × ConnectivityState F
  unfolding sanitized dump
  save s = (dump (sanitized s), sanitized s)

  unfoldable pub record_error : Text → ConnectivityState F → Json F × ConnectivityState F
  unfolding save
  record_error message s = save (record s { last_error = text message })
