-- ===== src/Exposure/Options.antt =====
-- The exposure options that src/dwarf_alpaca/dwarf/exposure.py finds in a configuration:
-- `_extract_camera_options` where the parameters of the cameras are listed, `_discover_options`
-- anywhere else.
use dwarf_alp.Prelude.{
  Bool, true, false, ◌||◌, ◌&&◌, not, Option, none, some, List, [], ◌∷◌, ◌++◌, ◌==◌, if◌then◌else◌,
  map,
}
use dwarf_alp.Prelude.Int.{ℤ, pos}
use dwarf_alp.Exposure.Json.{
  Text, Json, null, boolean, int, float, text, array, object, Items, nil, cons, Fields, end, field,
  codes, text_eq, get,
}
use dwarf_alp.Exposure.Floats.{Python, le}
use dwarf_alp.Exposure.Duration.{parse_duration}

-- `ExposureOption`
pub record ExposureOption (F : Type 0) : Type 0 where
  pub index : ℤ
  pub seconds : F

abbrev pub duration_keys : List Text
duration_keys =
    codes "duration"
    ∷ codes "time"
    ∷ codes "exp_time"
    ∷ codes "exptime"
    ∷ codes "value"
    ∷ codes "text"
    ∷ codes "name"
    ∷ []

-- `b or c` on lists
abbrev pub or_list : {A : Type 0} → List A → List A → List A
or_list [] ys = ys
or_list (x ∷ xs) ys = x ∷ xs

abbrev pub no_options : {A : Type 0} → List A → Bool
no_options [] = true
no_options (x ∷ xs) = false

-- The first result there is.
abbrev pub or_option : {A : Type 0} → Option A → Option A → Option A
or_option none b = b
or_option (some a) b = some a

module _ {F : Type 0} (py : Python F) where
  -- `index_int is not None and duration is not None and duration > 0`
  unfoldable pub option_of : Option ℤ → Option F → List (ExposureOption F)
  option_of none duration = []
  option_of (some index) none = []
  option_of (some index) (some seconds) =
      if le py seconds py.float_zero then [] else record { index = index; seconds = seconds } ∷ []

  -- `str(fields.get("name", "")).strip().lower()`
  unfoldable pub name_of : Fields F → Text
  name_of fields = elim (get (codes "name") fields) [
    | none ↦ py.lower (py.strip [])
    | some (text t) ↦ py.lower (py.strip t)
    | some null ↦ py.lower (py.strip (py.str null))
    | some (boolean b) ↦ py.lower (py.strip (py.str (boolean b)))
    | some (int z) ↦ py.lower (py.strip (py.str (int z)))
    | some (float f) ↦ py.lower (py.strip (py.str (float f)))
    | some (array xs) ↦ py.lower (py.strip (py.str (array xs)))
    | some (object fs) ↦ py.lower (py.strip (py.str (object fs)))
  ]

  -- An entry of `values`, by what it has under "index" and "name".
  unfoldable pub entry_of : Option (Json F) → Option (Json F) → List (ExposureOption F)
  unfolding option_of parse_duration
  entry_of none name = []
  entry_of (some index) none = option_of (py.int_of index) none
  entry_of (some index) (some name) = option_of (py.int_of index) (parse_duration py name)

  unfoldable pub entry_option : Json F → List (ExposureOption F)
  unfolding entry_of
  entry_option (object fs) = entry_of (get (codes "index") fs) (get (codes "name") fs)
  entry_option null = []
  entry_option (boolean b) = []
  entry_option (int z) = []
  entry_option (float f) = []
  entry_option (text t) = []
  entry_option (array xs) = []

  unfoldable pub entry_options : Items F → List (ExposureOption F)
  unfolding entry_option
  entry_options nil = []
  entry_options (cons entry rest) = entry_option entry ++ entry_options rest

  -- What a loop goes through: nothing where the value is no list, since the early returns return
  -- what the loop returns on an empty list.
  unfoldable pub items_of : Option (Json F) → Items F
  items_of (some (array items)) = items
  items_of _ = nil

  -- The options of the parameter "exposure".
  unfoldable pub gear_options : Option (Json F) → List (ExposureOption F)
  unfolding entry_options items_of
  gear_options (some (object gear_mode)) = entry_options (items_of (get (codes "values") gear_mode))
  gear_options none = []
  gear_options (some null) = []
  gear_options (some (boolean b)) = []
  gear_options (some (int z)) = []
  gear_options (some (float f)) = []
  gear_options (some (text t)) = []
  gear_options (some (array xs)) = []

  -- The loop over `params`.
  unfoldable pub param_options : Items F → List (ExposureOption F)
  unfolding gear_options name_of
  param_options nil = []
  param_options (cons (object param) rest) =
      if text_eq (name_of param) (codes "exposure")
      then gear_options (get (codes "gearMode") param)
      else param_options rest
  param_options (cons null rest) = param_options rest
  param_options (cons (boolean b) rest) = param_options rest
  param_options (cons (int z) rest) = param_options rest
  param_options (cons (float f) rest) = param_options rest
  param_options (cons (text t) rest) = param_options rest
  param_options (cons (array xs) rest) = param_options rest

  unfoldable pub extract_camera_exposures : Json F → List (ExposureOption F)
  unfolding param_options
  extract_camera_exposures (object camera) =
      param_options (items_of (get (codes "supportParams") camera))
  extract_camera_exposures null = []
  extract_camera_exposures (boolean b) = []
  extract_camera_exposures (int z) = []
  extract_camera_exposures (float f) = []
  extract_camera_exposures (text t) = []
  extract_camera_exposures (array xs) = []

  -- `camera_id == 0`, which holds of `False` too.
  unfoldable pub equals_zero : Option (Json F) → Bool
  equals_zero (some (boolean b)) = not b
  equals_zero (some (int (pos n))) = n == 0
  equals_zero (some (float f)) = py.eq f py.float_zero
  equals_zero _ = false

  -- `camera_id == 0 or camera_name == "tele"`
  unfoldable pub is_tele : Json F → Bool
  unfolding equals_zero name_of
  is_tele (object camera) =
      equals_zero (get (codes "id") camera) || text_eq (name_of camera) (codes "tele")
  is_tele _ = false

  -- The loop over the cameras; its result is `preferred or fallback or []`. A camera without options
  -- changes neither.
  unfoldable pub select_options : Items F → List (ExposureOption F) → List (ExposureOption F)
  unfolding extract_camera_exposures is_tele
  select_options nil fallback = fallback
  select_options (cons camera rest) fallback =
      let options = extract_camera_exposures camera in
      if not (no_options options) && is_tele camera
      then options
      else select_options rest (or_list fallback options)

  -- `config["data"]` where there is one.
  unfoldable pub inner_config : Json F → Json F
  inner_config (object fs) = elim (get (codes "data") fs) [
    | none ↦ object fs
    | some config ↦ config
  ]
  inner_config config = config

  -- `data.get("cameras")`
  unfoldable pub cameras_of : Json F → Option (Json F)
  cameras_of (object fs) = get (codes "cameras") fs
  cameras_of _ = none

  unfoldable pub extract_camera_options : Json F → List (ExposureOption F)
  unfolding inner_config select_options cameras_of items_of
  extract_camera_options config = select_options (items_of (cameras_of (inner_config config))) []

  -- `node[lowered[key]]`: of the keys that agree in lower case, the last counts.
  unfoldable pub lowered_get : Text → Fields F → Option (Json F)
  lowered_get key end = none
  lowered_get key (field k v rest) =
      or_option (lowered_get key rest) (if text_eq (py.lower k) key then some v else none)

  unfoldable pub parse_found : Option (Json F) → Option F
  unfolding parse_duration
  parse_found none = none
  parse_found (some raw_value) = parse_duration py raw_value

  -- The loop of `_extract_duration`.
  unfoldable pub first_duration : List Text → Fields F → Option F
  unfolding lowered_get parse_found
  first_duration [] node = none
  first_duration (key ∷ keys) node =
      or_option (parse_found (lowered_get key node)) (first_duration keys node)

  unfoldable pub extract_duration : Fields F → Option F
  unfolding first_duration
  extract_duration node = first_duration duration_keys node

  -- The option of a dictionary by its index and its duration.
  unfoldable pub node_option : Option (Json F) → Option F → List (ExposureOption F)
  unfolding option_of
  node_option none duration = []
  node_option (some index) duration = option_of (py.int_of index) duration

  -- The option that a dictionary itself is.
  unfoldable pub own_option : Fields F → List (ExposureOption F)
  unfolding lowered_get node_option extract_duration
  own_option node = node_option (lowered_get (codes "index") node) (extract_duration node)

  unfoldable mutual
    unfolding own_option

    pub discover_options : Json F → List (ExposureOption F)
    discover_options (object node) = own_option node ++ discover_fields node
    discover_options (array items) = discover_items items
    discover_options null = []
    discover_options (boolean b) = []
    discover_options (int z) = []
    discover_options (float f) = []
    discover_options (text t) = []

    pub discover_items : Items F → List (ExposureOption F)
    discover_items nil = []
    discover_items (cons item rest) = discover_options item ++ discover_items rest

    pub discover_fields : Fields F → List (ExposureOption F)
    discover_fields end = []
    discover_fields (field key value rest) = discover_options value ++ discover_fields rest

  -- `options`, as `from_config` and `flatten_exposure_entries` take it.
  unfoldable pub config_options : Json F → List (ExposureOption F)
  unfolding extract_camera_options discover_options
  config_options config = or_list (extract_camera_options config) (discover_options config)

  unfoldable pub flatten_exposure_entries : Json F → List (ℤ × F)
  unfolding config_options
  flatten_exposure_entries config =
      map (λ (o : ExposureOption F). (o.index, o.seconds)) (config_options config)
