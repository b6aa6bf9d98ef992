-- ===== src/Exposure/Positive.antt =====
-- The options that src/dwarf_alpaca/dwarf/exposure.py finds have positive durations.
use dwarf_alp.Prelude.{
  ◌≡◌, refl, subst, sym, true, false, Option, none, some, List, [], ◌∷◌, ◌++◌, arith, Bool-cases,
  Option-cases, inl, inr, if◌then◌else◌, Bool, not, ◌&&◌, ◌⊎◌, ℕ, ◌==◌,
}
use dwarf_alp.Prelude.Int.{ℤ, pos}
use mathlib.Core.List.{Memᴰ}
use mathlib.Core.List.Memᴰ
use dwarf_alp.Exposure.Json.{
  Text, Json, null, boolean, int, float, text, array, object, Items, nil, cons, Fields, end, field,
  codes, get, text_eq,
}
use dwarf_alp.Exposure.Floats.{Python, Ordered, le}
use dwarf_alp.Exposure.Duration.{
  positive_number, parse_number, parse_text, parse_duration, match_fraction, match_float,
  split_unit, remove_units, ends_with,
}
use dwarf_alp.Exposure.Options

module _ {F : Type 0} (py : Python F) where
  abbrev pub IsPositive : Options.ExposureOption F → Type 0
  IsPositive o = (py.is_nan o.seconds ≡ false) × (le py o.seconds py.float_zero ≡ false)

  abbrev pub AllPositive : List (Options.ExposureOption F) → Type 0
  AllPositive xs = (o : Options.ExposureOption F) → Memᴰ o xs → IsPositive o

  nil-AllPositive : AllPositive []
  nil-AllPositive o m = absurd (Memᴰ.not-nil m)

  append-AllPositive :
      (xs ys : List (Options.ExposureOption F))
      → AllPositive xs
      → AllPositive ys
      → AllPositive (xs ++ ys)
  append-AllPositive xs ys p q o m = elim (Memᴰ.append_cases xs m) [ inl k ↦ p o k | inr k ↦ q o k ]

  module _ (ord : Ordered py) where
    positive_number-is_nan : (x s : F) → positive_number py x ≡ some s → py.is_nan s ≡ false
    unfolding positive_number
    positive_number-is_nan x s h = ground (arith, h)

    -- The multiplier of a unit.
    abbrev IsUnit : F → Type 0
    IsUnit m = (m ≡ py.one) ⊎ (m ≡ py.milli)

    ratio-is_nan :
        (n d : ℕ) (m : F)
        → IsUnit m
        → (d == 0) ≡ false
        → py.is_nan (py.mul (py.ratio n d) m) ≡ false
    ratio-is_nan n d m (inl e) h = rw e (ord.ratio_one n d h)
    ratio-is_nan n d m (inr e) h = rw e (ord.ratio_milli n d h)

    parse_number-is_nan :
        (t : Text) (m s : F) → IsUnit m → parse_number py t m ≡ some s → py.is_nan s ≡ false
    unfolding parse_number
    parse_number-is_nan t m s hm h = elim (Option-cases (match_fraction py t)) [
      | inr ((n, d), e) ↦ ground (arith, h, e, ratio-is_nan n d m hm)
      | inl e ↦ elim (Option-cases (match_float py t)) [
        | inl e' ↦ ground (arith, h, e, e')
        | inr (w, e') ↦
            positive_number-is_nan (py.mul (py.float_of_text w) m) s (ground (arith, h, e, e'))
      ]
    ]

    split_unit-IsUnit : (t : Text) → IsUnit (split_unit py t).1
    unfolding split_unit
    split_unit-IsUnit t = elim (Bool-cases (ends_with (codes "ms") t)) [
      | inl e ↦ inr (rw e refl)
      | inr e ↦ inl (ground (arith, e))
    ]

    parse_text-is_nan : (t : Text) (s : F) → parse_text py t ≡ some s → py.is_nan s ≡ false
    unfolding parse_text
    parse_text-is_nan t s h =
        let parts = split_unit py (py.lower (py.strip t)) in
        parse_number-is_nan (remove_units py parts.0) parts.1 s
          (split_unit-IsUnit (py.lower (py.strip t))) (ground (arith, h))

    parse_duration-is_nan :
        (v : Json F) (s : F) → parse_duration py v ≡ some s → py.is_nan s ≡ false
    unfolding parse_duration
    parse_duration-is_nan null s h = cc
    parse_duration-is_nan (boolean true) s h = positive_number-is_nan (py.of_int (pos 1)) s h
    parse_duration-is_nan (boolean false) s h = positive_number-is_nan (py.of_int (pos 0)) s h
    parse_duration-is_nan (int z) s h = positive_number-is_nan (py.of_int z) s h
    parse_duration-is_nan (float f) s h = positive_number-is_nan f s h
    parse_duration-is_nan (text t) s h = parse_text-is_nan t s h
    parse_duration-is_nan (array xs) s h = cc
    parse_duration-is_nan (object fs) s h = cc

    abbrev IsNumber : Option F → Type 0
    IsNumber d = (s : F) → d ≡ some s → py.is_nan s ≡ false

    option_of-AllPositive :
        (index : Option ℤ) (d : Option F) → IsNumber d → AllPositive (Options.option_of py index d)
    unfolding Options.option_of
    option_of-AllPositive none d h o m = absurd (Memᴰ.not-nil m)
    option_of-AllPositive (some i) none h o m = absurd (Memᴰ.not-nil m)
    option_of-AllPositive (some i) (some s) h o m = elim (Bool-cases (le py s py.float_zero)) [
      | inl e ↦ absurd (Memᴰ.not-nil (subst (λ b. Memᴰ o (if b then [] else entry ∷ [])) e m))
      | inr e ↦
          let q = Memᴰ.eq_of_singleton (subst (λ b. Memᴰ o (if b then [] else entry ∷ [])) e m) in
          subst IsPositive (sym q) (h s refl, e)
    ]
      where
        entry : Options.ExposureOption F
        entry = record { index = i; seconds = s }

    entry_of-AllPositive :
        (index name : Option (Json F)) → AllPositive (Options.entry_of py index name)
    unfolding Options.entry_of
    entry_of-AllPositive none name = nil-AllPositive
    entry_of-AllPositive (some index) none =
        option_of-AllPositive (py.int_of index) none (λ s h. cc)
    entry_of-AllPositive (some index) (some name) =
        option_of-AllPositive (py.int_of index) (parse_duration py name)
          (parse_duration-is_nan name)

    entry_option-AllPositive : (v : Json F) → AllPositive (Options.entry_option py v)
    unfolding Options.entry_option
    entry_option-AllPositive (object fs) =
        entry_of-AllPositive (get (codes "index") fs) (get (codes "name") fs)
    entry_option-AllPositive null = nil-AllPositive
    entry_option-AllPositive (boolean b) = nil-AllPositive
    entry_option-AllPositive (int z) = nil-AllPositive
    entry_option-AllPositive (float f) = nil-AllPositive
    entry_option-AllPositive (text t) = nil-AllPositive
    entry_option-AllPositive (array xs) = nil-AllPositive

    entry_options-AllPositive : (xs : Items F) → AllPositive (Options.entry_options py xs)
    unfolding Options.entry_options
    entry_options-AllPositive nil = nil-AllPositive
    entry_options-AllPositive (cons x xs) =
        append-AllPositive (Options.entry_option py x) (Options.entry_options py xs)
          (entry_option-AllPositive x) (entry_options-AllPositive xs)

    gear_options-AllPositive : (v : Option (Json F)) → AllPositive (Options.gear_options py v)
    unfolding Options.gear_options
    gear_options-AllPositive none = nil-AllPositive
    gear_options-AllPositive (some (object mode)) =
        entry_options-AllPositive (Options.items_of py (get (codes "values") mode))
    gear_options-AllPositive (some null) = nil-AllPositive
    gear_options-AllPositive (some (boolean b)) = nil-AllPositive
    gear_options-AllPositive (some (int z)) = nil-AllPositive
    gear_options-AllPositive (some (float f)) = nil-AllPositive
    gear_options-AllPositive (some (text t)) = nil-AllPositive
    gear_options-AllPositive (some (array xs)) = nil-AllPositive

    if-AllPositive :
        (b : Bool) (xs ys : List (Options.ExposureOption F))
        → AllPositive xs
        → AllPositive ys
        → AllPositive (if b then xs else ys)
    if-AllPositive true xs ys p q = p
    if-AllPositive false xs ys p q = q

    or_list-AllPositive :
        (xs ys : List (Options.ExposureOption F))
        → AllPositive xs
        → AllPositive ys
        → AllPositive (Options.or_list xs ys)
    or_list-AllPositive [] ys p q = q
    or_list-AllPositive (x ∷ xs) ys p q = p

    param_options-AllPositive : (xs : Items F) → AllPositive (Options.param_options py xs)
    unfolding Options.param_options
    param_options-AllPositive nil = nil-AllPositive
    param_options-AllPositive (cons (object param) rest) =
        if-AllPositive (text_eq (Options.name_of py param) (codes "exposure"))
          (Options.gear_options py (get (codes "gearMode") param)) (Options.param_options py rest)
          (gear_options-AllPositive (get (codes "gearMode") param)) (param_options-AllPositive rest)
    param_options-AllPositive (cons null rest) = param_options-AllPositive rest
    param_options-AllPositive (cons (boolean b) rest) = param_options-AllPositive rest
    param_options-AllPositive (cons (int z) rest) = param_options-AllPositive rest
    param_options-AllPositive (cons (float f) rest) = param_options-AllPositive rest
    param_options-AllPositive (cons (text t) rest) = param_options-AllPositive rest
    param_options-AllPositive (cons (array xs) rest) = param_options-AllPositive rest

    extract_camera_exposures-AllPositive :
        (v : Json F) → AllPositive (Options.extract_camera_exposures py v)
    unfolding Options.extract_camera_exposures
    extract_camera_exposures-AllPositive (object camera) =
        param_options-AllPositive (Options.items_of py (get (codes "supportParams") camera))
    extract_camera_exposures-AllPositive null = nil-AllPositive
    extract_camera_exposures-AllPositive (boolean b) = nil-AllPositive
    extract_camera_exposures-AllPositive (int z) = nil-AllPositive
    extract_camera_exposures-AllPositive (float f) = nil-AllPositive
    extract_camera_exposures-AllPositive (text t) = nil-AllPositive
    extract_camera_exposures-AllPositive (array xs) = nil-AllPositive

    select_options-AllPositive :
        (cameras : Items F) (fallback : List (Options.ExposureOption F))
        → AllPositive fallback
        → AllPositive (Options.select_options py cameras fallback)
    unfolding Options.select_options
    select_options-AllPositive nil fallback p = p
    select_options-AllPositive (cons camera rest) fallback p =
        let options = Options.extract_camera_exposures py camera in
        let q = extract_camera_exposures-AllPositive camera in
        if-AllPositive (not (Options.no_options options) && Options.is_tele py camera) options
          (Options.select_options py rest (Options.or_list fallback options)) q
          (select_options-AllPositive rest (Options.or_list fallback options)
            (or_list-AllPositive fallback options p q))

    parse_found-is_nan : (v : Option (Json F)) → IsNumber (Options.parse_found py v)
    unfolding Options.parse_found
    parse_found-is_nan none s h = cc
    parse_found-is_nan (some v) s h = parse_duration-is_nan v s h

    or_option-is_nan : (a b : Option F) → IsNumber a → IsNumber b → IsNumber (Options.or_option a b)
    or_option-is_nan none b p q = q
    or_option-is_nan (some s) b p q = p

    first_duration-is_nan :
        (keys : List Text) (node : Fields F) → IsNumber (Options.first_duration py keys node)
    unfolding Options.first_duration
    first_duration-is_nan [] node = λ s h. cc
    first_duration-is_nan (key ∷ keys) node =
        or_option-is_nan (Options.parse_found py (Options.lowered_get py key node))
          (Options.first_duration py keys node)
          (parse_found-is_nan (Options.lowered_get py key node)) (first_duration-is_nan keys node)

    node_option-AllPositive :
        (index : Option (Json F)) (d : Option F)
        → IsNumber d
        → AllPositive (Options.node_option py index d)
    unfolding Options.node_option
    node_option-AllPositive none d h = nil-AllPositive
    node_option-AllPositive (some index) d h = option_of-AllPositive (py.int_of index) d h

    own_option-AllPositive : (node : Fields F) → AllPositive (Options.own_option py node)
    unfolding Options.own_option Options.extract_duration
    own_option-AllPositive node =
        node_option-AllPositive (Options.lowered_get py (codes "index") node)
          (Options.first_duration py Options.duration_keys node)
          (first_duration-is_nan Options.duration_keys node)

    mutual
      unfolding Options.discover_options

      discover_options-AllPositive : (v : Json F) → AllPositive (Options.discover_options py v)
      discover_options-AllPositive (object node) =
          append-AllPositive (Options.own_option py node) (Options.discover_fields py node)
            (own_option-AllPositive node) (discover_fields-AllPositive node)
      discover_options-AllPositive (array items) = discover_items-AllPositive items
      discover_options-AllPositive null = nil-AllPositive
      discover_options-AllPositive (boolean b) = nil-AllPositive
      discover_options-AllPositive (int z) = nil-AllPositive
      discover_options-AllPositive (float f) = nil-AllPositive
      discover_options-AllPositive (text t) = nil-AllPositive

      discover_items-AllPositive : (xs : Items F) → AllPositive (Options.discover_items py xs)
      discover_items-AllPositive nil = nil-AllPositive
      discover_items-AllPositive (cons x xs) =
          append-AllPositive (Options.discover_options py x) (Options.discover_items py xs)
            (discover_options-AllPositive x) (discover_items-AllPositive xs)

      discover_fields-AllPositive : (fs : Fields F) → AllPositive (Options.discover_fields py fs)
      discover_fields-AllPositive end = nil-AllPositive
      discover_fields-AllPositive (field k v fs) =
          append-AllPositive (Options.discover_options py v) (Options.discover_fields py fs)
            (discover_options-AllPositive v) (discover_fields-AllPositive fs)

    pub config_options-AllPositive :
        (config : Json F) → AllPositive (Options.config_options py config)
    unfolding Options.config_options Options.extract_camera_options
    config_options-AllPositive config =
        or_list-AllPositive (Options.extract_camera_options py config)
          (Options.discover_options py config)
          (select_options-AllPositive
            (Options.items_of py (Options.cameras_of py (Options.inner_config py config))) []
            nil-AllPositive)
          (discover_options-AllPositive config)
