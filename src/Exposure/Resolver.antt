-- ===== src/Exposure/Resolver.antt =====
-- `ExposureResolver` of src/dwarf_alpaca/dwarf/exposure.py: the table made from a configuration and
-- the choice of the nearest option.
use dwarf_alp.Prelude.{Bool, false, Option, none, some, List, [], ◌∷◌, ◌==◌, if◌then◌else◌, map}
use dwarf_alp.Prelude.Int.{ℤ, pos, negsuc}
use dwarf_alp.Exposure.Json.{Json}
use dwarf_alp.Exposure.Floats.{Python, le}
use dwarf_alp.Exposure.Options.{ExposureOption, config_options}

abbrev pub eq_ℤ : ℤ → ℤ → Bool
eq_ℤ (pos a) (pos b) = a == b
eq_ℤ (pos a) (negsuc b) = false
eq_ℤ (negsuc a) (pos b) = false
eq_ℤ (negsuc a) (negsuc b) = a == b

module _ {F : Type 0} (py : Python F) where
  -- One round of the loop over `options`, on the entries of `dedup` in their order.
  unfoldable pub add_option : ExposureOption F → List (ExposureOption F) → List (ExposureOption F)
  add_option option [] = option ∷ []
  add_option option (existing ∷ rest) =
      if eq_ℤ existing.index option.index
      then (if py.lt option.seconds existing.seconds then option else existing) ∷ rest
      else existing ∷ add_option option rest

  unfoldable pub add_options :
      List (ExposureOption F) → List (ExposureOption F) → List (ExposureOption F)
  unfolding add_option
  add_options [] dedup = dedup
  add_options (option ∷ rest) dedup = add_options rest (add_option option dedup)

  -- `sorted(..., key=lambda entry: entry.seconds)`, which keeps the order of equal entries.
  unfoldable pub insert : ExposureOption F → List (ExposureOption F) → List (ExposureOption F)
  insert entry [] = entry ∷ []
  insert entry (first ∷ rest) =
      if py.lt first.seconds entry.seconds then first ∷ insert entry rest else entry ∷ first ∷ rest

  unfoldable pub sorted : List (ExposureOption F) → List (ExposureOption F)
  unfolding insert
  sorted [] = []
  sorted (entry ∷ rest) = insert entry (sorted rest)

  -- The options of the resolver, or `None`.
  unfoldable pub from_config : Json F → Option (List (ExposureOption F))
  unfolding sorted add_options
  from_config config = elim (sorted (add_options (config_options py config) [])) [
    | [] ↦ none
    | first ∷ rest ↦ some (first ∷ rest)
  ]

  -- `key(a) < key(b)` for the key `(abs(opt.seconds - target), opt.seconds)`
  unfoldable pub nearer : F → ExposureOption F → ExposureOption F → Bool
  nearer target a b =
      let at = py.abs_sub a.seconds target in
      let bt = py.abs_sub b.seconds target in
      if py.eq at bt then py.lt a.seconds b.seconds else py.lt at bt

  -- `min`: the first of the smallest.
  unfoldable pub nearest : F → ExposureOption F → List (ExposureOption F) → ExposureOption F
  unfolding nearer
  nearest target best [] = best
  nearest target best (option ∷ rest) =
      nearest target (if nearer target option best then option else best) rest

  unfoldable pub choose_option : List (ExposureOption F) → F → Option (ExposureOption F)
  unfolding nearest
  choose_option [] duration = none
  choose_option (option ∷ rest) duration =
      if le py duration py.float_zero then none else some (nearest duration option rest)

  unfoldable pub choose_index : List (ExposureOption F) → F → Option ℤ
  unfolding choose_option
  choose_index options duration = elim (choose_option options duration) [
    | none ↦ none
    | some option ↦ some option.index
  ]

  unfoldable pub available_durations : List (ExposureOption F) → List F
  available_durations options = map (λ (o : ExposureOption F). o.seconds) options
