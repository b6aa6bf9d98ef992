-- ===== src/Exposure/Tests.antt =====
-- Runs of the exposure tables and instances of their theorems. A duration is a number of
-- milliseconds.
use dwarf_alp.Prelude.{ℕ, ◌≡◌, refl, some, List, [], ◌∷◌, map}
use mathlib.Core.List.{cons≢nil}
use dwarf_alp.Prelude.Int.{pos}
use dwarf_alp.Exposure.Json.{
  Text, Json, int, text, array, object, nil, cons, end, field, codes, get,
}
use dwarf_alp.Exposure.Duration.{parse_duration}
use dwarf_alp.Exposure.Options.{ExposureOption, config_options}
use dwarf_alp.Exposure.Resolver.{from_config, choose_option, choose_index}
use dwarf_alp.Exposure.Table.{from_config-Resolved, Resolved}
use dwarf_alp.Exposure.Choice.{choose_option-IsNearest, IsNearest}
use mathlib.Core.List.{Memᴰ}
use dwarf_alp.Exposure.Millis.{millis, millis-Ordered}

abbrev entry : ℕ → Text → Json ℕ
entry index label =
    object (field (codes "index") (int (pos index)) (field (codes "name") (text label) end))

abbrev exposure : Json ℕ
exposure = object (
    field (codes "name") (text (codes "Exposure")) (
      field (codes "gearMode")
        (object (
          field (codes "values")
            (array (
              cons (entry 3 (codes "1/2"))
                (cons (entry 5 (codes "10s")) (cons (entry 3 (codes "1/4")) nil))))
            end))
        end))

abbrev config : Json ℕ
config = object (
    field (codes "cameras")
      (array (
        cons
          (object (
            field (codes "id") (int (pos 0))
              (field (codes "supportParams") (array (cons exposure nil)) end)))
          nil))
      end)

abbrev table : List (ExposureOption ℕ)
table = record { index = pos 3; seconds = 250 } ∷ record { index = pos 5; seconds = 10000 } ∷ []

parse_fraction : parse_duration millis (text (codes "1/4")) ≡ some 250
unfolding parse_duration
parse_fraction = refl

config_options-config :
    map (λ (o : ExposureOption ℕ). o.seconds) (config_options millis config)
    ≡ 500 ∷ 10000 ∷ 250 ∷ []
unfolding config_options get
config_options-config = refl

from_config-config : from_config millis config ≡ some table
unfolding from_config config_options get
from_config-config = refl

choose_index-table : choose_index millis table 4000 ≡ some (pos 3)
unfolding choose_index
choose_index-table = refl

from_config-Resolved_example :
    Resolved millis (config_options millis config) (from_config millis config)
from_config-Resolved_example = from_config-Resolved millis millis-Ordered config

choose_option-IsNearest_example :
    (chosen : ExposureOption ℕ) × (choose_option millis table 4000 ≡ some chosen)
    × (choose_index millis table 4000 ≡ some chosen.index)
    × Memᴰ chosen table
    × IsNearest millis 4000 table chosen
choose_option-IsNearest_example =
    choose_option-IsNearest millis millis-Ordered table 4000 cons≢nil refl (λ p m. (refl, refl))
