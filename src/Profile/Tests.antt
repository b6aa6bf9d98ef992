-- ===== src/Profile/Tests.antt =====
-- Runs of the profile lookup.
use dwarf_alp.Prelude.{◌≡◌, refl, Option, none, some}
use Prim.Native.String.{String}
use dwarf_alp.Profile.{get_device_profile}

-- For names that are collapsed already.
abbrev as_given : Option String → String
as_given none = ""
as_given (some name) = name

abbrev no_spaces : String → String
no_spaces name = name

mini : (get_device_profile as_given (some "mini")).display_name ≡ "DWARF mini"
unfolding get_device_profile
mini = refl
