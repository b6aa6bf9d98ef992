-- ===== src/Exposure/Duration.antt =====
-- `_parse_duration` of src/dwarf_alpaca/dwarf/exposure.py with its two regular expressions.
use dwarf_alp.Prelude.{
  ℕ, ◌-◌, Bool, true, false, ◌&&◌, ◌||◌, Option, none, some, [], ◌∷◌, ◌++◌, ◌==◌, leb, length, take,
  drop, if◌then◌else◌,
}
use dwarf_alp.Prelude.Int.{pos}
use dwarf_alp.Exposure.Json.{
  Text, Json, null, boolean, int, float, text, array, object, codes, text_eq,
}
use dwarf_alp.Exposure.Floats.{Python, le}

abbrev pub is_empty : Text → Bool
is_empty [] = true
is_empty (c ∷ rest) = false

abbrev pub ends_with : Text → Text → Bool
ends_with suffix t =
    leb (length suffix) (length t) && text_eq (drop (length t - length suffix) t) suffix

abbrev pub any : (ℕ → Bool) → Text → Bool
any p [] = false
any p (c ∷ rest) = p c || any p rest

-- The longest prefix whose characters pass, and the rest.
abbrev pub span : (ℕ → Bool) → Text → Text × Text
span p [] = ([], [])
span p (c ∷ rest) =
    let (taken, left) = span p rest in if p c then (c ∷ taken, left) else ([], c ∷ rest)

-- `[0-9]`
abbrev pub is_ascii_digit : ℕ → Bool
is_ascii_digit c = leb b'0' c && leb c b'9'

-- `\.[0-9]+` at the start: what it matches.
abbrev pub decimals : Text → Text
decimals [] = []
decimals (c ∷ rest) =
    let digits = (span is_ascii_digit rest).0 in
    if c == b'.' && leb 1 (length digits) then c ∷ digits else []

module _ {F : Type 0} (py : Python F) where
  -- Behind a slash: spaces and a group of digits.
  abbrev pub denominator_of : Text → Option ℕ
  denominator_of [] = none
  denominator_of (c ∷ rest) =
      let digits = (span py.is_digit (span py.is_space rest).1).0 in
      if c == b'/' && leb 1 (length digits) then some (py.digits_value digits) else none

  -- `_FRACTION_RE`, whose character classes do not overlap.
  unfoldable pub match_fraction : Text → Option (ℕ × ℕ)
  match_fraction candidate =
      let (digits, rest) = span py.is_digit (span py.is_space candidate).1 in
      elim (denominator_of (span py.is_space rest).1) [
        | none ↦ none
        | some denominator ↦
            if is_empty digits then none else some (py.digits_value digits, denominator)
      ]

  -- `_FLOAT_RE`, the longest match.
  unfoldable pub match_float : Text → Option Text
  match_float candidate =
      let (digits, rest) = span is_ascii_digit (span py.is_space candidate).1 in
      let matched = digits ++ decimals rest in if is_empty matched then none else some matched

  -- `if seconds <= 0 or math.isnan(seconds): return None`
  unfoldable pub positive_number : F → Option F
  positive_number seconds =
      if le py seconds py.float_zero || py.is_nan seconds then none else some seconds

  -- What is left of the text in front of its unit, and the multiplier of the unit.
  unfoldable pub split_unit : Text → Text × F
  split_unit candidate =
      if ends_with (codes "ms") candidate
      then (take (length candidate - 2) candidate, py.milli)
      else if ends_with (codes "s") candidate
      then (take (length candidate - 1) candidate, py.one)
      else (candidate, py.one)

  unfoldable pub remove_units : Text → Text
  remove_units candidate = py.strip (
      py.remove (codes "\"") (
        py.remove (0x2033 ∷ []) (
          py.remove (codes "sec")
            (py.remove (codes "second") (py.remove (codes "seconds") candidate)))))

  -- The numbers that the regular expressions find.
  unfoldable pub parse_number : Text → F → Option F
  unfolding match_fraction match_float positive_number
  parse_number candidate multiplier = elim (match_fraction candidate) [
    | some (numerator, denominator) ↦
        if denominator == 0 then none else some (py.mul (py.ratio numerator denominator) multiplier)
    | none ↦ elim (match_float candidate) [
      | none ↦ none
      | some matched ↦ positive_number (py.mul (py.float_of_text matched) multiplier)
    ]
  ]

  unfoldable pub parse_text : Text → Option F
  unfolding split_unit remove_units parse_number
  parse_text value =
      let candidate = py.lower (py.strip value) in
      let (number, multiplier) = split_unit candidate in
      let number' = remove_units number in
      if is_empty candidate
      then none
      else if any py.is_alpha number'
      then none
      else if is_empty number'
      then none
      else parse_number number' multiplier

  unfoldable pub parse_duration : Json F → Option F
  unfolding positive_number parse_text
  parse_duration null = none
  parse_duration (boolean true) = positive_number (py.of_int (pos 1))
  parse_duration (boolean false) = positive_number (py.of_int (pos 0))
  parse_duration (int z) = positive_number (py.of_int z)
  parse_duration (float f) = positive_number f
  parse_duration (text t) = parse_text t
  parse_duration (array xs) = none
  parse_duration (object fs) = none
