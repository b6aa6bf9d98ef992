-- ===== src/Exposure/Millis.antt =====
-- Python's numbers and strings for runs: a duration is a number of milliseconds.
use dwarf_alp.Prelude.{
  Bool, ℕ, zero, suc, ◌+◌, ◌-◌, ◌*◌, ◌/◌, ◌^◌, refl, false, ◌&&◌, Option, none, some, [], ◌∷◌, ◌++◌,
  map, ltb, leb, ◌==◌, if◌then◌else◌, length, drop, take,
}
use dwarf_alp.Prelude.Int.{ℤ, pos, negsuc}
use dwarf_alp.Exposure.Json.{Text, Json, boolean, int, float, codes, text_eq}
use dwarf_alp.Exposure.Floats.{Python, Ordered}
use dwarf_alp.Exposure.Duration.{span, is_ascii_digit}

abbrev pub digits_from : ℕ → Text → ℕ
digits_from n [] = n
digits_from n (c ∷ rest) = digits_from (n * 10 + (c - b'0')) rest

abbrev pub decimal : Text → ℕ
decimal t =
    let (whole, rest) = span is_ascii_digit t in
    digits_from 0 whole * 1000 + digits_from 0 (take 3 (drop 1 rest ++ codes "000"))

abbrev pub strip_left : Text → Text
strip_left t = (span (λ c. c == b' ') t).1

abbrev pub remove_all : ℕ → Text → Text → Text
remove_all zero part t = t
remove_all (suc n) part t =
    let rest = remove_all n part (drop 1 t) in
    let behind = remove_all n part (drop (length part) t) in
    if text_eq (take (length part) t) part then behind else take 1 t ++ rest

abbrev pub lower_code : ℕ → ℕ
lower_code c = if leb b'A' c && leb c b'Z' then c + 32 else c

abbrev pub int_of : Json ℕ → Option ℤ
int_of (int z) = some z
int_of (boolean b) = some (pos (if b then 1 else 0))
int_of (float f) = some (pos (f / 1000))
int_of _ = none

abbrev pub whole : ℤ → ℕ
whole (pos n) = n * 1000
whole (negsuc n) = 0

-- Beyond 2 ^ 1024 on either side.
abbrev pub exceeds : ℤ → Bool
exceeds (pos n) = leb (2 ^ 1024) n
exceeds (negsuc n) = leb (2 ^ 1024) (n + 1)

abbrev pub millis : Python ℕ
millis = record {
  float_zero = 0;
  one = 1000;
  milli = 1;
  is_nan = λ f. false;
  lt = ltb;
  eq = ◌==◌;
  of_int = whole;
  is_large = exceeds;
  ratio = λ n d. n * 1000 / d;
  mul = λ a b. a * b / 1000;
  abs_sub = λ a b. (a - b) + (b - a);
  strip = strip_left;
  lower = map lower_code;
  remove = λ part t. remove_all 4 part t;
  is_alpha = λ c. leb b'a' c && leb c b'z';
  is_digit = is_ascii_digit;
  is_space = λ c. c == b' ';
  digits_value = digits_from 0;
  float_of_text = decimal;
  int_of = int_of;
  str = λ v. [];
}

pub millis-Ordered : Ordered millis
millis-Ordered = record {
  rank = λ f. f;
  lt_rank = λ a b p q. refl;
  eq_rank = λ a b p q. refl;
  ratio_one = λ n d p. refl;
  ratio_milli = λ n d p. refl;
  zero_number = refl;
}
