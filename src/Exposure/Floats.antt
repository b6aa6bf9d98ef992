-- ===== src/Exposure/Floats.antt =====
-- What src/dwarf_alpaca/dwarf/exposure.py uses of Python: floating-point numbers, the methods of
-- strings, and `int` and `str` of any value. `is_large` tells for which integers `float` raises an
-- `OverflowError`; what the walk through a configuration does with these is left out.
use dwarf_alp.Prelude.{ℕ, ◌≡◌, Bool, false, ◌||◌, Option, ltb, ◌==◌}
use dwarf_alp.Prelude.Int.{ℤ}
use dwarf_alp.Exposure.Json.{Text, Json}

pub record Python (F : Type 0) : Type 0 where
  pub float_zero : F
  pub one : F
  pub milli : F
  pub is_nan : F → Bool
  pub lt : F → F → Bool
  pub eq : F → F → Bool
  pub of_int : ℤ → F
  pub is_large : ℤ → Bool
  pub ratio : ℕ → ℕ → F
  pub mul : F → F → F
  pub abs_sub : F → F → F
  pub strip : Text → Text
  pub lower : Text → Text
  pub remove : Text → Text → Text
  pub is_alpha : ℕ → Bool
  pub is_digit : ℕ → Bool
  pub is_space : ℕ → Bool
  pub digits_value : Text → ℕ
  pub float_of_text : Text → F
  pub int_of : Json F → Option ℤ
  pub str : Json F → Text

-- `a <= b`
abbrev pub le : {F : Type 0} → Python F → F → F → Bool
le py a b = py.lt a b || py.eq a b

-- Numbers that are not NaN are ordered, as their bit patterns are, and a quotient of two integers, which
-- Python makes finite or refuses, is not NaN once it is multiplied by 1.0 or 0.001.
pub record Ordered {F : Type 0} (py : Python F) : Type 0 where
  pub rank : F → ℕ
  pub lt_rank :
      (a b : F) → py.is_nan a ≡ false → py.is_nan b ≡ false → py.lt a b ≡ ltb (rank a) (rank b)
  pub eq_rank :
      (a b : F) → py.is_nan a ≡ false → py.is_nan b ≡ false → py.eq a b ≡ (rank a == rank b)
  pub ratio_one : (n d : ℕ) → (d == 0) ≡ false → py.is_nan (py.mul (py.ratio n d) py.one) ≡ false
  pub ratio_milli :
      (n d : ℕ) → (d == 0) ≡ false → py.is_nan (py.mul (py.ratio n d) py.milli) ≡ false
  pub zero_number : py.is_nan py.float_zero ≡ false
