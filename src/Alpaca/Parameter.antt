-- ===== src/Alpaca/Parameter.antt =====
-- `resolve_parameter` and `_cast` of src/dwarf_alpaca/devices/utils.py for a Boolean parameter. The
-- parsing of a body is a parameter, and so is `value.strip().lower()`.
use dwarf_alp.Prelude.{
  ◌≡◌, Bool, true, false, not, ◌||◌, Option, none, some, List, [], ◌∷◌, arith, if◌then◌else◌,
}
use dwarf_alp.Exposure.Json.{Text, codes, text_eq}

-- A value of a body; `other` has only its truth.
pub data Value : Type 0 where
  text : Text → Value
  boolean : Bool → Value
  other : Bool → Value

-- A request's body under the parameter's name: what its content type says, and the value that a
-- JSON object and a form have there.
pub record Body : Type 0 where
  pub is_json : Bool
  pub is_form : Bool
  pub json_value : Option Value
  pub form_value : Option Value

-- The parameter, or the HTTP error 400.
pub data Resolved : Type 0 where
  found : Bool → Resolved
  missing : Resolved

abbrev pub says_true : Text → Bool
says_true t =
    text_eq t (codes "true")
    || text_eq t (codes "1")
    || text_eq t (codes "yes")
    || text_eq t (codes "on")

abbrev pub says_false : Text → Bool
says_false t =
    text_eq t (codes "false")
    || text_eq t (codes "0")
    || text_eq t (codes "no")
    || text_eq t (codes "off")

abbrev pub is_empty : Text → Bool
is_empty [] = true
is_empty (c ∷ rest) = false

module _ (strip_lower : Text → Text) where
  -- `_cast(value, bool)`
  unfoldable pub cast_bool : Value → Bool
  cast_bool (boolean b) = b
  cast_bool (other truth) = truth
  cast_bool (text t) =
      let lowered = strip_lower t in
      if says_true lowered then true else if says_false lowered then false else not (is_empty t)

  -- Behind the values of the query.
  unfoldable pub resolve_form : Body → Resolved
  unfolding cast_bool
  resolve_form body =
      if body.is_form
      then elim body.form_value [ none ↦ missing | some v ↦ found (cast_bool v) ]
      else missing

  unfoldable pub resolve_body : Body → Resolved
  unfolding cast_bool resolve_form
  resolve_body body =
      if body.is_json
      then elim body.json_value [ none ↦ resolve_form body | some v ↦ found (cast_bool v) ]
      else resolve_form body

  unfoldable pub resolve_parameter : List (Option Bool) → Body → Resolved
  unfolding resolve_body
  resolve_parameter [] body = resolve_body body
  resolve_parameter (some b ∷ rest) body = found b
  resolve_parameter (none ∷ rest) body = resolve_parameter rest body

  -- A JSON parameter with a text is never refused: where the query gives no value and the text,
  -- stripped and in small letters, is none of the four words for true, it stands for false exactly when
  -- it is one of the four words for false or empty; every other text, a misspelt word included, stands
  -- for true.
  pub text_parameter :
      (t : Text) (body : Body)
      → body.is_json ≡ true
      → body.json_value ≡ some (text t)
      → says_true (strip_lower t) ≡ false
      → resolve_parameter (none ∷ []) body ≡ found (not (says_false (strip_lower t) || is_empty t))
  unfolding resolve_parameter resolve_body cast_bool
  text_parameter t body json value untrue = ground arith
