-- ===== src/Alpaca/Tests.antt =====
-- Responses and parameters, and instances of their theorems.
use dwarf_alp.Prelude.{
  refl, ◌≡◌, ◌≤◌, ◌%◌, ◌+◌, true, false, ◌-◌, ◌&&◌, leb, if◌then◌else◌, Option, none, some, [], ◌∷◌,
}
use dwarf_alp.Prelude.Int.{ℤ, pos}
use dwarf_alp.Exposure.Json.{codes}
use dwarf_alp.Alpaca.Envelope.{Text, Query, alpaca_response, or_zero}
use dwarf_alp.Alpaca.Ids.{counter_after, response_ids}
use dwarf_alp.Alpaca.Parameter.{text, Body, found, resolve_parameter}

-- A text of one digit.
abbrev parse_digit : Text → Option ℤ
parse_digit [] = none
parse_digit (c ∷ rest) = if leb 48 c && leb c 57 then some (pos (c - 48)) else none

abbrev request : Query
request = record { client_transaction_id = some (49 ∷ []); client_id = none }

response_ids_example :
    let payload =
      (alpaca_response parse_digit (some request) 0 [] (some true) (counter_after 2)).0 in
    (payload.server_transaction_id ≡ 2 % 4294967295 + 1)
    × (payload.client_transaction_id ≤ 4294967295)
    × (or_zero payload.client_id ≤ 4294967295)
response_ids_example = response_ids parse_digit (some request) 0 [] (some true) 2

-- A misspelt word for false.
abbrev misspelt : Body
misspelt = record {
  is_json = true;
  is_form = false;
  json_value = some (text (codes "flase"));
  form_value = none;
}

misspelt_is_true : resolve_parameter (λ t. t) (none ∷ []) misspelt ≡ found true
unfolding resolve_parameter
misspelt_is_true = refl
