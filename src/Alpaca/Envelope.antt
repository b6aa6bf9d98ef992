-- ===== src/Alpaca/Envelope.antt =====
-- The response envelope and the transaction ids of src/dwarf_alpaca/devices/utils.py. `int` of a text is
-- a parameter; `V` is the type of the values. A lock makes each id one step.
use dwarf_alp.Prelude.{ℕ, ◌+◌, ◌%◌, Option, none, some, List, ltb, if◌then◌else◌}
use dwarf_alp.Prelude.Int.{ℤ, pos, negsuc}

abbrev pub Text : Type 0
Text = List ℕ

-- `_UINT32_MAX`
abbrev pub uint32_max : ℕ
uint32_max = 4294967295

-- A counter is the number that it gives next. Beside the new counter, the id.
unfoldable pub next_server_transaction_id : ℕ → ℕ × ℕ
next_server_transaction_id counter =
    if ltb uint32_max counter then (1, 2) else (counter, counter + 1)

-- What the envelope reads of the request: the query parameters of its two ids.
pub record Query : Type 0 where
  pub client_transaction_id : Option Text
  pub client_id : Option Text

-- `value & _UINT32_MAX` for a number that is not negative.
abbrev pub mask_uint32 : ℕ → ℕ
mask_uint32 value = value % (uint32_max + 1)

abbrev pub masked : Option ℤ → Option ℕ
masked none = none
masked (some (negsuc n)) = none
masked (some (pos n)) = some (mask_uint32 n)

-- `_extract_uint32_from_request` for the text that the request gives.
unfoldable pub extract_uint32 : (Text → Option ℤ) → Option Text → Option ℕ
extract_uint32 parse_int none = none
extract_uint32 parse_int (some raw) = masked (parse_int raw)

pub record Payload (V : Type 0) : Type 0 where
  pub client_transaction_id : ℕ
  pub server_transaction_id : ℕ
  pub error_number : ℕ
  pub error_message : Text
  pub client_id : Option ℕ
  pub value : Option V

abbrev pub query_text : (Query → Option Text) → Option Query → Option Text
query_text field none = none
query_text field (some query) = field query

abbrev pub or_zero : Option ℕ → ℕ
or_zero none = 0
or_zero (some n) = n

-- `alpaca_response` without ids of its own; beside the payload, the counter.
unfoldable pub alpaca_response :
    {V : Type 0} → (Text → Option ℤ) → Option Query → ℕ → Text → Option V → ℕ → Payload V × ℕ
unfolding extract_uint32 next_server_transaction_id
alpaca_response parse_int request error_number error_message value counter =
    let (id, next) = next_server_transaction_id counter in
    let client =
      extract_uint32 parse_int (query_text (λ (q : Query). q.client_transaction_id) request) in
    (
      record {
        client_transaction_id = or_zero client;
        server_transaction_id = id;
        error_number = error_number;
        error_message = error_message;
        client_id = extract_uint32 parse_int (query_text (λ (q : Query). q.client_id) request);
        value = value;
      },
      next,
    )
