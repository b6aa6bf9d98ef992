-- ===== src/Alpaca/Ids.antt =====
-- The sequence of ids that src/dwarf_alpaca/devices/utils.py gives its responses.
use dwarf_alp.Prelude.{
  ℕ, zero, suc, ◌+◌, ◌-◌, ◌%◌, ◌≤◌, ◌≡◌, Option, none, some, arith, ltb, tests, ltb→lt, Bool-cases,
  inl, inr,
}
use dwarf_alp.Prelude.Int.{ℤ, pos, negsuc}
use dwarf_alp.Alpaca.Envelope.{
  Text, uint32_max, next_server_transaction_id, Query, masked, extract_uint32, query_text, or_zero,
  alpaca_response,
}

-- The counter after a number of responses.
unfoldable pub counter_after : ℕ → ℕ
counter_after zero = 1
counter_after (suc n) = (next_server_transaction_id (counter_after n)).1

next_lem :
    (c n : ℕ)
    → 1 ≤ c
    → c ≤ 4294967296
    → (c - 1) % 4294967295 ≡ n % 4294967295
    → ((next_server_transaction_id c).0 ≡ n % 4294967295 + 1)
      × ((next_server_transaction_id c).1 ≡ n % 4294967295 + 2)
unfolding next_server_transaction_id
next_lem c n low high same = elim (Bool-cases (ltb uint32_max c)) [
  | inl q ↦ rw q (omega (tests, ltb→lt _ _ q), omega (tests, ltb→lt _ _ q))
  | inr q ↦ let below : c ≤ 4294967295 = ground arith in rw q (omega arith, omega arith)
]

-- Where the counter stands.
counter_lem :
    (n : ℕ)
    → (1 ≤ counter_after n)
      × (counter_after n ≤ 4294967296)
      × ((counter_after n - 1) % 4294967295 ≡ n % 4294967295)
unfolding counter_after
counter_lem zero = (omega arith, omega arith, omega arith)
counter_lem (suc n) =
    let (low, high, same) = counter_lem n in
    let (_, next) = next_lem (counter_after n) n low high same in
    (omega (arith, next), omega (arith, next), omega (arith, next))

masked_bound : (o : Option ℤ) → or_zero (masked o) ≤ 4294967295
masked_bound none = omega arith
masked_bound (some (negsuc n)) = omega arith
masked_bound (some (pos n)) = omega arith

extract_bound :
    (parse_int : Text → Option ℤ) (raw : Option Text)
    → or_zero (extract_uint32 parse_int raw) ≤ 4294967295
unfolding extract_uint32
extract_bound parse_int none = omega arith
extract_bound parse_int (some raw) = masked_bound (parse_int raw)

-- The response after `n` earlier ones has the server's id `n % (2 ^ 32 - 1) + 1`: the ids count up from
-- 1, begin again at 1 behind the largest 32-bit number, and are never 0. The two ids of the client are
-- 32-bit numbers too, whatever texts the request gives for them and whatever numbers these stand for.
pub response_ids :
    {V : Type 0} (parse_int : Text → Option ℤ) (request : Option Query) (error_number : ℕ)
    (error_message : Text) (value : Option V) (n : ℕ)
    → let payload =
        (alpaca_response parse_int request error_number error_message value (counter_after n)).0 in
      (payload.server_transaction_id ≡ n % 4294967295 + 1)
      × (payload.client_transaction_id ≤ 4294967295)
      × (or_zero payload.client_id ≤ 4294967295)
unfolding alpaca_response
response_ids parse_int request error_number error_message value n =
    let (low, high, same) = counter_lem n in
    (
      (next_lem (counter_after n) n low high same).0,
      extract_bound parse_int (query_text (λ (q : Query). q.client_transaction_id) request),
      extract_bound parse_int (query_text (λ (q : Query). q.client_id) request),
    )
