-- ===== src/Ble/Frame/Safety.antt =====
-- What `parse_notification` of src/dwarf_alpaca/dwarf/ble_packets.py does not raise.
use dwarf_alp.Prelude.{
  ℕ, ◌-◌, ◌≢◌, List, Option, arith, length, ltb, Bool-cases, inl, inr, get_elem?-in_range,
}
use dwarf_alp.Ble.Frame.{err, index_error, MessageType, parse_notification}

module _ {M : Type 0} (parse : MessageType → List ℕ → Option M) where
  -- Whatever the bytes, no index is out of range.
  pub parse_no_index_error : (bytes : List ℕ) → parse_notification parse bytes ≢ err index_error
  unfolding parse_notification
  parse_no_index_error bytes h = elim (Bool-cases (ltb (length bytes) 12)) [
    | inl short ↦ ground arith
    | inr long ↦
        let (a, ea) = get_elem?-in_range bytes 0 (ground arith) in
        let (b, eb) = get_elem?-in_range bytes (length bytes - 1) (ground arith) in
        let (c, ec) = get_elem?-in_range bytes 2 (ground arith) in ground arith
  ]
