-- ===== src/Wire/Tests.antt =====
-- Runs of the wire readers and instances of their theorems.
use dwarf_alp.Prelude.{◌≡◌, refl, List, [], ◌∷◌, Option, some, none, arith}
use dwarf_alp.Prelude.Int.{ℤ, pos}
use dwarf_alp.Wire.Varint.{read_varint}
use dwarf_alp.Wire.Varint.Encode.{encode_varint}
use dwarf_alp.Wire.Fields.{done, decode_com_res_with_int_value, length_delimited_field}
use dwarf_alp.Wire.Fields.Total.{decode_com_res-total}
use dwarf_alp.Wire.Fields.Message.{Field, varint, fixed64, blob, fixed32, encode_message, IsMessage}
use dwarf_alp.Wire.Fields.Integer.{ReadsFirst, decode_com_res-message}
use dwarf_alp.Wire.Fields.Blob.{length_delimited_field-message}

-- 150, preceded by a byte of something else.
reads_150 : read_varint (255 ∷ 150 ∷ 1 ∷ 7 ∷ []) 1 ≡ some (150, 3)
unfolding read_varint
reads_150 = refl

abbrev message : List Field
message =
    varint 2 7
    ∷ fixed64 3 (1 ∷ 2 ∷ 3 ∷ 4 ∷ 5 ∷ 6 ∷ 7 ∷ 8 ∷ [])
    ∷ blob 4 (1 ∷ 2 ∷ [])
    ∷ fixed32 5 (1 ∷ 2 ∷ 3 ∷ 4 ∷ [])
    ∷ varint 1 300
    ∷ []

message-IsMessage : IsMessage message
message-IsMessage = (
  (omega arith, omega arith),
  (
    (omega arith, refl),
    ((omega arith, omega arith), ((omega arith, refl), ((omega arith, omega arith), tt))),
  ),
)

reads_message : decode_com_res_with_int_value (encode_message message) ≡ done (some (pos 300))
unfolding decode_com_res_with_int_value encode_varint
reads_message = refl

cut_short : decode_com_res_with_int_value (8 ∷ 172 ∷ []) ≡ done none
unfolding decode_com_res_with_int_value
cut_short = refl

decode_com_res-total_example :
    (r : Option ℤ) × (decode_com_res_with_int_value (8 ∷ 172 ∷ []) ≡ done r)
decode_com_res-total_example = decode_com_res-total (8 ∷ 172 ∷ [])

decode_com_res-message_example :
    (o : Option ℤ) × (decode_com_res_with_int_value (encode_message message) ≡ done o)
    × ReadsFirst message o
decode_com_res-message_example = decode_com_res-message message message-IsMessage

length_delimited_field-message_example :
    length_delimited_field (encode_message message) 4 ≡ done (some (1 ∷ 2 ∷ []))
length_delimited_field-message_example = length_delimited_field-message 4 message message-IsMessage
