-- ===== src/Wire/Fields/Message.antt =====
-- The wire format of protobuf, which `_decode_com_res_with_int_value` and
-- `_length_delimited_field` of src/dwarf_alpaca/dwarf/session.py read without a schema: a message is
-- the concatenation of its encoded fields.
use dwarf_alp.Prelude.{
  ℕ, ◌+◌, ◌*◌, ◌^◌, ◌<◌, ◌≡◌, ap, ◌∙◌, List, [], ◌∷◌, ◌++◌, some, arith, length, length-append,
  length-drop, drop, drop_behind, false, ltb,
}
use mathlib.Core.List.{append_assoc}
use dwarf_alp.Wire.Varint.{read_varint}
use dwarf_alp.Wire.Varint.Encode.{encode_varint, read_varint-encode, encode_varint-pos}

-- A field by its wire type: number and value.
pub data Field : Type 0 where
  varint : ℕ → ℕ → Field
  fixed64 blob fixed32 : ℕ → List ℕ → Field

abbrev pub key : Field → ℕ
key (varint n v) = n * 8
key (fixed64 n b) = n * 8 + 1
key (blob n b) = n * 8 + 2
key (fixed32 n b) = n * 8 + 5

abbrev pub contents : Field → List ℕ
contents (varint n v) = encode_varint v
contents (fixed64 n b) = b
contents (blob n b) = encode_varint (length b) ++ b
contents (fixed32 n b) = b

abbrev pub encode_field : Field → List ℕ
encode_field f = encode_varint (key f) ++ contents f

abbrev pub encode_message : List Field → List ℕ
encode_message [] = []
encode_message (f ∷ fs) = encode_field f ++ encode_message fs

-- Protobuf's bounds: field numbers of 29 bits, values and lengths of 64 bits.
abbrev pub IsField : Field → Type 0
IsField (varint n v) = (n < 2 ^ 29) × (v < 2 ^ 64)
IsField (fixed64 n b) = (n < 2 ^ 29) × (length b ≡ 8)
IsField (blob n b) = (n < 2 ^ 29) × (length b < 2 ^ 64)
IsField (fixed32 n b) = (n < 2 ^ 29) × (length b ≡ 4)

abbrev pub IsMessage : List Field → Type 0
IsMessage [] = Unit
IsMessage (f ∷ fs) = IsField f × IsMessage fs

pub key_bound : (f : Field) → IsField f → key f < 2 ^ 70
key_bound (varint n v) h = omega arith
key_bound (fixed64 n b) h = omega arith
key_bound (blob n b) h = omega arith
key_bound (fixed32 n b) h = omega arith

-- Where the field `f` stands at index `i` of `raw`.
module _ (raw rest : List ℕ) (i : ℕ) (f : Field) (here : drop i raw ≡ encode_field f ++ rest) where
  unfoldable pub key_end : ℕ
  key_end = i + length (encode_varint (key f))

  pub drop-key : drop i raw ≡ encode_varint (key f) ++ (contents f ++ rest)
  drop-key = here ∙ append_assoc (encode_varint (key f)) (contents f) rest

  pub read-key : IsField f → read_varint raw i ≡ some (key f, key_end)
  unfolding key_end
  read-key h = read_varint-encode (key f) i raw (contents f ++ rest) (key_bound f h) drop-key

  pub drop-key_end : drop key_end raw ≡ contents f ++ rest
  unfolding key_end
  drop-key_end = drop_behind i raw (encode_varint (key f)) (contents f ++ rest) drop-key

  pub lt-length : i < length raw
  lt-length = omega (
    arith,
    length-drop i raw,
    ap length drop-key,
    length-append (encode_varint (key f)) (contents f ++ rest),
    encode_varint-pos (key f),
  )

-- Reading the length in front of a length-delimited value.
pub blob_read :
    (n : ℕ) (b raw rest : List ℕ) (i : ℕ)
    → IsField (blob n b)
    → drop i raw ≡ contents (blob n b) ++ rest
    → read_varint raw i ≡ some (length b, i + length (encode_varint (length b)))
blob_read n b raw rest i h e =
    read_varint-encode (length b) i raw (b ++ rest) (omega arith)
      (e ∙ append_assoc (encode_varint (length b)) b rest)

-- Behind the last field the index has reached the end.
pub ltb-end : (i : ℕ) (raw : List ℕ) → drop i raw ≡ [] → ltb i (length raw) ≡ false
ltb-end i raw e = ground (arith, length-drop i raw, ap length e)

pub field_pos : (f : Field) → 0 < length (encode_field f)
field_pos f =
    omega (arith, length-append (encode_varint (key f)) (contents f), encode_varint-pos (key f))
