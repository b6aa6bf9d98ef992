-- ===== src/Wire/Fields/Blob.antt =====
-- What `_length_delimited_field` of src/dwarf_alpaca/dwarf/session.py finds in a message.
use dwarf_alp.Prelude.{
  ℕ, zero, suc, ◌+◌, ◌-◌, ◌<◌, ◌≡◌, refl, ap, ◌∙◌, List, [], ◌∷◌, ◌++◌, Option, some, none, arith,
  length, length-append, length-drop, drop, drop_behind, take, take-append, ap₂, ltb, ◌==◌,
  if◌then◌else◌, true, lt→ltb,
}
use mathlib.Core.List.{append_assoc}
use dwarf_alp.Wire.Varint.Encode.{encode_varint, read_varint-encode, encode_varint-pos}
use dwarf_alp.Wire.Fields.{Loop, done, field_body, field_loop, length_delimited_field}
use dwarf_alp.Wire.Fields.Message.{
  Field, varint, fixed64, blob, fixed32, key, contents, encode_field, encode_message, IsField,
  IsMessage, key_end, read-key, drop-key_end, lt-length, blob_read, ltb-end, field_pos,
}

-- The bytes of the first length-delimited field with that number.
abbrev pub first_blob : ℕ → List Field → Option (List ℕ)
first_blob wanted [] = none
first_blob wanted (varint n v ∷ fs) = first_blob wanted fs
first_blob wanted (fixed64 n b ∷ fs) = first_blob wanted fs
first_blob wanted (blob n b ∷ fs) = if n == wanted then some b else first_blob wanted fs
first_blob wanted (fixed32 n b ∷ fs) = first_blob wanted fs

module _ (wanted : ℕ) where
  field_next : (ℕ → Loop (Option (List ℕ))) → Field → ℕ → Loop (Option (List ℕ))
  field_next next (varint n v) j = next j
  field_next next (fixed64 n b) j = next j
  field_next next (blob n b) j = if n == wanted then done (some b) else next j
  field_next next (fixed32 n b) j = next j

  field_body-field :
      (next : ℕ → Loop (Option (List ℕ))) (raw rest : List ℕ) (i : ℕ) (f : Field)
      → IsField f
      → drop i raw ≡ contents f ++ rest
      → field_body next raw wanted (key f) i ≡ field_next next f (i + length (contents f))
  unfolding field_body field_next
  field_body-field next raw rest i (varint n v) h e =
      ground (arith, read_varint-encode v i raw rest (omega arith) e)
  field_body-field next raw rest i (fixed64 n b) h e = ground (arith, h.1)
  field_body-field next raw rest i (blob n b) h e =
      let start : ℕ = i + length (encode_varint (length b)) in
      let at : drop start raw ≡ b ++ rest =
        drop_behind i raw (encode_varint (length b)) (b ++ rest)
          (e ∙ append_assoc (encode_varint (length b)) b rest) in
      let value : take (start + length b - start) (drop start raw) ≡ b =
        ap₂ take {x = start + length b - start} {y = length b} (omega arith) at
        ∙ take-append b rest in
      ground (
        arith,
        blob_read n b raw rest i h e,
        value,
        ap length at,
        ap length e,
        length-drop start raw,
        length-drop i raw,
        length-append b rest,
        length-append (encode_varint (length b)) b,
        length-append (encode_varint (length b) ++ b) rest,
        encode_varint-pos (length b),
      )
  field_body-field next raw rest i (fixed32 n b) h e = ground (arith, h.1)

  field_loop-field :
      (fuel : ℕ) (raw rest : List ℕ) (i : ℕ) (f : Field)
      → IsField f
      → drop i raw ≡ encode_field f ++ rest
      → field_loop (suc fuel) raw wanted i
        ≡ field_next (field_loop fuel raw wanted) f (i + length (encode_field f))
  unfolding field_loop key_end
  field_loop-field fuel raw rest i f h e =
      let j = key_end raw rest i f e in
      let inside : ltb i (length raw) ≡ true = lt→ltb i _ (lt-length raw rest i f e) in
      let far : j + length (contents f) ≡ i + length (encode_field f) =
        omega (arith, length-append (encode_varint (key f)) (contents f)) in
      rw (inside, read-key raw rest i f e h)
        (field_body-field (field_loop fuel raw wanted) raw rest j f h (drop-key_end raw rest i f e)
          ∙ ap (field_next (field_loop fuel raw wanted) f) far)

  field_next-first :
      (next : ℕ → Loop (Option (List ℕ))) (f : Field) (fs : List Field) (j : ℕ)
      → next j ≡ done (first_blob wanted fs)
      → field_next next f j ≡ done (first_blob wanted (f ∷ fs))
  unfolding field_next
  field_next-first next (varint n v) fs j e = e
  field_next-first next (fixed64 n b) fs j e = e
  field_next-first next (blob n b) fs j e = ground arith
  field_next-first next (fixed32 n b) fs j e = e

  field_loop-message :
      (fuel : ℕ) (raw : List ℕ) (i : ℕ) (fs : List Field)
      → IsMessage fs
      → drop i raw ≡ encode_message fs
      → length raw - i < fuel
      → field_loop fuel raw wanted i ≡ done (first_blob wanted fs)
  unfolding field_loop
  field_loop-message zero raw i fs h e enough = absurd (omega arith)
  field_loop-message (suc fuel) raw i [] h e enough = rw (ltb-end i raw e)
  field_loop-message (suc fuel) raw i (f ∷ fs) h e enough =
      let j : ℕ = i + length (encode_field f) in
      let rest : field_loop fuel raw wanted j ≡ done (first_blob wanted fs) =
        field_loop-message fuel raw j fs h.1 (drop_behind i raw (encode_field f) _ e)
          (omega (arith, field_pos f, lt-length raw (encode_message fs) i f e)) in
      field_loop-field fuel raw (encode_message fs) i f h.0 e
      ∙ field_next-first (field_loop fuel raw wanted) f fs j rest

  -- Of every well-formed message the search returns the bytes of the first length-delimited field
  -- with the wanted number, and `none` where there is no such field.
  pub length_delimited_field-message :
      (fs : List Field)
      → IsMessage fs
      → length_delimited_field (encode_message fs) wanted ≡ done (first_blob wanted fs)
  unfolding length_delimited_field
  length_delimited_field-message fs h =
      field_loop-message (length (encode_message fs) + 1) (encode_message fs) 0 fs h refl
        (omega arith)
