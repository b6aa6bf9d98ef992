-- ===== src/Wire/Fields/Integer.antt =====
-- What `_decode_com_res_with_int_value` of src/dwarf_alpaca/dwarf/session.py finds in a message.
use dwarf_alp.Prelude.{
  ℕ, zero, suc, ◌+◌, ◌-◌, ◌^◌, ◌≤◌, ◌<◌, ◌≡◌, refl, ap, ◌∙◌, List, [], ◌∷◌, ◌++◌, Option, some,
  none, arith, length, length-append, drop, drop_behind, ltb, ◌==◌, if◌then◌else◌, true, lt→ltb,
  ◌≢◌, Bool-cases, inl, inr, subst, sym,
}
use dwarf_alp.Prelude.Int.{ℤ, pos, negsuc}
use dwarf_alp.Wire.Varint.Encode.{encode_varint, read_varint-encode}
use dwarf_alp.Wire.Fields.{Loop, done, int_value, com_body, com_loop, decode_com_res_with_int_value}
use dwarf_alp.Wire.Fields.Message.{
  Field, varint, fixed64, blob, fixed32, key, contents, encode_field, encode_message, IsField,
  IsMessage, key_end, read-key, drop-key_end, lt-length, blob_read, ltb-end, field_pos,
}

-- The value of the first integer field with number 1.
abbrev pub first_int : List Field → Option ℤ
first_int [] = none
first_int (varint n v ∷ fs) = if n == 1 then some (int_value v) else first_int fs
first_int (fixed64 n b ∷ fs) = first_int fs
first_int (blob n b ∷ fs) = first_int fs
first_int (fixed32 n b ∷ fs) = first_int fs

-- Where the loop goes on behind a field, or what it returns there.
abbrev com_next : (ℕ → Loop (Option ℤ)) → Field → ℕ → Loop (Option ℤ)
com_next next (varint n v) j = if n == 1 then done (some (int_value v)) else next j
com_next next (fixed64 n b) j = next j
com_next next (blob n b) j = next j
com_next next (fixed32 n b) j = next j

module _ (next : ℕ → Loop (Option ℤ)) (raw rest : List ℕ) (i : ℕ) where
  com_body-field :
      (f : Field)
      → IsField f
      → drop i raw ≡ contents f ++ rest
      → com_body next raw (key f) i ≡ com_next next f (i + length (contents f))
  unfolding com_body
  com_body-field (varint n v) h e = ground (arith, read_varint-encode v i raw rest (omega arith) e)
  com_body-field (fixed64 n b) h e = ground (arith, h.1)
  com_body-field (blob n b) h e =
      ground (arith, blob_read n b raw rest i h e, length-append (encode_varint (length b)) b)
  com_body-field (fixed32 n b) h e = ground (arith, h.1)

com_loop-field :
    (fuel : ℕ) (raw rest : List ℕ) (i : ℕ) (f : Field)
    → IsField f
    → drop i raw ≡ encode_field f ++ rest
    → com_loop (suc fuel) raw i ≡ com_next (com_loop fuel raw) f (i + length (encode_field f))
unfolding com_loop key_end
com_loop-field fuel raw rest i f h e =
    let j = key_end raw rest i f e in
    let inside : ltb i (length raw) ≡ true = lt→ltb i _ (lt-length raw rest i f e) in
    let far : j + length (contents f) ≡ i + length (encode_field f) =
      omega (arith, length-append (encode_varint (key f)) (contents f)) in
    rw (inside, read-key raw rest i f e h)
      (com_body-field (com_loop fuel raw) raw rest j f h (drop-key_end raw rest i f e)
        ∙ ap (com_next (com_loop fuel raw) f) far)

com_next-first :
    (next : ℕ → Loop (Option ℤ)) (f : Field) (fs : List Field) (j : ℕ)
    → next j ≡ done (first_int fs)
    → com_next next f j ≡ done (first_int (f ∷ fs))
com_next-first next (varint n v) fs j e = ground arith
com_next-first next (fixed64 n b) fs j e = e
com_next-first next (blob n b) fs j e = e
com_next-first next (fixed32 n b) fs j e = e

com_loop-message :
    (fuel : ℕ) (raw : List ℕ) (i : ℕ) (fs : List Field)
    → IsMessage fs
    → drop i raw ≡ encode_message fs
    → length raw - i < fuel
    → com_loop fuel raw i ≡ done (first_int fs)
unfolding com_loop
com_loop-message zero raw i fs h e enough = absurd (omega arith)
com_loop-message (suc fuel) raw i [] h e enough = rw (ltb-end i raw e)
com_loop-message (suc fuel) raw i (f ∷ fs) h e enough =
    let j : ℕ = i + length (encode_field f) in
    let rest : com_loop fuel raw j ≡ done (first_int fs) =
      com_loop-message fuel raw j fs h.1 (drop_behind i raw (encode_field f) _ e)
        (omega (arith, field_pos f, lt-length raw (encode_message fs) i f e)) in
    com_loop-field fuel raw (encode_message fs) i f h.0 e
    ∙ com_next-first (com_loop fuel raw) f fs j rest

pub decode_com_res-first :
    (fs : List Field)
    → IsMessage fs
    → decode_com_res_with_int_value (encode_message fs) ≡ done (first_int fs)
unfolding decode_com_res_with_int_value
decode_com_res-first fs h =
    com_loop-message (length (encode_message fs) + 1) (encode_message fs) 0 fs h refl (omega arith)

-- How the value of an integer field is read: a number below 2 ^ 31 stands for itself, one from there
-- below 2 ^ 32 for a negative number, and a larger one for what is above 2 ^ 32.
pub data Reads (v : ℕ) (z : ℤ) : Type 0 where
  small : v < 2 ^ 31 → z ≡ pos v → Reads v z
  negative : 2 ^ 31 ≤ v → v < 2 ^ 32 → z ≡ negsuc (2 ^ 32 - 1 - v) → Reads v z
  large : 2 ^ 32 ≤ v → z ≡ pos (v - 2 ^ 32) → Reads v z

-- The first integer field with number 1 is there and is read as the number, or there is none.
pub data ReadsFirst : List Field → Option ℤ → Type 0 where
  missing : ReadsFirst [] none
  found : {v : ℕ} {fs : List Field} {z : ℤ} → Reads v z → ReadsFirst (varint 1 v ∷ fs) (some z)
  other :
      {n v : ℕ} {fs : List Field} {o : Option ℤ}
      → n ≢ 1
      → ReadsFirst fs o
      → ReadsFirst (varint n v ∷ fs) o
  behind_fixed64 :
      {n : ℕ} {b : List ℕ} {fs : List Field} {o : Option ℤ}
      → ReadsFirst fs o
      → ReadsFirst (fixed64 n b ∷ fs) o
  behind_blob :
      {n : ℕ} {b : List ℕ} {fs : List Field} {o : Option ℤ}
      → ReadsFirst fs o
      → ReadsFirst (blob n b ∷ fs) o
  behind_fixed32 :
      {n : ℕ} {b : List ℕ} {fs : List Field} {o : Option ℤ}
      → ReadsFirst fs o
      → ReadsFirst (fixed32 n b ∷ fs) o

int_value-Reads : (v : ℕ) → Reads v (int_value v)
unfolding int_value
int_value-Reads v = elim (Bool-cases (ltb v (2 ^ 31))) [
  | inl q ↦ small (ground (arith, q)) (ground (arith, q))
  | inr q ↦ elim (Bool-cases (ltb v (2 ^ 32))) [
    | inl r ↦ negative (ground (arith, q)) (ground (arith, r)) (ground (arith, q, r))
    | inr r ↦ large (ground (arith, r)) (ground (arith, q, r))
  ]
]

varint-ReadsFirst :
    (n v : ℕ) (fs : List Field)
    → ReadsFirst fs (first_int fs)
    → ReadsFirst (varint n v ∷ fs) (first_int (varint n v ∷ fs))
varint-ReadsFirst n v fs h = elim (Bool-cases (n == 1)) [
  | inl q ↦
      let one : n ≡ 1 = ground (arith, q) in
      subst (λ (m : ℕ). ReadsFirst (varint m v ∷ fs) (first_int (varint m v ∷ fs))) (sym one)
        (found (int_value-Reads v))
  | inr q ↦ rw q (other (λ e. absurd (ground (arith, q, e))) h)
]

first_int-ReadsFirst : (fs : List Field) → ReadsFirst fs (first_int fs)
first_int-ReadsFirst [] = missing
first_int-ReadsFirst (varint n v ∷ fs) = varint-ReadsFirst n v fs (first_int-ReadsFirst fs)
first_int-ReadsFirst (fixed64 n b ∷ fs) = behind_fixed64 (first_int-ReadsFirst fs)
first_int-ReadsFirst (blob n b ∷ fs) = behind_blob (first_int-ReadsFirst fs)
first_int-ReadsFirst (fixed32 n b ∷ fs) = behind_fixed32 (first_int-ReadsFirst fs)

-- Of every well-formed message the decoder returns the value of the first integer field with number
-- 1, and nothing where there is no such field. A value below 2 ^ 31 is returned as it is, one from
-- there below 2 ^ 32 as the negative number of that 32-bit pattern, and a larger one less 2 ^ 32, so
-- that a negative number in protobuf's own 64-bit pattern is not read back.
pub decode_com_res-message :
    (fs : List Field)
    → IsMessage fs
    → (o : Option ℤ) × (decode_com_res_with_int_value (encode_message fs) ≡ done o)
      × ReadsFirst fs o
decode_com_res-message fs h = (first_int fs, decode_com_res-first fs h, first_int-ReadsFirst fs)

-- For every number from 1 to 2 ^ 31 (`n` stands for -n): the negative is read back from a 32-bit
-- pattern, but from protobuf's own encoding of a negative int32, the sign-extended 64-bit pattern,
-- the decoder returns 2 ^ 64 - 2 ^ 32 - n, a positive number.
pub decode_com_res-negative :
    (n : ℕ) (fs : List Field)
    → 0 < n
    → n ≤ 2 ^ 31
    → IsMessage fs
    → (decode_com_res_with_int_value (encode_message (varint 1 (2 ^ 32 - n) ∷ fs))
        ≡ done (some (negsuc (n - 1))))
      × (decode_com_res_with_int_value (encode_message (varint 1 (2 ^ 64 - n) ∷ fs))
          ≡ done (some (pos (2 ^ 64 - 2 ^ 32 - n))))
unfolding int_value
decode_com_res-negative n fs lo hi h = (
  decode_com_res-first (varint 1 (2 ^ 32 - n) ∷ fs) (omega arith, h) ∙ ground arith,
  decode_com_res-first (varint 1 (2 ^ 64 - n) ∷ fs) (omega arith, h) ∙ ground arith,
)
