-- ===== src/Wire/Fields/Total.antt =====
-- The loops of `_decode_com_res_with_int_value` and `_length_delimited_field` end, whatever the bytes.
use dwarf_alp.Prelude.{
  ℕ, zero, suc, ◌+◌, ◌-◌, ◌≤◌, ◌<◌, ◌≡◌, ◌≢◌, refl, List, Option, arith, length, ltb, Bool-cases,
  Option-cases, inl, inr,
}
use dwarf_alp.Prelude.Int.{ℤ}
use dwarf_alp.Wire.Varint.{read_varint}
use dwarf_alp.Wire.Varint.Bounds.{read_varint_advances}
use dwarf_alp.Wire.Fields.{
  Loop, done, stuck, com_body, com_loop, decode_com_res_with_int_value, field_body, field_loop,
  length_delimited_field,
}

returned : {A : Type 0} (r : Loop A) → r ≢ stuck → (a : A) × (r ≡ done a)
returned (done a) h = (a, refl)
returned stuck h = absurd (h refl)

com_body-ends :
    (next : ℕ → Loop (Option ℤ)) (raw : List ℕ) (key index : ℕ)
    → index ≤ length raw
    → ((j : ℕ) → index ≤ j → next j ≢ stuck)
    → com_body next raw key index ≢ stuck
unfolding com_body
com_body-ends next raw key index h ends stops = elim (Option-cases (read_varint raw index)) [
  | inl e ↦ ground (arith, ends (index + 8), ends (index + 4))
  | inr ((v, i), e) ↦ ground (
    arith,
    read_varint_advances raw index v i h e,
    ends i,
    ends (i + v),
    ends (index + 8),
    ends (index + 4),
  )
]

com_loop-ends :
    (fuel : ℕ) (raw : List ℕ) (index : ℕ)
    → length raw - index < fuel
    → com_loop fuel raw index ≢ stuck
unfolding com_loop
com_loop-ends zero raw index h stops = absurd (omega arith)
com_loop-ends (suc fuel) raw index h stops = elim (Bool-cases (ltb index (length raw))) [
  | inl inside ↦ elim (Option-cases (read_varint raw index)) [
    | inl e ↦ ground arith
    | inr ((key, i), e) ↦
        let (a, b) = read_varint_advances raw index key i (ground arith) e in
        com_body-ends (com_loop fuel raw) raw key i b
          (λ j g. com_loop-ends fuel raw j (ground arith)) (ground arith)
  ]
  | inr outside ↦ ground arith
]

-- Decoding an integer response returns on every input.
pub decode_com_res-total :
    (raw : List ℕ) → (r : Option ℤ) × (decode_com_res_with_int_value raw ≡ done r)
unfolding decode_com_res_with_int_value
decode_com_res-total raw =
    returned (com_loop (length raw + 1) raw 0) (com_loop-ends _ raw 0 (omega arith))

field_body-ends :
    (next : ℕ → Loop (Option (List ℕ))) (raw : List ℕ) (wanted_field : ℕ) (key index : ℕ)
    → index ≤ length raw
    → ((j : ℕ) → index ≤ j → next j ≢ stuck)
    → field_body next raw wanted_field key index ≢ stuck
unfolding field_body
field_body-ends next raw wanted_field key index h ends stops =
    elim (Option-cases (read_varint raw index)) [
      | inl e ↦ ground (arith, ends (index + 8), ends (index + 4))
      | inr ((v, i), e) ↦ ground (
        arith,
        read_varint_advances raw index v i h e,
        ends i,
        ends (i + v),
        ends (index + 8),
        ends (index + 4),
      )
    ]

field_loop-ends :
    (fuel : ℕ) (raw : List ℕ) (wanted_field : ℕ) (index : ℕ)
    → length raw - index < fuel
    → field_loop fuel raw wanted_field index ≢ stuck
unfolding field_loop
field_loop-ends zero raw wanted_field index h stops = absurd (omega arith)
field_loop-ends (suc fuel) raw wanted_field index h stops =
    elim (Bool-cases (ltb index (length raw))) [
      | inl inside ↦ elim (Option-cases (read_varint raw index)) [
        | inl e ↦ ground arith
        | inr ((key, i), e) ↦
            let (a, b) = read_varint_advances raw index key i (ground arith) e in
            field_body-ends (field_loop fuel raw wanted_field) raw wanted_field key i b
              (λ j g. field_loop-ends fuel raw wanted_field j (ground arith)) (ground arith)
      ]
      | inr outside ↦ ground arith
    ]

-- Looking for a field returns on every input.
pub length_delimited_field-total :
    (raw : List ℕ) (wanted_field : ℕ)
    → (r : Option (List ℕ)) × (length_delimited_field raw wanted_field ≡ done r)
unfolding length_delimited_field
length_delimited_field-total raw wanted_field =
    returned (field_loop (length raw + 1) raw wanted_field 0)
      (field_loop-ends _ raw wanted_field 0 (omega arith))
