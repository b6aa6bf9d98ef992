-- ===== src/Wire/Fields.antt =====
-- `_decode_com_res_with_int_value` and `_length_delimited_field` of
-- src/dwarf_alpaca/dwarf/session.py. Each `while` loop takes fuel; a loop that ran out of it is
-- `stuck`, which no run of these functions is (Fields/Total).
pub mod Total
pub mod Message
pub mod Integer
pub mod Blob
use dwarf_alp.Prelude.{
  ℕ, zero, suc, ◌+◌, ◌-◌, ◌*◌, ◌/◌, ◌%◌, ◌^◌, List, [], ◌∷◌, Option, none, some, ◌==◌, leb, ltb,
  if◌then◌else◌, length, take, drop,
}
use dwarf_alp.Prelude.Int.{ℤ, pos, sub_ℕ}
use dwarf_alp.Wire.Varint.{read_varint}

pub data Loop (A : Type 0) : Type 0 where
  done : A → Loop A
  stuck : Loop A

-- `if value >= (1 << 31): value -= 1 << 32`
unfoldable pub int_value : ℕ → ℤ
int_value value = if leb (2 ^ 31) value then sub_ℕ value (2 ^ 32) else pos value

-- The body of the loop behind the key; `next` is the loop from another index on.
pub com_body : (ℕ → Loop (Option ℤ)) → List ℕ → ℕ → ℕ → Loop (Option ℤ)
unfolding int_value
com_body next raw key index =
    let field = key / 8 in
    let wire_type = key % 8 in
    if wire_type == 0
    then elim (read_varint raw index) [
      | none ↦ done none
      | some (value, index') ↦ if field == 1 then done (some (int_value value)) else next index'
    ]
    else if wire_type == 1
    then next (index + 8)
    else if wire_type == 2
    then elim (read_varint raw index) [
      | none ↦ done none
      | some (len, index') ↦ next (index' + len)
    ]
    else if wire_type == 5
    then next (index + 4)
    else done none

pub com_loop : ℕ → List ℕ → ℕ → Loop (Option ℤ)
com_loop zero raw index = stuck
com_loop (suc fuel) raw index =
    if ltb index (length raw)
    then elim (read_varint raw index) [
      | none ↦ done none
      | some (key, index') ↦ com_body (com_loop fuel raw) raw key index'
    ]
    else done none

-- Every round reads a byte at least.
unfoldable pub decode_com_res_with_int_value : List ℕ → Loop (Option ℤ)
unfolding com_loop com_body read_varint
decode_com_res_with_int_value raw = com_loop (length raw + 1) raw 0

pub field_body : (ℕ → Loop (Option (List ℕ))) → List ℕ → ℕ → ℕ → ℕ → Loop (Option (List ℕ))
field_body next raw wanted_field key index =
    let field = key / 8 in
    let wire_type = key % 8 in
    if wire_type == 0
    then elim (read_varint raw index) [ none ↦ done none | some (value, index') ↦ next index' ]
    else if wire_type == 1
    then next (index + 8)
    else if wire_type == 2
    then elim (read_varint raw index) [
      | none ↦ done none
      | some (len, index') ↦
          if ltb (length raw) (index' + len)
          then done none
          else if field == wanted_field
          then done (some (take (index' + len - index') (drop index' raw)))
          else next (index' + len)
    ]
    else if wire_type == 5
    then next (index + 4)
    else done none

pub field_loop : ℕ → List ℕ → ℕ → ℕ → Loop (Option (List ℕ))
field_loop zero raw wanted_field index = stuck
field_loop (suc fuel) raw wanted_field index =
    if ltb index (length raw)
    then elim (read_varint raw index) [
      | none ↦ done none
      | some (key, index') ↦
          field_body (field_loop fuel raw wanted_field) raw wanted_field key index'
    ]
    else done none

unfoldable pub length_delimited_field : List ℕ → ℕ → Loop (Option (List ℕ))
unfolding field_loop field_body read_varint
length_delimited_field raw wanted_field = field_loop (length raw + 1) raw wanted_field 0
