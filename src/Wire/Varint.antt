-- ===== src/Wire/Varint.antt =====
-- `_read_varint` of src/dwarf_alpaca/dwarf/session.py. `none` is its `ValueError`.
pub mod Encode
pub mod Bounds
use dwarf_alp.Prelude.{
  ℕ, ◌+◌, ◌*◌, ◌/◌, ◌%◌, ◌^◌, bit_or, List, [], ◌∷◌, Option, none, some, ◌==◌, leb, if◌then◌else◌,
  drop,
}

-- The `while` loop; the list is what `raw` holds from `index` on. `byte & 0x7F` is the remainder by
-- 128, `byte & 0x80` the bit above it, and `<< shift` a product with a power of two.
pub read_loop : List ℕ → ℕ → ℕ → ℕ → Option (ℕ × ℕ)
read_loop [] value shift index = none
read_loop (byte ∷ rest) value shift index =
    let value' = bit_or value (byte % 128 * 2 ^ shift) in
    let more = read_loop rest value' (shift + 7) (index + 1) in
    if byte / 128 % 2 == 0
    then some (value', index + 1)
    else if leb 64 (shift + 7)
    then none
    else more

unfoldable pub read_varint : List ℕ → ℕ → Option (ℕ × ℕ)
unfolding read_loop
read_varint raw start = read_loop (drop start raw) 0 0 start
