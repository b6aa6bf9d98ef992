-- ===== src/Wire/Varint/Bounds.antt =====
-- `_read_varint` of src/dwarf_alpaca/dwarf/session.py: it advances, stays inside the bytes, and its
-- value has at most 70 bits.
use dwarf_alp.Prelude.{
  ℕ, zero, suc, ◌+◌, ◌*◌, ◌%◌, ◌^◌, ◌≤◌, ◌<◌, ◌≡◌, List, [], ◌∷◌, some, arith, length, length-drop,
  drop, bit_or,
}
use native.Mathlib.Nat.{le_refl}
use native.Mathlib.Numerals.{towards_suc}
use dwarf_alp.Prelude.Bits.{bit_or_fields}
use dwarf_alp.Wire.Varint.{read_loop, read_varint}

read_loop_advances :
    (rest : List ℕ) (value shift index v i : ℕ)
    → read_loop rest value shift index ≡ some (v, i)
    → (index < i) × (i ≤ index + length rest)
unfolding read_loop
read_loop_advances [] value shift index v i h = cc
read_loop_advances (byte ∷ rest) value shift index v i h = ground (
  arith,
  read_loop_advances rest (bit_or value (byte % 128 * 2 ^ shift)) (shift + 7) (index + 1) v i,
)

-- A read from inside the bytes ends further on and not behind their end.
pub read_varint_advances :
    (raw : List ℕ) (start v i : ℕ)
    → start ≤ length raw
    → read_varint raw start ≡ some (v, i)
    → (start < i) × (i ≤ length raw)
unfolding read_varint
read_varint_advances raw start v i h e =
    let (a, b) = read_loop_advances (drop start raw) 0 0 start v i e in
    (a, omega (arith, length-drop start raw))

pow-add_seven : (s : ℕ) → 2 ^ (s + 7) ≡ 128 * 2 ^ s
pow-add_seven s = simp towards_suc (omega arith)

pow_le_70 : (k shift : ℕ) → shift + 7 * k ≡ 63 → 2 ^ (shift + 7) ≤ 2 ^ 70
pow_le_70 zero shift e = let s : shift ≡ 63 = omega arith in rw s (le_refl _)
pow_le_70 (suc k) shift e =
    omega (arith, pow-add_seven (shift + 7), pow_le_70 k (shift + 7) (omega arith))

module _ (byte value shift : ℕ) (hv : value < 2 ^ shift) where
  read_group_bound : bit_or value (byte % 128 * 2 ^ shift) < 2 ^ (shift + 7)
  read_group_bound =
      let low : byte % 128 * 2 ^ shift ≤ 127 * 2 ^ shift = grind arith in
      omega (arith, bit_or_fields shift value (byte % 128) hv, pow-add_seven shift)

read_loop_bound :
    (k : ℕ) (rest : List ℕ) (value shift index v i : ℕ)
    → shift + 7 * k ≡ 63
    → value < 2 ^ shift
    → read_loop rest value shift index ≡ some (v, i)
    → v < 2 ^ 70
unfolding read_loop
read_loop_bound k [] value shift index v i hs hv h = cc
read_loop_bound zero (byte ∷ rest) value shift index v i hs hv h =
    ground (arith, pow_le_70 0 shift hs, read_group_bound byte value shift hv)
read_loop_bound (suc k) (byte ∷ rest) value shift index v i hs hv h = ground (
  arith,
  pow_le_70 (suc k) shift hs,
  read_group_bound byte value shift hv,
  read_loop_bound k rest (bit_or value (byte % 128 * 2 ^ shift)) (shift + 7) (index + 1) v i,
)

-- The value has at most 70 bits: ten groups of seven.
pub read_varint_bound :
    (raw : List ℕ) (start v i : ℕ) → read_varint raw start ≡ some (v, i) → v < 2 ^ 70
unfolding read_varint
read_varint_bound raw start v i e =
    read_loop_bound 9 (drop start raw) 0 0 start v i (omega arith) (omega arith) e
