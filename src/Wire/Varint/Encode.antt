-- ===== src/Wire/Varint/Encode.antt =====
-- `_read_varint` of src/dwarf_alpaca/dwarf/session.py against the encoder of the protobuf wire
-- format, which is the independent description here.
use dwarf_alp.Prelude.{
  ℕ, zero, suc, ◌+◌, ◌*◌, ◌/◌, ◌%◌, ◌^◌, ◌≤◌, ◌<◌, ◌≡◌, ap, ◌∙◌, ap₂, List, [], ◌∷◌, ◌++◌, some,
  arith, ltb, leb, false, if◌then◌else◌, drop, length, Bool-cases, inl, inr,
}
use native.Mathlib.Numerals.{towards_suc}
use dwarf_alp.Prelude.Bits.{bit_or_fields}
use dwarf_alp.Wire.Varint.{read_loop, read_varint}

-- Groups of seven bits, lowest first, the high bit set on all but the last; `k` more groups at most.
pub encode_groups : ℕ → ℕ → List ℕ
encode_groups zero n = n ∷ []
encode_groups (suc k) n =
    let rest = encode_groups k (n / 128) in if ltb n 128 then n ∷ [] else (n % 128 + 128) ∷ rest

-- Ten groups hold every 64-bit number.
unfoldable pub encode_varint : ℕ → List ℕ
unfolding encode_groups
encode_varint n = encode_groups 9 n

pow-add_seven : (s : ℕ) → 2 ^ (s + 7) ≡ 128 * 2 ^ s
pow-add_seven s = simp towards_suc (omega arith)

read_loop-last :
    (n v shift i : ℕ) (rest : List ℕ)
    → n < 128
    → v < 2 ^ shift
    → read_loop (n ∷ rest) v shift i ≡ some (v + n * 2 ^ shift, i + 1)
unfolding read_loop
read_loop-last n v shift i rest hn hv =
    let low : n % 128 ≡ n = omega arith in
    let top : n / 128 % 2 ≡ 0 = omega arith in rw (low, top, bit_or_fields shift v n hv)

read_loop-more :
    (n v shift i : ℕ) (rest : List ℕ)
    → shift + 7 ≤ 63
    → v < 2 ^ shift
    → read_loop ((n % 128 + 128) ∷ rest) v shift i
      ≡ read_loop rest (v + n % 128 * 2 ^ shift) (shift + 7) (i + 1)
unfolding read_loop
read_loop-more n v shift i rest hs hv =
    let low : (n % 128 + 128) % 128 ≡ n % 128 = omega arith in
    let top : (n % 128 + 128) / 128 % 2 ≡ 1 = omega arith in
    let fits : leb 64 (shift + 7) ≡ false = ground arith in
    rw (low, top, bit_or_fields shift v (n % 128) hv, fits)

read_loop-encode :
    (k n v shift i : ℕ) (rest : List ℕ)
    → n < 2 ^ (7 * k + 7)
    → v < 2 ^ shift
    → shift + 7 * k ≤ 63
    → read_loop (encode_groups k n ++ rest) v shift i
      ≡ some (v + n * 2 ^ shift, i + length (encode_groups k n))
unfolding encode_groups
read_loop-encode zero n v shift i rest hn hv hs = read_loop-last n v shift i rest hn hv
read_loop-encode (suc k) n v shift i rest hn hv hs = elim (Bool-cases (ltb n 128)) [
  | inl small ↦ rw small (read_loop-last n v shift i rest (ground arith) hv)
  | inr large ↦
      let t : ℕ = 2 ^ shift in
      let split : n * t ≡ (128 * (n / 128) + n % 128) * t = ap (λ (m : ℕ). m * t) (omega arith) in
      let room : 2 ^ (7 * suc k + 7) ≡ 128 * 2 ^ (7 * k + 7) =
        ap (λ (e : ℕ). 2 ^ e) (omega arith) ∙ pow-add_seven (7 * k + 7) in
      let low : n % 128 * t ≤ 127 * t = grind arith in
      let value : v + n % 128 * t + n / 128 * 2 ^ (shift + 7) ≡ v + n * t =
        omega (arith, split, ap (λ (m : ℕ). n / 128 * m) (pow-add_seven shift)) in
      rw (large, read_loop-more n v shift i (encode_groups k (n / 128) ++ rest) (omega arith) hv)
        (read_loop-encode k (n / 128) (v + n % 128 * t) (shift + 7) (i + 1) rest (omega arith)
            (omega (arith, pow-add_seven shift)) (omega arith)
          ∙ ap₂ (λ (a b : ℕ). some (a, b)) value (omega arith))
]

-- Reading at the start of an encoded number of at most 70 bits gives the number, and the index
-- behind its encoding.
pub read_varint-encode :
    (n i : ℕ) (raw rest : List ℕ)
    → n < 2 ^ 70
    → drop i raw ≡ encode_varint n ++ rest
    → read_varint raw i ≡ some (n, i + length (encode_varint n))
unfolding read_varint encode_varint
read_varint-encode n i raw rest h e =
    let value : 0 + n * 2 ^ 0 ≡ n = omega arith in
    rw e (
      read_loop-encode 9 n 0 0 i rest h (omega arith) (omega arith)
      ∙ ap (λ (m : ℕ). some (m, i + length (encode_groups 9 n))) value)

pub encode_varint-pos : (n : ℕ) → 0 < length (encode_varint n)
unfolding encode_varint
encode_varint-pos n = ground arith
