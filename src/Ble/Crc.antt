-- ===== src/Ble/Crc.antt =====
-- `calculate_crc16` of src/dwarf_alpaca/dwarf/ble_packets.py. Bytes are numbers below 256.
pub mod Detect
use dwarf_alp.Prelude.{
  ℕ, zero, suc, ◌/◌, ◌%◌, ◌^◌, ◌<◌, bit_xor, List, [], ◌∷◌, ◌==◌, if◌then◌else◌,
}

abbrev pub IsByte : ℕ → Type 0
IsByte b = b < 256

abbrev pub AllBytes : List ℕ → Type 0
AllBytes [] = Unit
AllBytes (b ∷ bs) = IsByte b × AllBytes bs

-- `odd = crc & 1; crc >>= 1; if odd: crc ^= 0xA001`
pub crc_round : ℕ → ℕ
crc_round crc = if crc % 2 == 1 then bit_xor (crc / 2) 0xA001 else crc / 2

-- `for _ in range(n)`
pub crc_rounds : ℕ → ℕ → ℕ
crc_rounds zero crc = crc
crc_rounds (suc n) crc = crc_rounds n (crc_round crc)

pub crc_byte : ℕ → ℕ → ℕ
crc_byte crc value = crc_rounds 8 (bit_xor crc value)

-- `for value in data`
pub crc_loop : ℕ → List ℕ → ℕ
crc_loop crc [] = crc
crc_loop crc (value ∷ rest) = crc_loop (crc_byte crc value) rest

-- `& 0xFFFF` is the remainder by 2 ^ 16.
unfoldable pub calculate_crc16 : List ℕ → ℕ
unfolding crc_round crc_rounds crc_byte crc_loop
calculate_crc16 bytes = crc_loop 0xFFFF bytes % 2 ^ 16
