-- ===== src/Ble/Tests.antt =====
-- Runs of the frame code and instances of its theorems.
use dwarf_alp.Prelude.{ℕ, ◌≡◌, refl, List, [], ◌∷◌, Option, some, arith}
use dwarf_alp.Ble.Crc.{calculate_crc16}
use dwarf_alp.Ble.Crc.Detect.{crc_detects_burst}
use dwarf_alp.Ble.Frame.{
  ok, err, crc_mismatch, ◌>>=◌, build_frame, build_req_reset, MessageType, message_types,
  parse_notification,
}
use dwarf_alp.Ble.Frame.RoundTrip.{core, frame, parse-build, parse_corrupted}

-- The published check value of the Modbus CRC.
crc_check_value :
    calculate_crc16 (0x31 ∷ 0x32 ∷ 0x33 ∷ 0x34 ∷ 0x35 ∷ 0x36 ∷ 0x37 ∷ 0x38 ∷ 0x39 ∷ []) ≡ 0x4B37
unfolding calculate_crc16
crc_check_value = refl

-- A decoder that keeps the bytes.
abbrev echo : MessageType → List ℕ → Option (List ℕ)
echo t bytes = some bytes

abbrev payload : List ℕ
payload = 8 ∷ 3 ∷ 16 ∷ 0 ∷ []

abbrev reply : List ℕ
reply = frame 3 payload (calculate_crc16 (core 3 payload))

reply_parses : parse_notification echo reply ≡ ok (record { cmd = 3; payload = payload })
unfolding parse_notification calculate_crc16 message_types
reply_parses = refl

reset_frame :
    build_req_reset (λ r. 8 ∷ 5 ∷ [])
    ≡ ok (0xAA ∷ 1 ∷ 5 ∷ 0 ∷ 1 ∷ 0 ∷ 0 ∷ 0 ∷ 2 ∷ 8 ∷ 5 ∷ 104 ∷ 61 ∷ 0x0D ∷ [])
unfolding build_req_reset build_frame calculate_crc16
reset_frame = refl

parse-build_example :
    (build_frame 259 payload >>= parse_notification echo)
    ≡ ok (record { cmd = 3; payload = payload })
unfolding message_types
parse-build_example = parse-build echo 259 payload

parse_corrupted_example :
    parse_notification echo (frame 3 (8 ∷ 3 ∷ 16 ∷ 1 ∷ []) (calculate_crc16 (core 3 payload)))
    ≡ err crc_mismatch
parse_corrupted_example =
    parse_corrupted echo 3 (8 ∷ 3 ∷ []) [] 16 0 16 1 (omega arith) (omega arith) (omega arith)
      (omega arith) (omega arith) (omega arith) (omega arith) (omega arith)

crc_detects_burst_example : ◌≡◌ {A = ℕ} 16 16 × ◌≡◌ {A = ℕ} 0 0
crc_detects_burst_example =
    crc_detects_burst (8 ∷ 3 ∷ []) (1 ∷ []) 16 0 16 0 (omega arith) (omega arith) (omega arith)
      (omega arith) (omega arith) (omega arith) refl
