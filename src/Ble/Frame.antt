-- ===== src/Ble/Frame.antt =====
-- Building and parsing frames: `_build_frame`, the request builders and `parse_notification` of
-- src/dwarf_alpaca/dwarf/ble_packets.py. The messages themselves belong to the protobuf library:
-- their serialiser and their parser are parameters.
pub mod RoundTrip
pub mod Safety
use dwarf_alp.Prelude.{
  ℕ, ◌+◌, ◌-◌, ◌*◌, ◌/◌, ◌%◌, List, [], ◌∷◌, ◌++◌, Option, none, some, Bool, true, false, not, ◌||◌,
  ◌==◌, ltb, if◌then◌else◌, length, get_elem?, take, drop,
}
use Prim.Native.String.{String}
use dwarf_alp.Ble.Crc.{calculate_crc16}

abbrev pub frame_header : ℕ
frame_header = 0xAA

abbrev pub frame_end : ℕ
frame_end = 0x0D

abbrev pub protocol_id : ℕ
protocol_id = 0x01

abbrev pub package_id : ℕ
package_id = 0x00

abbrev pub total_id : ℕ
total_id = 0x01

abbrev pub reserved1_id : ℕ
reserved1_id = 0x00

abbrev pub reserved2_id : ℕ
reserved2_id = 0x00

-- What a call may raise. `overflow` is `OverflowError` of `int.to_bytes`, `index_error` Python's
-- `IndexError`, `decode_failed` the `DecodeError` of protobuf; the others are `BlePacketError`.
pub data BleError : Type 0 where
  too_short bad_markers length_mismatch crc_mismatch : BleError
  unknown_command : ℕ → BleError
  overflow index_error decode_failed : BleError

pub data Result {ℓ} (A : Type ℓ) : Type ℓ where
  ok : A → Result A
  err : BleError → Result A

infixl 5 ◌>>=◌ ◌>>◌
abbrev pub ◌>>=◌ {ℓ κ} : {X : Type ℓ} {Y : Type κ} → Result X → (X → Result Y) → Result Y
err error >>= next = err error
ok x >>= next = next x

abbrev pub ◌>>◌ {ℓ} : {Y : Type ℓ} → Result (Unit {0}) → Result Y → Result Y
first >> second = first >>= λ _. second

abbrev pub raise_if : Bool → BleError → Result (Unit {0})
raise_if true e = err e
raise_if false e = ok tt

abbrev pub or_raise {ℓ} : {A : Type ℓ} → Option A → BleError → Result A
or_raise none e = err e
or_raise (some a) e = ok a

-- `n.to_bytes(2, byteorder="big")`
abbrev pub to_bytes_2 : ℕ → Result (List ℕ)
to_bytes_2 n = if ltb n 65536 then ok (n / 256 ∷ n % 256 ∷ []) else err overflow

-- `int.from_bytes(bytes, byteorder="big")`
abbrev pub from_bytes_loop : ℕ → List ℕ → ℕ
from_bytes_loop acc [] = acc
from_bytes_loop acc (b ∷ bs) = from_bytes_loop (acc * 256 + b) bs

abbrev pub from_bytes : List ℕ → ℕ
from_bytes = from_bytes_loop 0

-- `data[start:stop]`
abbrev pub slice : List ℕ → ℕ → ℕ → List ℕ
slice bytes start stop = take (stop - start) (drop start bytes)

abbrev pub header : ℕ → List ℕ
header cmd =
    frame_header
    ∷ protocol_id
    ∷ cmd % 256
    ∷ package_id
    ∷ total_id
    ∷ reserved1_id
    ∷ reserved2_id
    ∷ []

unfoldable pub build_frame : ℕ → List ℕ → Result (List ℕ)
build_frame cmd payload = do
  length_bytes ← to_bytes_2 (length payload)
  let core = header cmd ++ (length_bytes ++ payload)
  crc ← to_bytes_2 (calculate_crc16 core)
  ok (core ++ (crc ++ (frame_end ∷ [])))

-- The request messages with the fields that the builders set, `cmd` first.
pub data Request : Type 0 where
  req_getconfig : ℕ → String → Request
  req_sta : ℕ → ℕ → String → String → String → Request
  req_reset : ℕ → Request
  req_getwifilist : ℕ → Request

module _ (serialize_to_string : Request → List ℕ) where
  unfoldable pub build_req_getconfig : String → Result (List ℕ)
  build_req_getconfig ble_password =
      build_frame 1 (serialize_to_string (req_getconfig 1 ble_password))

  unfoldable pub build_req_sta : ℕ → String → String → String → Result (List ℕ)
  build_req_sta auto_start ble_password ssid password =
      build_frame 3 (serialize_to_string (req_sta 3 auto_start ble_password ssid password))

  unfoldable pub build_req_reset : Result (List ℕ)
  build_req_reset = build_frame 5 (serialize_to_string (req_reset 5))

  unfoldable pub build_req_getwifilist : Result (List ℕ)
  build_req_getwifilist = build_frame 6 (serialize_to_string (req_getwifilist 6))

-- The classes in `_MESSAGE_TYPES`.
pub data MessageType : Type 0 where
  res_receive_data_error res_getconfig res_ap res_sta res_setblewifi res_reset : MessageType
  res_wifilist res_getsysteminfo res_check_file : MessageType

-- `_MESSAGE_TYPES.get(cmd)`
unfoldable pub message_types : ℕ → Option MessageType
message_types cmd =
    if cmd == 0
    then some res_receive_data_error
    else if cmd == 1
    then some res_getconfig
    else if cmd == 2
    then some res_ap
    else if cmd == 3
    then some res_sta
    else if cmd == 4
    then some res_setblewifi
    else if cmd == 5
    then some res_reset
    else if cmd == 6
    then some res_wifilist
    else if cmd == 7
    then some res_getsysteminfo
    else if cmd == 8
    then some res_check_file
    else none

pub record ParsedPacket (M : Type 0) : Type 0 where
  pub cmd : ℕ
  pub payload : M

module _ {M : Type 0} (parse_from_string : MessageType → List ℕ → Option M) where
  unfoldable pub parse_notification : List ℕ → Result (ParsedPacket M)
  parse_notification bytes = do
    raise_if (ltb (length bytes) 12) too_short
    first ← or_raise (get_elem? bytes 0) index_error
    last ← or_raise (get_elem? bytes (length bytes - 1)) index_error
    raise_if (not (first == frame_header) || not (last == frame_end)) bad_markers
    cmd ← or_raise (get_elem? bytes 2) index_error
    let payload_end = 9 + from_bytes (slice bytes 7 9)
    raise_if (ltb (length bytes) (payload_end + 3)) length_mismatch
    let payload_bytes = slice bytes 9 payload_end
    let crc_received = from_bytes (slice bytes payload_end (payload_end + 2))
    let crc_expected = calculate_crc16 (take payload_end bytes)
    raise_if (not (crc_received == crc_expected)) crc_mismatch
    message_type ← or_raise (message_types cmd) (unknown_command cmd)
    message ← or_raise (parse_from_string message_type payload_bytes) decode_failed
    ok (record { cmd = cmd; payload = message })
