-- ===== src/Ble/Frame/RoundTrip.antt =====
-- Building a frame and parsing it, src/dwarf_alpaca/dwarf/ble_packets.py.
use dwarf_alp.Prelude.{
  ℕ, suc, ◌+◌, ◌-◌, ◌/◌, ◌%◌, ◌≤◌, ◌<◌, ◌≡◌, refl, sym, ap, ◌∙◌, List, [], ◌∷◌, ◌++◌, Option, some,
  arith, ltb, length, length-append, take-append, drop-append, get_elem?, take, drop, ◌==◌,
  if◌then◌else◌, Bool-cases, inl, inr, ==_iff, ==_refl,
}
use dwarf_alp.Ble.Crc.{IsByte, AllBytes, calculate_crc16}
use dwarf_alp.Ble.Crc.Detect.{calculate_crc16-lt, crc_detects_burst}
use dwarf_alp.Ble.Frame.{
  Result, ok, err, overflow, crc_mismatch, unknown_command, decode_failed, ◌>>=◌, or_raise,
  frame_end, header, build_frame, MessageType, message_types, ParsedPacket, parse_notification,
  from_bytes, slice,
}

get_elem?-append {ℓ} :
    {A : Type ℓ} (xs ys : List A) (n : ℕ) → get_elem? (xs ++ ys) (length xs + n) ≡ get_elem? ys n
get_elem?-append [] ys n = ap (get_elem? ys) (omega arith)
get_elem?-append (x ∷ xs) ys n =
    ap (get_elem? (x ∷ (xs ++ ys))) {x = suc (length xs) + n} {y = suc (length xs + n)}
      (omega arith)
    ∙ get_elem?-append xs ys n

-- The bytes that the CRC covers.
abbrev pub core : ℕ → List ℕ → List ℕ
core cmd payload = header cmd ++ (length payload / 256 ∷ length payload % 256 ∷ payload)

abbrev trailer : ℕ → List ℕ
trailer crc = crc / 256 ∷ crc % 256 ∷ frame_end ∷ []

-- A frame that carries `crc`; `build_frame` writes the CRC of the core there.
abbrev pub frame : ℕ → List ℕ → ℕ → List ℕ
frame cmd payload crc = core cmd payload ++ trailer crc

length-core : (cmd : ℕ) (payload : List ℕ) → length (core cmd payload) ≡ 9 + length payload
length-core cmd payload = omega arith

module _ (cmd : ℕ) (payload : List ℕ) (crc : ℕ) where
  last-frame : get_elem? (frame cmd payload crc) (length (frame cmd payload crc) - 1) ≡ some 0x0D
  last-frame =
      let tl = trailer crc in
      let at : length (frame cmd payload crc) - 1 ≡ length (core cmd payload) + 2 =
        omega (arith, length-append payload tl) in
      ap (get_elem? (frame cmd payload crc)) at ∙ get_elem?-append (core cmd payload) tl 2

  payload_of_frame : slice (frame cmd payload crc) 9 (9 + length payload) ≡ payload
  payload_of_frame =
      let rest = payload ++ trailer crc in
      let n : ℕ = length payload in
      ap (λ (k : ℕ). take k rest) {x = 9 + n - 9} {y = n} (omega arith) ∙ take-append payload _

  take-frame : take (9 + length payload) (frame cmd payload crc) ≡ core cmd payload
  take-frame =
      ap (λ (k : ℕ). take k (frame cmd payload crc)) (sym (length-core cmd payload))
      ∙ take-append (core cmd payload) _

  drop-frame : drop (9 + length payload) (frame cmd payload crc) ≡ trailer crc
  drop-frame =
      ap (λ (k : ℕ). drop k (frame cmd payload crc)) (sym (length-core cmd payload))
      ∙ drop-append (core cmd payload) _

  crc_of_frame :
      from_bytes (slice (frame cmd payload crc) (9 + length payload) (9 + length payload + 2)) ≡ crc
  crc_of_frame =
      let n : ℕ = length payload in
      let two : 9 + n + 2 - (9 + n) ≡ 2 = omega arith in rw (drop-frame, two) (omega arith)

build_frame_lem :
    (cmd : ℕ) (payload : List ℕ)
    → build_frame cmd payload ≡ (
        if ltb (length payload) 65536
        then ok (frame cmd payload (calculate_crc16 (core cmd payload)))
        else err overflow)
unfolding build_frame
build_frame_lem cmd payload = ground (arith, calculate_crc16-lt (core cmd payload))

-- What parsing returns when the frame is intact.
abbrev pub decoded :
    {M : Type 0} → (MessageType → List ℕ → Option M) → ℕ → List ℕ → Result (ParsedPacket M)
decoded parse cmd payload = do
  message_type ← or_raise (message_types cmd) (unknown_command cmd)
  message ← or_raise (parse message_type payload) decode_failed
  ok (record { cmd = cmd; payload = message })

-- The core, taken apart at a place in the payload.
abbrev core_prefix : ℕ → ℕ → List ℕ → List ℕ
core_prefix cmd n pre = header cmd ++ (n / 256 ∷ n % 256 ∷ pre)

core_split :
    (cmd n : ℕ) (pre rest : List ℕ)
    → length (pre ++ rest) ≡ n
    → core cmd (pre ++ rest) ≡ core_prefix cmd n pre ++ rest
core_split cmd n pre rest e = ap (λ (k : ℕ). header cmd ++ (k / 256 ∷ k % 256 ∷ (pre ++ rest))) e

AllBytes-core_prefix :
    (cmd n : ℕ) (pre : List ℕ) → n < 65536 → AllBytes pre → AllBytes (core_prefix cmd n pre)
AllBytes-core_prefix cmd n pre h k = ground arith

core_burst :
    (cmd : ℕ) (pre post : List ℕ) (x y x' y' : ℕ)
    → length (pre ++ (x ∷ y ∷ post)) < 65536
    → AllBytes pre
    → AllBytes post
    → IsByte x
    → IsByte y
    → IsByte x'
    → IsByte y'
    → calculate_crc16 (core cmd (pre ++ (x ∷ y ∷ post)))
      ≡ calculate_crc16 (core cmd (pre ++ (x' ∷ y' ∷ post)))
    → (x ≡ x') × (y ≡ y')
core_burst cmd pre post x y x' y' fits hpre hpost p q p' q' e =
    let n : ℕ = length (pre ++ (x ∷ y ∷ post)) in
    let same_size : length (pre ++ (x' ∷ y' ∷ post)) ≡ n =
      length-append pre _ ∙ sym (length-append pre _) in
    crc_detects_burst (core_prefix cmd n pre) post x y x' y'
      (AllBytes-core_prefix cmd n pre fits hpre) hpost p q p' q'
      (ap calculate_crc16 (sym (core_split cmd n pre (x ∷ y ∷ post) refl))
        ∙ e
        ∙ ap calculate_crc16 (core_split cmd n pre (x' ∷ y' ∷ post) same_size))

module _ {M : Type 0} (parse : MessageType → List ℕ → Option M) where
  -- The guards of the parser as equations about the bytes.
  parse_notification-parts :
      (bytes payload : List ℕ) (cmd n crc : ℕ)
      → 12 ≤ length bytes
      → get_elem? bytes 0 ≡ some 0xAA
      → get_elem? bytes (length bytes - 1) ≡ some 0x0D
      → get_elem? bytes 2 ≡ some cmd
      → from_bytes (slice bytes 7 9) ≡ n
      → n + 12 ≤ length bytes
      → slice bytes 9 (9 + n) ≡ payload
      → from_bytes (slice bytes (9 + n) (9 + n + 2)) ≡ crc
      → parse_notification parse bytes ≡ (
          if crc == calculate_crc16 (take (9 + n) bytes)
          then decoded parse cmd payload
          else err crc_mismatch)
  unfolding parse_notification
  parse_notification-parts bytes payload cmd n crc h0 h1 h2 h3 h4 h5 h6 h7 = ground arith

  -- Of a frame with any CRC the parser checks that CRC, and then reads command and payload.
  pub parse_notification-frame :
      (cmd : ℕ) (payload : List ℕ) (crc : ℕ)
      → length payload < 65536
      → parse_notification parse (frame cmd payload crc) ≡ (
          if crc == calculate_crc16 (core cmd payload)
          then decoded parse (cmd % 256) payload
          else err crc_mismatch)
  parse_notification-frame cmd payload crc h =
      let f = frame cmd payload crc in
      let size : length f ≡ length payload + 12 =
        omega (arith, length-append payload (trailer crc)) in
      parse_notification-parts f payload (cmd % 256) (length payload) crc (omega (arith, size)) refl
        (last-frame cmd payload crc) refl (omega arith) (omega (arith, size))
        (payload_of_frame cmd payload crc) (crc_of_frame cmd payload crc)
      ∙ ap
          (λ (bs : List ℕ).
            if crc == calculate_crc16 bs
            then decoded parse (cmd % 256) payload
            else err crc_mismatch)
          (take-frame cmd payload crc)

  -- Parsing what was built gives the command byte and the payload back, decoded as the message type
  -- of that command; building fails, with an overflow, exactly when the payload is longer than
  -- 65535 bytes.
  pub parse-build :
      (cmd : ℕ) (payload : List ℕ)
      → (build_frame cmd payload >>= parse_notification parse)
        ≡ (if ltb (length payload) 65536 then decoded parse (cmd % 256) payload else err overflow)
  parse-build cmd payload = elim (Bool-cases (ltb (length payload) 65536)) [
    | inl fits ↦
        rw (build_frame_lem cmd payload, fits)
          (parse_notification-frame cmd payload (calculate_crc16 (core cmd payload)) (ground arith)
            ∙ rw (==_refl (calculate_crc16 (core cmd payload))))
    | inr big ↦ rw (build_frame_lem cmd payload, big)
  ]

  -- A built frame in whose payload two adjacent bytes were changed, one of them at least to another
  -- value, is refused with a CRC error.
  pub parse_corrupted :
      (cmd : ℕ) (pre post : List ℕ) (x y x' y' : ℕ)
      → length (pre ++ (x ∷ y ∷ post)) < 65536
      → AllBytes pre
      → AllBytes post
      → IsByte x
      → IsByte y
      → IsByte x'
      → IsByte y'
      → ¬ ((x ≡ x') × (y ≡ y'))
      → parse_notification parse
          (frame cmd (pre ++ (x' ∷ y' ∷ post)) (calculate_crc16 (core cmd (pre ++ (x ∷ y ∷ post)))))
        ≡ err crc_mismatch
  parse_corrupted cmd pre post x y x' y' fits hpre hpost p q p' q' differs =
      let bad = pre ++ (x' ∷ y' ∷ post) in
      let crc = calculate_crc16 (core cmd (pre ++ (x ∷ y ∷ post))) in
      let same_size : length bad ≡ length (pre ++ (x ∷ y ∷ post)) =
        length-append pre _ ∙ sym (length-append pre _) in
      elim (Bool-cases (crc == calculate_crc16 (core cmd bad))) [
        | inl e ↦ absurd (
            differs
              (core_burst cmd pre post x y x' y' fits hpre hpost p q p' q' ((==_iff _ _).0 e)))
        | inr e ↦ parse_notification-frame cmd bad crc (rw same_size fits) ∙ rw e
      ]
