-- ===== src/Ble/Crc/Detect.antt =====
-- What the CRC of src/dwarf_alpaca/dwarf/ble_packets.py detects. A round is linear over exclusive
-- or and undoes nothing: from two states it leads to two states.
use dwarf_alp.Prelude.{
  ℕ, zero, suc, ◌+◌, ◌*◌, ◌/◌, ◌^◌, ◌<◌, ◌≡◌, refl, sym, ap, ◌∙◌, bit_xor, List, [], ◌∷◌, ◌++◌,
  arith,
}
use dwarf_alp.Prelude.Bits.{
  bit_xor_bound, bit_xor_high, bit_xor_injective_left, bit_xor_injective_right, bit_xor_assoc,
  div_two-bit_xor, mod_two-bit_xor, bit_xor_byte, bit_xor_comm, mul_pow_suc,
}
use dwarf_alp.Ble.Crc.{IsByte, AllBytes, crc_round, crc_rounds, crc_byte, crc_loop, calculate_crc16}

abbrev IsCrc : ℕ → Type 0
IsCrc c = c < 65536

crc_round-IsCrc : (c : ℕ) → IsCrc c → IsCrc (crc_round c)
unfolding crc_round
crc_round-IsCrc c h = ground (arith, bit_xor_bound 16 (c / 2) 0xA001 (omega arith) (omega arith))

crc_rounds-IsCrc : (n c : ℕ) → IsCrc c → IsCrc (crc_rounds n c)
unfolding crc_rounds
crc_rounds-IsCrc zero c h = h
crc_rounds-IsCrc (suc n) c h = crc_rounds-IsCrc n (crc_round c) (crc_round-IsCrc c h)

crc_byte-IsCrc : (c b : ℕ) → IsCrc c → IsByte b → IsCrc (crc_byte c b)
unfolding crc_byte
crc_byte-IsCrc c b h k =
    crc_rounds-IsCrc 8 (bit_xor c b) (bit_xor_bound 16 c b (omega arith) (omega arith))

pub crc_loop-IsCrc : (c : ℕ) (bs : List ℕ) → IsCrc c → AllBytes bs → IsCrc (crc_loop c bs)
unfolding crc_loop
crc_loop-IsCrc c [] h k = h
crc_loop-IsCrc c (b ∷ bs) h k = crc_loop-IsCrc (crc_byte c b) bs (crc_byte-IsCrc c b h k.0) k.1

-- The top bit of the next state tells whether the last bit of this one was set.
crc_round_injective : (c d : ℕ) → IsCrc c → IsCrc d → crc_round c ≡ crc_round d → c ≡ d
unfolding crc_round
crc_round_injective c d h k e = ground (
  arith,
  bit_xor_high 15 (c / 2) 0xA001 (omega arith) (omega arith) (omega arith),
  bit_xor_high 15 (d / 2) 0xA001 (omega arith) (omega arith) (omega arith),
  bit_xor_injective_left (c / 2) (d / 2) 0xA001,
)

crc_rounds_injective : (n c d : ℕ) → IsCrc c → IsCrc d → crc_rounds n c ≡ crc_rounds n d → c ≡ d
unfolding crc_rounds
crc_rounds_injective zero c d h k e = e
crc_rounds_injective (suc n) c d h k e = crc_round_injective c d h k (
    crc_rounds_injective n (crc_round c) (crc_round d) (crc_round-IsCrc c h) (crc_round-IsCrc d k)
      e)

crc_byte_injective :
    (b c d : ℕ) → IsByte b → IsCrc c → IsCrc d → crc_byte c b ≡ crc_byte d b → c ≡ d
unfolding crc_byte
crc_byte_injective b c d p h k e = bit_xor_injective_left c d b (
    crc_rounds_injective 8 (bit_xor c b) (bit_xor d b)
      (bit_xor_bound 16 c b (omega arith) (omega arith))
      (bit_xor_bound 16 d b (omega arith) (omega arith)) e)

crc_loop_injective :
    (c d : ℕ) (bs : List ℕ)
    → AllBytes bs
    → IsCrc c
    → IsCrc d
    → crc_loop c bs ≡ crc_loop d bs
    → c ≡ d
unfolding crc_loop
crc_loop_injective c d [] p h k e = e
crc_loop_injective c d (b ∷ bs) p h k e = crc_byte_injective b c d p.0 h k (
    crc_loop_injective (crc_byte c b) (crc_byte d b) bs p.1 (crc_byte-IsCrc c b h p.0)
      (crc_byte-IsCrc d b k p.0) e)

-- An exclusive or that leaves the last bit alone passes through a round, halved.
crc_round_linear : (c z : ℕ) → crc_round (bit_xor c (z * 2)) ≡ bit_xor (crc_round c) z
unfolding crc_round
crc_round_linear c z =
    let half : bit_xor c (z * 2) / 2 ≡ bit_xor (c / 2) z =
      div_two-bit_xor c (z * 2) ∙ ap (bit_xor (c / 2)) (omega arith) in
    ground (
      arith,
      half,
      mod_two-bit_xor c (z * 2),
      bit_xor_assoc (c / 2) z 0xA001,
      bit_xor_assoc (c / 2) 0xA001 z,
      bit_xor_comm z 0xA001,
    )

crc_rounds_linear : (n c z : ℕ) → crc_rounds n (bit_xor c (z * 2 ^ n)) ≡ bit_xor (crc_rounds n c) z
unfolding crc_rounds
crc_rounds_linear zero c z = ap (bit_xor c) (omega arith)
crc_rounds_linear (suc n) c z =
    let regroup : z * 2 ^ suc n ≡ z * 2 ^ n * 2 = omega (arith, mul_pow_suc n z) in
    rw (regroup, crc_round_linear c (z * 2 ^ n)) (crc_rounds_linear n (crc_round c) z)

crc_rounds_add : (n m c : ℕ) → crc_rounds m (crc_rounds n c) ≡ crc_rounds (n + m) c
unfolding crc_rounds
crc_rounds_add zero m c = ap (λ (k : ℕ). crc_rounds k c) {x = m} {y = 0 + m} (omega arith)
crc_rounds_add (suc n) m c =
    crc_rounds_add n m (crc_round c)
    ∙ ap (λ (k : ℕ). crc_rounds k c) {x = suc (n + m)} {y = suc n + m} (omega arith)

-- Two bytes are taken in like one word of sixteen bits, the first byte lowest.
crc_two_bytes :
    (c x y : ℕ) → IsByte x → crc_byte (crc_byte c x) y ≡ crc_rounds 16 (bit_xor c (x + y * 256))
unfolding crc_byte
crc_two_bytes c x y h =
    ap (crc_rounds 8) (sym (crc_rounds_linear 8 (bit_xor c x) y))
    ∙ crc_rounds_add 8 8 (bit_xor (bit_xor c x) (y * 256))
    ∙ ap (crc_rounds 16) (bit_xor_assoc c x (y * 256) ∙ ap (bit_xor c) (bit_xor_byte x y h))

crc_two_bytes_injective :
    (c x y x' y' : ℕ)
    → IsCrc c
    → IsByte x
    → IsByte y
    → IsByte x'
    → IsByte y'
    → crc_byte (crc_byte c x) y ≡ crc_byte (crc_byte c x') y'
    → (x ≡ x') × (y ≡ y')
crc_two_bytes_injective c x y x' y' h p q p' q' e =
    let words : x + y * 256 ≡ x' + y' * 256 =
      bit_xor_injective_right c (x + y * 256) (x' + y' * 256) (
        crc_rounds_injective 16 (bit_xor c (x + y * 256)) (bit_xor c (x' + y' * 256))
          (bit_xor_bound 16 c (x + y * 256) (omega arith) (omega arith))
          (bit_xor_bound 16 c (x' + y' * 256) (omega arith) (omega arith))
          (sym (crc_two_bytes c x y p) ∙ e ∙ crc_two_bytes c x' y' p')) in
    (omega arith, omega arith)

crc_loop-append : (c : ℕ) (xs ys : List ℕ) → crc_loop c (xs ++ ys) ≡ crc_loop (crc_loop c xs) ys
unfolding crc_loop
crc_loop-append c [] ys = refl
crc_loop-append c (x ∷ xs) ys = crc_loop-append (crc_byte c x) xs ys

calculate_crc16-eq-loop : (bs : List ℕ) → AllBytes bs → calculate_crc16 bs ≡ crc_loop 0xFFFF bs
unfolding calculate_crc16
calculate_crc16-eq-loop bs h = omega (arith, crc_loop-IsCrc 0xFFFF bs (omega arith) h)

AllBytes-append : (xs ys : List ℕ) → AllBytes xs → AllBytes ys → AllBytes (xs ++ ys)
AllBytes-append [] ys h k = k
AllBytes-append (x ∷ xs) ys h k = (h.0, AllBytes-append xs ys h.1 k)

-- The register after `pre`, two more bytes and `post`.
calculate_crc16-burst :
    (pre post : List ℕ) (x y : ℕ)
    → AllBytes pre
    → AllBytes post
    → IsByte x
    → IsByte y
    → calculate_crc16 (pre ++ (x ∷ y ∷ post))
      ≡ crc_loop (crc_byte (crc_byte (crc_loop 0xFFFF pre) x) y) post
unfolding crc_loop
calculate_crc16-burst pre post x y hpre hpost p q =
    calculate_crc16-eq-loop (pre ++ (x ∷ y ∷ post))
      (AllBytes-append pre (x ∷ y ∷ post) hpre (p, (q, hpost)))
    ∙ crc_loop-append 0xFFFF pre (x ∷ y ∷ post)

-- Two byte sequences that differ in at most two adjacent bytes and have the same CRC are the same.
-- So a burst of errors within two adjacent bytes, a single wrong byte or bit included, is detected.
pub crc_detects_burst :
    (pre post : List ℕ) (x y x' y' : ℕ)
    → AllBytes pre
    → AllBytes post
    → IsByte x
    → IsByte y
    → IsByte x'
    → IsByte y'
    → calculate_crc16 (pre ++ (x ∷ y ∷ post)) ≡ calculate_crc16 (pre ++ (x' ∷ y' ∷ post))
    → (x ≡ x') × (y ≡ y')
crc_detects_burst pre post x y x' y' hpre hpost p q p' q' e =
    let c = crc_loop 0xFFFF pre in
    let hc : IsCrc c = crc_loop-IsCrc 0xFFFF pre (omega arith) hpre in
    let after = λ (u v : ℕ). crc_byte (crc_byte c u) v in
    let bound = λ (u v : ℕ) (hu : IsByte u) (hv : IsByte v).
      crc_byte-IsCrc (crc_byte c u) v (crc_byte-IsCrc c u hc hu) hv in
    let states : after x y ≡ after x' y' =
      crc_loop_injective (after x y) (after x' y') post hpost (bound x y p q) (bound x' y' p' q') (
        sym (calculate_crc16-burst pre post x y hpre hpost p q)
        ∙ e
        ∙ calculate_crc16-burst pre post x' y' hpre hpost p' q') in
    crc_two_bytes_injective c x y x' y' hc p q p' q' states

-- The CRC fits the two bytes that `_build_frame` gives it.
pub calculate_crc16-lt : (bs : List ℕ) → calculate_crc16 bs < 65536
unfolding calculate_crc16
calculate_crc16-lt bs = omega arith
