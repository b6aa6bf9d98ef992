-- ===== src/Prelude/Bits.antt =====
-- `^` and `|` on natural numbers of every width, as facts that arithmetic reads.
use Prim.Native.Nat.{
  ℕ, zero, suc, ◌+◌, ◌-◌, ◌*◌, ◌/◌, ◌%◌, ◌^◌, ◌≤◌, ◌<◌, max, digits, bitwise, bit_or, bit_xor,
  bit_or-bitwise, bit_xor-bitwise, differ,
}
use mathlib.Core.Path.{◌≡◌, refl, sym, ap, ◌∙◌}
use native.Mathlib.Nat.{le_refl, pow-suc}
use native.Mathlib.Omega.{arith}

-- The native operations are `bitwise`, whose count of digits is the first number; a larger count
-- changes nothing.
module _ (end : ℕ → ℕ) (op : ℕ → ℕ → ℕ) where
  digits_one_more :
      (count x y : ℕ) → x ≤ count → digits end op (suc count) x y ≡ digits end op count x y
  digits_one_more zero zero y small = refl
  digits_one_more (suc count) zero y small = refl
  digits_one_more zero (suc x) y small = absurd (omega arith)
  digits_one_more (suc count) (suc x) y small =
      rw (digits_one_more count (suc x / 2) (y / 2) (omega arith)) refl

  digits_more : (extra x y : ℕ) → digits end op (extra + x) x y ≡ bitwise end op x y
  digits_more zero x y = ap (λ (n : ℕ). digits end op n x y) {x = 0 + x} {y = x} (omega arith)
  digits_more (suc extra) x y =
      ap (λ (n : ℕ). digits end op n x y) {x = suc extra + x} {y = suc (extra + x)} (omega arith)
      ∙ digits_one_more (extra + x) x y (omega arith)
      ∙ digits_more extra x y

  bitwise-suc :
      (x y : ℕ)
      → bitwise end op (suc x) y ≡ bitwise end op (suc x / 2) (y / 2) * 2 + op (suc x % 2) (y % 2)
  bitwise-suc x y =
      let half = suc x / 2 in
      let split : x - half + half ≡ x = omega arith in
      let rest = digits_more (x - half) half (y / 2) in
      ap (λ (n : ℕ). digits end op n half (y / 2) * 2 + op (suc x % 2) (y % 2)) (sym split)
      ∙ ap (λ (n : ℕ). n * 2 + op (suc x % 2) (y % 2)) rest

zero-bit_or : (b : ℕ) → bit_or 0 b ≡ b
zero-bit_or b = bit_or-bitwise 0 b

zero-bit_xor : (b : ℕ) → bit_xor 0 b ≡ b
zero-bit_xor b = bit_xor-bitwise 0 b

bit_or_step : (x y : ℕ) → bit_or x y ≡ bit_or (x / 2) (y / 2) * 2 + max (x % 2) (y % 2)
bit_or_step (suc x) y = simp bit_or-bitwise (bitwise-suc (λ rest. rest) max x y)
bit_or_step zero y = omega (arith, zero-bit_or y, zero-bit_or (y / 2))

-- The lowest digit of an exclusive or is the sum of the lowest digits modulo 2.
differ_bit : (x y : ℕ) → x < 2 → y < 2 → differ x y ≡ (x + y) % 2
differ_bit zero y p q = omega arith
differ_bit (suc zero) zero p q = refl
differ_bit (suc zero) (suc zero) p q = refl
differ_bit (suc zero) (suc (suc y)) p q = absurd (omega arith)
differ_bit (suc (suc x)) y p q = absurd (omega arith)

differ-eq : (a b : ℕ) → differ (a % 2) (b % 2) ≡ (a + b) % 2
differ-eq a b = omega (arith, differ_bit (a % 2) (b % 2) (omega arith) (omega arith))

bit_xor_step : (a b : ℕ) → bit_xor a b ≡ bit_xor (a / 2) (b / 2) * 2 + (a + b) % 2
bit_xor_step zero b = omega (arith, zero-bit_xor b, zero-bit_xor (b / 2))
bit_xor_step (suc a) b =
    simp bit_xor-bitwise (omega (arith, bitwise-suc (λ y. y) differ a b, differ-eq (suc a) b))

bit_or-zero_fuel : (n a : ℕ) → a ≤ n → bit_or a 0 ≡ a
bit_or-zero_fuel n zero h = refl
bit_or-zero_fuel zero (suc a) h = absurd (omega arith)
bit_or-zero_fuel (suc n) (suc a) h =
    omega (arith, bit_or_step (suc a) 0, bit_or-zero_fuel n (suc a / 2) (omega arith))

pub bit_or-zero : (a : ℕ) → bit_or a 0 ≡ a
bit_or-zero a = bit_or-zero_fuel a a (le_refl a)

pub mul_pow_suc : (k q : ℕ) → q * 2 ^ suc k ≡ q * 2 ^ k * 2
mul_pow_suc k q = ap (λ (power : ℕ). q * power) (pow-suc 2 k) ∙ omega arith

-- `r | (q << k)` is a sum when `r` fits in `k` bits.
pub bit_or_fields : (k r q : ℕ) → r < 2 ^ k → bit_or r (q * 2 ^ k) ≡ r + q * 2 ^ k
bit_or_fields zero r q fits = ground (arith, zero-bit_or q)
bit_or_fields (suc k) r q fits = ground (
  arith,
  bit_or_step r (q * 2 ^ suc k),
  mul_pow_suc k q,
  pow-suc 2 k,
  bit_or_fields k (r / 2) q (omega arith),
)

bit_xor-self_fuel : (n b : ℕ) → b ≤ n → bit_xor b b ≡ 0
bit_xor-self_fuel n zero h = refl
bit_xor-self_fuel zero (suc b) h = absurd (omega arith)
bit_xor-self_fuel (suc n) (suc b) h =
    omega (arith, bit_xor_step (suc b) (suc b), bit_xor-self_fuel n (suc b / 2) (omega arith))

bit_xor-zero_fuel : (n b : ℕ) → b ≤ n → bit_xor b 0 ≡ b
bit_xor-zero_fuel n zero h = refl
bit_xor-zero_fuel zero (suc b) h = absurd (omega arith)
bit_xor-zero_fuel (suc n) (suc b) h =
    omega (arith, bit_xor_step (suc b) 0, bit_xor-zero_fuel n (suc b / 2) (omega arith))

bit_xor_comm_fuel : (n a b : ℕ) → a ≤ n → bit_xor a b ≡ bit_xor b a
bit_xor_comm_fuel n zero b h = omega (arith, zero-bit_xor b, bit_xor-zero_fuel b b (le_refl b))
bit_xor_comm_fuel zero (suc a) b h = absurd (omega arith)
bit_xor_comm_fuel (suc n) (suc a) b h = omega (
  arith,
  bit_xor_step (suc a) b,
  bit_xor_step b (suc a),
  bit_xor_comm_fuel n (suc a / 2) (b / 2) (omega arith),
)

pub bit_xor_comm : (a b : ℕ) → bit_xor a b ≡ bit_xor b a
bit_xor_comm a b = bit_xor_comm_fuel a a b (le_refl a)

bit_xor_cancel_fuel : (n a b : ℕ) → a ≤ n → bit_xor (bit_xor a b) b ≡ a
bit_xor_cancel_fuel n zero b h = rw (zero-bit_xor b) (bit_xor-self_fuel b b (le_refl b))
bit_xor_cancel_fuel zero (suc a) b h = absurd (omega arith)
bit_xor_cancel_fuel (suc n) (suc a) b h =
    let x = bit_xor (suc a) b in
    let e : x / 2 ≡ bit_xor (suc a / 2) (b / 2) = omega (arith, bit_xor_step (suc a) b) in
    let f : bit_xor (x / 2) (b / 2) ≡ suc a / 2 =
      rw e (bit_xor_cancel_fuel n (suc a / 2) (b / 2) (omega arith)) in
    omega (arith, bit_xor_step x b, bit_xor_step (suc a) b)

-- Exclusive or by the same number undoes itself.
pub bit_xor_cancel : (a b : ℕ) → bit_xor (bit_xor a b) b ≡ a
bit_xor_cancel a b = bit_xor_cancel_fuel a a b (le_refl a)

pub bit_xor_injective_left : (a c b : ℕ) → bit_xor a b ≡ bit_xor c b → a ≡ c
bit_xor_injective_left a c b h = cc (bit_xor_cancel a b, bit_xor_cancel c b, h)

pub bit_xor_injective_right : (a b c : ℕ) → bit_xor a b ≡ bit_xor a c → b ≡ c
bit_xor_injective_right a b c h =
    bit_xor_injective_left b c a (cc (bit_xor_comm a b, bit_xor_comm a c, h))

-- The highest digit of an exclusive or is the sum of the highest digits modulo 2.
pub bit_xor_high : (k a b : ℕ) → a < 2 ^ k → 2 ^ k ≤ b → b < 2 * 2 ^ k → 2 ^ k ≤ bit_xor a b
bit_xor_high zero a b p q r = omega (arith, bit_xor_step a b)
bit_xor_high (suc k) a b p q r = omega (
  arith,
  bit_xor_step a b,
  pow-suc 2 k,
  bit_xor_high k (a / 2) (b / 2) (omega (arith, pow-suc 2 k)) (omega (arith, pow-suc 2 k))
      (omega (arith, pow-suc 2 k)),
)

-- The exclusive or of two numbers of `k` bits has `k` bits.
pub bit_xor_bound : (k a b : ℕ) → a < 2 ^ k → b < 2 ^ k → bit_xor a b < 2 ^ k
bit_xor_bound zero zero zero p q = omega (arith, zero-bit_xor 0)
bit_xor_bound zero zero (suc b) p q = absurd (omega arith)
bit_xor_bound zero (suc a) b p q = absurd (omega arith)
bit_xor_bound (suc k) a b p q = omega (
  arith,
  bit_xor_step a b,
  pow-suc 2 k,
  bit_xor_bound k (a / 2) (b / 2) (omega (arith, pow-suc 2 k)) (omega (arith, pow-suc 2 k)),
)

-- `r ^ (q << k)` is a sum when `r` fits in `k` bits.
pub bit_xor_fields : (k r q : ℕ) → r < 2 ^ k → bit_xor r (q * 2 ^ k) ≡ r + q * 2 ^ k
bit_xor_fields zero r q fits = ground (arith, zero-bit_xor q)
bit_xor_fields (suc k) r q fits = ground (
  arith,
  bit_xor_step r (q * 2 ^ suc k),
  mul_pow_suc k q,
  pow-suc 2 k,
  bit_xor_fields k (r / 2) q (omega arith),
)

-- Exclusive or is associative.
bit_xor_assoc_fuel : (n a b c : ℕ) → a ≤ n → bit_xor (bit_xor a b) c ≡ bit_xor a (bit_xor b c)
bit_xor_assoc_fuel n zero b c h = rw (zero-bit_xor b) (sym (zero-bit_xor (bit_xor b c)))
bit_xor_assoc_fuel zero (suc a) b c h = absurd (omega arith)
bit_xor_assoc_fuel (suc n) (suc a) b c h =
    let x = bit_xor (suc a) b in
    let y = bit_xor b c in
    let e : x / 2 ≡ bit_xor (suc a / 2) (b / 2) = omega (arith, bit_xor_step (suc a) b) in
    let f : y / 2 ≡ bit_xor (b / 2) (c / 2) = omega (arith, bit_xor_step b c) in
    let g : bit_xor (x / 2) (c / 2) ≡ bit_xor (suc a / 2) (y / 2) =
      rw (e, f) (bit_xor_assoc_fuel n (suc a / 2) (b / 2) (c / 2) (omega arith)) in
    omega
      (arith, bit_xor_step x c, bit_xor_step (suc a) y, bit_xor_step (suc a) b, bit_xor_step b c)

pub bit_xor_assoc : (a b c : ℕ) → bit_xor (bit_xor a b) c ≡ bit_xor a (bit_xor b c)
bit_xor_assoc a b c = bit_xor_assoc_fuel a a b c (le_refl a)

-- Halving distributes over exclusive or.
pub div_two-bit_xor : (a b : ℕ) → bit_xor a b / 2 ≡ bit_xor (a / 2) (b / 2)
div_two-bit_xor a b = omega (arith, bit_xor_step a b)

pub mod_two-bit_xor : (a b : ℕ) → bit_xor a b % 2 ≡ (a + b) % 2
mod_two-bit_xor a b = omega (arith, bit_xor_step a b)

-- Numbers of disjoint bytes add up.
pub bit_xor_byte : (x y : ℕ) → x < 256 → bit_xor x (y * 256) ≡ x + y * 256
bit_xor_byte x y h = bit_xor_fields 8 x y h
