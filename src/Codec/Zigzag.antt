-- ===== src/Codec/Zigzag.antt =====
-- EncodeZigzag32/64 and DecodeZigzag32/64, on the bit patterns of int32_t and int64_t.
-- Signed arithmetic is taken to wrap, as it does in two's complement: the code negates the least
-- integer and doubles integers beyond a quarter of the range.
use Prim.Native.Nat.{bit_xor}
use native.Mathlib.Decide.{dec_lt}
use mathlib.Core.Path.{ap₂}
use net_ninja.Common.{ℕ, ◌+◌, ◌-◌, ◌*◌, ◌/◌, ◌%◌, ◌^◌, ◌<◌, ◌≡◌, sym, ap, ◌∙◌, arith}
use net_ninja.Common.Bits.{bit_and_mask, bit_xor_ones, bit_xor-zero}
use net_ninja.Codec.{encode_zigzag32, encode_zigzag64, decode_zigzag32, decode_zigzag64}

low_even :
    (n : ℕ) → n < 2 ^ 31 → bit_xor (2 * n / 2) ((2 ^ 32 - 2 * n % 2 ^ 1) % 2 ^ 32) ≡ bit_xor n 0
low_even n h =
    let half : 2 * n / 2 ≡ n = omega arith in
    let mask : (2 ^ 32 - 2 * n % 2 ^ 1) % 2 ^ 32 ≡ 0 = omega arith in ap₂ bit_xor half mask

low_odd :
    (n : ℕ)
    → n < 2 ^ 31
    → bit_xor ((2 * n + 1) / 2) ((2 ^ 32 - (2 * n + 1) % 2 ^ 1) % 2 ^ 32) ≡ bit_xor n (2 ^ 32 - 1)
low_odd n h =
    let half : (2 * n + 1) / 2 ≡ n = omega arith in
    let mask : (2 ^ 32 - (2 * n + 1) % 2 ^ 1) % 2 ^ 32 ≡ 2 ^ 32 - 1 = omega arith in
    ap₂ bit_xor half mask

decode32-even : (n : ℕ) → n < 2 ^ 31 → decode_zigzag32 (2 * n) ≡ n
unfolding decode_zigzag32
decode32-even n h = rw (bit_and_mask 1 (2 * n)) (low_even n h ∙ bit_xor-zero n n (omega arith))

decode32-odd : (n : ℕ) → n < 2 ^ 31 → decode_zigzag32 (2 * n + 1) ≡ 2 ^ 32 - 1 - n
unfolding decode_zigzag32
decode32-odd n h = rw (bit_and_mask 1 (2 * n + 1)) (low_odd n h ∙ bit_xor_ones 32 n (omega arith))

-- An integer n of 0 to 2^31 - 1 is encoded as 2n, and -(n + 1) as 2n + 1: small absolute values
-- become small numbers.
pub encode_zigzag32-eq :
    (n : ℕ)
    → n < 2 ^ 31
    → (encode_zigzag32 n ≡ 2 * n) × (encode_zigzag32 (2 ^ 32 - 1 - n) ≡ 2 * n + 1)
unfolding encode_zigzag32
encode_zigzag32-eq n h = (ground arith, ground arith)

-- Decoding an encoded int32_t gives it back.
pub decode-encode_zigzag32 : (v : ℕ) → v < 2 ^ 32 → decode_zigzag32 (encode_zigzag32 v) ≡ v
decode-encode_zigzag32 v h = elim (dec_lt v (2 ^ 31)) [
  | yes low ↦ rw ((encode_zigzag32-eq v low).0) (decode32-even v low)
  | no high ↦
      let n : ℕ = 2 ^ 32 - 1 - v in
      let e : 2 ^ 32 - 1 - n ≡ v = omega arith in
      ap (λ (t : ℕ). decode_zigzag32 (encode_zigzag32 t)) (sym e)
      ∙ ap decode_zigzag32 ((encode_zigzag32-eq n (omega arith)).1)
      ∙ decode32-odd n (omega arith)
      ∙ e
]

pub encode_zigzag32-lt : (v : ℕ) → encode_zigzag32 v < 2 ^ 32
unfolding encode_zigzag32
encode_zigzag32-lt v = ground arith

wide_even :
    (n : ℕ) → n < 2 ^ 63 → bit_xor (2 * n / 2) ((2 ^ 64 - 2 * n % 2 ^ 1) % 2 ^ 64) ≡ bit_xor n 0
wide_even n h =
    let half : 2 * n / 2 ≡ n = omega arith in
    let mask : (2 ^ 64 - 2 * n % 2 ^ 1) % 2 ^ 64 ≡ 0 = omega arith in ap₂ bit_xor half mask

wide_odd :
    (n : ℕ)
    → n < 2 ^ 63
    → bit_xor ((2 * n + 1) / 2) ((2 ^ 64 - (2 * n + 1) % 2 ^ 1) % 2 ^ 64) ≡ bit_xor n (2 ^ 64 - 1)
wide_odd n h =
    let half : (2 * n + 1) / 2 ≡ n = omega arith in
    let mask : (2 ^ 64 - (2 * n + 1) % 2 ^ 1) % 2 ^ 64 ≡ 2 ^ 64 - 1 = omega arith in
    ap₂ bit_xor half mask

decode64-even : (n : ℕ) → n < 2 ^ 63 → decode_zigzag64 (2 * n) ≡ n
unfolding decode_zigzag64
decode64-even n h = rw (bit_and_mask 1 (2 * n)) (wide_even n h ∙ bit_xor-zero n n (omega arith))

decode64-odd : (n : ℕ) → n < 2 ^ 63 → decode_zigzag64 (2 * n + 1) ≡ 2 ^ 64 - 1 - n
unfolding decode_zigzag64
decode64-odd n h = rw (bit_and_mask 1 (2 * n + 1)) (wide_odd n h ∙ bit_xor_ones 64 n (omega arith))

-- An integer n of 0 to 2^31 - 1 is encoded as 2n, and -(n + 1) as 2n + 1: small absolute values
-- become small numbers.
pub encode_zigzag64-eq :
    (n : ℕ)
    → n < 2 ^ 63
    → (encode_zigzag64 n ≡ 2 * n) × (encode_zigzag64 (2 ^ 64 - 1 - n) ≡ 2 * n + 1)
unfolding encode_zigzag64
encode_zigzag64-eq n h = (ground arith, ground arith)

-- Decoding an encoded int64_t gives it back.
pub decode-encode_zigzag64 : (v : ℕ) → v < 2 ^ 64 → decode_zigzag64 (encode_zigzag64 v) ≡ v
decode-encode_zigzag64 v h = elim (dec_lt v (2 ^ 63)) [
  | yes low ↦ rw ((encode_zigzag64-eq v low).0) (decode64-even v low)
  | no high ↦
      let n : ℕ = 2 ^ 64 - 1 - v in
      let e : 2 ^ 64 - 1 - n ≡ v = omega arith in
      ap (λ (t : ℕ). decode_zigzag64 (encode_zigzag64 t)) (sym e)
      ∙ ap decode_zigzag64 ((encode_zigzag64-eq n (omega arith)).1)
      ∙ decode64-odd n (omega arith)
      ∙ e
]

pub encode_zigzag64-lt : (v : ℕ) → encode_zigzag64 v < 2 ^ 64
unfolding encode_zigzag64
encode_zigzag64-lt v = ground arith
