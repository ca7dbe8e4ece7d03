-- ===== src/Wire/Crc.antt =====
-- The checksum's register: it stays a `u16`, and no two registers or bytes meet in one.
use Prim.Native.Nat.{bit_xor}
use tuning_tools.Base.{ℕ, zero, suc, ◌+◌, ◌/◌, ◌^◌, ◌<◌, ◌≡◌, ◌≢◌, List, [], ◌∷◌, ◌++◌, arith, All}
use tuning_tools.Base.Bits.{bit_xor-lt, bit_xor_injective, bit_xor_top, bit_xor_comm}
use tuning_tools.Base.Bytes.{IsByte}
use tuning_tools.Wire.{crc_bit, crc_bits, crc_byte, crc_from, crc16}

abbrev IsU16 : ℕ → Type 0
IsU16 c = c < 2 ^ 16

crc_bit-lt : (c : ℕ) → IsU16 c → IsU16 (crc_bit c)
unfolding crc_bit
crc_bit-lt c h = ground (arith, bit_xor-lt 16 (c / 2) 0x8408 (omega arith) (omega arith))

crc_bits-lt : (n c : ℕ) → IsU16 c → IsU16 (crc_bits n c)
unfolding crc_bits
crc_bits-lt zero c h = h
crc_bits-lt (suc n) c h = crc_bits-lt n (crc_bit c) (crc_bit-lt c h)

crc_byte-lt : (c b : ℕ) → IsU16 c → IsByte b → IsU16 (crc_byte c b)
unfolding crc_byte
crc_byte-lt c b h k = crc_bits-lt 8 (bit_xor c b) (bit_xor-lt 16 c b h (omega arith))

crc_from-lt : (c : ℕ) (bs : List ℕ) → IsU16 c → All IsByte bs → IsU16 (crc_from c bs)
unfolding crc_from
crc_from-lt c [] h k = h
crc_from-lt c (b ∷ bs) h k = crc_from-lt (crc_byte c b) bs (crc_byte-lt c b h k.0) k.1

pub crc16-lt : (bs : List ℕ) → All IsByte bs → crc16 bs < 2 ^ 16
unfolding crc16
crc16-lt bs h = crc_from-lt 0xffff bs (omega arith) h

-- The polynomial sets the top bit of a halved register, so the top bit tells the branch.
polynomial_top : (c : ℕ) → c < 2 ^ 15 → bit_xor c 0x8408 ≡ 2 ^ 15 + bit_xor c 0x408
polynomial_top c h = bit_xor_top 15 c 0x408 h (omega arith)

crc_bit_injective : (c d : ℕ) → IsU16 c → IsU16 d → crc_bit c ≡ crc_bit d → c ≡ d
unfolding crc_bit
crc_bit_injective c d hc hd e = ground (
  arith,
  polynomial_top (c / 2) (omega arith),
  polynomial_top (d / 2) (omega arith),
  bit_xor_injective 16 (c / 2) (d / 2) 0x8408 (omega arith) (omega arith) (omega arith),
)

crc_bits_injective : (n c d : ℕ) → IsU16 c → IsU16 d → crc_bits n c ≡ crc_bits n d → c ≡ d
unfolding crc_bits
crc_bits_injective zero c d hc hd e = e
crc_bits_injective (suc n) c d hc hd e =
    crc_bit_injective c d hc hd
      (crc_bits_injective n (crc_bit c) (crc_bit d) (crc_bit-lt c hc) (crc_bit-lt d hd) e)

-- At one byte distinct registers stay distinct.
crc_byte_injective :
    (c d b : ℕ) → IsU16 c → IsU16 d → IsByte b → crc_byte c b ≡ crc_byte d b → c ≡ d
unfolding crc_byte
crc_byte_injective c d b hc hd hb e = bit_xor_injective 16 c d b hc hd (omega arith) (
    crc_bits_injective 8 (bit_xor c b) (bit_xor d b) (bit_xor-lt 16 c b hc (omega arith))
      (bit_xor-lt 16 d b hd (omega arith)) e)

-- From one register distinct bytes make distinct registers.
crc_byte_injective_byte :
    (c a b : ℕ) → IsU16 c → IsByte a → IsByte b → crc_byte c a ≡ crc_byte c b → a ≡ b
unfolding crc_byte
crc_byte_injective_byte c a b hc ha hb e =
    bit_xor_injective 16 a b c (omega arith) (omega arith) hc (
      omega (
        arith,
        bit_xor_comm 16 a c (omega arith) hc,
        bit_xor_comm 16 b c (omega arith) hc,
        crc_bits_injective 8 (bit_xor c a) (bit_xor c b) (bit_xor-lt 16 c a hc (omega arith))
            (bit_xor-lt 16 c b hc (omega arith)) e,
      ))

crc_from_injective :
    (c d : ℕ) (bs : List ℕ)
    → IsU16 c
    → IsU16 d
    → All IsByte bs
    → crc_from c bs ≡ crc_from d bs
    → c ≡ d
unfolding crc_from
crc_from_injective c d [] hc hd h e = e
crc_from_injective c d (b ∷ bs) hc hd h e = crc_byte_injective c d b hc hd h.0 (
    crc_from_injective (crc_byte c b) (crc_byte d b) bs (crc_byte-lt c b hc h.0)
      (crc_byte-lt d b hd h.0) h.1 e)

crc_from-replaced :
    (c : ℕ) (front back : List ℕ) (a b : ℕ)
    → IsU16 c
    → All IsByte front
    → IsByte a
    → IsByte b
    → All IsByte back
    → crc_from c (front ++ (a ∷ back)) ≡ crc_from c (front ++ (b ∷ back))
    → a ≡ b
unfolding crc_from
crc_from-replaced c [] back a b hc hf ha hb hk e = crc_byte_injective_byte c a b hc ha hb (
    crc_from_injective (crc_byte c a) (crc_byte c b) back (crc_byte-lt c a hc ha)
      (crc_byte-lt c b hc hb) hk e)
crc_from-replaced c (x ∷ front) back a b hc hf ha hb hk e =
    crc_from-replaced (crc_byte c x) front back a b (crc_byte-lt c x hc hf.0) hf.1 ha hb hk e

-- Two byte strings that differ in one byte, wherever it stands, have different checksums.
pub crc16-detects :
    (front back : List ℕ) (a b : ℕ)
    → All IsByte front
    → All IsByte back
    → IsByte a
    → IsByte b
    → a ≢ b
    → crc16 (front ++ (a ∷ back)) ≢ crc16 (front ++ (b ∷ back))
unfolding crc16
crc16-detects front back a b hf hk ha hb ne e =
    ne (crc_from-replaced 0xffff front back a b (omega arith) hf ha hb hk e)
