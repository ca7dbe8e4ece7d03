-- ===== src/Base/Bits.antt =====
-- Exclusive or on words: one digit at a time, and within a width. `bit_xor` stands for a recursion
-- on binary digits with fuel; here the fuel is dropped.
use Prim.Native.Nat.{
  ℕ, zero, suc, ◌+◌, ◌*◌, ◌/◌, ◌%◌, ◌^◌, ◌≤◌, ◌<◌, bit_xor, differ, digits, bit_xor-bitwise,
}
use mathlib.Core.Path.{◌≡◌, refl, sym, ◌∙◌, ap}
use native.Mathlib.Omega.{arith}
use native.Mathlib.Nat.{pow-suc}

abbrev xor_digits : ℕ → ℕ → ℕ → ℕ
xor_digits n a b = digits (λ y. y) differ n a b

xor_digits_fuel : (n m a b : ℕ) → a ≤ n → a ≤ m → xor_digits n a b ≡ xor_digits m a b
xor_digits_fuel zero zero a b p q = refl
xor_digits_fuel zero (suc m) zero b p q = refl
xor_digits_fuel zero (suc m) (suc a) b p q = absurd (omega arith)
xor_digits_fuel (suc n) zero zero b p q = refl
xor_digits_fuel (suc n) zero (suc a) b p q = absurd (omega arith)
xor_digits_fuel (suc n) (suc m) zero b p q = refl
xor_digits_fuel (suc n) (suc m) (suc a) b p q =
    rw (xor_digits_fuel n m (suc a / 2) (b / 2) (omega arith) (omega arith))

differ_lem : (x y : ℕ) → x < 2 → y < 2 → differ x y ≡ (x + y) % 2
differ_lem zero y h k = omega arith
differ_lem (suc zero) zero h k = refl
differ_lem (suc zero) (suc zero) h k = refl
differ_lem (suc zero) (suc (suc y)) h k = absurd (omega arith)
differ_lem (suc (suc x)) y h k = absurd (omega arith)

-- The law for the lowest digit.
pub bit_xor_step : (a b : ℕ) → bit_xor a b ≡ bit_xor (a / 2) (b / 2) * 2 + (a + b) % 2
bit_xor_step zero b = simp bit_xor-bitwise (omega arith)
bit_xor_step (suc a) b = omega (
  arith,
  bit_xor-bitwise (suc a) b,
  bit_xor-bitwise (suc a / 2) (b / 2),
  xor_digits_fuel a (suc a / 2) (suc a / 2) (b / 2) (omega arith) (omega arith),
  differ_lem (suc a % 2) (b % 2) (omega arith) (omega arith),
)

-- Of two words of `k` bits, the exclusive or is one too.
pub bit_xor-lt : (k a b : ℕ) → a < 2 ^ k → b < 2 ^ k → bit_xor a b < 2 ^ k
bit_xor-lt zero zero zero h g = omega (arith, bit_xor_step 0 0)
bit_xor-lt zero zero (suc b) h g = absurd (omega arith)
bit_xor-lt zero (suc a) b h g = absurd (omega arith)
bit_xor-lt (suc k) a b h g = omega (
  arith,
  pow-suc 2 k,
  bit_xor_step a b,
  bit_xor-lt k (a / 2) (b / 2) (omega (arith, pow-suc 2 k)) (omega (arith, pow-suc 2 k)),
)

-- The same mask twice takes itself away.
pub bit_xor_cancel : (k a c : ℕ) → a < 2 ^ k → c < 2 ^ k → bit_xor (bit_xor a c) c ≡ a
bit_xor_cancel zero zero zero h g = refl
bit_xor_cancel zero zero (suc c) h g = absurd (omega arith)
bit_xor_cancel zero (suc a) c h g = absurd (omega arith)
bit_xor_cancel (suc k) a c h g =
    let half : bit_xor a c / 2 ≡ bit_xor (a / 2) (c / 2) = omega (arith, bit_xor_step a c) in
    let rest : bit_xor (bit_xor (a / 2) (c / 2)) (c / 2) ≡ a / 2 =
      bit_xor_cancel k (a / 2) (c / 2) (omega (arith, pow-suc 2 k)) (omega (arith, pow-suc 2 k)) in
    let outer : bit_xor (bit_xor a c / 2) (c / 2) ≡ a / 2 = rw half rest in
    omega (arith, bit_xor_step a c, bit_xor_step (bit_xor a c) c, outer)

-- So a mask takes distinct words to distinct words.
pub bit_xor_injective :
    (k a b c : ℕ) → a < 2 ^ k → b < 2 ^ k → c < 2 ^ k → bit_xor a c ≡ bit_xor b c → a ≡ b
bit_xor_injective k a b c ha hb hc e =
    sym (bit_xor_cancel k a c ha hc) ∙ ap (λ (t : ℕ). bit_xor t c) e ∙ bit_xor_cancel k b c hb hc

pub bit_xor_comm : (k a b : ℕ) → a < 2 ^ k → b < 2 ^ k → bit_xor a b ≡ bit_xor b a
bit_xor_comm zero zero zero h g = refl
bit_xor_comm zero zero (suc b) h g = absurd (omega arith)
bit_xor_comm zero (suc a) b h g = absurd (omega arith)
bit_xor_comm (suc k) a b h g = omega (
  arith,
  pow-suc 2 k,
  bit_xor_step a b,
  bit_xor_step b a,
  bit_xor_comm k (a / 2) (b / 2) (omega (arith, pow-suc 2 k)) (omega (arith, pow-suc 2 k)),
)

-- A mask with bit `k` set sets it in a word below it.
pub bit_xor_top : (k a r : ℕ) → a < 2 ^ k → r < 2 ^ k → bit_xor a (2 ^ k + r) ≡ 2 ^ k + bit_xor a r
bit_xor_top zero zero zero h g = refl
bit_xor_top zero zero (suc b) h g = absurd (omega arith)
bit_xor_top zero (suc a) b h g = absurd (omega arith)
bit_xor_top (suc k) a r h g =
    let half : (2 ^ suc k + r) / 2 ≡ 2 ^ k + r / 2 = omega (arith, pow-suc 2 k) in
    let ih : bit_xor (a / 2) ((2 ^ suc k + r) / 2) ≡ 2 ^ k + bit_xor (a / 2) (r / 2) =
      rw half
        (bit_xor_top k (a / 2) (r / 2) (omega (arith, pow-suc 2 k)) (omega (arith, pow-suc 2 k))) in
    omega (arith, pow-suc 2 k, bit_xor_step a (2 ^ suc k + r), bit_xor_step a r, ih)
