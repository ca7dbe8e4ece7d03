-- ===== src/Float.antt =====
-- What the source does with `f64` and `f32`, as an interface. A float is the number that its bits
-- spell. The laws say that the numbers of a `u32` and of an `i32` convert exactly and are compared as
-- they are, that a finite number is a number, and that an `f32` is finite as an `f64` where it is.
pub mod Sample
use tuning_tools.Base.{List, Option, ℕ, ◌≡◌, ◌<◌, ◌^◌, ◌-◌, Bool, true, false, leb, ◌==◌}

-- `to_i32` is `value as i32 as u32`, and `to_f32` the bits of `value as f32`; `of_i32` takes the bits
-- of an `i32`. `from_f32` is `f64::from`, `show_f32` the decimal text of an `f32`, and `parse_f64` reads a
-- text as an `f64`.
pub record Floats : Type 0 where
  pub is_finite : ℕ → Bool
  pub is_nan : ℕ → Bool
  pub is_whole : ℕ → Bool
  pub f32_is_finite : ℕ → Bool
  pub le : ℕ → ℕ → Bool
  pub eq : ℕ → ℕ → Bool
  pub of_u32 : ℕ → ℕ
  pub of_i32 : ℕ → ℕ
  pub to_u32 : ℕ → ℕ
  pub to_i32 : ℕ → ℕ
  pub to_f32 : ℕ → ℕ
  pub from_f32 : ℕ → ℕ
  pub show_f32 : ℕ → List ℕ
  pub parse_f64 : List ℕ → Option ℕ
  pub to_u32_lt : (v : ℕ) → to_u32 v < 2 ^ 32
  pub to_i32_lt : (v : ℕ) → to_i32 v < 2 ^ 32
  pub to_f32_lt : (v : ℕ) → to_f32 v < 2 ^ 32
  pub to_of_u32 : (n : ℕ) → n < 2 ^ 32 → to_u32 (of_u32 n) ≡ n
  pub to_of_i32 : (n : ℕ) → n < 2 ^ 32 → to_i32 (of_i32 n) ≡ n
  pub finite_nan : (v : ℕ) → is_finite v ≡ true → is_nan v ≡ false
  pub finite_u32 : (n : ℕ) → n < 2 ^ 32 → is_finite (of_u32 n) ≡ true
  pub finite_i32 : (n : ℕ) → n < 2 ^ 32 → is_finite (of_i32 n) ≡ true
  pub whole_u32 : (n : ℕ) → n < 2 ^ 32 → is_whole (of_u32 n) ≡ true
  pub whole_i32 : (n : ℕ) → n < 2 ^ 32 → is_whole (of_i32 n) ≡ true
  pub le_u32 : (m n : ℕ) → m < 2 ^ 32 → n < 2 ^ 32 → le (of_u32 m) (of_u32 n) ≡ leb m n
  pub eq_u32 : (m n : ℕ) → m < 2 ^ 32 → n < 2 ^ 32 → eq (of_u32 m) (of_u32 n) ≡ (m == n)
  -- Between `i32::MIN`, of the bits 2 ^ 31, and `i32::MAX`.
  pub above_i32 : (n : ℕ) → n < 2 ^ 32 → le (of_i32 (2 ^ 31)) (of_i32 n) ≡ true
  pub below_i32 : (n : ℕ) → n < 2 ^ 32 → le (of_i32 n) (of_i32 (2 ^ 31 - 1)) ≡ true
  pub finite_from_f32 : (n : ℕ) → n < 2 ^ 32 → is_finite (from_f32 n) ≡ f32_is_finite n

-- Arithmetic on `f64`, of which nothing is asked: `of_u64` is `as f64`, and `seconds` takes a number of
-- nanoseconds.
pub record Arithmetic : Type 0 where
  pub of_u64 : ℕ → ℕ
  pub seconds : ℕ → ℕ
  pub div : ℕ → ℕ → ℕ
  pub mul : ℕ → ℕ → ℕ
  pub is_positive : ℕ → Bool
