-- ===== src/Float/Sample.antt =====
-- Numbers that stand in for floats: four times a number, and a tag that says how it was made.
use tuning_tools.Base.{
  List, [], ◌∷◌, Option, none, some, ℕ, ◌≡◌, ◌<◌, ◌^◌, ◌*◌, ◌+◌, ◌-◌, ◌/◌, ◌%◌, true, false, arith,
  not, ltb, leb, ◌==◌, if◌then◌else◌,
}
use tuning_tools.Float.{Floats}

-- The order of what a number stands for, from -2 ^ 31 on.
abbrev pub rank : ℕ → ℕ
rank v = if v % 4 == 1 then (v / 4 + 2 ^ 31) % 2 ^ 32 else v / 4 + 2 ^ 31

pub to_u32_lt : (v : ℕ) → v / 4 % 2 ^ 32 < 2 ^ 32
to_u32_lt v = ground arith

pub to_of_u32 : (n : ℕ) → n < 2 ^ 32 → 4 * n / 4 % 2 ^ 32 ≡ n
to_of_u32 n h = ground arith

pub to_of_i32 : (n : ℕ) → n < 2 ^ 32 → (4 * n + 1) / 4 % 2 ^ 32 ≡ n
to_of_i32 n h = ground arith

pub finite_nan : (v : ℕ) → not (v % 4 == 3) ≡ true → (v % 4 == 3) ≡ false
finite_nan v h = ground arith

pub finite_u32 : (n : ℕ) → n < 2 ^ 32 → not (4 * n % 4 == 3) ≡ true
finite_u32 n h = ground arith

pub finite_i32 : (n : ℕ) → n < 2 ^ 32 → not ((4 * n + 1) % 4 == 3) ≡ true
finite_i32 n h = ground arith

-- From 2 ^ 31 on, an `f32` stands for one that is not finite.
abbrev pub from_f32 : ℕ → ℕ
from_f32 n = if ltb n (2 ^ 31) then 4 * n + 2 else 4 * n + 3

pub finite_from_f32 : (n : ℕ) → n < 2 ^ 32 → not (from_f32 n % 4 == 3) ≡ ltb n (2 ^ 31)
finite_from_f32 n h = ground arith

-- A text is the number itself.
abbrev pub parse_f64 : List ℕ → Option ℕ
parse_f64 [] = none
parse_f64 (n ∷ rest) = some (from_f32 n)

pub whole_u32 : (n : ℕ) → n < 2 ^ 32 → not (4 * n % 4 == 2) ≡ true
whole_u32 n h = ground arith

pub whole_i32 : (n : ℕ) → n < 2 ^ 32 → not ((4 * n + 1) % 4 == 2) ≡ true
whole_i32 n h = ground arith

pub le_u32 : (m n : ℕ) → m < 2 ^ 32 → n < 2 ^ 32 → leb (rank (4 * m)) (rank (4 * n)) ≡ leb m n
le_u32 m n h k = ground arith

pub eq_u32 : (m n : ℕ) → m < 2 ^ 32 → n < 2 ^ 32 → (4 * m == 4 * n) ≡ (m == n)
eq_u32 m n h k = ground arith

pub above_i32 : (n : ℕ) → n < 2 ^ 32 → leb (rank (4 * 2 ^ 31 + 1)) (rank (4 * n + 1)) ≡ true
above_i32 n h = ground arith

pub below_i32 : (n : ℕ) → n < 2 ^ 32 → leb (rank (4 * n + 1)) (rank (4 * (2 ^ 31 - 1) + 1)) ≡ true
below_i32 n h = ground arith

abbrev pub sample_floats : Floats
sample_floats = record {
  is_finite = λ v. not (v % 4 == 3);
  is_nan = λ v. v % 4 == 3;
  is_whole = λ v. not (v % 4 == 2);
  f32_is_finite = λ n. ltb n (2 ^ 31);
  le = λ a b. leb (rank a) (rank b);
  eq = λ a b. a == b;
  of_u32 = λ n. 4 * n;
  of_i32 = λ n. 4 * n + 1;
  to_u32 = λ v. v / 4 % 2 ^ 32;
  to_i32 = λ v. v / 4 % 2 ^ 32;
  to_f32 = λ v. v / 4 % 2 ^ 32;
  from_f32 = from_f32;
  show_f32 = λ n. n ∷ [];
  parse_f64 = parse_f64;
  to_i32_lt = to_u32_lt;
  to_f32_lt = to_u32_lt;
  to_u32_lt = to_u32_lt;
  to_of_u32 = to_of_u32;
  to_of_i32 = to_of_i32;
  finite_nan = finite_nan;
  finite_u32 = finite_u32;
  finite_i32 = finite_i32;
  finite_from_f32 = finite_from_f32;
  whole_u32 = whole_u32;
  whole_i32 = whole_i32;
  le_u32 = le_u32;
  eq_u32 = eq_u32;
  above_i32 = above_i32;
  below_i32 = below_i32;
}
