-- ===== src/Chain/Decimal.antt =====
-- cosmwasm_std's `Decimal`, the fixed-point numbers with 18 decimals, as an interface: a value is
-- its count of atomics. The operations are parameters; the laws are their documented results.
use dexter_core.Prelude.{
  ℕ, ◌+◌, ◌-◌, ◌*◌, ◌/◌, ◌^◌, ◌≤◌, ◌<◌, ◌≡◌, refl, Option, none, some, arith, ltb, ◌==◌,
  if◌then◌else◌,
}

abbrev pub scale : ℕ
scale = 10 ^ 18

-- A result that must fit 128 bits.
abbrev pub in_u128 : ℕ → Option ℕ
in_u128 n = if ltb n (2 ^ 128) then some n else none

pub record Decimal : Type 0 where
  -- `Decimal::from_ratio(n, m)`, rounded down; panics on `m = 0` and on an overflow
  pub from_ratio : ℕ → ℕ → Option ℕ
  -- `Uint128 * Decimal`, rounded down
  pub mul_floor : ℕ → ℕ → Option ℕ
  -- `Uint128::checked_mul_ceil`
  pub mul_ceil : ℕ → ℕ → Option ℕ
  -- `Decimal + Decimal`
  pub add : ℕ → ℕ → Option ℕ
  -- `Decimal::checked_sub`
  pub sub : ℕ → ℕ → Option ℕ
  -- `Decimal::checked_mul`, rounded down
  pub mul : ℕ → ℕ → Option ℕ
  -- `Decimal::to_uint_ceil`
  pub to_uint_ceil : ℕ → ℕ
  pub from_ratio_lem :
      (n m : ℕ) → from_ratio n m ≡ (if m == 0 then none else in_u128 (n * scale / m))
  pub mul_floor_lem : (n d : ℕ) → mul_floor n d ≡ in_u128 (n * d / scale)
  pub mul_ceil_lem : (n d : ℕ) → mul_ceil n d ≡ in_u128 ((n * d + (scale - 1)) / scale)
  pub add_lem : (a b : ℕ) → add a b ≡ in_u128 (a + b)
  pub sub_lem : (a b : ℕ) → sub a b ≡ (if ltb a b then none else some (a - b))
  pub mul_lem : (a b : ℕ) → mul a b ≡ in_u128 (a * b / scale)
  pub to_uint_ceil_lem : (a : ℕ) → to_uint_ceil a ≡ (a + (scale - 1)) / scale

-- The laws can be met.
abbrev pub exact : Decimal
exact = record {
  from_ratio = λ n m. if m == 0 then none else in_u128 (n * scale / m);
  mul_floor = λ n d. in_u128 (n * d / scale);
  mul_ceil = λ n d. in_u128 ((n * d + (scale - 1)) / scale);
  add = λ a b. in_u128 (a + b);
  sub = λ a b. if ltb a b then none else some (a - b);
  mul = λ a b. in_u128 (a * b / scale);
  to_uint_ceil = λ a. (a + (scale - 1)) / scale;
  from_ratio_lem = λ n m. refl;
  mul_floor_lem = λ n d. refl;
  mul_ceil_lem = λ n d. refl;
  add_lem = λ a b. refl;
  sub_lem = λ a b. refl;
  mul_lem = λ a b. refl;
  to_uint_ceil_lem = λ a. refl;
}

module _ (d : Decimal) where
  -- The quotient that `from_ratio` returns, by its remainder bounds.
  pub from_ratio_eq :
      (n m r : ℕ)
      → d.from_ratio n m ≡ some r
      → (0 < m) × (r * m ≤ n * scale) × (n * scale < r * m + m)
  from_ratio_eq n m r h = grind (arith, d.from_ratio_lem n m)

  pub mul_floor_eq :
      (n x r : ℕ) → d.mul_floor n x ≡ some r → (r * scale ≤ n * x) × (n * x < r * scale + scale)
  mul_floor_eq n x r h = ground (arith, d.mul_floor_lem n x)

  pub mul_ceil_eq :
      (n x r : ℕ) → d.mul_ceil n x ≡ some r → (n * x ≤ r * scale) × (r * scale < n * x + scale)
  mul_ceil_eq n x r h = ground (arith, d.mul_ceil_lem n x)

  pub add_eq : (a b r : ℕ) → d.add a b ≡ some r → r ≡ a + b
  add_eq a b r h = ground (arith, d.add_lem a b)

  pub sub_eq : (a b r : ℕ) → d.sub a b ≡ some r → a ≡ r + b
  sub_eq a b r h = ground (arith, d.sub_lem a b)

  pub mul_eq : (a b r : ℕ) → d.mul a b ≡ some r → (r * scale ≤ a * b) × (a * b < r * scale + scale)
  mul_eq a b r h = ground (arith, d.mul_lem a b)

  pub to_uint_ceil_eq :
      (a : ℕ) → (a ≤ d.to_uint_ceil a * scale) × (d.to_uint_ceil a * scale < a + scale)
  to_uint_ceil_eq a = ground (arith, d.to_uint_ceil_lem a)
