-- ===== src/Chain/Words.antt =====
-- `u64` and `Uint128`: natural numbers below the width, and sums and differences that say when they
-- leave it. (The workspace is built with overflow checks, so `+` and `-` abort there.)
use dexter_core.Prelude.{
  ℕ, ◌+◌, ◌-◌, ◌^◌, ◌≤◌, ◌<◌, ◌≡◌, Option, none, some, arith, ltb, if◌then◌else◌,
}

abbrev pub u64_mod : ℕ
u64_mod = 2 ^ 64

abbrev pub u128_mod : ℕ
u128_mod = 2 ^ 128

unfoldable pub add_u64 : ℕ → ℕ → Option ℕ
add_u64 a b = if ltb (a + b) u64_mod then some (a + b) else none

unfoldable pub add_u128 : ℕ → ℕ → Option ℕ
add_u128 a b = if ltb (a + b) u128_mod then some (a + b) else none

unfoldable pub checked_sub : ℕ → ℕ → Option ℕ
checked_sub a b = if ltb a b then none else some (a - b)

pub add_u64_eq : (a b c : ℕ) → add_u64 a b ≡ some c → (c ≡ a + b) × (c < 2 ^ 64)
unfolding add_u64
add_u64_eq a b c h = ground arith

pub add_u128_eq : (a b c : ℕ) → add_u128 a b ≡ some c → (c ≡ a + b) × (c < 2 ^ 128)
unfolding add_u128
add_u128_eq a b c h = ground arith

pub checked_sub_eq : (a b c : ℕ) → checked_sub a b ≡ some c → (a ≡ c + b)
unfolding checked_sub
checked_sub_eq a b c h = ground arith

pub add_u64_fits : (a b : ℕ) → a + b < 2 ^ 64 → add_u64 a b ≡ some (a + b)
unfolding add_u64
add_u64_fits a b h = ground arith

pub add_u128_fits : (a b : ℕ) → a + b < 2 ^ 128 → add_u128 a b ≡ some (a + b)
unfolding add_u128
add_u128_fits a b h = ground arith

pub checked_sub_fits : (a b : ℕ) → b ≤ a → checked_sub a b ≡ some (a - b)
unfolding checked_sub
checked_sub_fits a b h = ground arith
