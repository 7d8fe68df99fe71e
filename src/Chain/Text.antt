-- ===== src/Chain/Text.antt =====
-- What the contracts ask of a string besides equality, as an interface.
use dexter_core.Prelude.{ℕ, ◌-◌, ◌≡◌, ◌⊎◌, Bool, true, false, leb, arith}
use dexter_core.Chain.{Name}

pub record Text : Type 0 where
  -- `to_lowercase`
  pub lower : Name → Name
  -- the order of strings
  pub at_most : Name → Name → Bool
  -- `starts_with("ibc/")`
  pub is_ibc : Name → Bool
  pub empty : Name
  pub at_most_total : (a b : Name) → (at_most a b ≡ true) ⊎ (at_most b a ≡ true)
  pub at_most_trans : (a b c : Name) → at_most a b ≡ true → at_most b c ≡ true → at_most a c ≡ true
  pub at_most_antisym : (a b : Name) → at_most a b ≡ true → at_most b a ≡ true → a ≡ b

pub leb_total : (a b : ℕ) → (leb a b ≡ true) ⊎ (leb b a ≡ true)
leb_total a b = ground arith

pub leb_trans : (a b c : ℕ) → leb a b ≡ true → leb b c ≡ true → leb a c ≡ true
leb_trans a b c h k = ground arith

pub leb_antisym : (a b : ℕ) → leb a b ≡ true → leb b a ≡ true → a ≡ b
leb_antisym a b h k = ground arith

-- The laws can be met: one-letter strings, of which the numbers from 100 on are upper case.
abbrev pub letters : Text
letters = record {
  lower = λ n. elim (leb 100 n) [ true ↦ n - 100 | false ↦ n ];
  at_most = leb;
  is_ibc = λ n. false;
  empty = 0;
  at_most_total = leb_total;
  at_most_trans = leb_trans;
  at_most_antisym = leb_antisym;
}
