-- ===== src/Chain/Payment.antt =====
-- `cw_utils::must_pay`, as an interface.
use dexter_core.Prelude.{ℕ, ◌+◌, ◌≡◌, Option, none, some, List, [], ◌∷◌, arith, ◌==◌, if◌then◌else◌}
use dexter_core.Chain.{Name, Coin, MessageInfo}

-- What was sent of a denom.
abbrev pub sent : Name → List Coin → ℕ
sent denom [] = 0
sent denom (coin ∷ coins) = (if coin.denom == denom then coin.amount else 0) + sent denom coins

pub record Payment : Type 0 where
  -- the amount, if nothing but a positive amount of the denom was sent
  pub must_pay : MessageInfo → Name → Option ℕ
  pub must_pay_lem :
      (info : MessageInfo) (denom : Name) (amount : ℕ)
      → must_pay info denom ≡ some amount
      → sent denom info.funds ≡ amount

pub only_coin : Name → List Coin → Option ℕ
only_coin denom [] = none
only_coin denom (coin ∷ []) =
    if coin.denom == denom then (if coin.amount == 0 then none else some coin.amount) else none
only_coin denom (a ∷ b ∷ coins) = none

pub only_coin-sent :
    (denom : Name) (coins : List Coin) (amount : ℕ)
    → only_coin denom coins ≡ some amount
    → sent denom coins ≡ amount
unfolding only_coin
only_coin-sent denom [] amount e = cc
only_coin-sent denom (coin ∷ []) amount e = ground arith
only_coin-sent denom (a ∷ b ∷ coins) amount e = cc

-- The law can be met.
abbrev pub exact_payment : Payment
unfolding only_coin
exact_payment = record {
  must_pay = λ info denom. only_coin denom info.funds;
  must_pay_lem = λ info denom amount e. only_coin-sent denom info.funds amount e;
}
