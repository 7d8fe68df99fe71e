-- ===== src/Chain.antt =====
-- What the contracts take from the chain and from cosmwasm_std: identifiers, the block, the sender
-- with the funds, messages, and machine integers.
-- `Addr` and every string that is only compared (denoms, keys) is a number that stands for it.
pub mod Words
pub mod Decimal
pub mod Payment
pub mod Text
use dexter_core.Prelude.{ℕ, Bool, List, [], ◌∷◌, String, Result, ok, err}

abbrev pub Addr : Type 0
Addr = ℕ

-- A string that the contracts store or compare and never take apart.
abbrev pub Name : Type 0
Name = ℕ

pub record Coin : Type 0 where
  pub denom : Name
  pub amount : ℕ

-- `Env` with the part of `deps.api` that is used: which strings `addr_validate` accepts.
pub record Env : Type 0 where
  pub block_time : ℕ
  pub contract_address : Addr
  pub is_valid_addr : Name → Bool

pub record MessageInfo : Type 0 where
  pub sender : Addr
  pub funds : List Coin

pub data StdError : Type 0 where
  not_found invalid_addr overflow : StdError
  unauthorized same_owner proposal_not_found proposal_expired : StdError
  parse_error generic_err : StdError

-- The messages that the contracts emit. (`token` is the address of the called cw20 contract.)
pub data CosmosMsg : Type 0 where
  bank_send : (to_address : Addr) (denom : Name) (amount : ℕ) → CosmosMsg
  cw20_transfer : (token recipient : Addr) (amount : ℕ) → CosmosMsg
  cw20_transfer_from : (token owner recipient : Addr) (amount : ℕ) → CosmosMsg

-- A `Response` without its events, which no contract reads.
abbrev pub Response : Type 0
Response = List CosmosMsg
