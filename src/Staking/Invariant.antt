-- ===== src/Staking/Invariant.antt =====
-- Runs of contracts/multi_staking from its instantiation, and what holds of every state they reach.
pub mod Untouched
pub mod Balance
pub mod Moves
pub mod Settings
pub mod Authority
pub mod Claims
pub mod Registry
use dexter_core.Prelude.{ℕ, ◌≡◌, ok}
use dexter_core.Chain.{Addr, Env, MessageInfo, Response}
use dexter_core.Chain.Decimal.{Decimal}
use dexter_core.Staking.State.{Storage, UnbondConfig}
use dexter_core.Staking.Admin.{instantiate}
use dexter_core.Staking.Execute.{ExecuteMsg, execute}

-- The states that a contract reaches: a message that fails changes nothing, so a run is a chain of
-- messages that succeed.
pub data IsReachable ⦃d : Decimal⦄ : Storage → Type 0 where
  created :
      (env : Env) (owner keeper_addr : Addr) (c : UnbondConfig) {s : Storage}
      → instantiate env owner keeper_addr c ≡ ok s
      → IsReachable s
  next :
      {s t : Storage} (env : Env) (info : MessageInfo) (msg : ExecuteMsg) (r : Response)
      → IsReachable s
      → execute s env info msg ≡ ok (t, r)
      → IsReachable t

-- The second state is reached from the first by messages that succeed.
pub data IsRun ⦃d : Decimal⦄ : Storage → Storage → Type 0 where
  stay : {s : Storage} → IsRun s s
  step :
      {s t u : Storage} (env : Env) (info : MessageInfo) (msg : ExecuteMsg) (r : Response)
      → execute s env info msg ≡ ok (t, r)
      → IsRun t u
      → IsRun s u
