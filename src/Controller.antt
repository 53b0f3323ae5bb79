-- ===== src/Controller.antt =====
-- clientcontroller/: what the emulator needs of the consumer chain (interface.go), and the client
-- of the Babylon chain that provides it.
pub mod Hex
pub mod Messages
pub mod Convert
pub mod Fetched
pub mod Babylon
pub mod Pages
pub mod Operations
pub mod Construction
use covenant.Prelude.{ℕ, List, Option}
use covenant.Prelude.Exec.{Exec}
use covenant.Libraries.{Btc}
use covenant.Types.Delegation.{Delegation, CovenantSigs, TxResponse}
use covenant.Types.Params.{StakingParams}

-- `ClientController`. A delegation of a list is a pointer, which may be nil.
pub record ClientController (b : Btc) (S : Type 0) : Type 0 where
  pub submit_covenant_sigs : List (CovenantSigs b) → Exec S (TxResponse b)
  pub query_pending_delegations : ℕ → Exec S (List (Option (Delegation b)))
  pub query_staking_params : Exec S (StakingParams b)
  pub close : Exec S (Unit {0})
