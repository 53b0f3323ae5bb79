-- ===== src/Daemon/Warranted.antt =====
-- What stands behind the transactions of the daemon.
use covenant.Prelude.{◌≡◌, Option, some, List, map, ok, All, All₂}
use covenant.Libraries.{Btc}
use covenant.Machine.{World}
use covenant.Types.Delegation.{Delegation, CovenantSigs}
use covenant.Types.Params.{StakingParams}
use covenant.Controller.Messages.{MsgAddCovenantSigs, BtcDelegation, pending}
use covenant.Controller.Babylon.{BabylonController, query_staking_params}
use covenant.Controller.Babylon.Queries.{IsConvertedPointer}
use covenant.Controller.Babylon.Sending.{IsMsgOf}
use covenant.Emulator.Defs.{CovenantEmulator}
use covenant.Emulator.Sanitize.Kept.{IsEligible}
use covenant.Emulator.Submit.Batch.{Signing}
use covenant.Daemon.{over_babylon}

module _ {b : Btc} {W : Type 0} (ce : CovenantEmulator b W)
    (bc : BabylonController b (World W)) where
  -- What stands behind a transaction of the daemon. Its messages carry, one by one and unchanged,
  -- signatures that are certified under parameters that `QueryStakingParams` returned; each of the
  -- delegations that they are for is one that the chain answered with when it was asked, right
  -- after that, for the pending ones, converted, and had no signature by the daemon's key.
  pub record IsWarranted (msgs : List (MsgAddCovenantSigs b)) : Type 0 where
    pub params : StakingParams b
    pub fetching : World W
    pub asked : World W
    pub answered_at : World W
    pub answer : List (Option (BtcDelegation b))
    pub converted : List (Delegation b)
    pub before : World W
    pub after : World W
    pub present : List (Delegation b)
    pub made : List (CovenantSigs b)
    pub fetched : query_staking_params bc fetching ≡ (ok params, asked)
    pub query :
        bc.bbn_client.btc_delegations pending ce.config.delegation_limit asked
        ≡ (ok answer, answered_at)
    pub conversion : All₂ IsConvertedPointer answer converted
    pub eligible : All (IsEligible ce.pk (map some converted)) (map some present)
    pub certified :
        Signing (record (over_babylon ce bc) { params = some params }) before present made after
    pub unchanged : All₂ IsMsgOf made msgs
