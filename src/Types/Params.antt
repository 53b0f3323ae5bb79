-- ===== src/Types/Params.antt =====
-- types/params.go.
use covenant.Prelude.{ℕ, List, Int.ℤ}
use covenant.Libraries.{Btc}

pub record StakingParams (b : Btc) : Type 0 where
  pub comfirmation_time_blocks : ℕ  -- uint64
  pub finalization_timeout_blocks : ℕ  -- uint64
  pub min_slashing_tx_fee_sat : ℤ
  pub covenant_pks : List b.PublicKey
  pub slashing_address : b.Address
  pub covenant_quorum : ℕ  -- uint32
  pub slashing_rate : b.LegacyDec
  pub min_comission_rate : b.LegacyDec
  pub min_unbonding_time : ℕ  -- uint32

-- `sdkmath.Max` of the two, the first widened to `uint64`.
unfoldable pub minimum_unbonding_time : {b : Btc} → StakingParams b → ℕ
minimum_unbonding_time {b} p = b.max_uint64 p.min_unbonding_time p.finalization_timeout_blocks
