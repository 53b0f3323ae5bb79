-- ===== src/Controller/Fetched.antt =====
-- The parameters that `QueryStakingParams` of clientcontroller/babylon.go makes of the two answers.
use covenant.Prelude.{errorf, Outcome, ok}
use covenant.Prelude.Results.{traverse, map_err, ◌>>=◌}
use covenant.Libraries.{Btc}
use covenant.Types.Params.{StakingParams}
use covenant.Controller.Messages.{BtcStakingParams, CheckpointParams}

module _ (b : Btc) where
  -- The body of the loop over the covenant's keys.
  unfoldable pub covenant_pk : b.Bip340PubKey → Outcome b.PublicKey
  covenant_pk pk = map_err (λ e. errorf "invalid covenant public key") (b.to_btc_pk pk)

  unfoldable pub staking_params_of :
      b.NetParams → CheckpointParams → BtcStakingParams b → Outcome (StakingParams b)
  staking_params_of net ckpt params = do
    covenant_pks ← traverse covenant_pk params.covenant_pks
    slashing_address ← b.decode_address params.slashing_address net
    ok (record {
      comfirmation_time_blocks = ckpt.btc_confirmation_depth;
      finalization_timeout_blocks = ckpt.checkpoint_finalization_timeout;
      min_slashing_tx_fee_sat = params.min_slashing_tx_fee_sat;
      covenant_pks = covenant_pks;
      slashing_address = slashing_address;
      covenant_quorum = params.covenant_quorum;
      slashing_rate = params.slashing_rate;
      min_comission_rate = params.min_commission_rate;
      min_unbonding_time = params.min_unbonding_time;
    })
