-- ===== src/Controller/Operations.antt =====
-- The operations of `BabylonController` in clientcontroller/babylon.go that the end-to-end tests
-- use. Their timeouts are left out; the pages of `QueryFinalityProviders` are in Controller/Pages.
pub mod Single
use covenant.Prelude.{ℕ, Option, List, [], ◌∷◌, map, wrapf, Int.ℤ}
use covenant.Prelude.Results.{deref}
use covenant.Prelude.Exec.{Exec, pure, lift, wrap, ◌>>=◌}
use covenant.Libraries.{Btc, Bytes}
use covenant.Types.Delegation.{TxResponse}
use covenant.Controller.Messages.{
  Msg, create_btc_delegation, create_finality_provider, insert_headers, RelayerTxResponse,
}
use covenant.Controller.Babylon.{BabylonController, must_get_tx_signer, reliably_send_msgs}

module _ {b : Btc} {S : Type 0} (bc : BabylonController b S) where
  unfoldable pub reliably_send_msg : Msg b → Exec S (Option (RelayerTxResponse b))
  reliably_send_msg msg = reliably_send_msgs bc (msg ∷ [])

  -- The response has no events.
  unfoldable pub create_delegation :
      b.SdkPubKey
      → b.Bip340PubKey
      → List b.PublicKey
      → b.ProofOfPossession
      → ℕ
      → ℤ
      → b.TransactionInfo
      → b.SlashingTx
      → b.Bip340Signature
      → Bytes
      → ℕ
      → ℤ
      → b.SlashingTx
      → b.Bip340Signature
      → Exec S (TxResponse b)
  create_delegation del_babylon_pk del_btc_pk fp_pks pop staking_time staking_value staking_tx_info
        slashing_tx del_slashing_sig unbonding_tx unbonding_time unbonding_value
        unbonding_slashing_tx del_unbonding_slashing_sig =
      do
        signer ← must_get_tx_signer bc
        response ← reliably_send_msg (
            create_btc_delegation (record {
              signer = signer;
              babylon_pk = del_babylon_pk;
              pop = pop;
              btc_pk = del_btc_pk;
              fp_btc_pk_list = map b.new_bip340_pub_key fp_pks;
              staking_time = staking_time;
              staking_value = staking_value;
              staking_tx = staking_tx_info;
              slashing_tx = slashing_tx;
              delegator_slashing_sig = del_slashing_sig;
              unbonding_tx = unbonding_tx;
              unbonding_time = unbonding_time;
              unbonding_value = unbonding_value;
              unbonding_slashing_tx = unbonding_slashing_tx;
              delegator_unbonding_slashing_sig = del_unbonding_slashing_sig;
            }))
        res ← lift (deref response)
        pure (record { tx_hash = res.tx_hash; events = [] })

  unfoldable pub register_finality_provider :
      b.SdkPubKey
      → b.Bip340PubKey
      → b.LegacyDec
      → b.Description
      → b.ProofOfPossession
      → Exec S (Option (RelayerTxResponse b))
  register_finality_provider bbn_pub_key btc_pub_key commission description pop = do
    signer ← must_get_tx_signer bc
    reliably_send_msgs bc (
        create_finality_provider (record {
          signer = signer;
          commission = commission;
          babylon_pk = bbn_pub_key;
          btc_pk = btc_pub_key;
          description = description;
          pop = pop;
        })
        ∷ [])

  unfoldable pub insert_btc_block_headers :
      List b.HeaderBytes → Exec S (Option (RelayerTxResponse b))
  insert_btc_block_headers headers = do
    signer ← must_get_tx_signer bc
    reliably_send_msg (insert_headers (record { signer = signer; headers = headers }))

  unfoldable pub query_btc_light_client_tip : Exec S b.HeaderInfo
  query_btc_light_client_tip = wrap (wrapf "failed to query BTC tip: %v") bc.bbn_client.tip
