-- ===== src/Controller/Babylon.antt =====
-- `BabylonController` of clientcontroller/babylon.go: the `ClientController` over the client of the
-- Babylon chain.
pub mod Queries
pub mod Sending
use covenant.Prelude.{
  ℕ, String, Bool, true, false, Option, none, some, List, [], ◌∷◌, errorf, wrapf, Outcome, ok, err,
  panic, panic_with, running, map, if◌then◌else◌,
}
use covenant.Prelude.Results.{traverse, deref}
use covenant.Prelude.Exec.{Exec, pure, lift, wrap, ◌>>=◌}
use covenant.Libraries.{Btc, Bytes}
use covenant.Types.Delegation.{Delegation, CovenantSigs, TxResponse}
use covenant.Types.Params.{StakingParams}
use covenant.Config.{BbnConfig}
use covenant.Controller.{ClientController}
use covenant.Controller.Messages.{
  MsgAddCovenantSigs, Msg, add_covenant_sigs, RelayerTxResponse, Status, pending, active, BbnClient,
  BtcDelegation,
}
use covenant.Controller.Convert.{convert_delegation_type}
use covenant.Controller.Fetched.{staking_params_of}

pub record BabylonController (b : Btc) (S : Type 0) : Type 0 where
  pub bbn_client : BbnClient b S
  pub cfg : BbnConfig b
  pub btc_params : b.NetParams

-- `unrecoverableErrors` and `expectedErrors`
abbrev pub unrecoverable_errors : List String
unrecoverable_errors = "ErrInvalidCovenantPK" ∷ "ErrInvalidCovenantSig" ∷ []

abbrev pub expected_errors : List String
expected_errors = []

-- `panic(fmt.Sprintf(...))` on an error.
abbrev pub must_key {ℓ} : {A : Type ℓ} → Outcome A → Outcome A
must_key (ok x) = ok x
must_key (err e) = panic (panic_with (wrapf "Failed to get key address: %s" e))
must_key (panic p) = panic p
must_key running = running

module _ {b : Btc} {S : Type 0} (bc : BabylonController b S) where
  unfoldable pub get_key_address : Exec S Bytes
  get_key_address s =
      let (r, s') = bc.bbn_client.key bc.cfg.key s in
      (do key_rec ← lift (must_key r); lift (must_key key_rec)) s'

  unfoldable pub must_get_tx_signer : Exec S String
  must_get_tx_signer = do
    signer ← get_key_address
    lift (bc.bbn_client.must_bech32ify_address_bytes bc.cfg.account_prefix signer)

  -- One message for each element.
  unfoldable pub covenant_msgs : List (CovenantSigs b) → Exec S (List (MsgAddCovenantSigs b))
  covenant_msgs [] = pure []
  covenant_msgs (cov_sig ∷ cov_sigs) = do
    signer ← must_get_tx_signer
    msgs ← covenant_msgs cov_sigs
    pure (
        record {
          signer = signer;
          pk = b.new_bip340_pub_key cov_sig.public_key;
          staking_tx_hash = b.hash_string cov_sig.staking_tx_hash;
          slashing_tx_sigs = cov_sig.slashing_sigs;
          unbonding_tx_sig = b.new_bip340_signature cov_sig.unbonding_sig;
          slashing_unbonding_tx_sigs = cov_sig.slashing_unbonding_sigs;
        }
        ∷ msgs)

  unfoldable pub reliably_send_msgs : List (Msg b) → Exec S (Option (RelayerTxResponse b))
  reliably_send_msgs msgs =
      bc.bbn_client.reliably_send_msgs msgs expected_errors unrecoverable_errors

  unfoldable pub submit_covenant_sigs : List (CovenantSigs b) → Exec S (TxResponse b)
  submit_covenant_sigs cov_sigs = do
    msgs ← covenant_msgs cov_sigs
    response ← reliably_send_msgs (map add_covenant_sigs msgs)
    res ← lift (deref response)
    pure (record { tx_hash = res.tx_hash; events = res.events })

  unfoldable pub query_delegations_with_status : Status → ℕ → Exec S (List (Option (Delegation b)))
  query_delegations_with_status status limit = do
    res ←
        wrap (wrapf "failed to query BTC delegations: %v")
          (bc.bbn_client.btc_delegations status limit)
    dels ← lift (traverse convert_delegation_type res)
    pure (map some dels)

  unfoldable pub query_pending_delegations : ℕ → Exec S (List (Option (Delegation b)))
  query_pending_delegations limit = query_delegations_with_status pending limit

  unfoldable pub query_active_delegations : ℕ → Exec S (List (Option (Delegation b)))
  query_active_delegations limit = query_delegations_with_status active limit

  unfoldable pub query_staking_params : Exec S (StakingParams b)
  query_staking_params = do
    ckpt ←
        wrap (wrapf "failed to query params of the btccheckpoint module: %v")
          bc.bbn_client.btc_checkpoint_params
    params ← wrap (wrapf "failed to query staking params: %v") bc.bbn_client.btc_staking_params
    lift (staking_params_of b bc.btc_params ckpt params)

  unfoldable pub close : Exec S (Unit {0})
  close = do
    running_now ← bc.bbn_client.is_running
    if running_now then bc.bbn_client.stop else pure tt

  -- The client of the emulator.
  abbrev pub client_controller : ClientController b S
  client_controller = record {
    submit_covenant_sigs = submit_covenant_sigs;
    query_pending_delegations = query_pending_delegations;
    query_staking_params = query_staking_params;
    close = close;
  }
