-- ===== src/Examples/Controller.antt =====
-- The Babylon client over the toy libraries and a chain with one pending delegation.
use covenant.Prelude.{
  ◌≡◌, refl, ◌⊎◌, true, Option, none, some, List, [], ◌∷◌, map, ok, All₂, Int.pos,
}
use covenant.Prelude.Results.{traverse}
use covenant.Prelude.Exec.{pure}
use covenant.Machine.{World}
use covenant.Types.Delegation.{Delegation, CovenantSigs}
use covenant.Controller.Hex.{hex_digit, encode_to_string}
use covenant.Controller.Messages.{
  BtcUndelegation, BtcDelegation, CheckpointParams, BtcStakingParams, BbnClient, pending,
}
use covenant.Controller.Convert.{
  convert_undelegation_type, convert_undelegation, convert_delegation_type,
}
use covenant.Controller.Convert.Converted.{IsConverted, convert_delegation_type-IsConverted}
use covenant.Controller.Fetched.{covenant_pk, staking_params_of}
use covenant.Controller.Babylon.{
  BabylonController, query_delegations_with_status, query_pending_delegations, query_staking_params,
  submit_covenant_sigs,
}
use covenant.Controller.Babylon.Queries.{
  IsConvertedPointer, query_pending_delegations_converts, IsFetched, query_staking_params_fetches,
}
use covenant.Controller.Babylon.Sending.{Sent, NotSent, submit_covenant_sigs_sends}
use covenant.Examples.Toy.{toy, Chain, bbn_config, params, delegation, start}

abbrev undelegation_msg : BtcUndelegation toy
undelegation_msg = record {
  unbonding_tx = some (204 ∷ []);
  slashing_tx = some "dd";
  covenant_unbonding_sig_list = [];
  covenant_slashing_sigs = [];
  delegator_unbonding_sig = none;
}

-- The message's output is the one with the index 3.
abbrev delegation_msg : BtcDelegation toy
delegation_msg = record {
  btc_pk = 7;
  fp_btc_pk_list = 8 ∷ 9 ∷ [];
  start_height = 100;
  end_height = 105;
  total_sat = 5000;
  staking_tx = some (170 ∷ []);
  staking_output_idx = 3;
  slashing_tx = some "bb";
  unbonding_time = 101;
  covenant_sigs = [];
  btc_undelegation = some undelegation_msg;
}

abbrev staking_params_msg : BtcStakingParams toy
staking_params_msg = record {
  covenant_pks = 1 ∷ 2 ∷ [];
  slashing_address = "slash";
  min_slashing_tx_fee_sat = pos 1;
  covenant_quorum = 2;
  slashing_rate = 10;
  min_commission_rate = 5;
  min_unbonding_time = 100;
}

abbrev pub client_of : {S : Type 0} → BbnClient toy S
client_of = record {
  btc_checkpoint_params =
      pure (record { btc_confirmation_depth = 10; checkpoint_finalization_timeout = 100 });
  btc_staking_params = pure staking_params_msg;
  btc_delegations = λ status limit. pure (some delegation_msg ∷ []);
  reliably_send_msgs =
      λ msgs expected unrecoverable. pure (some (record { tx_hash = "hash"; events = [] }));
  key = λ name. pure (ok (1 ∷ []));
  must_bech32ify_address_bytes = λ prefix address. ok prefix;
  tip = pure 800000;
  is_running = pure true;
  stop = pure tt;
}

abbrev client : BbnClient toy (World Chain)
client = client_of

abbrev pub controller : BabylonController toy (World Chain)
controller = record { bbn_client = client; cfg = bbn_config; btc_params = "simnet" }

converts : convert_delegation_type {b = toy} (some delegation_msg) ≡ ok delegation
unfolding convert_delegation_type convert_undelegation convert_undelegation_type traverse
    encode_to_string hex_digit
converts = refl

convert_delegation_type-IsConverted_example :
    (m : BtcDelegation toy) × (some delegation_msg ≡ some m) × IsConverted m delegation
convert_delegation_type-IsConverted_example =
    convert_delegation_type-IsConverted (some delegation_msg) delegation converts

hex_of : encode_to_string (0 ∷ 171 ∷ 255 ∷ []) ≡ "00abff"
unfolding encode_to_string hex_digit
hex_of = refl

pub answers : query_pending_delegations controller 100 start ≡ (ok (some delegation ∷ []), start)
unfolding query_pending_delegations query_delegations_with_status convert_delegation_type
    convert_undelegation convert_undelegation_type traverse encode_to_string hex_digit
answers = refl

query_pending_delegations_converts_example :
    (answer : List (Option (BtcDelegation toy))) × (present : List (Delegation toy))
    × (client.btc_delegations pending 100 start ≡ (ok answer, start))
    × (some delegation ∷ [] ≡ map some present)
    × All₂ IsConvertedPointer answer present
query_pending_delegations_converts_example =
    query_pending_delegations_converts controller 100 start start (some delegation ∷ []) answers

pub fetches : query_staking_params controller start ≡ (ok params, start)
unfolding query_staking_params staking_params_of covenant_pk traverse
fetches = refl

query_staking_params_fetches_example :
    (ckpt : CheckpointParams) × (m : BtcStakingParams toy) × (u : World Chain)
    × (client.btc_checkpoint_params start ≡ (ok ckpt, u))
    × (client.btc_staking_params u ≡ (ok m, start))
    × IsFetched controller ckpt m params
query_staking_params_fetches_example =
    query_staking_params_fetches controller start start params fetches

abbrev sigs : CovenantSigs toy
sigs = record {
  public_key = 1;
  staking_tx_hash = "aa";
  slashing_sigs = [];
  unbonding_sig = 5 ∷ [];
  slashing_unbonding_sigs = [];
}

submit_covenant_sigs_sends_example :
    Sent controller (sigs ∷ []) start (submit_covenant_sigs controller (sigs ∷ []) start)
    ⊎ NotSent controller start (submit_covenant_sigs controller (sigs ∷ []) start)
submit_covenant_sigs_sends_example = submit_covenant_sigs_sends controller (sigs ∷ []) start
