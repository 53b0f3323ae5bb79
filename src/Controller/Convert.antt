-- ===== src/Controller/Convert.antt =====
-- `ConvertDelegationType` and `ConvertUndelegationType` of clientcontroller/babylon.go: from the
-- chain's message to the emulator's type.
pub mod Converted
use covenant.Prelude.{
  ℕ, String, Option, none, some, List, Error, errorf, Outcome, ok, err, panic, panic_with, running,
}
use covenant.Prelude.Results.{traverse, deref, ◌>>=◌}
use covenant.Libraries.{Btc, Bytes}
use covenant.Types.Delegation.{
  Delegation, Undelegation, CovenantAdaptorSigInfo, CovenantSchnorrSigInfo,
}
use covenant.Controller.Hex.{encode_to_string}
use covenant.Controller.Messages.{
  CovenantAdaptorSignatures, SignatureInfo, BtcUndelegation, BtcDelegation,
}

-- `if x == nil { panic(fmt.Errorf(text)) }`
abbrev pub not_nil {ℓ} : {A : Type ℓ} → String → Option A → Outcome A
not_nil text none = panic (panic_with (errorf text))
not_nil text (some x) = ok x

-- `if err != nil { panic(err) }`
abbrev pub must {ℓ} : {A : Type ℓ} → Outcome A → Outcome A
must (ok x) = ok x
must (err e) = panic (panic_with e)
must (panic p) = panic p
must running = running

module _ {b : Btc} where
  -- The bodies of the loops over the signatures.
  unfoldable pub convert_adaptor_sigs :
      CovenantAdaptorSignatures b → Outcome (CovenantAdaptorSigInfo b)
  convert_adaptor_sigs s = do
    pk ← b.must_to_btc_pk s.cov_pk
    ok (record { pk = pk; sigs = s.adaptor_sigs })

  unfoldable pub convert_unbonding_sig : SignatureInfo b → Outcome (CovenantSchnorrSigInfo b)
  convert_unbonding_sig s = do
    sig ← must (b.to_btc_sig s.sig)
    pk ← b.must_to_btc_pk s.pk
    ok (record { pk = pk; sig = sig })

  unfoldable pub convert_undelegation_type : BtcUndelegation b → Outcome (Undelegation b)
  convert_undelegation_type undel = do
    unbonding_tx ← not_nil "staking tx should not be empty in undelegation" undel.unbonding_tx
    slashing_tx ← not_nil "slashing tx should not be empty in undelegation" undel.slashing_tx
    covenant_unbonding_sigs ← traverse convert_unbonding_sig undel.covenant_unbonding_sig_list
    covenant_slashing_sigs ← traverse convert_adaptor_sigs undel.covenant_slashing_sigs
    ok (record {
      unbonding_tx_hex = encode_to_string unbonding_tx;
      slashing_tx_hex = b.to_hex_str slashing_tx;
      covenant_slashing_sigs = covenant_slashing_sigs;
      covenant_unbonding_sigs = covenant_unbonding_sigs;
      delegator_unbonding_sig = undel.delegator_unbonding_sig;
    })

  unfoldable pub convert_undelegation :
      Option (BtcUndelegation b) → Outcome (Option (Undelegation b))
  convert_undelegation none = ok none
  convert_undelegation (some undel) = do
    undelegation ← convert_undelegation_type undel
    ok (some undelegation)

  -- `StakingOutputIdx` is not set.
  unfoldable pub convert_delegation_type : Option (BtcDelegation b) → Outcome (Delegation b)
  convert_delegation_type pointer = do
    del ← deref pointer
    staking_tx ← not_nil "staking tx should not be empty in delegation" del.staking_tx
    slashing_tx ← not_nil "slashing tx should not be empty in delegation" del.slashing_tx
    covenant_sigs ← traverse convert_adaptor_sigs del.covenant_sigs
    undelegation ← convert_undelegation del.btc_undelegation
    fp_btc_pks ← traverse b.must_to_btc_pk del.fp_btc_pk_list
    btc_pk ← b.must_to_btc_pk del.btc_pk
    ok (record {
      btc_pk = btc_pk;
      fp_btc_pks = fp_btc_pks;
      start_height = del.start_height;
      end_height = del.end_height;
      total_sat = del.total_sat;
      staking_tx_hex = encode_to_string staking_tx;
      staking_output_idx = 0;
      slashing_tx_hex = b.to_hex_str slashing_tx;
      unbonding_time = del.unbonding_time;
      covenant_sigs = covenant_sigs;
      btc_undelegation = undelegation;
    })
