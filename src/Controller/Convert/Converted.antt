-- ===== src/Controller/Convert/Converted.antt =====
-- What `ConvertDelegationType` hands on of the chain's message.
use covenant.Prelude.{
  ◌≡◌, refl, ap, sym, subst, ◌∙◌, Option, none, some, List, Outcome, ok, err, panic, running, All₂,
  All₂-map,
}
use covenant.Prelude.Results.{traverse, deref, deref-eq-ok, bind-eq-ok, ok-injective, traverse-All₂}
use covenant.Libraries.{Btc, Bytes}
use covenant.Types.Delegation.{
  Delegation, Undelegation, CovenantAdaptorSigInfo, CovenantSchnorrSigInfo,
}
use covenant.Controller.Hex.{encode_to_string}
use covenant.Controller.Messages.{
  CovenantAdaptorSignatures, SignatureInfo, BtcUndelegation, BtcDelegation,
}
use covenant.Controller.Convert.{
  not_nil, must, convert_adaptor_sigs, convert_unbonding_sig, convert_undelegation_type,
  convert_undelegation, convert_delegation_type,
}

not_nil-eq-ok {ℓ} :
    {A : Type ℓ} (text : _) (o : Option A) {a : A} → not_nil text o ≡ ok a → o ≡ some a
not_nil-eq-ok text none h = cc
not_nil-eq-ok text (some x) h = cc

must-eq-ok {ℓ} : {A : Type ℓ} (m : Outcome A) {a : A} → must m ≡ ok a → m ≡ ok a
must-eq-ok (ok x) h = h
must-eq-ok (err e) h = cc
must-eq-ok (panic p) h = cc
must-eq-ok running h = cc

module _ {b : Btc} where
  -- The adaptor signatures of one covenant member, under its key as a BTC key.
  abbrev pub SameAdaptorSigs : CovenantAdaptorSignatures b → CovenantAdaptorSigInfo b → Type 0
  SameAdaptorSigs s info = (b.must_to_btc_pk s.cov_pk ≡ ok info.pk) × (info.sigs ≡ s.adaptor_sigs)

  abbrev pub SameSig : SignatureInfo b → CovenantSchnorrSigInfo b → Type 0
  SameSig s info = (b.must_to_btc_pk s.pk ≡ ok info.pk) × (b.to_btc_sig s.sig ≡ ok info.sig)

  -- Every field of the undelegation comes from the field of the message that it stands for.
  pub record IsConvertedUndelegation (m : BtcUndelegation b) (ud : Undelegation b) : Type 0 where
    pub unbonding_tx : Bytes
    pub slashing_tx : b.SlashingTx
    pub has_unbonding_tx : m.unbonding_tx ≡ some unbonding_tx
    pub has_slashing_tx : m.slashing_tx ≡ some slashing_tx
    pub same_unbonding_tx : ud.unbonding_tx_hex ≡ encode_to_string unbonding_tx
    pub same_slashing_tx : ud.slashing_tx_hex ≡ b.to_hex_str slashing_tx
    pub same_slashing_sigs : All₂ SameAdaptorSigs m.covenant_slashing_sigs ud.covenant_slashing_sigs
    pub same_unbonding_sigs : All₂ SameSig m.covenant_unbonding_sig_list ud.covenant_unbonding_sigs
    pub same_delegator_sig : ud.delegator_unbonding_sig ≡ m.delegator_unbonding_sig

  abbrev pub IsConvertedOption : Option (BtcUndelegation b) → Option (Undelegation b) → Type 0
  IsConvertedOption none none = Unit
  IsConvertedOption none (some ud) = ⊥
  IsConvertedOption (some m) none = ⊥
  IsConvertedOption (some m) (some ud) = IsConvertedUndelegation m ud

  -- Every field of the delegation but the output's index comes from the field of the message that
  -- it stands for. The index is 0.
  pub record IsConverted (m : BtcDelegation b) (d : Delegation b) : Type 0 where
    pub staking_tx : Bytes
    pub slashing_tx : b.SlashingTx
    pub has_staking_tx : m.staking_tx ≡ some staking_tx
    pub has_slashing_tx : m.slashing_tx ≡ some slashing_tx
    pub same_staking_tx : d.staking_tx_hex ≡ encode_to_string staking_tx
    pub same_slashing_tx : d.slashing_tx_hex ≡ b.to_hex_str slashing_tx
    pub same_btc_pk : b.must_to_btc_pk m.btc_pk ≡ ok d.btc_pk
    pub same_fp_btc_pks : All₂ (λ x y. b.must_to_btc_pk x ≡ ok y) m.fp_btc_pk_list d.fp_btc_pks
    pub same_covenant_sigs : All₂ SameAdaptorSigs m.covenant_sigs d.covenant_sigs
    pub same_undelegation : IsConvertedOption m.btc_undelegation d.btc_undelegation
    pub same_start : d.start_height ≡ m.start_height
    pub same_end : d.end_height ≡ m.end_height
    pub same_total : d.total_sat ≡ m.total_sat
    pub same_unbonding_time : d.unbonding_time ≡ m.unbonding_time
    pub first_output : d.staking_output_idx ≡ 0

module _ {b : Btc} where
  convert_adaptor_sigs-SameAdaptorSigs :
      (s : CovenantAdaptorSignatures b) (info : CovenantAdaptorSigInfo b)
      → convert_adaptor_sigs s ≡ ok info
      → SameAdaptorSigs s info
  unfolding convert_adaptor_sigs
  convert_adaptor_sigs-SameAdaptorSigs s info h =
      let (pk, e, k) = bind-eq-ok (b.must_to_btc_pk s.cov_pk) _ h in
      (e ∙ ap ok (ap (λ x. x.pk) (ok-injective k)), ap (λ x. x.sigs) (sym (ok-injective k)))

  convert_unbonding_sig-SameSig :
      (s : SignatureInfo b) (info : CovenantSchnorrSigInfo b)
      → convert_unbonding_sig s ≡ ok info
      → SameSig s info
  unfolding convert_unbonding_sig
  convert_unbonding_sig-SameSig s info h =
      let (sig, e, k) = bind-eq-ok (must (b.to_btc_sig s.sig)) _ h in
      let (pk, e', k') = bind-eq-ok (b.must_to_btc_pk s.pk) _ k in
      let same = ok-injective k' in
      (
        e' ∙ ap ok (ap (λ x. x.pk) same),
        must-eq-ok (b.to_btc_sig s.sig) e ∙ ap ok (ap (λ x. x.sig) same),
      )

  same_adaptor_sigs :
      (sigs : List (CovenantAdaptorSignatures b)) (infos : List (CovenantAdaptorSigInfo b))
      → traverse convert_adaptor_sigs sigs ≡ ok infos
      → All₂ SameAdaptorSigs sigs infos
  same_adaptor_sigs sigs infos h =
      All₂-map _ _ convert_adaptor_sigs-SameAdaptorSigs sigs infos
        (traverse-All₂ convert_adaptor_sigs sigs infos h)

  convert_undelegation_type-IsConverted :
      (m : BtcUndelegation b) (ud : Undelegation b)
      → convert_undelegation_type m ≡ ok ud
      → IsConvertedUndelegation m ud
  unfolding convert_undelegation_type
  convert_undelegation_type-IsConverted m ud h =
      let (tx, e1, k1) = bind-eq-ok (not_nil _ m.unbonding_tx) _ h in
      let (slash, e2, k2) = bind-eq-ok (not_nil _ m.slashing_tx) _ k1 in
      let (sigs, e3, k3) =
        bind-eq-ok (traverse convert_unbonding_sig m.covenant_unbonding_sig_list) _ k2 in
      let (slash_sigs, e4, k4) =
        bind-eq-ok (traverse convert_adaptor_sigs m.covenant_slashing_sigs) _ k3 in
      subst (IsConvertedUndelegation m) (ok-injective k4) (record {
        unbonding_tx = tx;
        slashing_tx = slash;
        has_unbonding_tx = not_nil-eq-ok _ m.unbonding_tx e1;
        has_slashing_tx = not_nil-eq-ok _ m.slashing_tx e2;
        same_unbonding_tx = refl;
        same_slashing_tx = refl;
        same_slashing_sigs = same_adaptor_sigs m.covenant_slashing_sigs slash_sigs e4;
        same_unbonding_sigs =
            All₂-map _ _ convert_unbonding_sig-SameSig m.covenant_unbonding_sig_list sigs
              (traverse-All₂ convert_unbonding_sig m.covenant_unbonding_sig_list sigs e3);
        same_delegator_sig = refl;
      })

  convert_undelegation-IsConverted :
      (m : Option (BtcUndelegation b)) (ud : Option (Undelegation b))
      → convert_undelegation m ≡ ok ud
      → IsConvertedOption m ud
  unfolding convert_undelegation
  convert_undelegation-IsConverted none ud h = subst (IsConvertedOption none) (ok-injective h) tt
  convert_undelegation-IsConverted (some m) ud h =
      let (u, e, k) = bind-eq-ok (convert_undelegation_type m) _ h in
      subst (IsConvertedOption (some m)) (ok-injective k)
        (convert_undelegation_type-IsConverted m u e)

  -- A delegation that `ConvertDelegationType` returns has both its transactions, and each of its
  -- fields but one is the message's: the keys and signatures converted one by one in their order,
  -- the staking tx in hex. `StakingOutputIdx` is 0 whatever the message's index is.
  pub convert_delegation_type-IsConverted :
      (pointer : Option (BtcDelegation b)) (d : Delegation b)
      → convert_delegation_type pointer ≡ ok d
      → (m : BtcDelegation b) × (pointer ≡ some m) × IsConverted m d
  unfolding convert_delegation_type
  convert_delegation_type-IsConverted pointer d h =
      let (m, e0, k0) = bind-eq-ok (deref pointer) _ h in
      let (tx, e1, k1) = bind-eq-ok (not_nil _ m.staking_tx) _ k0 in
      let (slash, e2, k2) = bind-eq-ok (not_nil _ m.slashing_tx) _ k1 in
      let (sigs, e3, k3) = bind-eq-ok (traverse convert_adaptor_sigs m.covenant_sigs) _ k2 in
      let (ud, e4, k4) = bind-eq-ok (convert_undelegation m.btc_undelegation) _ k3 in
      let (fps, e5, k5) = bind-eq-ok (traverse b.must_to_btc_pk m.fp_btc_pk_list) _ k4 in
      let (pk, e6, k6) = bind-eq-ok (b.must_to_btc_pk m.btc_pk) _ k5 in
      (
        m,
        deref-eq-ok pointer e0,
        subst (IsConverted m) (ok-injective k6) (record {
          staking_tx = tx;
          slashing_tx = slash;
          has_staking_tx = not_nil-eq-ok _ m.staking_tx e1;
          has_slashing_tx = not_nil-eq-ok _ m.slashing_tx e2;
          same_staking_tx = refl;
          same_slashing_tx = refl;
          same_btc_pk = e6;
          same_fp_btc_pks = traverse-All₂ b.must_to_btc_pk m.fp_btc_pk_list fps e5;
          same_covenant_sigs = same_adaptor_sigs m.covenant_sigs sigs e3;
          same_undelegation = convert_undelegation-IsConverted m.btc_undelegation ud e4;
          same_start = refl;
          same_end = refl;
          same_total = refl;
          same_unbonding_time = refl;
          first_output = refl;
        }),
      )
