-- ===== src/Controller/Babylon/Queries.antt =====
-- What the queries of `BabylonController` return.
use covenant.Prelude.{
  ℕ, ◌≡◌, refl, ap, sym, subst, ◌∙◌, Option, some, List, [], ◌∷◌, map, ok, All₂, All₂-map,
}
use covenant.Prelude.Results.{traverse, bind-eq-ok, ok-injective, traverse-All₂, map_err-eq-ok}
use covenant.Prelude.Exec
use covenant.Libraries.{Btc}
use covenant.Types.Delegation.{Delegation}
use covenant.Types.Params.{StakingParams}
use covenant.Controller.Messages.{BtcDelegation, CheckpointParams, BtcStakingParams, pending}
use covenant.Controller.Convert.{convert_delegation_type}
use covenant.Controller.Convert.Converted.{IsConverted, convert_delegation_type-IsConverted}
use covenant.Controller.Fetched.{covenant_pk, staking_params_of}
use covenant.Controller.Babylon.{
  BabylonController, query_delegations_with_status, query_pending_delegations, query_staking_params,
}
use covenant.Emulator.Sanitize.{remove_already_signed}
use covenant.Emulator.Sanitize.Kept.{remove_already_signed_total}

module _ {b : Btc} where
  -- The message of a delegation.
  abbrev pub IsConvertedPointer : Option (BtcDelegation b) → Delegation b → Type 0
  IsConvertedPointer pointer d = (m : BtcDelegation b) × (pointer ≡ some m) × IsConverted m d

  converted :
      (answer : List (Option (BtcDelegation b))) (dels : List (Delegation b))
      → All₂ (λ x y. convert_delegation_type x ≡ ok y) answer dels
      → All₂ IsConvertedPointer answer dels
  converted [] [] h = tt
  converted [] (d ∷ dels) h = absurd h
  converted (x ∷ answer) [] h = absurd h
  converted (x ∷ answer) (d ∷ dels) h =
      (convert_delegation_type-IsConverted x d h.0, converted answer dels h.1)

module _ {b : Btc} {S : Type 0} (bc : BabylonController b S) where
  -- Delegations that `QueryPendingDelegations` returns are those of one answer to the query of the
  -- pending ones with the limit that was given: one for each, in their order, converted, and none
  -- of them nil.
  pub query_pending_delegations_converts :
      (limit : ℕ) (s t : S) (dels : List (Option (Delegation b)))
      → query_pending_delegations bc limit s ≡ (ok dels, t)
      → (answer : List (Option (BtcDelegation b))) × (present : List (Delegation b))
        × (bc.bbn_client.btc_delegations pending limit s ≡ (ok answer, t))
        × (dels ≡ map some present)
        × All₂ IsConvertedPointer answer present
  unfolding query_pending_delegations query_delegations_with_status
  query_pending_delegations_converts limit s t dels h =
      let (answer, u, e, k) =
        Exec.bind-eq-ok (Exec.wrap _ (bc.bbn_client.btc_delegations pending limit)) _ s h in
      let (present, e', k') = Exec.continue-eq-ok (traverse convert_delegation_type answer) _ u k in
      (
        answer,
        present,
        Exec.wrap-eq-ok _ (bc.bbn_client.btc_delegations pending limit) s e
            ∙ ap (λ x. (ok answer, x)) (ap (λ x. x.1) k'),
        sym (ok-injective (ap (λ x. x.0) k')),
        converted answer present (traverse-All₂ convert_delegation_type answer present e'),
      )

  -- `removeAlreadySigned` returns, with no panic, for every slice of delegations that
  -- `QueryPendingDelegations` has returned.
  pub query_pending_delegations_sanitize :
      (pk : b.PublicKey) (limit : ℕ) (s t : S) (dels : List (Option (Delegation b)))
      → query_pending_delegations bc limit s ≡ (ok dels, t)
      → (kept : List (Option (Delegation b))) × (remove_already_signed pk dels ≡ ok kept)
  query_pending_delegations_sanitize pk limit s t dels h =
      let (answer, present, e, not_nil, c) = query_pending_delegations_converts limit s t dels h in
      subst (λ l. (kept : List (Option (Delegation b))) × (remove_already_signed pk l ≡ ok kept))
        (sym not_nil) (remove_already_signed_total pk present)

  -- The parameters, field by field, of the answers of the two modules.
  pub record IsFetched (ckpt : CheckpointParams) (m : BtcStakingParams b) (p : StakingParams b)
      : Type 0 where
    pub same_depth : p.comfirmation_time_blocks ≡ ckpt.btc_confirmation_depth
    pub same_timeout : p.finalization_timeout_blocks ≡ ckpt.checkpoint_finalization_timeout
    pub same_fee : p.min_slashing_tx_fee_sat ≡ m.min_slashing_tx_fee_sat
    pub same_pks : All₂ (λ x y. b.to_btc_pk x ≡ ok y) m.covenant_pks p.covenant_pks
    pub same_address : b.decode_address m.slashing_address bc.btc_params ≡ ok p.slashing_address
    pub same_quorum : p.covenant_quorum ≡ m.covenant_quorum
    pub same_slashing_rate : p.slashing_rate ≡ m.slashing_rate
    pub same_commission_rate : p.min_comission_rate ≡ m.min_commission_rate
    pub same_unbonding_time : p.min_unbonding_time ≡ m.min_unbonding_time

  staking_params_of-IsFetched :
      (ckpt : CheckpointParams) (m : BtcStakingParams b) (p : StakingParams b)
      → staking_params_of b bc.btc_params ckpt m ≡ ok p
      → IsFetched ckpt m p
  unfolding staking_params_of covenant_pk
  staking_params_of-IsFetched ckpt m p h =
      let (pks, e, k) = bind-eq-ok (traverse (covenant_pk b) m.covenant_pks) _ h in
      let (address, e', k') = bind-eq-ok (b.decode_address m.slashing_address bc.btc_params) _ k in
      subst (IsFetched ckpt m) (ok-injective k') (record {
        same_depth = refl;
        same_timeout = refl;
        same_fee = refl;
        same_pks =
            All₂-map _ _ (λ x y. map_err-eq-ok _ (b.to_btc_pk x)) m.covenant_pks pks
              (traverse-All₂ (covenant_pk b) m.covenant_pks pks e);
        same_address = e';
        same_quorum = refl;
        same_slashing_rate = refl;
        same_commission_rate = refl;
        same_unbonding_time = refl;
      })

  -- The parameters that `QueryStakingParams` returns are those of an answer of the btccheckpoint
  -- module and of a later answer of the btcstaking module, field by field; the covenant's keys and
  -- the slashing address are converted, and no key is left out.
  pub query_staking_params_fetches :
      (s t : S) (p : StakingParams b)
      → query_staking_params bc s ≡ (ok p, t)
      → (ckpt : CheckpointParams) × (m : BtcStakingParams b) × (u : S)
        × (bc.bbn_client.btc_checkpoint_params s ≡ (ok ckpt, u))
        × (bc.bbn_client.btc_staking_params u ≡ (ok m, t))
        × IsFetched ckpt m p
  unfolding query_staking_params
  query_staking_params_fetches s t p h =
      let (ckpt, u, e, k) =
        Exec.bind-eq-ok (Exec.wrap _ bc.bbn_client.btc_checkpoint_params) _ s h in
      let (m, v, e', k') = Exec.bind-eq-ok (Exec.wrap _ bc.bbn_client.btc_staking_params) _ u k in
      (
        ckpt,
        m,
        u,
        Exec.wrap-eq-ok _ bc.bbn_client.btc_checkpoint_params s e,
        Exec.wrap-eq-ok _ bc.bbn_client.btc_staking_params u e'
            ∙ ap (λ x. (ok m, x)) (ap (λ x. x.1) k'),
        staking_params_of-IsFetched ckpt m p (ap (λ x. x.0) k'),
      )
