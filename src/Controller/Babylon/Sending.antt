-- ===== src/Controller/Babylon/Sending.antt =====
-- What `SubmitCovenantSigs` of `BabylonController` sends.
use covenant.Prelude.{
  ◌≡◌, refl, ap, subst, ◌≢◌, ◌⊎◌, inl, inr, List, [], ◌∷◌, map, Outcome, ok, err, panic, running,
  All₂,
}
use covenant.Prelude.Results.{deref, ok-injective}
use covenant.Prelude.Exec.{Exec, pure, lift, ◌>>=◌, bind-eq-ok, Moves-bind}
use covenant.Libraries.{Btc}
use covenant.Types.Delegation.{CovenantSigs, TxResponse}
use covenant.Controller.Messages.{MsgAddCovenantSigs, add_covenant_sigs}
use covenant.Controller.Babylon.{
  BabylonController, unrecoverable_errors, must_key, get_key_address, must_get_tx_signer,
  covenant_msgs, reliably_send_msgs, submit_covenant_sigs,
}

same_value {ℓ κ} :
    {A : Type ℓ} {S : Type κ} {x y : A} {s t : S}
    → ◌≡◌ {A = Outcome A × S} (ok x, s) (ok y, t)
    → x ≡ y
same_value h = ok-injective (ap (λ r. r.0) h)

module _ {b : Btc} where
  -- The message carries the covenant's key, the staking tx and all its signatures, unchanged.
  pub record IsMsgOf (sigs : CovenantSigs b) (msg : MsgAddCovenantSigs b) : Type 0 where
    pub same_pk : msg.pk ≡ b.new_bip340_pub_key sigs.public_key
    pub same_hash : msg.staking_tx_hash ≡ b.hash_string sigs.staking_tx_hash
    pub same_slashing : msg.slashing_tx_sigs ≡ sigs.slashing_sigs
    pub same_unbonding : msg.unbonding_tx_sig ≡ b.new_bip340_signature sigs.unbonding_sig
    pub same_slashing_unbonding : msg.slashing_unbonding_tx_sigs ≡ sigs.slashing_unbonding_sigs

module _ {b : Btc} {S : Type 0} (bc : BabylonController b S) where
  covenant_msgs-IsMsgOf :
      (cov_sigs : List (CovenantSigs b)) (msgs : List (MsgAddCovenantSigs b)) (s t : S)
      → covenant_msgs bc cov_sigs s ≡ (ok msgs, t)
      → All₂ IsMsgOf cov_sigs msgs
  unfolding covenant_msgs
  covenant_msgs-IsMsgOf [] msgs s t h = subst (All₂ IsMsgOf []) (same_value h) tt
  covenant_msgs-IsMsgOf (sigs ∷ cov_sigs) msgs s t h =
      let (signer, u, e, k) = bind-eq-ok (must_get_tx_signer bc) _ s h in
      let (rest, v, e', k') = bind-eq-ok (covenant_msgs bc cov_sigs) _ u k in
      subst (All₂ IsMsgOf (sigs ∷ cov_sigs)) (same_value k') (
        record {
          same_pk = refl;
          same_hash = refl;
          same_slashing = refl;
          same_unbonding = refl;
          same_slashing_unbonding = refl;
        },
        covenant_msgs-IsMsgOf cov_sigs rest u v e',
      )

  -- Nothing but lookups of the daemon's key.
  pub data KeyLookups (s : S) : S → Type 0 where
    here : KeyLookups s s
    looked_up : {t u : S} → KeyLookups s t → (bc.bbn_client.key bc.cfg.key t).1 ≡ u → KeyLookups s u

  -- After lookups of the key, one transaction with one message for each element, in order, and what
  -- is made of its answer.
  pub record Sent (cov_sigs : List (CovenantSigs b)) (start : S)
      (result : Outcome (TxResponse b) × S) : Type 0 where
    pub msgs : List (MsgAddCovenantSigs b)
    pub before : S
    pub lookups : KeyLookups start before
    pub same : All₂ IsMsgOf cov_sigs msgs
    pub answered :
        (do
          response ←
              bc.bbn_client.reliably_send_msgs (map add_covenant_sigs msgs) [] unrecoverable_errors
          res ← lift (deref response)
          pure (record { tx_hash = res.tx_hash; events = res.events }))
          before
        ≡ result

module _ {b : Btc} {S : Type 0} (bc : BabylonController b S) where
  KeyLookups-trans : (s t u : S) → KeyLookups bc s t → KeyLookups bc t u → KeyLookups bc s u
  KeyLookups-trans s t u h here = h
  KeyLookups-trans s t u h (looked_up {t = x} k e) = looked_up (KeyLookups-trans s t x h k) e

  -- A call of the section moves the state by key lookups.
  abbrev pub Looks {κ} : {A : Type κ} → Exec S A → Type 0
  Looks m = (s : S) → KeyLookups bc s (m s).1

  lift-Looks {κ} : {A : Type κ} (r : Outcome A) → Looks (lift r)
  lift-Looks r s = here

  get_key_address-Looks : Looks (get_key_address bc)
  unfolding get_key_address
  get_key_address-Looks s =
      let (r, t) = bc.bbn_client.key bc.cfg.key s in
      KeyLookups-trans s t _ (looked_up here refl) (
        Moves-bind (KeyLookups bc) (λ s. here) KeyLookups-trans (lift (must_key r))
          (λ key_rec. lift (must_key key_rec)) (lift-Looks (must_key r))
          (λ key_rec. lift-Looks (must_key key_rec)) t)

  pub must_get_tx_signer-Looks : Looks (must_get_tx_signer bc)
  unfolding must_get_tx_signer
  must_get_tx_signer-Looks =
      Moves-bind (KeyLookups bc) (λ s. here) KeyLookups-trans (get_key_address bc) _
        get_key_address-Looks (λ signer s. here)

  covenant_msgs-Looks : (cov_sigs : List (CovenantSigs b)) → Looks (covenant_msgs bc cov_sigs)
  unfolding covenant_msgs
  covenant_msgs-Looks [] s = here
  covenant_msgs-Looks (sigs ∷ cov_sigs) s =
      Moves-bind (KeyLookups bc) (λ s. here) KeyLookups-trans (must_get_tx_signer bc) _
        must_get_tx_signer-Looks
        (λ signer.
          Moves-bind (KeyLookups bc) (λ s. here) KeyLookups-trans (covenant_msgs bc cov_sigs) _
            (covenant_msgs-Looks cov_sigs) (λ msgs s. here))
        s

  -- There is no response, and the key was looked up at most.
  pub record NotSent (s : S) (result : Outcome (TxResponse b) × S) : Type 0 where
    pub no_response : (res : TxResponse b) → result.0 ≢ ok res
    pub only_lookups : KeyLookups bc s result.1

  Sent-cases :
      (cov_sigs : List (CovenantSigs b)) (s t : S) (r : Outcome (List (MsgAddCovenantSigs b)))
      → covenant_msgs bc cov_sigs s ≡ (r, t)
      → KeyLookups bc s t
      → (result : Outcome (TxResponse b) × S) → submit_covenant_sigs bc cov_sigs s ≡ result
      → Sent bc cov_sigs s result ⊎ NotSent s result
  unfolding submit_covenant_sigs reliably_send_msgs
  Sent-cases cov_sigs s t (ok msgs) e k result h = inl (record {
    msgs = msgs;
    before = t;
    lookups = k;
    same = covenant_msgs-IsMsgOf bc cov_sigs msgs s t e;
    answered = rw e at h;
  })
  Sent-cases cov_sigs s t (err x) e k result h =
      subst (λ r. Sent bc cov_sigs s r ⊎ NotSent s r) (rw e at h)
        (inr (record { no_response = λ res h. cc; only_lookups = k }))
  Sent-cases cov_sigs s t (panic p) e k result h =
      subst (λ r. Sent bc cov_sigs s r ⊎ NotSent s r) (rw e at h)
        (inr (record { no_response = λ res h. cc; only_lookups = k }))
  Sent-cases cov_sigs s t running e k result h =
      subst (λ r. Sent bc cov_sigs s r ⊎ NotSent s r) (rw e at h)
        (inr (record { no_response = λ res h. cc; only_lookups = k }))

  -- Whatever its argument, `SubmitCovenantSigs` either sends one transaction, with one message for
  -- each element in order that carries the element's signatures unchanged, and hands on the
  -- answer; or it has no response and has done nothing but look its key up.
  pub submit_covenant_sigs_sends :
      (cov_sigs : List (CovenantSigs b)) (s : S)
      → Sent bc cov_sigs s (submit_covenant_sigs bc cov_sigs s)
        ⊎ NotSent s (submit_covenant_sigs bc cov_sigs s)
  submit_covenant_sigs_sends cov_sigs s =
      let (r, t) = covenant_msgs bc cov_sigs s in
      Sent-cases cov_sigs s t r refl (covenant_msgs-Looks cov_sigs s)
        (submit_covenant_sigs bc cov_sigs s) refl
