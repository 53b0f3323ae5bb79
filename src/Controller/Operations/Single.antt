-- ===== src/Controller/Operations/Single.antt =====
-- What the operations that the end-to-end tests use send.
use covenant.Prelude.{
  ℕ, ◌≡◌, ◌≢◌, refl, ◌⊎◌, inl, inr, String, Option, List, [], ◌∷◌, map, Outcome, ok, err, panic,
  running, Int.ℤ,
}
use covenant.Prelude.Results.{deref}
use covenant.Prelude.Exec.{Exec, pure, lift, continue, ◌>>=◌}
use covenant.Libraries.{Btc, Bytes}
use covenant.Types.Delegation.{TxResponse}
use covenant.Controller.Messages.{
  Msg, create_btc_delegation, create_finality_provider, insert_headers, RelayerTxResponse,
}
use covenant.Controller.Babylon.{
  BabylonController, must_get_tx_signer, reliably_send_msgs, unrecoverable_errors,
}
use covenant.Controller.Babylon.Sending.{KeyLookups, must_get_tx_signer-Looks}
use covenant.Controller.Operations.{
  reliably_send_msg, create_delegation, register_finality_provider, insert_btc_block_headers,
}

module _ {b : Btc} {S : Type 0} (bc : BabylonController b S) where
  -- One transaction with one message, which names the address of the daemon's key as its signer; the
  -- result is what `answer` makes of the chain's answer.
  pub record SentOne {A : Type 0} (message : String → Msg b)
      (answer : Option (RelayerTxResponse b) → Exec S A) (start : S) (result : Outcome A × S)
      : Type 0 where
    pub signer : String
    pub before : S
    pub lookups : KeyLookups bc start before
    pub address : must_get_tx_signer bc start ≡ (ok signer, before)
    pub answered :
        (bc.bbn_client.reliably_send_msgs (message signer ∷ []) [] unrecoverable_errors >>= answer)
          before
        ≡ result

  -- The daemon's key has no address, there is no response, and the key was looked up at most.
  pub record Unaddressed {A : Type 0} (start : S) (result : Outcome A × S) : Type 0 where
    pub no_address : (signer : String) → (must_get_tx_signer bc start).0 ≢ ok signer
    pub no_response : (a : A) → result.0 ≢ ok a
    pub only_lookups : KeyLookups bc start result.1

  abbrev pub Sends :
      {A : Type 0}
      → (String → Msg b)
      → (Option (RelayerTxResponse b) → Exec S A)
      → S
      → Outcome A × S
      → Type 0
  Sends message answer start result = SentOne message answer start result ⊎ Unaddressed start result

  -- The hash of the response, which has to be there.
  abbrev pub hash_of : Option (RelayerTxResponse b) → Exec S (TxResponse b)
  hash_of response = do
    res ← lift (deref response)
    pure (record { tx_hash = res.tx_hash; events = [] })

continue_return : {S A : Type 0} (r : Outcome A) (s : S) → continue r (λ a. pure a) s ≡ (r, s)
continue_return (ok a) s = refl
continue_return (err e) s = refl
continue_return (panic p) s = refl
continue_return running s = refl

module _ {b : Btc} {S : Type 0} (bc : BabylonController b S) where
  -- A call that asks for the signer, sends the message and hands on what `answer` makes of the
  -- answer.
  continue-Sends :
      {A : Type 0} (message : String → Msg b) (answer : Option (RelayerTxResponse b) → Exec S A)
      (call : String → Exec S A) (s t : S) (r : Outcome String)
      → must_get_tx_signer bc s ≡ (r, t)
      → KeyLookups bc s t
      → ((signer : String)
          → (bc.bbn_client.reliably_send_msgs (message signer ∷ []) [] unrecoverable_errors
                >>= answer)
              t
            ≡ call signer t)
      → Sends bc message answer s (continue r call t)
  continue-Sends message answer call s t (ok signer) e k same =
      inl (record { signer = signer; before = t; lookups = k; address = e; answered = same signer })
  continue-Sends message answer call s t (err x) e k same =
      inr (record { no_address = λ a h. cc; no_response = λ a h. cc; only_lookups = k })
  continue-Sends message answer call s t (panic p) e k same =
      inr (record { no_address = λ a h. cc; no_response = λ a h. cc; only_lookups = k })
  continue-Sends message answer call s t running e k same =
      inr (record { no_address = λ a h. cc; no_response = λ a h. cc; only_lookups = k })

  signed-Sends :
      {A : Type 0} (message : String → Msg b) (answer : Option (RelayerTxResponse b) → Exec S A)
      (call : String → Exec S A) (s : S)
      → ((signer : String) (t : S)
          → (bc.bbn_client.reliably_send_msgs (message signer ∷ []) [] unrecoverable_errors
                >>= answer)
              t
            ≡ call signer t)
      → Sends bc message answer s ((must_get_tx_signer bc >>= call) s)
  signed-Sends message answer call s same =
      let (r, t) = must_get_tx_signer bc s in
      continue-Sends message answer call s t r refl (must_get_tx_signer-Looks bc s)
        (λ signer. same signer t)

  -- A call that hands on the answer as it is.
  plain-Sends :
      (message : String → Msg b) (s : S)
      → Sends bc message
          (λ a. pure a)
          s
          ((must_get_tx_signer bc >>= (λ signer.
              bc.bbn_client.reliably_send_msgs (message signer ∷ []) [] unrecoverable_errors))
            s)
  plain-Sends message s =
      signed-Sends message (λ a. pure a) _ s
        (λ signer t.
          let (r, u) =
            bc.bbn_client.reliably_send_msgs (message signer ∷ []) [] unrecoverable_errors t in
          continue_return r u)

  -- `InsertBtcBlockHeaders` sends one transaction, with one message that carries the headers and
  -- names the address of the daemon's key as its signer, and hands on the chain's answer; or the key
  -- has no address, and it has no response and has done nothing but look the key up.
  pub insert_btc_block_headers-Sends :
      (headers : List b.HeaderBytes) (s : S)
      → Sends bc
          (λ signer. insert_headers (record { signer = signer; headers = headers }))
          (λ a. pure a)
          s
          (insert_btc_block_headers bc headers s)
  unfolding insert_btc_block_headers reliably_send_msg reliably_send_msgs
  insert_btc_block_headers-Sends headers s =
      plain-Sends (λ signer. insert_headers (record { signer = signer; headers = headers })) s

  -- `CreateBTCDelegation` sends one transaction, with one message that carries each of its
  -- arguments and names the address of the daemon's key as its signer, and returns the hash of the
  -- chain's answer, its error, or a panic when there is no response in it; or the key has no address,
  -- and it has no response and has done nothing but look the key up.
  pub create_delegation-Sends :
      (del_babylon_pk : b.SdkPubKey) (del_btc_pk : b.Bip340PubKey) (fp_pks : List b.PublicKey)
      (pop : b.ProofOfPossession) (staking_time : ℕ) (staking_value : ℤ)
      (staking_tx_info : b.TransactionInfo) (slashing_tx : b.SlashingTx)
      (del_slashing_sig : b.Bip340Signature) (unbonding_tx : Bytes) (unbonding_time : ℕ)
      (unbonding_value : ℤ) (unbonding_slashing_tx : b.SlashingTx)
      (del_unbonding_slashing_sig : b.Bip340Signature) (s : S)
      → Sends bc
          (λ signer. create_btc_delegation (record {
            signer = signer;
            babylon_pk = del_babylon_pk;
            pop = pop;
            btc_pk = del_btc_pk;
            fp_btc_pk_list = map b.new_bip340_pub_key fp_pks;
            staking_time = staking_time;
            staking_value = staking_value;
            staking_tx = staking_tx_info;
            slashing_tx = slashing_tx;
            delegator_slashing_sig = del_slashing_sig;
            unbonding_tx = unbonding_tx;
            unbonding_time = unbonding_time;
            unbonding_value = unbonding_value;
            unbonding_slashing_tx = unbonding_slashing_tx;
            delegator_unbonding_slashing_sig = del_unbonding_slashing_sig;
          }))
          (hash_of bc)
          s
          (create_delegation bc del_babylon_pk del_btc_pk fp_pks pop staking_time staking_value
            staking_tx_info slashing_tx del_slashing_sig unbonding_tx unbonding_time unbonding_value
            unbonding_slashing_tx del_unbonding_slashing_sig s)
  unfolding create_delegation reliably_send_msg reliably_send_msgs
  create_delegation-Sends pk btc_pk fp_pks pop time amount info tx sig utx utime uamount utx' usig
        s =
      signed-Sends _ (hash_of bc) _ s (λ signer t. refl)

  -- `RegisterFinalityProvider` does as `InsertBtcBlockHeaders`, with its own message.
  pub register_finality_provider-Sends :
      (bbn_pub_key : b.SdkPubKey) (btc_pub_key : b.Bip340PubKey) (commission : b.LegacyDec)
      (description : b.Description) (pop : b.ProofOfPossession) (s : S)
      → Sends bc
          (λ signer. create_finality_provider (record {
            signer = signer;
            commission = commission;
            babylon_pk = bbn_pub_key;
            btc_pk = btc_pub_key;
            description = description;
            pop = pop;
          }))
          (λ a. pure a)
          s
          (register_finality_provider bc bbn_pub_key btc_pub_key commission description pop s)
  unfolding register_finality_provider reliably_send_msgs
  register_finality_provider-Sends pk btc_pk commission description pop s = plain-Sends _ s
