-- ===== src/Emulator/Submit/Signed.antt =====
-- What steps 5 to 8 of `AddCovenantSignatures` sign, said without the order of the calls.
use covenant.Prelude.{ℕ, ◌≡◌, ap, sym, ◌∙◌, List, ok, arith, All₂, All₂-map, Int.int64}
use covenant.Prelude.Results.{
  traverse, bind-eq-ok, map_err-eq-ok, ok-injective, traverse-All₂, All₂-traverse,
}
use covenant.Libraries.{Btc, Bytes}
use covenant.Types.Delegation.{Delegation, Undelegation, CovenantSigs, get_staking_time}
use covenant.Types.Params.{StakingParams}
use covenant.Emulator.Signing.{
  Checked, enc_sign_for, staking_info_of, sign_slashing, sign_unbonding, sign_unbonding_slashing,
  sign_delegation,
}

-- `sig` is the marshalled adaptor signature of `tx` for the finality provider `fp_pk`.
pub record IsEncSigned (b : Btc) (tx : b.SlashingTx) (funding : b.MsgTx) (idx : ℕ) (script : Bytes)
    (sk : b.PrivateKey) (fp_pk : b.PublicKey) (sig : Bytes) : Type 0 where
  pub enc_key : b.EncryptionKey
  pub adaptor_sig : b.AdaptorSig
  pub keyed : b.new_encryption_key fp_pk ≡ ok enc_key
  pub signed : b.enc_sign tx funding idx script sk enc_key ≡ ok adaptor_sig
  pub marshalled : b.must_marshal adaptor_sig ≡ ok sig

module _ (b : Btc) (tx : b.SlashingTx) (funding : b.MsgTx) (idx : ℕ) (script : Bytes)
    (sk : b.PrivateKey) where
  enc_sign_for-IsEncSigned :
      (fp_pk : b.PublicKey) (sig : Bytes)
      → enc_sign_for b tx funding idx script sk fp_pk ≡ ok sig
      → IsEncSigned b tx funding idx script sk fp_pk sig
  unfolding enc_sign_for
  enc_sign_for-IsEncSigned fp_pk sig h =
      let (k, e1, h1) = bind-eq-ok (b.new_encryption_key fp_pk) _ h in
      let (a, e2, h2) = bind-eq-ok (b.enc_sign tx funding idx script sk k) _ h1 in
      record { enc_key = k; adaptor_sig = a; keyed = e1; signed = e2; marshalled = h2 }

  IsEncSigned-enc_sign_for :
      (fp_pk : b.PublicKey) (sig : Bytes)
      → IsEncSigned b tx funding idx script sk fp_pk sig
      → enc_sign_for b tx funding idx script sk fp_pk ≡ ok sig
  unfolding enc_sign_for
  IsEncSigned-enc_sign_for fp_pk sig s = rw (s.keyed, s.signed, s.marshalled)

  pub AllEncSigned-of-traverse :
      (pks : List b.PublicKey) (sigs : List Bytes)
      → traverse (enc_sign_for b tx funding idx script sk) pks ≡ ok sigs
      → All₂ (IsEncSigned b tx funding idx script sk) pks sigs
  AllEncSigned-of-traverse pks sigs h =
      All₂-map _ _ enc_sign_for-IsEncSigned pks sigs (traverse-All₂ _ pks sigs h)

  pub traverse-of-AllEncSigned :
      (pks : List b.PublicKey) (sigs : List Bytes)
      → All₂ (IsEncSigned b tx funding idx script sk) pks sigs
      → traverse (enc_sign_for b tx funding idx script sk) pks ≡ ok sigs
  traverse-of-AllEncSigned pks sigs h =
      All₂-traverse _ pks sigs (All₂-map _ _ IsEncSigned-enc_sign_for pks sigs h)

module _ (b : Btc) (net : b.NetParams) (p : StakingParams b) (d : Delegation b) where
  -- The three kinds of signatures of the README, each over its own spending path: the slashing
  -- signatures over the slashing path of the staking tx, one for each finality provider; the
  -- unbonding signature over the staking tx's unbonding path; and the unbonding slashing
  -- signatures over the slashing path of the unbonding tx.
  pub record IsSigned (ud : Undelegation b) (c : Checked b) (sk : b.PrivateKey) (pk : b.PublicKey)
      (sigs : CovenantSigs b) : Type 0 where
    pub staking_time : ℕ
    pub staking_info : b.StakingInfo
    pub slashing_path : b.SpendInfo
    pub unbonding_path : b.SpendInfo
    pub unbonding_slashing_tx : b.SlashingTx
    pub unbonding_slashing_path : b.SpendInfo
    pub timed : get_staking_time d ≡ ok staking_time
    pub described :
        b.build_staking_info d.btc_pk d.fp_btc_pks p.covenant_pks p.covenant_quorum staking_time
          (int64 d.total_sat)
          net
        ≡ ok staking_info
    pub has_slashing_path : b.staking_slashing_path staking_info ≡ ok slashing_path
    pub has_unbonding_path : b.staking_unbonding_path staking_info ≡ ok unbonding_path
    pub unbonding_slashing_read :
        b.new_btc_slashing_tx_from_hex ud.slashing_tx_hex ≡ ok unbonding_slashing_tx
    pub has_unbonding_slashing_path :
        b.unbonding_slashing_path c.unbonding_info ≡ ok unbonding_slashing_path
    pub slashing_signed :
        All₂
          (IsEncSigned b c.slashing_tx c.staking_msg_tx d.staking_output_idx
            (b.get_pk_script_path slashing_path)
            sk)
          d.fp_btc_pks
          sigs.slashing_sigs
    pub unbonding_signed :
        b.sign_tx_strict c.unbonding_msg_tx c.staking_msg_tx d.staking_output_idx
          (b.get_pk_script_path unbonding_path)
          sk
        ≡ ok sigs.unbonding_sig
    pub unbonding_slashing_signed :
        All₂
          (IsEncSigned b unbonding_slashing_tx c.unbonding_msg_tx 0
            (b.get_pk_script_path unbonding_slashing_path)
            sk)
          d.fp_btc_pks
          sigs.slashing_unbonding_sigs
    pub by_covenant : sigs.public_key ≡ pk
    pub names_staking_tx : sigs.staking_tx_hash ≡ b.tx_hash c.staking_msg_tx

  module _ (ud : Undelegation b) (c : Checked b) (sk : b.PrivateKey) (pk : b.PublicKey)
      (sigs : CovenantSigs b) where
    pub IsSigned-sign_delegation :
        IsSigned ud c sk pk sigs → sign_delegation b net p pk d ud c sk ≡ ok sigs
    unfolding sign_delegation staking_info_of sign_slashing sign_unbonding sign_unbonding_slashing
    IsSigned-sign_delegation s =
        rw
          (
            s.timed,
            s.described,
            s.has_slashing_path,
            traverse-of-AllEncSigned b _ _ _ _ _ _ _ s.slashing_signed,
            s.has_unbonding_path,
            s.unbonding_signed,
            s.unbonding_slashing_read,
            s.has_unbonding_slashing_path,
            traverse-of-AllEncSigned b _ _ _ _ _ _ _ s.unbonding_slashing_signed,
          )
          (ground (arith, s.by_covenant, s.names_staking_tx))

    pub sign_delegation-IsSigned :
        sign_delegation b net p pk d ud c sk ≡ ok sigs → IsSigned ud c sk pk sigs
    unfolding sign_delegation staking_info_of sign_slashing sign_unbonding sign_unbonding_slashing
    sign_delegation-IsSigned h =
        let (info, e1, h1) = bind-eq-ok (staking_info_of b net p d) _ h in
        let (ss, e2, h2) =
          bind-eq-ok (sign_slashing b d info c.staking_msg_tx c.slashing_tx sk) _ h1 in
        let (us, e3, h3) =
          bind-eq-ok (sign_unbonding b d info c.staking_msg_tx c.unbonding_msg_tx sk) _ h2 in
        let (uss, e4, h4) =
          bind-eq-ok (sign_unbonding_slashing b d ud c.unbonding_info c.unbonding_msg_tx sk) _ h3 in
        let (time, timed, described) = bind-eq-ok (get_staking_time d) _ e1 in
        let (path, p1, t1) = bind-eq-ok (b.staking_slashing_path info) _ e2 in
        let (path', p2, t2) = bind-eq-ok (b.staking_unbonding_path info) _ e3 in
        let (tx, p3, t3) = bind-eq-ok (b.new_btc_slashing_tx_from_hex ud.slashing_tx_hex) _ e4 in
        let (path'', p4, t4) = bind-eq-ok (b.unbonding_slashing_path c.unbonding_info) _ t3 in
        let eq = ok-injective h4 in
        record {
          staking_time = time;
          staking_info = info;
          slashing_path = path;
          unbonding_path = path';
          unbonding_slashing_tx = tx;
          unbonding_slashing_path = path'';
          timed = timed;
          described = described;
          has_slashing_path = p1;
          has_unbonding_path = p2;
          unbonding_slashing_read = p3;
          has_unbonding_slashing_path = p4;
          slashing_signed =
              AllEncSigned-of-traverse b _ _ _ _ _ _ _ (t1 ∙ ap (λ r. ok r.slashing_sigs) eq);
          unbonding_signed = map_err-eq-ok _ _ t2 ∙ ap (λ r. ok r.unbonding_sig) eq;
          unbonding_slashing_signed =
              AllEncSigned-of-traverse b _ _ _ _ _ _ _
                (t4 ∙ ap (λ r. ok r.slashing_unbonding_sigs) eq);
          by_covenant = sym (ap (λ r. r.public_key) eq);
          names_staking_tx = sym (ap (λ r. r.staking_tx_hash) eq);
        }
