-- ===== src/Emulator/Submit/Checked.antt =====
-- What steps 2 to 4 of `AddCovenantSignatures` check, said without the order of the calls.
use covenant.Prelude.{ℕ, ◌<◌, ◌≡◌, List, [], ◌∷◌, Outcome, ok, arith, lt→leb, uint16, Int.ℤ}
use covenant.Prelude.Results.{map_err, bind-eq-ok, map_err-eq-ok}
use covenant.Libraries.{Btc}
use covenant.Types.Delegation.{Delegation, Undelegation}
use covenant.Types.Params.{StakingParams}
use covenant.Emulator.Signing.{
  Checked, first_value, check_unbonding_time, check_staking, check_unbonding, check_delegation,
}

first_value-eq-ok :
    (vs : List ℤ) (v : ℤ) → first_value vs ≡ ok v → (rest : List ℤ) × (vs ≡ v ∷ rest)
unfolding first_value
first_value-eq-ok [] v h = cc
first_value-eq-ok (x ∷ rest) v h = (rest, cc)

module _ (b : Btc) (net : b.NetParams) (p : StakingParams b) (d : Delegation b) where
  -- The library's check of `slashing`, which spends output `idx` of `funding`, for the parameters
  -- in force and the delegation's time lock.
  abbrev pub check_of : b.MsgTx → b.MsgTx → ℕ → Outcome (Unit {0})
  check_of slashing funding idx =
      b.check_transactions slashing funding idx p.min_slashing_tx_fee_sat p.slashing_rate
        p.slashing_address d.btc_pk (uint16 d.unbonding_time) net

  -- The scripts of an unbonding output that holds `value`.
  abbrev pub info_of : ℤ → Outcome b.UnbondingInfo
  info_of value =
      b.build_unbonding_info d.btc_pk d.fp_btc_pks p.covenant_pks p.covenant_quorum
        (uint16 d.unbonding_time) value net

  -- The staking tx and its slashing tx are read from the delegation and pass the checks.
  pub record IsStakingChecked (staking_tx : b.MsgTx) (slashing_tx : b.SlashingTx) : Type 0 where
    pub slashing_msg_tx : b.MsgTx
    pub staking_read : b.new_btc_tx_from_hex d.staking_tx_hex ≡ ok staking_tx
    pub slashing_read : b.new_btc_slashing_tx_from_hex d.slashing_tx_hex ≡ ok slashing_tx
    pub slashing_msg : b.to_msg_tx slashing_tx ≡ ok slashing_msg_tx
    pub staking_passed : check_of slashing_msg_tx staking_tx d.staking_output_idx ≡ ok tt

  check_staking-IsStakingChecked :
      (staking_tx : b.MsgTx) (slashing_tx : b.SlashingTx)
      → check_staking b net p d ≡ ok (staking_tx, slashing_tx)
      → IsStakingChecked staking_tx slashing_tx
  unfolding check_staking
  check_staking-IsStakingChecked staking_tx slashing_tx h =
      let (t, e1, h1) = bind-eq-ok (b.new_btc_tx_from_hex d.staking_tx_hex) _ h in
      let (s, e2, h2) = bind-eq-ok (b.new_btc_slashing_tx_from_hex d.slashing_tx_hex) _ h1 in
      let (m, e3, h3) = bind-eq-ok (b.to_msg_tx s) _ h2 in
      let (u, e4, h4) = bind-eq-ok (map_err _ (check_of m t d.staking_output_idx)) _ h3 in
      record {
        slashing_msg_tx = m;
        staking_read = cc;
        slashing_read = cc;
        slashing_msg = cc;
        staking_passed = cc (map_err-eq-ok _ (check_of m t d.staking_output_idx) e4);
      }

  pub IsStakingChecked-check_staking :
      (staking_tx : b.MsgTx) (slashing_tx : b.SlashingTx)
      → IsStakingChecked staking_tx slashing_tx
      → check_staking b net p d ≡ ok (staking_tx, slashing_tx)
  unfolding check_staking
  IsStakingChecked-check_staking staking_tx slashing_tx s =
      rw (s.staking_read, s.slashing_read, s.slashing_msg, s.staking_passed)

  -- The unbonding tx and its slashing tx are read from the undelegation and pass the checks, and
  -- `info` describes the first output.
  pub record IsUnbondingChecked (ud : Undelegation b) (unbonding_tx : b.MsgTx)
      (info : b.UnbondingInfo) : Type 0 where
    pub slashing_msg_tx : b.MsgTx
    pub value : ℤ
    pub outputs : List ℤ
    pub slashing_read : b.new_btc_tx_from_hex ud.slashing_tx_hex ≡ ok slashing_msg_tx
    pub unbonding_read : b.new_btc_tx_from_hex ud.unbonding_tx_hex ≡ ok unbonding_tx
    pub first_output : b.tx_out unbonding_tx ≡ value ∷ outputs
    pub described : info_of value ≡ ok info
    pub unbonding_passed : check_of slashing_msg_tx unbonding_tx 0 ≡ ok tt

  check_unbonding-IsUnbondingChecked :
      (ud : Undelegation b) (unbonding_tx : b.MsgTx) (info : b.UnbondingInfo)
      → check_unbonding b net p d ud ≡ ok (unbonding_tx, info)
      → IsUnbondingChecked ud unbonding_tx info
  unfolding check_unbonding
  check_unbonding-IsUnbondingChecked ud unbonding_tx info h =
      let (m, e1, h1) = bind-eq-ok (b.new_btc_tx_from_hex ud.slashing_tx_hex) _ h in
      let (t, e2, h2) = bind-eq-ok (b.new_btc_tx_from_hex ud.unbonding_tx_hex) _ h1 in
      let (v, e3, h3) = bind-eq-ok (first_value (b.tx_out t)) _ h2 in
      let (i, e4, h4) = bind-eq-ok (info_of v) _ h3 in
      let (u, e5, h5) = bind-eq-ok (map_err _ (check_of m t 0)) _ h4 in
      let (rest, first) = first_value-eq-ok (b.tx_out t) v e3 in
      record {
        slashing_msg_tx = m;
        value = v;
        outputs = rest;
        slashing_read = e1;
        unbonding_read = cc;
        first_output = cc;
        described = cc;
        unbonding_passed = cc (map_err-eq-ok _ (check_of m t 0) e5);
      }

  pub IsUnbondingChecked-check_unbonding :
      (ud : Undelegation b) (unbonding_tx : b.MsgTx) (info : b.UnbondingInfo)
      → IsUnbondingChecked ud unbonding_tx info
      → check_unbonding b net p d ud ≡ ok (unbonding_tx, info)
  unfolding check_unbonding first_value
  IsUnbondingChecked-check_unbonding ud unbonding_tx info u = rw (
    u.slashing_read, u.unbonding_read, first_value, u.first_output, u.described, u.unbonding_passed,
  )

  -- All of steps 2 to 4.
  pub record IsChecked (ud : Undelegation b) (c : Checked b) : Type 0 where
    pub long_enough : p.min_unbonding_time < d.unbonding_time
    pub staking : IsStakingChecked c.staking_msg_tx c.slashing_tx
    pub unbonding : IsUnbondingChecked ud c.unbonding_msg_tx c.unbonding_info

  pub check_delegation-IsChecked :
      (ud : Undelegation b) (c : Checked b) → check_delegation b net p d ud ≡ ok c → IsChecked ud c
  unfolding check_delegation check_unbonding_time
  check_delegation-IsChecked ud c h = record {
    long_enough = ground arith;
    staking = check_staking-IsStakingChecked c.staking_msg_tx c.slashing_tx (ground arith);
    unbonding =
        check_unbonding-IsUnbondingChecked ud c.unbonding_msg_tx c.unbonding_info (ground arith);
  }

  pub IsChecked-check_delegation :
      (ud : Undelegation b) (c : Checked b) → IsChecked ud c → check_delegation b net p d ud ≡ ok c
  unfolding check_delegation check_unbonding_time
  IsChecked-check_delegation ud c k = rw (
    lt→leb d.unbonding_time p.min_unbonding_time k.long_enough,
    IsStakingChecked-check_staking c.staking_msg_tx c.slashing_tx k.staking,
    IsUnbondingChecked-check_unbonding ud c.unbonding_msg_tx c.unbonding_info k.unbonding,
  )
