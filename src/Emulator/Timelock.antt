-- ===== src/Emulator/Timelock.antt =====
-- The unbonding time that step 2 of `AddCovenantSignatures` checks, against the time lock for which
-- steps 3 and 4 check the transactions (`uint16`) and against `MinimumUnbondingTime` of types/params.go.
use covenant.Prelude.{
  ℕ, ◌+◌, ◌*◌, ◌≤◌, ◌<◌, ◌≡◌, ◌↔◌, sym, subst, List, ◌∷◌, ok, arith, uint16, Int.ℤ,
}
use covenant.Libraries.{Btc}
use covenant.Types.Delegation.{Delegation, Undelegation}
use covenant.Types.Params.{StakingParams, minimum_unbonding_time}
use covenant.Emulator.Signing.{Checked, check_unbonding_time, check_delegation}
use covenant.Emulator.Submit.Checked.{
  IsChecked, check_delegation-IsChecked, IsChecked-check_delegation,
}

-- What `sdkmath.Max` is documented to return: an upper bound of the two.
pub record IsMax (b : Btc) : Type 0 where
  pub left : (x y : ℕ) → x ≤ b.max_uint64 x y
  pub right : (x y : ℕ) → y ≤ b.max_uint64 x y

module _ (b : Btc) (p : StakingParams b) (d : Delegation b) where
  -- For an unbonding time that is a `uint16`, step 2 passes exactly when the time lock that goes
  -- into the scripts is above `MinUnbondingTime`.
  pub check_unbonding_time_iff :
      d.unbonding_time < 65536
      → (check_unbonding_time b p d ≡ ok tt) ↔ (p.min_unbonding_time < uint16 d.unbonding_time)
  unfolding check_unbonding_time
  check_unbonding_time_iff short = (λ h. ground arith, λ h. ground arith)

  -- Step 2 does not use the finalization timeout: an unbonding time above `MinUnbondingTime` and at
  -- most the timeout passes, and is not above the minimum that `MinimumUnbondingTime` computes, if
  -- `sdkmath.Max` is an upper bound.
  pub check_unbonding_time_below_minimum :
      IsMax b
      → p.min_unbonding_time < d.unbonding_time
      → d.unbonding_time ≤ p.finalization_timeout_blocks
      → (check_unbonding_time b p d ≡ ok tt) × (d.unbonding_time ≤ minimum_unbonding_time p)
  unfolding check_unbonding_time minimum_unbonding_time
  check_unbonding_time_below_minimum m h k =
      (ground arith, omega (arith, m.right p.min_unbonding_time p.finalization_timeout_blocks))

-- Steps 3 and 4 for the time lock `lock`: the staking and the unbonding transaction pass the
-- library's checks with it, and the scripts of the unbonding output are built with it.
pub record IsCheckedFor (b : Btc) (net : b.NetParams) (p : StakingParams b) (d : Delegation b)
    (ud : Undelegation b) (c : Checked b) (lock : ℕ) : Type 0 where
  pub slashing_msg_tx : b.MsgTx
  pub unbonding_slashing_msg_tx : b.MsgTx
  pub value : ℤ
  pub outputs : List ℤ
  pub staking_read : b.new_btc_tx_from_hex d.staking_tx_hex ≡ ok c.staking_msg_tx
  pub slashing_read : b.new_btc_slashing_tx_from_hex d.slashing_tx_hex ≡ ok c.slashing_tx
  pub slashing_msg : b.to_msg_tx c.slashing_tx ≡ ok slashing_msg_tx
  pub staking_passed :
      b.check_transactions slashing_msg_tx c.staking_msg_tx d.staking_output_idx
        p.min_slashing_tx_fee_sat p.slashing_rate p.slashing_address d.btc_pk lock net
      ≡ ok tt
  pub unbonding_slashing_read :
      b.new_btc_tx_from_hex ud.slashing_tx_hex ≡ ok unbonding_slashing_msg_tx
  pub unbonding_read : b.new_btc_tx_from_hex ud.unbonding_tx_hex ≡ ok c.unbonding_msg_tx
  pub first_output : b.tx_out c.unbonding_msg_tx ≡ value ∷ outputs
  pub described :
      b.build_unbonding_info d.btc_pk d.fp_btc_pks p.covenant_pks p.covenant_quorum lock value net
      ≡ ok c.unbonding_info
  pub unbonding_passed :
      b.check_transactions unbonding_slashing_msg_tx c.unbonding_msg_tx 0 p.min_slashing_tx_fee_sat
        p.slashing_rate p.slashing_address d.btc_pk lock net
      ≡ ok tt

module _ (b : Btc) (net : b.NetParams) (p : StakingParams b) (d : Delegation b)
    (ud : Undelegation b) (c : Checked b) where
  IsChecked-IsCheckedFor :
      IsChecked b net p d ud c → IsCheckedFor b net p d ud c (uint16 d.unbonding_time)
  IsChecked-IsCheckedFor k = record {
    slashing_msg_tx = k.staking.slashing_msg_tx;
    unbonding_slashing_msg_tx = k.unbonding.slashing_msg_tx;
    value = k.unbonding.value;
    outputs = k.unbonding.outputs;
    staking_read = k.staking.staking_read;
    slashing_read = k.staking.slashing_read;
    slashing_msg = k.staking.slashing_msg;
    staking_passed = k.staking.staking_passed;
    unbonding_slashing_read = k.unbonding.slashing_read;
    unbonding_read = k.unbonding.unbonding_read;
    first_output = k.unbonding.first_output;
    described = k.unbonding.described;
    unbonding_passed = k.unbonding.unbonding_passed;
  }

  IsCheckedFor-IsChecked :
      p.min_unbonding_time < d.unbonding_time
      → IsCheckedFor b net p d ud c (uint16 d.unbonding_time)
      → IsChecked b net p d ud c
  IsCheckedFor-IsChecked long f = record {
    long_enough = long;
    staking = record {
      slashing_msg_tx = f.slashing_msg_tx;
      staking_read = f.staking_read;
      slashing_read = f.slashing_read;
      slashing_msg = f.slashing_msg;
      staking_passed = f.staking_passed;
    };
    unbonding = record {
      slashing_msg_tx = f.unbonding_slashing_msg_tx;
      value = f.value;
      outputs = f.outputs;
      slashing_read = f.unbonding_slashing_read;
      unbonding_read = f.unbonding_read;
      first_output = f.first_output;
      described = f.described;
      unbonding_passed = f.unbonding_passed;
    };
  }

  -- For an unbonding time of 65536 k + r, r a `uint16`, that is above `MinUnbondingTime`: steps 2
  -- to 4 pass and return `c` exactly when the staking and the unbonding transaction pass the
  -- library's checks for the time lock r and the scripts of the unbonding output are built for it.
  -- The time lock r itself is compared with no minimum.
  pub check_delegation_truncates :
      (k r : ℕ)
      → d.unbonding_time ≡ 65536 * k + r
      → r < 65536
      → p.min_unbonding_time < d.unbonding_time
      → (check_delegation b net p d ud ≡ ok c) ↔ IsCheckedFor b net p d ud c r
  check_delegation_truncates k r e small long =
      let cut : uint16 d.unbonding_time ≡ r = omega arith in
      (
        λ h.
            subst (IsCheckedFor b net p d ud c) cut
              (IsChecked-IsCheckedFor (check_delegation-IsChecked b net p d ud c h)),
        λ f.
            IsChecked-check_delegation b net p d ud c
              (IsCheckedFor-IsChecked long (subst (IsCheckedFor b net p d ud c) (sym cut) f)),
      )
