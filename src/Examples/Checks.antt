-- ===== src/Examples/Checks.antt =====
-- The tests on a delegation, over the toy libraries.
use covenant.Prelude.{◌+◌, ◌≤◌, ◌≡◌, ◌↔◌, true, refl, some, [], ◌∷◌, ok, leb, uint64, arith}
use covenant.Types.Delegation.{
  Delegation, has_covenant_quorum, has_all_signatures, get_staking_time,
}
use covenant.Types.StakingTime.{get_staking_time_iff}
use covenant.Types.Quorum.{has_covenant_quorum_iff, has_all_signatures_ignores_slashing}
use covenant.Types.Params.{minimum_unbonding_time}
use covenant.Emulator.Signing.{
  Checked, check_unbonding_time, check_staking, check_unbonding, check_delegation, first_value,
}
use covenant.Emulator.Timelock.{
  IsMax, IsCheckedFor, check_delegation_truncates, check_unbonding_time_below_minimum,
}
use covenant.Emulator.Sanitize.{remove_already_signed}
use covenant.Emulator.Sanitize.Kept.{Sanitized, remove_already_signed_iff}
use covenant.Examples.Toy.{toy, params, delegation, undelegation}

get_staking_time_iff_example :
    (get_staking_time delegation ≡ ok 5) ↔ ((5 ≤ 65535) × (105 ≡ uint64 (100 + 5)))
get_staking_time_iff_example = get_staking_time_iff delegation (omega arith) (omega arith) 5

-- The end height may pass the largest `uint64`.
wraps :
    get_staking_time (record delegation { start_height = 18446744073709551614; end_height = 3 })
    ≡ ok 5
unfolding get_staking_time
wraps = refl

abbrev signed : Delegation toy
signed = record delegation {
  covenant_sigs = record { pk = 2; sigs = [] } ∷ record { pk = 1; sigs = [] } ∷ [];
}

has_covenant_quorum_iff_example : (has_covenant_quorum signed 2 ≡ ok true) ↔ ((2 ≤ 2) × (2 ≤ 0))
has_covenant_quorum_iff_example = has_covenant_quorum_iff signed undelegation 2 refl (omega arith)

has_all_signatures_ignores_slashing_example :
    has_all_signatures
      (record undelegation { covenant_slashing_sigs = record { pk = 2; sigs = [] } ∷ [] })
      1
    ≡ leb 1 0
has_all_signatures_ignores_slashing_example =
    has_all_signatures_ignores_slashing undelegation (record { pk = 2; sigs = [] } ∷ []) 1

-- The time lock in the scripts is 1, and the least unbonding time is 100.
abbrev long_delegation : Delegation toy
long_delegation = record delegation { unbonding_time = 65537 }

abbrev long_checked : Checked toy
long_checked = record {
  staking_msg_tx = "aa";
  slashing_tx = "bb";
  unbonding_msg_tx = "cc";
  unbonding_info = 1;
}

passes : check_delegation toy "simnet" params long_delegation undelegation ≡ ok long_checked
unfolding check_delegation check_unbonding_time check_staking check_unbonding first_value
passes = refl

check_delegation_truncates_example :
    (check_delegation toy "simnet" params long_delegation undelegation ≡ ok long_checked)
    ↔ IsCheckedFor toy "simnet" params long_delegation undelegation long_checked 1
check_delegation_truncates_example =
    check_delegation_truncates toy "simnet" params long_delegation undelegation long_checked 1 1
      refl (omega arith) (omega arith)

max_uint64-IsMax : IsMax toy
max_uint64-IsMax = record { left = λ x y. ground arith; right = λ x y. ground arith }

check_unbonding_time_below_minimum_example :
    (check_unbonding_time toy (record params { finalization_timeout_blocks = 200 }) delegation
      ≡ ok tt)
    × (101 ≤ minimum_unbonding_time (record params { finalization_timeout_blocks = 200 }))
check_unbonding_time_below_minimum_example =
    check_unbonding_time_below_minimum toy (record params { finalization_timeout_blocks = 200 })
      delegation max_uint64-IsMax (omega arith) (omega arith)

-- `signed` has a signature by the key 1.
drops :
    remove_already_signed 1 (some delegation ∷ some signed ∷ some delegation ∷ [])
    ≡ ok (some delegation ∷ some delegation ∷ [])
unfolding remove_already_signed
drops = refl

remove_already_signed_iff_example :
    (remove_already_signed 1 (some delegation ∷ some signed ∷ []) ≡ ok (some delegation ∷ []))
    ↔ Sanitized {b = toy} 1 (some delegation ∷ some signed ∷ []) (some delegation ∷ [])
remove_already_signed_iff_example =
    remove_already_signed_iff 1 (some delegation ∷ some signed ∷ []) (some delegation ∷ [])
