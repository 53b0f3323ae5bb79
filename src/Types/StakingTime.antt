-- ===== src/Types/StakingTime.antt =====
-- `GetStakingTime` of types/delegation.go: the difference of two `uint64` heights as a `uint16`.
use covenant.Prelude.{
  ℕ, ◌+◌, ◌≤◌, ◌<◌, ◌≡◌, ◌↔◌, ◌⊎◌, inl, inr, errorf, panic, panic_with, ok, arith, ltb, uint16,
  uint64, sub_uint64, Bool-cases,
}
use covenant.Libraries.{Btc}
use covenant.Types.Delegation.{Delegation, get_staking_time}

module _ {b : Btc} (d : Delegation b) where
  -- For heights that are `uint64`, `GetStakingTime` returns `t` exactly when `t` is a `uint16` and
  -- the end height is `t` blocks after the start height, counted in `uint64`.
  pub get_staking_time_iff :
      d.start_height < 18446744073709551616
      → d.end_height < 18446744073709551616
      → (t : ℕ)
      → (get_staking_time d ≡ ok t) ↔ ((t ≤ 65535) × (d.end_height ≡ uint64 (d.start_height + t)))
  unfolding get_staking_time
  get_staking_time_iff hs he t = (λ h. ground arith, λ h. ground arith)

  -- `GetStakingTime` returns a `uint16` or panics with its own text; it has no other outcome.
  pub get_staking_time_total :
      ((t : ℕ) × (t ≤ 65535) × (get_staking_time d ≡ ok t))
      ⊎ (get_staking_time d ≡ panic (panic_with (errorf "invalid delegation in database")))
  unfolding get_staking_time
  get_staking_time_total = elim (Bool-cases (ltb 65535 (sub_uint64 d.end_height d.start_height))) [
    | inl long ↦ inr (rw long)
    | inr short ↦ inl (uint16 (sub_uint64 d.end_height d.start_height), omega arith, rw short)
  ]
