-- ===== src/Types.antt =====
-- types/: delegations, staking parameters and the signatures of the covenant.
pub mod Delegation
pub mod Params
pub mod StakingTime
pub mod Quorum
