-- ===== src/Types/Quorum.antt =====
-- `HasCovenantQuorum` of types/delegation.go and the tests that it makes on the undelegation.
use covenant.Prelude.{ℕ, ◌≤◌, ◌<◌, ◌≡◌, ◌↔◌, true, some, List, ok, arith, leb, length}
use covenant.Libraries.{Btc}
use covenant.Types.Delegation.{
  Delegation, Undelegation, CovenantAdaptorSigInfo, has_all_signatures, has_covenant_quorum,
}

module _ {b : Btc} where
  -- For a delegation with an undelegation and fewer than 2 ^ 32 signatures, the quorum is found
  -- exactly when there are `quorum` adaptor signatures on the slashing tx and `quorum` signatures
  -- on the unbonding tx.
  pub has_covenant_quorum_iff :
      (d : Delegation b) (ud : Undelegation b) (quorum : ℕ)
      → d.btc_undelegation ≡ some ud
      → length d.covenant_sigs < 4294967296
      → (has_covenant_quorum d quorum ≡ ok true)
        ↔ ((quorum ≤ length d.covenant_sigs) × (quorum ≤ length ud.covenant_unbonding_sigs))
  unfolding has_covenant_quorum
  has_covenant_quorum_iff d ud quorum e short = (λ h. ground arith, λ h. ground arith)

  -- `HasAllSignatures` does not look at the covenant's signatures on the slashing tx of the unbonding
  -- tx: with `quorum` unbonding signatures it holds whatever `CovenantSlashingSigs` is, empty
  -- included, and with fewer it fails.
  pub has_all_signatures_ignores_slashing :
      (ud : Undelegation b) (slashing : List (CovenantAdaptorSigInfo b)) (quorum : ℕ)
      → has_all_signatures (record ud { covenant_slashing_sigs = slashing }) quorum
        ≡ leb quorum (length ud.covenant_unbonding_sigs)
  unfolding has_all_signatures
  has_all_signatures_ignores_slashing ud slashing quorum = ground arith
