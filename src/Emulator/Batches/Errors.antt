-- ===== src/Emulator/Batches/Errors.antt =====
-- `delegationsToBatches` of covenant/covenant.go has no error of its own.
use covenant.Prelude.{ℕ, zero, suc, ◌+◌, ◌&&◌, inl, inr, List, leb, ltb, length, uint64, Bool-cases}
use covenant.Prelude.Results.{NoError, NoError-bind}
use covenant.Emulator.Batches.{slice, batch_end, batches_from, delegations_to_batches}

module _ {ℓ} {A : Type ℓ} where
  slice-NoError : (dels : List A) (lo hi : ℕ) → NoError (slice dels lo hi)
  unfolding slice
  slice-NoError dels lo hi = elim (Bool-cases (leb lo hi && leb hi (length dels))) [
    | inl e ↦ rw e tt
    | inr e ↦ rw e tt
  ]

  batches_from-NoError :
      (fuel size : ℕ) (dels : List A) (i : ℕ) → NoError (batches_from fuel size dels i)
  unfolding batches_from
  batches_from-NoError zero size dels i = tt
  batches_from-NoError (suc fuel) size dels i = elim (Bool-cases (ltb i (length dels))) [
    | inl e ↦ rw e (
        NoError-bind (slice dels i (batch_end size (length dels) i)) _
          (slice-NoError dels i (batch_end size (length dels) i))
          (λ batch.
            NoError-bind (batches_from fuel size dels (uint64 (i + size))) _
              (batches_from-NoError fuel size dels (uint64 (i + size))) (λ rest. tt)))
    | inr e ↦ rw e tt
  ]

  pub delegations_to_batches-NoError :
      (fuel size : ℕ) (dels : List A) → NoError (delegations_to_batches fuel size dels)
  unfolding delegations_to_batches
  delegations_to_batches-NoError fuel size dels = batches_from-NoError fuel size dels 0
