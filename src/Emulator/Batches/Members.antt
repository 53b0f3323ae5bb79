-- ===== src/Emulator/Batches/Members.antt =====
-- `delegationsToBatches` adds nothing: its batches hold what it was given.
use covenant.Prelude.{
  ℕ, zero, suc, ◌+◌, ◌-◌, ◌≡◌, ◌&&◌, subst, inl, inr, List, ok, leb, ltb, length, drop, uint64,
  Bool-cases, All, All-take, All-drop,
}
use covenant.Prelude.Results.{bind-eq-ok, ok-injective}
use covenant.Emulator.Batches.{slice, batch_end, batches_from, delegations_to_batches}

-- Whatever the fuel and the size, what holds of every delegation holds in every batch.
module _ {A : Type 0} (P : A → Type 0) where
  All-slice :
      (dels part : List A) (lo hi : ℕ) → All P dels → slice dels lo hi ≡ ok part → All P part
  unfolding slice
  All-slice dels part lo hi h e = elim (Bool-cases (leb lo hi && leb hi (length dels))) [
    | inl inside ↦
        subst (All P) (ok-injective (rw inside at e))
          (All-take P (hi - lo) (drop lo dels) (All-drop P lo dels h))
    | inr outside ↦ cc (rw outside at e)
  ]

  All-batches_from :
      (fuel size : ℕ) (dels : List A) (i : ℕ) (batches : List (List A))
      → All P dels
      → batches_from fuel size dels i ≡ ok batches
      → All (All P) batches
  unfolding batches_from
  All-batches_from zero size dels i batches h e = cc
  All-batches_from (suc fuel) size dels i batches h e = elim (Bool-cases (ltb i (length dels))) [
    | inl inside ↦
        let (part, e1, k1) =
          bind-eq-ok (slice dels i (batch_end size (length dels) i)) _ (rw inside at e) in
        let (rest, e2, k2) = bind-eq-ok (batches_from fuel size dels (uint64 (i + size))) _ k1 in
        subst (All (All P)) (ok-injective k2) (
          All-slice dels part i (batch_end size (length dels) i) h e1,
          All-batches_from fuel size dels (uint64 (i + size)) rest h e2,
        )
    | inr outside ↦ subst (All (All P)) (ok-injective (rw outside at e)) tt
  ]

  pub All-delegations_to_batches :
      (fuel size : ℕ) (dels : List A) (batches : List (List A))
      → All P dels
      → delegations_to_batches fuel size dels ≡ ok batches
      → All (All P) batches
  unfolding delegations_to_batches
  All-delegations_to_batches fuel size dels batches h e =
      All-batches_from fuel size dels 0 batches h e
