-- ===== src/Examples/Batches.antt =====
-- Batches of numbers.
use covenant.Prelude.{ℕ, ◌≡◌, refl, List, [], ◌∷◌, flatten, ok, running, arith}
use covenant.Emulator.Batches.{delegations_to_batches}
use covenant.Emulator.Batches.Cover.{
  IsPacked, delegations_to_batches_cover, delegations_to_batches_hangs,
}

five_by_two :
    delegations_to_batches {A = ℕ} 6 2 (1 ∷ 2 ∷ 3 ∷ 4 ∷ 5 ∷ [])
    ≡ ok ((1 ∷ 2 ∷ []) ∷ (3 ∷ 4 ∷ []) ∷ (5 ∷ []) ∷ [])
unfolding delegations_to_batches
five_by_two = refl

delegations_to_batches_cover_example :
    (batches : List (List ℕ)) × (delegations_to_batches {A = ℕ} 6 2 (1 ∷ 2 ∷ 3 ∷ 4 ∷ 5 ∷ [])
      ≡ ok batches)
    × (flatten batches ≡ 1 ∷ 2 ∷ 3 ∷ 4 ∷ 5 ∷ [])
    × IsPacked 2 batches
delegations_to_batches_cover_example =
    delegations_to_batches_cover 6 2 (1 ∷ 2 ∷ 3 ∷ 4 ∷ 5 ∷ []) (omega arith) (omega arith)
      (omega arith) (omega arith)

delegations_to_batches_hangs_example : delegations_to_batches {A = ℕ} 1000 0 (1 ∷ 2 ∷ []) ≡ running
delegations_to_batches_hangs_example = delegations_to_batches_hangs 1000 1 (2 ∷ [])
