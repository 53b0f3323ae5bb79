-- ===== src/Emulator/Batches.antt =====
-- `delegationsToBatches` of covenant/covenant.go, for a slice of any type. The counter `i` is a
-- `uint64`, and a slice has fewer than 2 ^ 63 elements.
pub mod Cover
pub mod Errors
pub mod Members
use covenant.Prelude.{
  ℕ, zero, suc, ◌+◌, ◌-◌, List, [], ◌∷◌, ◌&&◌, Outcome, ok, panic, running, index_out_of_range, leb,
  ltb, length, take, drop, uint64, if◌then◌else◌,
}
use covenant.Prelude.Results.{◌>>=◌}

-- The bounds of a batch: `end`, cut at the length.
batch_end : ℕ → ℕ → ℕ → ℕ
batch_end batch_size len i = let end = uint64 (i + batch_size) in if ltb len end then len else end

module _ {ℓ} {A : Type ℓ} where
  -- `dels[lo:hi]`
  unfoldable pub slice : List A → ℕ → ℕ → Outcome (List A)
  slice dels lo hi =
      if leb lo hi && leb hi (length dels)
      then ok (take (hi - lo) (drop lo dels))
      else panic index_out_of_range

  -- The loop from `i` on, with one unit of fuel for each round.
  batches_from : ℕ → ℕ → List A → ℕ → Outcome (List (List A))
  batches_from zero batch_size dels i = running
  batches_from (suc fuel) batch_size dels i =
      let rest = batches_from fuel batch_size dels (uint64 (i + batch_size)) in
      if ltb i (length dels)
      then (do
        batch ← slice dels i (batch_end batch_size (length dels) i)
        batches ← rest
        ok (batch ∷ batches))
      else ok []

  unfoldable pub delegations_to_batches : ℕ → ℕ → List A → Outcome (List (List A))
  unfolding batches_from slice batch_end
  delegations_to_batches fuel batch_size dels = batches_from fuel batch_size dels 0
