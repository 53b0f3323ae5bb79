-- ===== src/Emulator/Batches/Cover.antt =====
-- What the batches of `delegationsToBatches` are, and when the loop ends.
use Prim.Native.Nat.{min}
use covenant.Prelude.{
  ℕ, zero, suc, ◌+◌, ◌-◌, ◌≤◌, ◌<◌, ◌≡◌, refl, ap, sym, ◌∙◌, ◌⊎◌, inl, inr, List, [], ◌∷◌, ◌++◌,
  flatten, Outcome, ok, running, arith, ltb, length, take, drop, length-append, length-take,
  length-drop, take-append-drop, drop-drop, drop_of_le, uint64, Bool-cases, le→leb, ltb→lt, lt→ltb,
}
use covenant.Prelude.Results.{◌>>=◌}
use covenant.Emulator.Batches.{slice, batch_end, batches_from, delegations_to_batches}

-- All batches but the last have `size` elements, and the last has one at least and `size` at most.
abbrev pub IsPacked {ℓ} : {A : Type ℓ} → ℕ → List (List A) → Type 0
IsPacked size [] = Unit
IsPacked size (b ∷ []) = (0 < length b) × (length b ≤ size)
IsPacked size (b ∷ c ∷ rest) = (length b ≡ size) × IsPacked size (c ∷ rest)

batch_end-eq-min :
    (size len i : ℕ) → i + size < 18446744073709551616 → batch_end size len i ≡ min (i + size) len
unfolding batch_end
batch_end-eq-min size len i small = ground arith

uint64_small : (n : ℕ) → n < 18446744073709551616 → uint64 n ≡ n
uint64_small n h = omega arith

module _ {ℓ} {A : Type ℓ} where
  IsPacked-flatten :
      (size : ℕ) (b : List A) (rest : List (List A))
      → 0 < size
      → IsPacked size (b ∷ rest)
      → 0 < length (flatten (b ∷ rest))
  unfolding flatten
  IsPacked-flatten size b [] h p = omega (arith, length-append b (flatten []))
  IsPacked-flatten size b (c ∷ rest) h p = omega (arith, length-append b (flatten (c ∷ rest)))

  IsPacked-cons :
      (size : ℕ) (b : List A) (rest : List (List A))
      → 0 < size
      → 0 < length b
      → length b ≤ size
      → (0 < length (flatten rest) → length b ≡ size)
      → IsPacked size rest
      → IsPacked size (b ∷ rest)
  IsPacked-cons size b [] h some_in at_most full p = (some_in, at_most)
  IsPacked-cons size b (c ∷ rest) h some_in at_most full p =
      (full (IsPacked-flatten size c rest h p), p)

  -- What a run of the loop from `i` on gives.
  record Cover (size : ℕ) (dels : List A) (i : ℕ) (result : Outcome (List (List A))) : Type ℓ where
    batches : List (List A)
    returned : result ≡ ok batches
    whole : flatten batches ≡ drop i dels
    packed : IsPacked size batches

  slice-eq-take :
      (dels : List A) (lo hi : ℕ)
      → lo ≤ hi
      → hi ≤ length dels
      → slice dels lo hi ≡ ok (take (hi - lo) (drop lo dels))
  unfolding slice
  slice-eq-take dels lo hi h k = rw (le→leb lo hi h, le→leb hi (length dels) k)

  take-cut : (size : ℕ) (xs : List A) → take (min size (length xs)) xs ≡ take size xs
  take-cut zero xs = ap (λ k. take k xs) (min-zero (length xs))
    where
      min-zero : (k : ℕ) → min 0 k ≡ 0
      min-zero k = omega arith
  take-cut (suc n) [] = rw (min-zero (suc n))
    where
      min-zero : (k : ℕ) → min k 0 ≡ 0
      min-zero k = omega arith
  take-cut (suc n) (x ∷ xs) =
      ap (λ k. take k (x ∷ xs)) (min-suc n (length xs)) ∙ ap (λ l. x ∷ l) (take-cut n xs)
    where
      min-suc : (a b : ℕ) → min (suc a) (suc b) ≡ suc (min a b)
      min-suc a b = omega arith

  -- The batch that starts at `i` is the next `size` elements, or all that are left.
  slice-batch_end :
      (size : ℕ) (dels : List A) (i : ℕ)
      → i < length dels
      → i + size < 18446744073709551616
      → slice dels i (batch_end size (length dels) i) ≡ ok (take size (drop i dels))
  slice-batch_end size dels i inside small = rw (batch_end-eq-min size (length dels) i small) (
      slice-eq-take dels i (min (i + size) (length dels)) (omega arith) (omega arith)
      ∙ ap (λ k. ok (take k (drop i dels))) (omega (arith, length-drop i dels))
      ∙ ap ok (take-cut size (drop i dels)))

  module _ (size : ℕ) (dels : List A) (i : ℕ) (h : 0 < size) (inside : i < length dels) where
    Cover-cons :
        (rest : Outcome (List (List A)))
        → i + size < 18446744073709551616
        → Cover size dels (i + size) rest
        → Cover size dels i (do
          batch ← slice dels i (batch_end size (length dels) i)
          batches ← rest
          ok (batch ∷ batches))
    unfolding flatten
    Cover-cons rest small c = record {
      batches = batch ∷ c.batches;
      returned = rw (slice-batch_end size dels i inside small, c.returned);
      whole =
          ap (λ l. batch ++ l) (c.whole ∙ sym (drop-drop size i dels))
          ∙ take-append-drop size (drop i dels);
      packed =
          IsPacked-cons size batch c.batches h (omega (arith, lengths)) (omega (arith, lengths))
            (λ more. omega (arith, lengths, length-drop (i + size) dels, ap length c.whole, more))
            c.packed;
    }
      where
        batch : List A
        batch = take size (drop i dels)

        lengths :
            (length batch ≡ min size (length (drop i dels)))
            × (length (drop i dels) ≡ length dels - i)
        lengths = (length-take size (drop i dels), length-drop i dels)

  batches_from-Cover :
      (fuel size : ℕ) (dels : List A) (i : ℕ)
      → 0 < size
      → length dels < 9223372036854775808
      → size < 18446744073709551616
      → (i ≡ 0) ⊎ (size ≤ i)
      → length dels - i < fuel
      → Cover size dels i (batches_from fuel size dels i)
  unfolding batches_from flatten
  batches_from-Cover zero size dels i h short word start enough = absurd (omega arith)
  batches_from-Cover (suc fuel) size dels i h short word start enough =
      elim (Bool-cases (ltb i (length dels))) [
        | inl inside ↦
            let within : i < length dels = ltb→lt i (length dels) inside in
            rw (inside, uint64_small (i + size) (omega arith))
              (Cover-cons size dels i h within (batches_from fuel size dels (i + size))
                (omega arith)
                (batches_from-Cover fuel size dels (i + size) h short word (omega arith)
                  (omega arith)))
        | inr outside ↦ record {
          batches = [];
          returned = rw outside;
          whole = sym (drop_of_le i dels (ground arith));
          packed = tt;
        }
      ]

-- With a `uint64` batch size above 0 and fewer than 2 ^ 63 delegations the loop ends, within one
-- round more than there are elements. The batches in their order are the delegations in theirs, each
-- has `batch_size` elements but the last, which has one at least; no slice is out of range and the
-- `uint64` counter does not wrap.
pub delegations_to_batches_cover {ℓ} :
    {A : Type ℓ} (fuel batch_size : ℕ) (dels : List A)
    → 0 < batch_size
    → batch_size < 18446744073709551616
    → length dels < 9223372036854775808
    → length dels < fuel
    → (batches : List (List A)) × (delegations_to_batches fuel batch_size dels ≡ ok batches)
      × (flatten batches ≡ dels)
      × IsPacked batch_size batches
unfolding delegations_to_batches
delegations_to_batches_cover fuel size dels h word short enough =
    let c = batches_from-Cover fuel size dels 0 h short word (inl refl) (omega arith) in
    (c.batches, c.returned, c.whole, c.packed)

batches_from_zero {ℓ} :
    {A : Type ℓ} (fuel : ℕ) (d : A) (dels : List A) → batches_from fuel 0 (d ∷ dels) 0 ≡ running
unfolding batches_from
batches_from_zero zero d dels = refl
batches_from_zero (suc fuel) d dels = rw (
  lt→ltb 0 (suc (length dels)) (omega arith),
  slice-batch_end 0 (d ∷ dels) 0 (omega arith) (omega arith),
  batches_from_zero fuel d dels,
)

-- With a batch size of 0 and a delegation to sign the loop never ends: it has not returned after
-- any number of rounds.
pub delegations_to_batches_hangs {ℓ} :
    {A : Type ℓ} (fuel : ℕ) (d : A) (dels : List A)
    → delegations_to_batches fuel 0 (d ∷ dels) ≡ running
unfolding delegations_to_batches
delegations_to_batches_hangs fuel d dels = batches_from_zero fuel d dels
