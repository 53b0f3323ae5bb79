-- ===== src/Emulator/Loop/Each.antt =====
-- A tick signs each pending delegation that has no signature by the daemon's key.
use mathlib.Core.List.{map-append}
use covenant.Prelude.{
  ℕ, ◌≤◌, ◌<◌, ◌≡◌, refl, ap, sym, ◌∙◌, subst, ◌⊎◌, inl, inr, Option, some, List, [], ◌∷◌, ◌++◌,
  map, flatten, length, ok, arith, All, length-map,
}
use covenant.Libraries.{Btc}
use covenant.Machine.{World}
use covenant.Types.Delegation.{Delegation, CovenantSigs, TxResponse}
use covenant.Emulator.Defs.{CovenantEmulator}
use covenant.Emulator.Batches.Cover.{IsPacked, delegations_to_batches_cover}
use covenant.Emulator.Batches.Members.{All-delegations_to_batches}
use covenant.Emulator.Sanitize.Kept.{
  HasSigBy, already_signed_cases, Sanitized, done, skip, keep, remove_already_signed_iff,
}
use covenant.Emulator.Retry.{RetryDo, update_params}
use covenant.Emulator.Submit.Batch.{Signing, next}
use covenant.Emulator.Submit.Certified.{IsCertified}
use covenant.Emulator.Loop.{tick}
use covenant.Emulator.Loop.Complete.{Submissions, none_left, submitted, tick_signs_all}

module _ {b : Btc} {W : Type 0} (ce : CovenantEmulator b W) where
  -- The delegation can be certified at any time.
  abbrev pub IsSignable : Delegation b → Type 0
  IsSignable d = (u : World W) → (sigs : CovenantSigs b) × (v : World W) × IsCertified ce u v d sigs

  -- The chain accepts every submission.
  abbrev pub IsServed : Type 0
  IsServed =
      (made : List (CovenantSigs b)) (u : World W)
      → (res : TxResponse b) × (v : World W) × (ce.cc.submit_covenant_sigs made u ≡ (ok res, v))

  signing_of :
      (dels : List (Delegation b)) (u : World W)
      → All IsSignable dels
      → (made : List (CovenantSigs b)) × (v : World W) × Signing ce u dels made v
  signing_of [] u h = ([], u, Signing.done)
  signing_of (d ∷ dels) u h =
      let (sigs, v, c) = h.0 u in
      let (made, w, s) = signing_of dels v h.1 in (sigs ∷ made, w, next c s)

  -- None of the batches is empty.
  abbrev AllFilled : List (List (Delegation b)) → Type 0
  AllFilled = All (λ batch. 0 < length batch)

  batches_served :
      IsServed
      → (batches : List (List (Delegation b))) (u : World W) → AllFilled batches
      → All (All IsSignable) batches
      → (v : World W) × Submissions ce u batches v
  batches_served served [] u filled h = (u, none_left)
  batches_served served ([] ∷ batches) u filled h = absurd (omega (arith, filled.0))
  batches_served served ((d ∷ dels) ∷ batches) u filled h =
      let (made, v, s) = signing_of (d ∷ dels) u h.0 in
      let (res, w, e) = served made v in
      let (x, k) = batches_served served batches w filled.1 h.1 in (x, submitted made res s e k)

  unsigned_of :
      (pending : List (Delegation b))
      → All (λ d. HasSigBy ce.pk d.covenant_sigs ⊎ IsSignable d) pending
      → (dels : List (Delegation b)) × Sanitized ce.pk (map some pending) (map some dels)
        × All IsSignable dels
        × (length dels ≤ length pending)
  unsigned_of [] h = ([], done, tt, omega arith)
  unsigned_of (d ∷ pending) h =
      let (dels, s, signable, short) = unsigned_of pending h.1 in
      elim (already_signed_cases ce.pk d.covenant_sigs) [
        | inl found ↦ (dels, skip found.1 s, signable, omega arith)
        | inr clear ↦ (
          d ∷ dels,
          keep clear.1 s,
          (elim h.0 [ inl signed ↦ absurd (clear.1 signed) | inr k ↦ k ], signable),
          omega arith,
        )
      ]

  Present : Option (Delegation b) → Type 0
  Present x = (d : Delegation b) × (x ≡ some d) × IsSignable d

  All-Present : (dels : List (Delegation b)) → All IsSignable dels → All Present (map some dels)
  unfolding Present
  All-Present [] h = tt
  All-Present (d ∷ dels) h = ((d, refl, h.0), All-Present dels h.1)

  unwrapped :
      (xs : List (Option (Delegation b)))
      → All Present xs
      → (dels : List (Delegation b)) × (xs ≡ map some dels) × All IsSignable dels
  unfolding Present
  unwrapped [] h = ([], refl, tt)
  unwrapped (x ∷ xs) ((d, e, k), h) =
      let (dels, e', k') = unwrapped xs h in
      (d ∷ dels, ap (λ y. y ∷ xs) e ∙ ap (λ l. some d ∷ l) e', (k, k'))

  batches_of :
      (xss : List (List (Option (Delegation b))))
      → All (All Present) xss
      → (batches : List (List (Delegation b))) × (xss ≡ map (map some) batches)
        × All (All IsSignable) batches
  batches_of [] h = ([], refl, tt)
  batches_of (xs ∷ xss) h =
      let (dels, e, k) = unwrapped xs h.0 in
      let (batches, e', k') = batches_of xss h.1 in
      (dels ∷ batches, ap (λ y. y ∷ xss) e ∙ ap (λ l. map some dels ∷ l) e', (k, k'))

  IsPacked-AllFilled :
      (size : ℕ) (batches : List (List (Delegation b)))
      → 0 < size
      → IsPacked size (map (map some) batches)
      → AllFilled batches
  IsPacked-AllFilled size [] h p = tt
  IsPacked-AllFilled size (x ∷ []) h p = (omega (arith, length-map some x, p.0), tt)
  IsPacked-AllFilled size (x ∷ y ∷ rest) h p =
      (omega (arith, length-map some x, p.0), IsPacked-AllFilled size (y ∷ rest) h p.1)

  map-flatten :
      (batches : List (List (Delegation b)))
      → flatten (map (map some) batches) ≡ map some (flatten batches)
  unfolding flatten
  map-flatten [] = refl
  map-flatten (batch ∷ batches) =
      ap (λ l. map some batch ++ l) (map-flatten batches)
      ∙ sym (map-append some batch (flatten batches))

module _ {b : Btc} {W : Type 0} (retry_do : RetryDo b W) (fuel : ℕ) where
  -- If a tick gets the parameters and the pending delegations, each of them has a signature by the
  -- key of the daemon or can be certified at any time, and the chain accepts every submission, then
  -- the tick submits one certified set of signatures for each delegation that had none, in their
  -- order, batch by batch, none of them empty, and returns. The batch size is a `uint64` above 0,
  -- and there are fewer than 2 ^ 63 delegations; one round more than there are delegations is
  -- enough.
  pub tick_signs_each :
      (ce updated : CovenantEmulator b W) (before fetched asked : World W)
      (pending : List (Delegation b))
      → update_params retry_do ce before ≡ (ok updated, fetched)
      → updated.cc.query_pending_delegations updated.config.delegation_limit fetched
        ≡ (ok (map some pending), asked)
      → All (λ d. HasSigBy updated.pk d.covenant_sigs ⊎ IsSignable updated d) pending
      → IsServed updated
      → 0 < updated.config.sigs_batch_size
      → updated.config.sigs_batch_size < 18446744073709551616
      → length pending < 9223372036854775808
      → length pending < fuel
      → (batches : List (List (Delegation b))) × (after : World W) × Sanitized updated.pk
          (map some pending)
          (map some (flatten batches))
        × Submissions updated asked batches after
        × (tick retry_do fuel ce before ≡ (ok updated, after))
  tick_signs_each ce updated before fetched asked pending e1 e2 h served some_size word short
        enough =
      let (dels, s, signable, fewer) = unsigned_of updated pending h in
      let (xss, e, whole, packed) =
        delegations_to_batches_cover fuel updated.config.sigs_batch_size (map some dels) some_size
          word (omega (arith, length-map some dels)) (omega (arith, length-map some dels)) in
      let (batches, same, all_signable) = batches_of updated xss (
        All-delegations_to_batches (Present updated) fuel updated.config.sigs_batch_size
          (map some dels) xss (All-Present updated dels signable) e) in
      let (after, k) =
        batches_served updated served batches asked
          (IsPacked-AllFilled updated updated.config.sigs_batch_size batches some_size
            (subst (IsPacked updated.config.sigs_batch_size) same packed))
          all_signable in
      let in_order = sym whole ∙ ap flatten same ∙ map-flatten updated batches in
      (
        batches,
        after,
        subst (Sanitized updated.pk (map some pending)) in_order s,
        k,
        tick_signs_all retry_do fuel ce updated before fetched asked after (map some pending)
            (map some dels) batches e1 e2
            ((remove_already_signed_iff updated.pk (map some pending) (map some dels)).1 s)
            (e ∙ ap ok same) k,
      )
