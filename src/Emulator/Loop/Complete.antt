-- ===== src/Emulator/Loop/Complete.antt =====
-- A tick in which nothing fails signs everything.
use covenant.Prelude.{ℕ, ◌≡◌, refl, Option, some, List, [], ◌∷◌, map, ok}
use covenant.Libraries.{Btc}
use covenant.Machine.{World}
use covenant.Types.Delegation.{Delegation, CovenantSigs, TxResponse}
use covenant.Emulator.Defs.{CovenantEmulator}
use covenant.Emulator.Batches.{delegations_to_batches}
use covenant.Emulator.Sanitize.{remove_already_signed}
use covenant.Emulator.Retry.{RetryDo, update_params}
use covenant.Emulator.Submit.Batch.{Signing}
use covenant.Emulator.Submit.Safety.{add_covenant_signatures_complete}
use covenant.Emulator.Loop.{submit_batch, submit_batches, sign_pending, query_and_sign, tick}

module _ {b : Btc} {W : Type 0} (ce : CovenantEmulator b W) where
  -- Each batch, none of them empty, is certified as a whole and then submitted, one after the other.
  pub data Submissions : World W → List (List (Delegation b)) → World W → Type 0 where
    none_left : {w : World W} → Submissions w [] w
    submitted :
        {u v w x : World W} {d : Delegation b} {dels : List (Delegation b)}
        {rest : List (List (Delegation b))} (made : List (CovenantSigs b)) (res : TxResponse b)
        → Signing ce u (d ∷ dels) made v
        → ce.cc.submit_covenant_sigs made v ≡ (ok res, w)
        → Submissions w rest x
        → Submissions u ((d ∷ dels) ∷ rest) x

module _ {b : Btc} {W : Type 0} (ce : CovenantEmulator b W) where
  Submissions-submit_batches :
      (u v : World W) (batches : List (List (Delegation b)))
      → Submissions ce u batches v
      → submit_batches ce (map (map some) batches) u ≡ (ok tt, v)
  unfolding submit_batches submit_batch
  Submissions-submit_batches u v batches none_left = refl
  Submissions-submit_batches u v batches
        (submitted {v = signed} {w = w} {d = d} {dels = dels} {rest = rest} made res s e k) =
      rw (
        add_covenant_signatures_complete ce d dels made u signed s,
        e,
        Submissions-submit_batches w v rest k,
      )

module _ {b : Btc} {W : Type 0} (retry_do : RetryDo b W) (fuel : ℕ) where
  -- If a tick gets the parameters and the pending delegations, and each batch of those that are
  -- not signed yet is certified and submitted without an error, the tick submits all of these
  -- batches in their order and goes on with the parameters that it got.
  pub tick_signs_all :
      (ce updated : CovenantEmulator b W) (before fetched asked after : World W)
      (pending kept : List (Option (Delegation b))) (batches : List (List (Delegation b)))
      → update_params retry_do ce before ≡ (ok updated, fetched)
      → updated.cc.query_pending_delegations updated.config.delegation_limit fetched
        ≡ (ok pending, asked)
      → remove_already_signed updated.pk pending ≡ ok kept
      → delegations_to_batches fuel updated.config.sigs_batch_size kept
        ≡ ok (map (map some) batches)
      → Submissions updated asked batches after
      → tick retry_do fuel ce before ≡ (ok updated, after)
  unfolding tick query_and_sign sign_pending
  tick_signs_all ce updated before fetched asked after pending kept batches e1 e2 e3 e4 s =
      rw (e1, e2, e3, e4, Submissions-submit_batches updated asked after batches s)
