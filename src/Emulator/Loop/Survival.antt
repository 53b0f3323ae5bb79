-- ===== src/Emulator/Loop/Survival.antt =====
-- The submission loop's errors: which of its calls cannot return one.
use covenant.Prelude.{
  ℕ, ◌≡◌, refl, Option, some, none, List, [], ◌∷◌, Outcome, ok, err, panic, running,
}
use covenant.Prelude.Results.{NoError, NoError-bind}
use covenant.Prelude.Exec
use covenant.Libraries.{Btc}
use covenant.Machine.{World}
use covenant.Types.Delegation.{Delegation, TxResponse}
use covenant.Types.Params.{StakingParams}
use covenant.Emulator.Defs.{CovenantEmulator}
use covenant.Emulator.Batches.{delegations_to_batches}
use covenant.Emulator.Batches.Errors.{delegations_to_batches-NoError}
use covenant.Emulator.Sanitize.{remove_already_signed}
use covenant.Emulator.Submit.{add_covenant_signatures}
use covenant.Emulator.Loop.{
  logged, submit_batch, submit_batches, sign_pending, on_query, query_and_sign,
}

module _ {b : Btc} (pk : b.PublicKey) where
  remove_already_signed-NoError :
      (dels : List (Option (Delegation b))) → NoError (remove_already_signed pk dels)
  unfolding remove_already_signed
  remove_already_signed-NoError [] = tt
  remove_already_signed-NoError (none ∷ dels) = tt
  remove_already_signed-NoError (some d ∷ dels) =
      NoError-bind (remove_already_signed pk dels) _ (remove_already_signed-NoError dels) (λ l. tt)

module _ {b : Btc} {W : Type 0} where
  logged_then :
      (ce : CovenantEmulator b W) (batches : List (List (Option (Delegation b))))
      → ((u : World W) → NoError (submit_batches ce batches u).0)
      → (r : Outcome (Option (TxResponse b))) (u : World W)
      → NoError (Exec.continue (logged r) (λ done. submit_batches ce batches) u).0
  logged_then ce batches h (ok a) u = h u
  logged_then ce batches h (err e) u = h u
  logged_then ce batches h (panic p) u = tt
  logged_then ce batches h running u = tt

  submit_batches-NoError :
      (ce : CovenantEmulator b W) (batches : List (List (Option (Delegation b)))) (w : World W)
      → NoError (submit_batches ce batches w).0
  unfolding submit_batches submit_batch
  submit_batches-NoError ce [] w = tt
  submit_batches-NoError ce (batch ∷ batches) w =
      let (r, u) = add_covenant_signatures ce batch w in
      logged_then ce batches (submit_batches-NoError ce batches) r u

module _ {b : Btc} {W : Type 0} (ce : CovenantEmulator b W) where
  -- The emulator with other parameters, or no return.
  abbrev pub Survives : Outcome (CovenantEmulator b W) → Type 0
  Survives (ok ce') = (params : Option (StakingParams b)) × (ce' ≡ record ce { params = params })
  Survives (err e) = ⊥
  Survives (panic p) = Unit
  Survives running = Unit

  continue-Survives :
      {A : Type 0} (r : Outcome A) (f : A → Exec.Exec (World W) (CovenantEmulator b W))
      (u : World W)
      → NoError r
      → ((a : A) (u : World W) → Survives (f a u).0)
      → Survives (Exec.continue r f u).0
  continue-Survives (ok a) f u h k = k a u
  continue-Survives (err e) f u h k = h
  continue-Survives (panic p) f u h k = tt
  continue-Survives running f u h k = tt

  sign_pending-Survives :
      (fuel : ℕ) (params : Option (StakingParams b)) (dels : List (Option (Delegation b)))
      (w : World W)
      → Survives (sign_pending fuel (record ce { params = params }) dels w).0
  unfolding sign_pending
  sign_pending-Survives fuel params dels w =
      continue-Survives (remove_already_signed ce.pk dels) _ w
        (remove_already_signed-NoError ce.pk dels)
        (λ kept u.
          continue-Survives (delegations_to_batches fuel ce.config.sigs_batch_size kept) _ u
            (delegations_to_batches-NoError fuel ce.config.sigs_batch_size kept)
            (λ batches v.
              let (r, v') = submit_batches (record ce { params = params }) batches v in
              continue-Survives r (λ done. Exec.pure (record ce { params = params })) v'
                (submit_batches-NoError (record ce { params = params }) batches v)
                (λ done x. (params, refl))))

  on_query-Survives :
      (fuel : ℕ) (params : Option (StakingParams b)) (r : Outcome (List (Option (Delegation b))))
      (w : World W)
      → Survives (on_query fuel (record ce { params = params }) r w).0
  on_query-Survives fuel params (ok dels) w = sign_pending-Survives fuel params dels w
  on_query-Survives fuel params (err e) w = (params, refl)
  on_query-Survives fuel params (panic p) w = tt
  on_query-Survives fuel params running w = tt

  pub query_and_sign-Survives :
      (fuel : ℕ) (params : Option (StakingParams b)) (w : World W)
      → Survives (query_and_sign fuel (record ce { params = params }) w).0
  unfolding query_and_sign
  query_and_sign-Survives fuel params u =
      let (r, v) = ce.cc.query_pending_delegations ce.config.delegation_limit u in
      on_query-Survives fuel params r v
