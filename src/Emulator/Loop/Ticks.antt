-- ===== src/Emulator/Loop/Ticks.antt =====
-- Everything that the submission loop does, over any number of ticks.
use covenant.Prelude.{
  ℕ, zero, suc, ◌≡◌, refl, ap, sym, ◌∙◌, inl, inr, Option, some, List, [], ◌∷◌, Outcome, ok, err,
  panic, running, All, subst,
}
use covenant.Prelude.Exec.{Moves, Moves-bind, Moves-lift, continue, bind_pure}
use covenant.Libraries.{Btc}
use covenant.Machine.{World}
use covenant.Types.Delegation.{Delegation}
use covenant.Types.Params.{StakingParams}
use covenant.Emulator.Defs.{CovenantEmulator}
use covenant.Emulator.Batches.{delegations_to_batches}
use covenant.Emulator.Batches.Members.{All-delegations_to_batches}
use covenant.Emulator.Sanitize.{remove_already_signed}
use covenant.Emulator.Sanitize.Kept.{IsEligible, remove_already_signed_iff, Sanitized-IsEligible}
use covenant.Emulator.Retry.{RetryDo}
use covenant.Emulator.Retry.Attempts.{IsRetry, Queries, update_params-Queries, with_params}
use covenant.Emulator.Submit.{add_covenant_signatures}
use covenant.Emulator.Submit.Safety.{add_covenant_signatures_safe}
use covenant.Emulator.Loop.{
  submit_batch, submit_batches, sign_pending, on_query, query_and_sign, on_params, tick, ticks,
}
use covenant.Emulator.Loop.Survival.{Survives, query_and_sign-Survives}
use covenant.Emulator.Loop.Acts.{
  ask_pending, submit, Acts, none_yet, then, Acts-trans, KeyReads-Acts, Queries-Acts, Signing-Acts,
  Queries-answered,
}

module _ {b : Btc} {W : Type 0} (ce : CovenantEmulator b W) where
  -- The emulator later on: only its parameters change.
  abbrev later : Option (StakingParams b) → CovenantEmulator b W
  later params = record ce { params = params }

  -- A call that goes on from what was done since `start`.
  abbrev Onward : World W → World W → World W → Type 0
  Onward start u v = Acts ce start u → Acts ce start v

  abbrev onward_trans :
      (start u v w : World W) → Onward start u v → Onward start v w → Onward start u w
  onward_trans start u v w f g h = g (f h)

  module _ (start : World W) (params : StakingParams b) (fetching asked at : World W)
      (pending : List (Option (Delegation b))) (past : Acts ce start fetching)
      (fetched : ce.cc.query_staking_params fetching ≡ (ok params, asked))
      (answer : ce.cc.query_pending_delegations ce.config.delegation_limit asked
        ≡ (ok pending, at)) where
    submit_batch-Acts :
        (dels : List (Option (Delegation b)))
        → All (IsEligible ce.pk pending) dels
        → Moves (Onward start) (submit_batch (later (some params)) dels)
    unfolding submit_batch
    submit_batch-Acts dels i w h =
        let call = add_covenant_signatures (later (some params)) dels in
        elim (add_covenant_signatures_safe (later (some params)) dels w) [
          | inl s ↦
              then (Acts-trans ce start w s.between h (Signing-Acts ce (some params) s.signing)) (
                submit params fetching asked at pending w s.present s.made past fetched answer
                  (subst (All (IsEligible ce.pk pending)) s.not_nil i) s.signing
                  (sym (bind_pure some (ce.cc.submit_covenant_sigs s.made) s.between)
                    ∙ ap (λ x. x.1) s.answered))
          | inr q ↦
              Acts-trans ce start w (call w).1 h
                (KeyReads-Acts ce (some params) w (call w).1 q.only_reads)
        ]

    submit_batches-Acts :
        (batches : List (List (Option (Delegation b))))
        → All (All (IsEligible ce.pk pending)) batches
        → Moves (Onward start) (submit_batches (later (some params)) batches)
    unfolding submit_batches
    submit_batches-Acts [] i w = λ h. h
    submit_batches-Acts (batch ∷ batches) i w =
        Moves-bind (Onward start) (λ s h. h) (onward_trans start)
          (submit_batch (later (some params)) batch)
          (λ done. submit_batches (later (some params)) batches) (submit_batch-Acts batch i.0)
          (λ done. submit_batches-Acts batches i.1) w

    sign_pending-Acts :
        (fuel : ℕ) → Moves (Onward start) (sign_pending fuel (later (some params)) pending)
    unfolding sign_pending
    sign_pending-Acts fuel w =
        Moves-lift (Onward start) (λ s h. h) (onward_trans start)
          (remove_already_signed ce.pk pending) _ w
          (λ kept e.
            Moves-lift (Onward start) (λ s h. h) (onward_trans start)
              (delegations_to_batches fuel ce.config.sigs_batch_size kept) _ w
              (λ batches k.
                subst (Onward start w)
                  (sym (
                    bind_pure (λ done. later (some params))
                      (submit_batches (later (some params)) batches) w))
                  (submit_batches-Acts batches
                    (All-delegations_to_batches (IsEligible ce.pk pending) fuel
                      ce.config.sigs_batch_size kept batches
                      (Sanitized-IsEligible ce.pk
                        ((remove_already_signed_iff ce.pk pending kept).0 e))
                      k)
                    w)))

  on_query-Acts :
      (fuel : ℕ) (start : World W) (params : StakingParams b) (fetching u v : World W)
      (r : Outcome (List (Option (Delegation b))))
      → Acts ce start fetching
      → ce.cc.query_staking_params fetching ≡ (ok params, u)
      → ce.cc.query_pending_delegations ce.config.delegation_limit u ≡ (r, v)
      → Onward start v (on_query fuel (later (some params)) r v).1
  on_query-Acts fuel start params fetching u v (ok dels) past e k =
      sign_pending-Acts start params fetching u v dels past e k fuel v
  on_query-Acts fuel start params fetching u v (err x) past e k = λ h. h
  on_query-Acts fuel start params fetching u v (panic p) past e k = λ h. h
  on_query-Acts fuel start params fetching u v running past e k = λ h. h

  query_and_sign-Acts :
      (fuel : ℕ) (start : World W) (params : StakingParams b) (fetching u : World W)
      → Acts ce start fetching
      → ce.cc.query_staking_params fetching ≡ (ok params, u)
      → Onward start u (query_and_sign fuel (later (some params)) u).1
  unfolding query_and_sign
  query_and_sign-Acts fuel start params fetching u past e h =
      let (r, v) = ce.cc.query_pending_delegations ce.config.delegation_limit u in
      on_query-Acts fuel start params fetching u v r past e refl (then h (ask_pending refl))

  pub record Run (w : World W) (result : Outcome (CovenantEmulator b W) × World W) : Type 0 where
    pub acts : Acts ce w result.1
    pub survives : Survives ce result.0

  module _ (retry_do : RetryDo b W) (lawful : IsRetry retry_do) where
    on_params-Run :
        (fuel n : ℕ) (params : Option (StakingParams b)) (u v : World W)
        (r : Outcome (StakingParams b))
        → Queries (later params) n u r v
        → Run u (on_params fuel (later params) (with_params (later params) retry_do lawful r) v)
    on_params-Run fuel n params u v (ok p) q = record {
      acts =
          let (fetching, past, e) = Queries-answered ce params p q refl in
          query_and_sign-Acts fuel u p fetching v past e (Queries-Acts ce params q);
      survives = query_and_sign-Survives ce fuel (some p) v;
    }
    on_params-Run fuel n params u v (err e) q = record {
      acts = Queries-Acts ce params q;
      survives = (params, refl);
    }
    on_params-Run fuel n params u v (panic p) q = record {
      acts = Queries-Acts ce params q;
      survives = tt;
    }
    on_params-Run fuel n params u v running q = record {
      acts = Queries-Acts ce params q;
      survives = tt;
    }

    pub tick-Run :
        (fuel : ℕ) (params : Option (StakingParams b)) (w : World W)
        → Run w (tick retry_do fuel (later params) w)
    unfolding tick
    tick-Run fuel params w =
        let (r, v, q, e) = update_params-Queries (later params) retry_do lawful w in
        rw e (on_params-Run fuel 5 params w v r q)

    then_ticks :
        (fuel n : ℕ) (r : Outcome (CovenantEmulator b W)) (u : World W)
        → Survives ce r
        → ((params : Option (StakingParams b)) → Run u (ticks retry_do fuel n (later params) u))
        → Run u (continue r (ticks retry_do fuel n) u)
    then_ticks fuel n (ok ce') u (params, e) h = rw e (h params)
    then_ticks fuel n (err e) u s h = absurd s
    then_ticks fuel n (panic p) u s h = record { acts = none_yet; survives = tt }
    then_ticks fuel n running u s h = record { acts = none_yet; survives = tt }

    ticks-Run :
        (fuel n : ℕ) (params : Option (StakingParams b)) (w : World W)
        → Run w (ticks retry_do fuel n (later params) w)
    unfolding ticks
    ticks-Run fuel zero params w = record { acts = none_yet; survives = (params, refl) }
    ticks-Run fuel (suc n) params w =
        let (r, u) = tick retry_do fuel (later params) w in
        let first = tick-Run fuel params w in
        let others = then_ticks fuel n r u first.survives (λ params. ticks-Run fuel n params u) in
        record {
          acts = Acts-trans ce w u (continue r (ticks retry_do fuel n) u).1 first.acts others.acts;
          survives = others.survives;
        }

    -- With a `retry.Do` that is as documented: over any number of ticks, whatever the chain answers
    -- and whatever fails, the loop does nothing but what `Act` lists.
    pub ticks-Acts : (fuel n : ℕ) (w : World W) → Acts ce w (ticks retry_do fuel n ce w).1
    ticks-Acts fuel n w = (ticks-Run fuel n ce.params w).acts

    -- With a `retry.Do` that is as documented no error ends the loop: after any number of ticks it has
    -- the emulator with nothing but `params` changed, or it has panicked or not returned.
    pub ticks_survive : (fuel n : ℕ) (w : World W) → Survives ce (ticks retry_do fuel n ce w).0
    ticks_survive fuel n w = (ticks-Run fuel n ce.params w).survives
