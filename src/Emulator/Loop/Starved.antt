-- ===== src/Emulator/Loop/Starved.antt =====
-- Ticks over a chain whose first page of pending delegations has been signed.
use covenant.Prelude.{
  ℕ, zero, suc, ◌<◌, ◌≡◌, refl, ap, sym, ◌∙◌, subst, Option, some, List, [], ◌∷◌, map, take,
  Outcome, ok, err, panic, running, All,
}
use covenant.Prelude.Exec.{continue}
use covenant.Libraries.{Btc}
use covenant.Machine.{World}
use covenant.Types.Delegation.{Delegation}
use covenant.Types.Params.{StakingParams}
use covenant.Emulator.Defs.{CovenantEmulator}
use covenant.Emulator.Batches.{delegations_to_batches}
use covenant.Emulator.Sanitize.{remove_already_signed}
use covenant.Emulator.Sanitize.Kept.{HasSigBy, Sanitized, done, skip, remove_already_signed_iff}
use covenant.Emulator.Retry.{RetryDo}
use covenant.Emulator.Retry.Attempts.{
  IsRetry, Queries, answered, exhausted, again, panicked, unanswered, update_params-Queries,
  with_params,
}
use covenant.Emulator.Loop.{
  submit_batches, sign_pending, on_query, query_and_sign, on_params, tick, ticks,
}
use covenant.Emulator.Loop.Survival.{Survives}
use covenant.Emulator.Loop.Ticks.{tick-Run}

module _ {b : Btc} {W : Type 0} (ce : CovenantEmulator b W) where
  -- The chain has a list of pending delegations, answers with the first ones up to a limit, and
  -- queries leave the list as it is.
  pub record IsPaged : Type 0 where
    pub pending_at : World W → List (Delegation b)
    pub answer :
        (limit : ℕ) (w : World W)
        → 0 < limit
        → (ce.cc.query_pending_delegations limit w).0 ≡ ok (map some (take limit (pending_at w)))
    pub kept_by_query :
        (limit : ℕ) (w : World W)
        → pending_at (ce.cc.query_pending_delegations limit w).1 ≡ pending_at w
    pub kept_by_params : (w : World W) → pending_at (ce.cc.query_staking_params w).1 ≡ pending_at w

  -- The daemon has only asked for parameters and for pending delegations.
  pub data Asked (start : World W) : World W → Type 0 where
    nothing : Asked start start
    params : {v : World W} → Asked start v → Asked start (ce.cc.query_staking_params v).1
    pending :
        {v : World W}
        → Asked start v
        → Asked start (ce.cc.query_pending_delegations ce.config.delegation_limit v).1

module _ {b : Btc} {W : Type 0} (ce : CovenantEmulator b W) where
  Asked-trans : (u v w : World W) → Asked ce u v → Asked ce v w → Asked ce u w
  Asked-trans u v w h nothing = h
  Asked-trans u v w h (params {v = x} k) = params (Asked-trans u v x h k)
  Asked-trans u v w h (pending {v = x} k) = pending (Asked-trans u v x h k)

  asks :
      (u v : World W) {r : Outcome (StakingParams b)}
      → ce.cc.query_staking_params u ≡ (r, v)
      → Asked ce u v
  asks u v h = subst (Asked ce u) (ap (λ x. x.1) h) (params nothing)

  Queries-Asked :
      (held : Option (StakingParams b)) {n : ℕ} {u v : World W} {r : Outcome (StakingParams b)}
      → Queries (record ce { params = held }) n u r v
      → Asked ce u v
  Queries-Asked held (answered {u = u} {v = v} p h) = asks u v h
  Queries-Asked held (exhausted {u = u} {v = v} e h) = asks u v h
  Queries-Asked held (again {u = u} {v = v} {w = w} e h q) =
      Asked-trans u v w (asks u v h) (Queries-Asked held q)
  Queries-Asked held (panicked {u = u} {v = v} p h) = asks u v h
  Queries-Asked held (unanswered {u = u} {v = v} h) = asks u v h

  Asked-pending_at :
      (chain : IsPaged ce) (u v : World W) → Asked ce u v → chain.pending_at v ≡ chain.pending_at u
  Asked-pending_at chain u v nothing = refl
  Asked-pending_at chain u v (params {v = x} k) =
      chain.kept_by_params x ∙ Asked-pending_at chain u x k
  Asked-pending_at chain u v (pending {v = x} k) =
      chain.kept_by_query ce.config.delegation_limit x ∙ Asked-pending_at chain u x k

  all_signed-Sanitized :
      (dels : List (Delegation b))
      → All (λ d. HasSigBy ce.pk d.covenant_sigs) dels
      → Sanitized ce.pk (map some dels) []
  all_signed-Sanitized [] h = done
  all_signed-Sanitized (d ∷ dels) h = skip h.0 (all_signed-Sanitized dels h.1)

  sign_pending_still :
      (fuel : ℕ) (held : Option (StakingParams b)) (dels : List (Option (Delegation b)))
      (w : World W)
      → remove_already_signed ce.pk dels ≡ ok []
      → (sign_pending fuel (record ce { params = held }) dels w).1 ≡ w
  unfolding sign_pending delegations_to_batches submit_batches
  sign_pending_still zero held dels w e = rw e
  sign_pending_still (suc fuel) held dels w e = rw e

  module _ (chain : IsPaged ce) (retry_do : RetryDo b W) (lawful : IsRetry retry_do)
      (asking : 0 < ce.config.delegation_limit) where
    -- The delegations of the first page have been signed.
    abbrev pub IsSigned : World W → Type 0
    IsSigned w =
        All (λ d. HasSigBy ce.pk d.covenant_sigs)
          (take ce.config.delegation_limit (chain.pending_at w))

    IsSigned-Asked : (u v : World W) → Asked ce u v → IsSigned u → IsSigned v
    IsSigned-Asked u v k h =
        subst (λ l. All (λ d. HasSigBy ce.pk d.covenant_sigs) (take ce.config.delegation_limit l))
          (sym (Asked-pending_at chain u v k)) h

    query_and_sign-Asked :
        (fuel : ℕ) (held : Option (StakingParams b)) (w : World W)
        → IsSigned w
        → Asked ce w (query_and_sign fuel (record ce { params = held }) w).1
    unfolding query_and_sign
    query_and_sign-Asked fuel held w h =
        let page = take ce.config.delegation_limit (chain.pending_at w) in
        let (r, v) = ce.cc.query_pending_delegations ce.config.delegation_limit w in
        let e =
          (remove_already_signed_iff ce.pk (map some page) []).1 (all_signed-Sanitized page h) in
        subst (λ r. Asked ce w (on_query fuel (record ce { params = held }) r v).1)
          (sym (chain.answer ce.config.delegation_limit w asking))
          (subst (Asked ce w) (sym (sign_pending_still fuel held (map some page) v e))
            (pending nothing))

    on_params-Asked :
        (fuel n : ℕ) (held : Option (StakingParams b)) (u v : World W)
        (r : Outcome (StakingParams b))
        → Queries (record ce { params = held }) n u r v
        → IsSigned u
        → Asked ce u
            (on_params fuel
              (record ce { params = held })
              (with_params (record ce { params = held }) retry_do lawful r)
              v).1
    on_params-Asked fuel n held u v (ok p) q h =
        let k = Queries-Asked held q in
        Asked-trans u v _ k (query_and_sign-Asked fuel (some p) v (IsSigned-Asked u v k h))
    on_params-Asked fuel n held u v (err e) q h = Queries-Asked held q
    on_params-Asked fuel n held u v (panic p) q h = Queries-Asked held q
    on_params-Asked fuel n held u v running q h = Queries-Asked held q

    tick-Asked :
        (fuel : ℕ) (held : Option (StakingParams b)) (w : World W)
        → IsSigned w
        → Asked ce w (tick retry_do fuel (record ce { params = held }) w).1
    unfolding tick
    tick-Asked fuel held w h =
        let (r, v, q, e) = update_params-Queries (record ce { params = held }) retry_do lawful w in
        rw e (on_params-Asked fuel 5 held w v r q h)

    then_ticks :
        (fuel n : ℕ) (r : Outcome (CovenantEmulator b W)) (u : World W)
        → Survives ce r
        → ((held : Option (StakingParams b))
            → Asked ce u (ticks retry_do fuel n (record ce { params = held }) u).1)
        → Asked ce u (continue r (ticks retry_do fuel n) u).1
    then_ticks fuel n (ok ce') u (held, e) h = rw e (h held)
    then_ticks fuel n (err e) u s h = nothing
    then_ticks fuel n (panic p) u s h = nothing
    then_ticks fuel n running u s h = nothing

    ticks-Asked :
        (fuel n : ℕ) (held : Option (StakingParams b)) (w : World W)
        → IsSigned w
        → Asked ce w (ticks retry_do fuel n (record ce { params = held }) w).1
    unfolding ticks
    ticks-Asked fuel zero held w h = nothing
    ticks-Asked fuel (suc n) held w h =
        let (r, u) = tick retry_do fuel (record ce { params = held }) w in
        let k = tick-Asked fuel held w h in
        let s = (tick-Run ce retry_do lawful fuel held w).survives in
        Asked-trans w u _ k
          (then_ticks fuel n r u s (λ held'. ticks-Asked fuel n held' u (IsSigned-Asked w u k h)))

  -- Once the delegations of the first page have been signed, the daemon never signs another one:
  -- with a chain that answers with the first pending delegations up to a limit above 0 and whose
  -- list changes by no query, and a `retry.Do` that is as documented, any number of ticks
  -- only asks for parameters and for this page, whichever delegations wait behind it, and leaves the
  -- list as it was.
  pub ticks_starve :
      (retry_do : RetryDo b W)
      → IsRetry retry_do
      → (chain : IsPaged ce) → 0 < ce.config.delegation_limit
      → (fuel n : ℕ) (w : World W)
      → All
          (λ d. HasSigBy ce.pk d.covenant_sigs)
          (take ce.config.delegation_limit (chain.pending_at w))
      → Asked ce w (ticks retry_do fuel n ce w).1
        × (chain.pending_at (ticks retry_do fuel n ce w).1 ≡ chain.pending_at w)
  ticks_starve retry_do lawful chain asking fuel n w h =
      let k = ticks-Asked chain retry_do lawful asking fuel n ce.params w h in
      (k, Asked-pending_at chain w _ k)
