-- ===== src/Emulator/Retry/Attempts.antt =====
-- What `UpdateParams` does when `retry.Do` is as documented.
use covenant.Prelude.{
  ℕ, zero, suc, ◌≡◌, refl, ap, ◌∙◌, Option, none, some, Error, Panic, Outcome, ok, err, panic,
  running,
}
use covenant.Prelude.Exec.{Exec}
use covenant.Libraries.{Btc}
use covenant.Machine.{World}
use covenant.Types.Params.{StakingParams}
use covenant.Emulator.Defs.{CovenantEmulator}
use covenant.Emulator.Retry.{
  Captured, RetryDo, query_params, assign_params, get_params_with_retry, update_params,
}

-- The documented behaviour of `retry.Do` with `Attempts(n)` and `LastErrorOnly(true)`, for n above
-- 0: it calls the function until a call returns no error, at most n times, and then returns the
-- last call's error. A panic goes through, and a call that does not return keeps it from returning.
pub record IsRetry {b : Btc} {W : Type 0} (retry_do : RetryDo b W) : Type 0 where
  pub succeeds :
      (n : ℕ) (f : Exec (Captured b W) (Unit {0})) (s t : Captured b W)
      → f s ≡ (ok tt, t)
      → retry_do (suc n) f s ≡ (ok tt, t)
  pub fails :
      (f : Exec (Captured b W) (Unit {0})) (s t : Captured b W) (e : Error)
      → f s ≡ (err e, t)
      → retry_do 1 f s ≡ (err e, t)
  pub retries :
      (n : ℕ) (f : Exec (Captured b W) (Unit {0})) (s t : Captured b W) (e : Error)
      → f s ≡ (err e, t)
      → retry_do (suc (suc n)) f s ≡ retry_do (suc n) f t
  pub panics :
      (n : ℕ) (f : Exec (Captured b W) (Unit {0})) (s t : Captured b W) (p : Panic)
      → f s ≡ (panic p, t)
      → retry_do (suc n) f s ≡ (panic p, t)
  pub runs :
      (n : ℕ) (f : Exec (Captured b W) (Unit {0})) (s t : Captured b W)
      → f s ≡ (running, t)
      → retry_do (suc n) f s ≡ (running, t)

module _ {b : Btc} {W : Type 0} (ce : CovenantEmulator b W) where
  -- At most `n` queries of the staking parameters, one after the other, until one does not return
  -- an error; the outcome is that of the last.
  pub data Queries : ℕ → World W → Outcome (StakingParams b) → World W → Type 0 where
    answered :
        {n : ℕ} {u v : World W} (p : StakingParams b)
        → ce.cc.query_staking_params u ≡ (ok p, v)
        → Queries (suc n) u (ok p) v
    exhausted :
        {u v : World W} (e : Error)
        → ce.cc.query_staking_params u ≡ (err e, v)
        → Queries (suc zero) u (err e) v
    again :
        {n : ℕ} {u v w : World W} {r : Outcome (StakingParams b)} (e : Error)
        → ce.cc.query_staking_params u ≡ (err e, v)
        → Queries (suc n) v r w
        → Queries (suc (suc n)) u r w
    panicked :
        {n : ℕ} {u v : World W} (p : Panic)
        → ce.cc.query_staking_params u ≡ (panic p, v)
        → Queries (suc n) u (panic p) v
    unanswered :
        {n : ℕ} {u v : World W}
        → ce.cc.query_staking_params u ≡ (running, v)
        → Queries (suc n) u running v

module _ {b : Btc} {W : Type 0} (ce : CovenantEmulator b W) where
  abbrev Answer : ℕ → World W → Type 0
  Answer n u = (r : Outcome (StakingParams b)) × (v : World W) × Queries ce n u r v

  -- The first query, with what follows if it returns an error.
  first_query :
      (n : ℕ) (u v : World W) (r : Outcome (StakingParams b))
      → ce.cc.query_staking_params u ≡ (r, v)
      → ((e : Error) → ce.cc.query_staking_params u ≡ (err e, v) → Answer (suc n) u)
      → Answer (suc n) u
  first_query n u v (ok p) h failed = (ok p, v, answered p h)
  first_query n u v (err e) h failed = failed e h
  first_query n u v (panic p) h failed = (panic p, v, panicked p h)
  first_query n u v running h failed = (running, v, unanswered h)

  queries_total : (n : ℕ) (u : World W) → Answer (suc n) u
  queries_total zero u =
      let (r, v) = ce.cc.query_staking_params u in
      first_query zero u v r refl (λ e h. (err e, v, exhausted e h))
  queries_total (suc n) u =
      let (r, v) = ce.cc.query_staking_params u in
      let (r', w, q) = queries_total n v in
      first_query (suc n) u v r refl (λ e h. (r', w, again e h q))

  assigned :
      (c : Option (StakingParams b)) (u v : World W) (r : Outcome (StakingParams b))
      → ce.cc.query_staking_params u ≡ (r, v)
      → query_params ce (c, u) ≡ assign_params r v
  unfolding query_params
  assigned c u v r h = ap (λ x. assign_params x.0 x.1) h

  module _ (retry_do : RetryDo b W) (lawful : IsRetry retry_do) where
    retry_do-Queries :
        (c : Option (StakingParams b)) {n : ℕ} {u v : World W} {r : Outcome (StakingParams b)}
        → Queries ce n u r v
        → retry_do n (query_params ce) (c, u) ≡ assign_params r v
    retry_do-Queries c (answered {n = n} {u = u} {v = v} p h) =
        lawful.succeeds n (query_params ce) (c, u) (some p, v) (assigned c u v (ok p) h)
    retry_do-Queries c (exhausted {u = u} {v = v} e h) =
        lawful.fails (query_params ce) (c, u) (none, v) e (assigned c u v (err e) h)
    retry_do-Queries c (again {n = n} {u = u} {v = v} e h q) =
        lawful.retries n (query_params ce) (c, u) (none, v) e (assigned c u v (err e) h)
        ∙ retry_do-Queries none q
    retry_do-Queries c (panicked {n = n} {u = u} {v = v} p h) =
        lawful.panics n (query_params ce) (c, u) (none, v) p (assigned c u v (panic p) h)
    retry_do-Queries c (unanswered {n = n} {u = u} {v = v} h) =
        lawful.runs n (query_params ce) (c, u) (none, v) (assigned c u v running h)

    -- The emulator with the parameters that were fetched.
    abbrev pub with_params : Outcome (StakingParams b) → Outcome (CovenantEmulator b W)
    with_params (ok p) = ok (record ce { params = some p })
    with_params (err e) = err e
    with_params (panic p) = panic p
    with_params running = running

    Queries-update_params :
        (u v : World W) (r : Outcome (StakingParams b))
        → Queries ce 5 u r v
        → update_params retry_do ce u ≡ (with_params r, v)
    unfolding update_params get_params_with_retry
    Queries-update_params u v (ok p) q = rw (retry_do-Queries none q)
    Queries-update_params u v (err e) q = rw (retry_do-Queries none q)
    Queries-update_params u v (panic p) q = rw (retry_do-Queries none q)
    Queries-update_params u v running q = rw (retry_do-Queries none q)

    -- With a `retry.Do` that is as documented `UpdateParams` makes five queries at most and stops
    -- at the first that does not return an error. After an answer the emulator holds the parameters
    -- of that answer, and nothing else of it has changed; after five errors the last one is
    -- returned.
    pub update_params-Queries :
        (u : World W)
        → (r : Outcome (StakingParams b)) × (v : World W) × Queries ce 5 u r v
          × (update_params retry_do ce u ≡ (with_params r, v))
    update_params-Queries u =
        let (r, v, q) = queries_total 4 u in (r, v, q, Queries-update_params u v r q)
