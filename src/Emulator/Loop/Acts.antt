-- ===== src/Emulator/Loop/Acts.antt =====
-- Everything that the submission loop does to the world.
use covenant.Prelude.{◌∙◌, ℕ, ap, ◌≡◌, Option, some, List, map, Outcome, ok, All}
use covenant.Libraries.{Btc}
use covenant.Machine.{World}
use covenant.Types.Delegation.{Delegation, CovenantSigs}
use covenant.Types.Params.{StakingParams}
use covenant.Emulator.Defs.{CovenantEmulator, get_priv_key}
use covenant.Emulator.Sanitize.Kept.{IsEligible}
use covenant.Emulator.Retry.Attempts.{Queries, answered, exhausted, again, panicked, unanswered}
use covenant.Emulator.Submit.Quiet.{KeyReads, here, read}
use covenant.Emulator.Submit.Batch.{Signing, done, next}

module _ {b : Btc} {W : Type 0} (ce : CovenantEmulator b W) where
  mutual
    -- What was done from `u` on, one thing after the other.
    pub data Acts (start : World W) : World W → Type 0 where
      none_yet : Acts start start
      then : {v w : World W} → Acts start v → Act start v w → Acts start w

    -- One thing that the daemon may do from `start` on: read its key, ask the chain for the
    -- parameters or for the pending delegations, or submit signatures. What it submits is certified,
    -- delegation by delegation, under parameters that it had fetched, and each of these delegations
    -- was among the pending ones that the chain answered with right after that, and had no signature
    -- by the daemon's key.
    pub data Act (start : World W) : World W → World W → Type 0 where
      read_key : {u v : World W} → (get_priv_key ce u).1 ≡ v → Act start u v
      ask_params : {u v : World W} → (ce.cc.query_staking_params u).1 ≡ v → Act start u v
      ask_pending :
          {u v : World W}
          → (ce.cc.query_pending_delegations ce.config.delegation_limit u).1 ≡ v
          → Act start u v
      submit :
          {u v : World W} (params : StakingParams b) (fetching asked answered_at : World W)
          (pending : List (Option (Delegation b))) (before : World W)
          (present : List (Delegation b)) (made : List (CovenantSigs b))
          → Acts start fetching
          → ce.cc.query_staking_params fetching ≡ (ok params, asked)
          → ce.cc.query_pending_delegations ce.config.delegation_limit asked
            ≡ (ok pending, answered_at)
          → All (IsEligible ce.pk pending) (map some present)
          → Signing (record ce { params = some params }) before present made u
          → (ce.cc.submit_covenant_sigs made u).1 ≡ v
          → Act start u v

module _ {b : Btc} {W : Type 0} (ce : CovenantEmulator b W) where
  mutual
    pub Acts-trans : (u v w : World W) → Acts ce u v → Acts ce v w → Acts ce u w
    Acts-trans u v w h none_yet = h
    Acts-trans u v w h (then {v = x} k a) = then (Acts-trans u v x h k) (Act-later u v x w h a)

    Act-later : (u v x w : World W) → Acts ce u v → Act ce v x w → Act ce u x w
    Act-later u v x w h (read_key e) = read_key e
    Act-later u v x w h (ask_params e) = ask_params e
    Act-later u v x w h (ask_pending e) = ask_pending e
    Act-later u v x w h (submit params fetching asked at dels before present made past f q i c e) =
        submit params fetching asked at dels before present made (Acts-trans u v fetching h past) f
          q i c e

  pub KeyReads-Acts :
      (params : Option (StakingParams b)) (u v : World W)
      → KeyReads (record ce { params = params }) u v
      → Acts ce u v
  unfolding get_priv_key
  KeyReads-Acts params u v here = none_yet
  KeyReads-Acts params u v (read {v = x} k e) = then (KeyReads-Acts params u x k) (read_key e)

  asks :
      (u v : World W) {r : Outcome (StakingParams b)}
      → ce.cc.query_staking_params u ≡ (r, v)
      → Acts ce u v
  asks u v h = then none_yet (ask_params (ap (λ x. x.1) h))

  pub Queries-Acts :
      (params : Option (StakingParams b)) {n : ℕ} {u v : World W} {r : Outcome (StakingParams b)}
      → Queries (record ce { params = params }) n u r v
      → Acts ce u v
  Queries-Acts params (answered {u = u} {v = v} p h) = asks u v h
  Queries-Acts params (exhausted {u = u} {v = v} e h) = asks u v h
  Queries-Acts params (again {u = u} {v = v} {w = w} e h q) =
      Acts-trans u v w (asks u v h) (Queries-Acts params q)
  Queries-Acts params (panicked {u = u} {v = v} p h) = asks u v h
  Queries-Acts params (unanswered {u = u} {v = v} h) = asks u v h

  pub Signing-Acts :
      (params : Option (StakingParams b)) {u v : World W} {present : List (Delegation b)}
      {made : List (CovenantSigs b)}
      → Signing (record ce { params = params }) u present made v
      → Acts ce u v
  unfolding get_priv_key
  Signing-Acts params done = none_yet
  Signing-Acts params (next {u = u} {v = v} {w = w} c s) =
      Acts-trans u v w (then none_yet (read_key (ap (λ x. x.1) c.key_read))) (Signing-Acts params s)

  -- The query that was answered with the parameters.
  pub Queries-answered :
      (params : Option (StakingParams b)) (p : StakingParams b) {n : ℕ} {u v : World W}
      {r : Outcome (StakingParams b)}
      → Queries (record ce { params = params }) n u r v
      → r ≡ ok p
      → (x : World W) × Acts ce u x × (ce.cc.query_staking_params x ≡ (ok p, v))
  Queries-answered params p (answered {u = u} {v = v} q h) e = (u, none_yet, h ∙ ap (λ r. (r, v)) e)
  Queries-answered params p (exhausted x h) e = cc
  Queries-answered params p (again {u = u} {v = v} x h q) e =
      let (y, past, k) = Queries-answered params p q e in (y, Acts-trans u v y (asks u v h) past, k)
  Queries-answered params p (panicked x h) e = cc
  Queries-answered params p (unanswered h) e = cc
