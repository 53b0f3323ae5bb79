-- ===== src/Service/Phases.antt =====
-- How the phases of the runner and of the emulator hang together in every reachable state.
use covenant.Prelude.{ℕ, ◌≡◌, ◌≢◌, refl, ◌∙◌, ◌⊎◌, inl, inr, Bool, true, subst}
use covenant.Machine.{World}
use covenant.Libraries.{Btc}
use covenant.Emulator.Defs.{CovenantEmulator}
use covenant.Emulator.Retry.{RetryDo}
use covenant.Emulator.Lifecycle
use covenant.Emulator.Lifecycle.{Phase, idle, under_way, finished, Life}
use covenant.Emulator.Lifecycle.Order.{IsOrdered, new-IsOrdered, Step-IsOrdered}
use covenant.Emulator.Lifecycle.Stopping.{Step-IsAwaited}
use covenant.Service.{
  Runner, not_running, starting, waiting, stopping, returned, Server, new, Step, Steps, first_call,
  later_call, start_returns, signalled, signal_received, stop_returns, lives, here, more,
}

module _ {b : Btc} {W : Type 0} where
  -- Where `Start` and `Stop` are in each phase of the runner.
  abbrev pub Phases : Runner → Bool → Life b W → Type 0
  Phases not_running shutdown l = (l.start_once ≡ idle) × (l.stop_once ≡ idle)
  Phases starting shutdown l = l.stop_once ≡ idle
  Phases waiting shutdown l = (l.start_once ≡ finished) × (l.stop_once ≡ idle)
  Phases stopping shutdown l = (l.start_once ≡ finished) × (shutdown ≡ true)
  Phases returned shutdown l =
      (l.start_once ≡ finished) × (l.stop_once ≡ finished) × (shutdown ≡ true)

  -- `Start` comes before `Stop`.
  Phases-start_first :
      (r : Runner) (shutdown : Bool) (l : Life b W)
      → Phases r shutdown l
      → l.start_once ≡ idle
      → (l.stop_once ≡ idle) × (r ≢ stopping)
  Phases-start_first not_running shutdown l h e = (h.1, λ k. cc)
  Phases-start_first starting shutdown l h e = (h, λ k. cc)
  Phases-start_first waiting shutdown l h e = cc
  Phases-start_first stopping shutdown l h e = cc
  Phases-start_first returned shutdown l h e = cc

  -- A step of the emulator that the runner allows.
  Phases-lives :
      (r : Runner) (shutdown : Bool) (l l' : Life b W)
      → (l'.start_once ≡ l.start_once) ⊎ (r ≡ starting)
      → (l'.stop_once ≡ l.stop_once) ⊎ (r ≡ stopping)
      → Phases r shutdown l
      → Phases r shutdown l'
  Phases-lives not_running shutdown l l' (inl e) (inl f) h = (e ∙ h.0, f ∙ h.1)
  Phases-lives not_running shutdown l l' (inl e) (inr f) h = cc
  Phases-lives not_running shutdown l l' (inr e) f h = cc
  Phases-lives starting shutdown l l' e (inl f) h = f ∙ h
  Phases-lives starting shutdown l l' e (inr f) h = cc
  Phases-lives waiting shutdown l l' (inl e) (inl f) h = (e ∙ h.0, f ∙ h.1)
  Phases-lives waiting shutdown l l' (inl e) (inr f) h = cc
  Phases-lives waiting shutdown l l' (inr e) f h = cc
  Phases-lives stopping shutdown l l' (inl e) f h = (e ∙ h.0, h.1)
  Phases-lives stopping shutdown l l' (inr e) f h = cc
  Phases-lives returned shutdown l l' (inl e) (inl f) h = (e ∙ h.0, f ∙ h.1, h.2)
  Phases-lives returned shutdown l l' (inl e) (inr f) h = cc
  Phases-lives returned shutdown l l' (inr e) f h = cc

  Phases-signalled :
      (r : Runner) (shutdown : Bool) (l : Life b W) → Phases r shutdown l → Phases r true l
  Phases-signalled not_running shutdown l h = h
  Phases-signalled starting shutdown l h = h
  Phases-signalled waiting shutdown l h = h
  Phases-signalled stopping shutdown l h = (h.0, refl)
  Phases-signalled returned shutdown l h = (h.0, h.1, refl)

idle_or_not : (p : Phase) → (p ≡ idle) ⊎ (p ≢ idle)
idle_or_not idle = inl refl
idle_or_not under_way = inr (λ h. cc)
idle_or_not finished = inr (λ h. cc)

module _ {b : Btc} {W : Type 0} (retry_do : RetryDo b W) (fuel : ℕ) where
  -- The phases fit, the emulator's own invariant holds, and the loop has returned if `Stop` has.
  pub record IsServed (s : Server b W) : Type 0 where
    pub phases : Phases s.runner s.shutdown s.life
    pub ordered : IsOrdered s.life
    pub waited : s.life.stop_once ≡ finished → s.life.loop ≡ Lifecycle.returned

module _ {b : Btc} {W : Type 0} (retry_do : RetryDo b W) (fuel : ℕ) where
  lives-waited :
      (s : Server b W) (l : Life b W)
      → Lifecycle.Step retry_do fuel s.life l
      → (l.stop_once ≡ s.life.stop_once) ⊎ (s.runner ≡ stopping)
      → IsServed retry_do fuel s
      → l.stop_once ≡ finished
      → l.loop ≡ Lifecycle.returned
  lives-waited s l step stop v f = elim (idle_or_not s.life.start_once) [
    | inl e ↦
        let (unstopped, running) = Phases-start_first s.runner s.shutdown s.life v.phases e in
        elim stop [ inl same ↦ cc | inr k ↦ absurd (running k) ]
    | inr started ↦
        (Step-IsAwaited retry_do fuel s.life l step v.ordered
            (record { started = started; waited = v.waited })).waited
          f
  ]

  Step-IsServed :
      (s t : Server b W)
      → Step retry_do fuel s t
      → IsServed retry_do fuel s
      → IsServed retry_do fuel t
  Step-IsServed s t (first_call n e) v =
      let h = subst (λ r. Phases r s.shutdown s.life) e v.phases in
      record { phases = h.1; ordered = v.ordered; waited = v.waited }
  Step-IsServed s t (later_call n k a) v = record {
    phases = v.phases;
    ordered = v.ordered;
    waited = v.waited;
  }
  Step-IsServed s t (start_returns e f a) v = record {
    phases = (f, subst (λ r. Phases r s.shutdown s.life) e v.phases);
    ordered = v.ordered;
    waited = v.waited;
  }
  Step-IsServed s t (signalled a) v = record {
    phases = Phases-signalled s.runner s.shutdown s.life v.phases;
    ordered = v.ordered;
    waited = v.waited;
  }
  Step-IsServed s t (signal_received e f a) v =
      let h = subst (λ r. Phases r s.shutdown s.life) e v.phases in
      record { phases = (h.0, f); ordered = v.ordered; waited = v.waited }
  Step-IsServed s t (stop_returns e f) v =
      let h = subst (λ r. Phases r s.shutdown s.life) e v.phases in
      record { phases = (h.0, f, h.1); ordered = v.ordered; waited = v.waited }
  Step-IsServed s t (lives {l = l} step start stop) v = record {
    phases = Phases-lives s.runner s.shutdown s.life l start stop v.phases;
    ordered = Step-IsOrdered retry_do fuel s.life l step v.ordered;
    waited = lives-waited s l step stop v;
  }

  pub Steps-IsServed :
      (s t : Server b W)
      → Steps retry_do fuel s t
      → IsServed retry_do fuel s
      → IsServed retry_do fuel t
  Steps-IsServed s t here v = v
  Steps-IsServed s t (more {t = x} k e) v = Step-IsServed x t e (Steps-IsServed s x k v)

  pub reached-IsServed :
      (ce : CovenantEmulator b W) (w : World W) (t : Server b W)
      → Steps retry_do fuel (new ce w) t
      → IsServed retry_do fuel t
  reached-IsServed ce w t k =
      Steps-IsServed (new ce w) t k
        (record { phases = (refl, refl); ordered = new-IsOrdered ce w; waited = λ h. cc })
