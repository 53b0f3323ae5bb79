-- ===== src/Emulator/Lifecycle/Order.antt =====
-- How the wait group, the channel and the goroutine hang together in every reachable state.
use covenant.Prelude.{ℕ, suc, ◌-◌, ◌≡◌, ◌≢◌, refl, ap, sym, subst, ◌∙◌, Bool, true, false}
use covenant.Machine.{World}
use covenant.Libraries.{Btc}
use covenant.Emulator.Defs.{CovenantEmulator}
use covenant.Emulator.Retry.{RetryDo}
use covenant.Emulator.Lifecycle.{
  Phase, idle, under_way, finished, LoopState, not_launched, selecting, ticking, returned, hung,
  crashed, Life, new, Step, Steps, start_adds, start_launches, ticker_fires, tick_ends, tick_panics,
  tick_hangs, quit_received, stop_closes, stop_returns, here, more,
}

-- The goroutines that the wait group counts: the loop, from `wg.Add(1)` until it returns.
abbrev pub outstanding : Phase → LoopState → ℕ
outstanding idle loop = 0
outstanding under_way loop = 1
outstanding finished returned = 0
outstanding finished not_launched = 1
outstanding finished selecting = 1
outstanding finished ticking = 1
outstanding finished hung = 1
outstanding finished crashed = 1

-- The loop is launched by the end of `Start`.
abbrev pub IsLaunched : Phase → LoopState → Type 0
IsLaunched idle loop = loop ≡ not_launched
IsLaunched under_way loop = loop ≡ not_launched
IsLaunched finished loop = loop ≢ not_launched

-- `quit` is closed by the start of `Stop`.
abbrev pub is_closed : Phase → Bool
is_closed idle = false
is_closed under_way = true
is_closed finished = true

module _ {b : Btc} {W : Type 0} where
  pub record IsOrdered (s : Life b W) : Type 0 where
    pub counted : s.wg ≡ outstanding s.start_once s.loop
    pub launched : IsLaunched s.start_once s.loop
    pub closed : s.quit ≡ is_closed s.stop_once

  pub new-IsOrdered : (ce : CovenantEmulator b W) (w : World W) → IsOrdered (new ce w)
  new-IsOrdered ce w = record { counted = refl; launched = refl; closed = refl }

-- The goroutine goes on no more.
abbrev pub IsFinal : LoopState → Type 0
IsFinal not_launched = ⊥
IsFinal selecting = ⊥
IsFinal ticking = ⊥
IsFinal returned = Unit
IsFinal hung = Unit
IsFinal crashed = Unit

-- Where one goroutine that is launched once can be later on.
pub record Progress (earlier later : LoopState) : Type 0 where
  pub stays_launched : earlier ≢ not_launched → later ≢ not_launched
  pub stays_final : IsFinal earlier → later ≡ earlier

Progress-refl : (l : LoopState) → Progress l l
Progress-refl l = record { stays_launched = λ h. h; stays_final = λ h. refl }

Progress-trans : (k l m : LoopState) → Progress k l → Progress l m → Progress k m
Progress-trans k l m p q = record {
  stays_launched = λ h. q.stays_launched (p.stays_launched h);
  stays_final = λ f. let e = p.stays_final f in q.stays_final (subst IsFinal (sym e) f) ∙ e;
}

pub launched_by_finished :
    (p : Phase) (l : LoopState) → IsLaunched p l → l ≢ not_launched → p ≡ finished
launched_by_finished idle l h k = absurd (k h)
launched_by_finished under_way l h k = absurd (k h)
launched_by_finished finished l h k = refl

-- A loop that is launched and has not returned is counted.
outstanding_live : (l : LoopState) → l ≢ not_launched → l ≢ returned → outstanding finished l ≡ 1
outstanding_live not_launched h k = refl
outstanding_live selecting h k = refl
outstanding_live ticking h k = refl
outstanding_live hung h k = refl
outstanding_live crashed h k = refl
outstanding_live returned h k = absurd (k refl)

module _ {b : Btc} {W : Type 0} (retry_do : RetryDo b W) (fuel : ℕ) where
  -- The start of a state whose loop is at work.
  at_work :
      (s : Life b W) (l : LoopState)
      → IsOrdered s
      → s.loop ≡ l
      → l ≢ not_launched
      → l ≢ returned
      → (s.start_once ≡ finished) × (s.wg ≡ 1)
  at_work s l o e h k =
      let f = launched_by_finished s.start_once s.loop o.launched (λ x. h (sym e ∙ x)) in
      (
        f,
        o.counted
            ∙ ap (λ p. outstanding p s.loop) f
            ∙ outstanding_live s.loop (λ x. h (sym e ∙ x)) (λ x. k (sym e ∙ x)),
      )

  pub Step-IsOrdered : (s t : Life b W) → Step retry_do fuel s t → IsOrdered s → IsOrdered t
  Step-IsOrdered s t (start_adds e) o = record {
    counted = ap suc (o.counted ∙ ap (λ p. outstanding p s.loop) e);
    launched = subst (λ p. IsLaunched p s.loop) e o.launched;
    closed = o.closed;
  }
  Step-IsOrdered s t (start_launches e) o = record {
    counted = o.counted ∙ ap (λ p. outstanding p s.loop) e;
    launched = λ h. cc;
    closed = o.closed;
  }
  Step-IsOrdered s t (ticker_fires e) o =
      let (f, c) = at_work s selecting o e (λ h. cc) (λ h. cc) in
      record {
        counted = c ∙ sym (ap (λ p. outstanding p ticking) f);
        launched = subst (λ p. IsLaunched p ticking) (sym f) (λ h. cc);
        closed = o.closed;
      }
  Step-IsOrdered s t (tick_ends e h) o =
      let (f, c) = at_work s ticking o e (λ h. cc) (λ h. cc) in
      record {
        counted = c ∙ sym (ap (λ p. outstanding p selecting) f);
        launched = subst (λ p. IsLaunched p selecting) (sym f) (λ h. cc);
        closed = o.closed;
      }
  Step-IsOrdered s t (tick_panics e h) o =
      let (f, c) = at_work s ticking o e (λ h. cc) (λ h. cc) in
      record {
        counted = c ∙ sym (ap (λ p. outstanding p crashed) f);
        launched = subst (λ p. IsLaunched p crashed) (sym f) (λ h. cc);
        closed = o.closed;
      }
  Step-IsOrdered s t (tick_hangs e h) o =
      let (f, c) = at_work s ticking o e (λ h. cc) (λ h. cc) in
      record {
        counted = c ∙ sym (ap (λ p. outstanding p hung) f);
        launched = subst (λ p. IsLaunched p hung) (sym f) (λ h. cc);
        closed = o.closed;
      }
  Step-IsOrdered s t (quit_received e q) o =
      let (f, c) = at_work s selecting o e (λ h. cc) (λ h. cc) in
      record {
        counted = ap (λ n. n - 1) c ∙ sym (ap (λ p. outstanding p returned) f);
        launched = subst (λ p. IsLaunched p returned) (sym f) (λ h. cc);
        closed = o.closed;
      }
  Step-IsOrdered s t (stop_closes e a) o = record {
    counted = o.counted;
    launched = o.launched;
    closed = refl;
  }
  Step-IsOrdered s t (stop_returns e z) o = record {
    counted = o.counted;
    launched = o.launched;
    closed = o.closed ∙ ap is_closed e;
  }

  pub Steps-IsOrdered : (s t : Life b W) → Steps retry_do fuel s t → IsOrdered s → IsOrdered t
  Steps-IsOrdered s t here o = o
  Steps-IsOrdered s t (more {t = x} k e) o = Step-IsOrdered x t e (Steps-IsOrdered s x k o)

  Step-Progress : (s t : Life b W) → Step retry_do fuel s t → IsOrdered s → Progress s.loop t.loop
  Step-Progress s t (start_adds e) o = Progress-refl s.loop
  Step-Progress s t (start_launches e) o =
      let unlaunched = subst (λ p. IsLaunched p s.loop) e o.launched in
      subst (λ l. Progress l selecting) (sym unlaunched)
        (record { stays_launched = λ h. cc; stays_final = λ h. absurd h })
  Step-Progress s t (ticker_fires e) o =
      subst (λ l. Progress l ticking) (sym e)
        (record { stays_launched = λ h. cc; stays_final = λ h. absurd h })
  Step-Progress s t (tick_ends e h) o =
      subst (λ l. Progress l selecting) (sym e)
        (record { stays_launched = λ h. cc; stays_final = λ h. absurd h })
  Step-Progress s t (tick_panics e h) o =
      subst (λ l. Progress l crashed) (sym e)
        (record { stays_launched = λ h. cc; stays_final = λ h. absurd h })
  Step-Progress s t (tick_hangs e h) o =
      subst (λ l. Progress l hung) (sym e)
        (record { stays_launched = λ h. cc; stays_final = λ h. absurd h })
  Step-Progress s t (quit_received e q) o =
      subst (λ l. Progress l returned) (sym e)
        (record { stays_launched = λ h. cc; stays_final = λ h. absurd h })
  Step-Progress s t (stop_closes e a) o = Progress-refl s.loop
  Step-Progress s t (stop_returns e z) o = Progress-refl s.loop

  Steps-Progress : (s t : Life b W) → Steps retry_do fuel s t → IsOrdered s → Progress s.loop t.loop
  Steps-Progress s t here o = Progress-refl s.loop
  Steps-Progress s t (more {t = x} k e) o =
      Progress-trans s.loop x.loop t.loop (Steps-Progress s x k o)
        (Step-Progress x t e (Steps-IsOrdered s x k o))

  -- In every state `s` that is reached from a new emulator, the wait group counts the one loop from
  -- `wg.Add` until it returns and never falls below 0, the loop has been launched exactly when
  -- `Start` has returned, and `quit` is closed exactly from the start of `Stop` on. The loop is
  -- launched once: in no state `t` that follows is it not launched again, and once it has
  -- returned, hangs or has crashed it stays so.
  pub reached-IsOrdered :
      (ce : CovenantEmulator b W) (w : World W) (s t : Life b W)
      → Steps retry_do fuel (new ce w) s
      → Steps retry_do fuel s t
      → IsOrdered s × Progress s.loop t.loop
  reached-IsOrdered ce w s t k later =
      let o = Steps-IsOrdered (new ce w) s k (new-IsOrdered ce w) in (o, Steps-Progress s t later o)
