-- ===== src/Emulator/Lifecycle/Once.antt =====
-- No delegation is signed again, whatever calls of `Start` and `Stop` the daemon lives through.
use mathlib.Core.List.{Memᴰ}
use covenant.Prelude.{ℕ, ◌≡◌, List, ok}
use covenant.Libraries.{Btc}
use covenant.Machine.{World}
use covenant.Types.Delegation.{CovenantSigs, TxResponse}
use covenant.Emulator.Defs.{CovenantEmulator}
use covenant.Emulator.Retry.{RetryDo}
use covenant.Emulator.Retry.Attempts.{IsRetry}
use covenant.Emulator.Loop.Acts.{Acts, none_yet}
use covenant.Emulator.Loop.Once.{IsRecording, Spares, accepted-Spares}
use covenant.Emulator.Lifecycle.{Life, new, Steps}
use covenant.Emulator.Lifecycle.Reached.{IsBound, Steps-IsBound, reached-IsBound}

module _ {b : Btc} {W : Type 0} (ce : CovenantEmulator b W) (start : World W)
    (retry_do : RetryDo b W) (fuel : ℕ) where
  -- With a `retry.Do` that is as documented, and a chain that records the signatures by the daemon's
  -- key that it has accepted and shows them with the pending delegations: if a submission with
  -- signatures by this key for a staking transaction was accepted before the daemon came to a state
  -- that it reaches in some interleaving of `Start`, `Stop` and the loop, then what it does from that
  -- state on, in every interleaving and in ticks of every outcome, submits no signatures for this
  -- transaction.
  pub reached_sign_once :
      IsRetry retry_do
      → IsRecording ce
      → (made : List (CovenantSigs b)) (res : TxResponse b) (u v : World W)
      → ce.cc.submit_covenant_sigs made u ≡ (ok res, v)
      → (sigs : CovenantSigs b) → Memᴰ sigs made
      → sigs.public_key ≡ ce.pk
      → (s t : Life b W) → Steps retry_do fuel (new ce start) s
      → Acts ce v s.world
      → Steps retry_do fuel s t
      → (acts : Acts ce s.world t.world) × Spares ce sigs.staking_tx_hash acts
  reached_sign_once lawful chain made res u v h sigs m own s t reached between later =
      let i = reached-IsBound ce start retry_do lawful fuel s reached in
      let here : IsBound ce s.world s = record {
        params = i.params;
        same = i.same;
        acts = none_yet;
      } in
      let acts = (Steps-IsBound ce s.world retry_do lawful fuel s t later here).acts in
      (acts, accepted-Spares ce chain made res u v h sigs m own between acts)
