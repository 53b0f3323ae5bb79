-- ===== src/Emulator/Submit/Quiet.antt =====
-- What signing does to the world: it reads the covenant's key from the keyring, and nothing else.
use covenant.Prelude.{◌≡◌, refl, Bool, true, false, Option, none, some, List, [], ◌∷◌, ◌++◌}
use covenant.Prelude.Results.{deref}
use covenant.Prelude.Exec.{Exec, lift, wrap, Moves, Moves-bind, ◌>>=◌}
use covenant.Libraries.{Btc}
use covenant.Machine.{World}
use covenant.Types.Delegation.{Delegation, Undelegation, CovenantSigs, has_covenant_quorum}
use covenant.Types.Params.{StakingParams}
use covenant.Emulator.Defs.{CovenantEmulator, get_priv_key}
use covenant.Emulator.Signing.{check_delegation}
use covenant.Emulator.Submit.{
  sign_checked, sign_unless_quorum, process_undelegation, process_delegation, sign_batch,
}

module _ {b : Btc} {W : Type 0} (ce : CovenantEmulator b W) where
  -- `v` is reached from `u` by calls of `getPrivKey` alone.
  pub data KeyReads (u : World W) : World W → Type 0 where
    here : KeyReads u u
    read : {v w : World W} → KeyReads u v → (get_priv_key ce v).1 ≡ w → KeyReads u w

  pub KeyReads-trans : (u v w : World W) → KeyReads u v → KeyReads v w → KeyReads u w
  KeyReads-trans u v w h here = h
  KeyReads-trans u v w h (read {v = x} k e) = read (KeyReads-trans u v x h k) e

module _ {b : Btc} {W : Type 0} (ce : CovenantEmulator b W) where
  abbrev IsQuiet : {A : Type 0} → Exec (World W) A → Type 0
  IsQuiet = Moves (KeyReads ce)

  bind :
      {A B : Type 0} (m : Exec (World W) A) (f : A → Exec (World W) B)
      → IsQuiet m
      → ((a : A) → IsQuiet (f a))
      → IsQuiet (m >>= f)
  bind = Moves-bind (KeyReads ce) (λ w. here) (KeyReads-trans ce)

  sign_checked-IsQuiet :
      (p : StakingParams b) (d : Delegation b) (ud : Undelegation b)
      → IsQuiet (sign_checked ce p d ud)
  unfolding sign_checked
  sign_checked-IsQuiet p d ud =
      bind (lift (check_delegation b ce.config.btc_net_params p d ud)) _ (λ w. here)
        (λ c. bind (wrap _ (get_priv_key ce)) _ (λ w. read here refl) (λ sk w. here))

  sign_unless_quorum-IsQuiet :
      (p : StakingParams b) (d : Delegation b) (ud : Undelegation b) (quorum : Bool)
      → IsQuiet (sign_unless_quorum ce p d ud quorum)
  unfolding sign_unless_quorum
  sign_unless_quorum-IsQuiet p d ud true w = here
  sign_unless_quorum-IsQuiet p d ud false w =
      bind (sign_checked ce p d ud) _ (sign_checked-IsQuiet p d ud) (λ sigs w. here) w

  process_undelegation-IsQuiet :
      (d : Delegation b) (undel : Option (Undelegation b))
      → IsQuiet (process_undelegation ce d undel)
  unfolding process_undelegation
  process_undelegation-IsQuiet d none w = here
  process_undelegation-IsQuiet d (some ud) w =
      bind (lift (deref ce.params)) _ (λ w. here)
        (λ p.
          bind (lift (has_covenant_quorum d p.covenant_quorum)) _ (λ w. here)
            (sign_unless_quorum-IsQuiet p d ud))
        w

  pub process_delegation-IsQuiet : (d : Option (Delegation b)) → IsQuiet (process_delegation ce d)
  unfolding process_delegation
  process_delegation-IsQuiet none w = here
  process_delegation-IsQuiet (some d) w = process_undelegation-IsQuiet d d.btc_undelegation w

  pub sign_batch-IsQuiet :
      (dels : List (Option (Delegation b))) (covenant_sigs : List (CovenantSigs b))
      → IsQuiet (sign_batch ce dels covenant_sigs)
  unfolding sign_batch
  sign_batch-IsQuiet [] covenant_sigs w = here
  sign_batch-IsQuiet (d ∷ dels) covenant_sigs w =
      bind (process_delegation ce d) _ (process_delegation-IsQuiet d)
        (elim [
          | none ↦ λ v. here
          | some sigs ↦ sign_batch-IsQuiet dels (covenant_sigs ++ sigs ∷ [])
        ])
        w
