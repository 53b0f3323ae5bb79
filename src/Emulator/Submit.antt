-- ===== src/Emulator/Submit.antt =====
-- `AddCovenantSignatures` of covenant/covenant.go: the loop over a batch and the submission.
pub mod Checked
pub mod Signed
pub mod Certified
pub mod Quiet
pub mod Batch
pub mod Safety
use covenant.Prelude.{
  Bool, true, false, Option, none, some, List, [], ◌∷◌, ◌++◌, errorf, wrapf, Outcome, ok, err,
}
use covenant.Prelude.Results.{deref}
use covenant.Prelude.Exec.{Exec, pure, lift, wrap, ◌>>=◌}
use covenant.Libraries.{Btc}
use covenant.Machine.{World}
use covenant.Types.Delegation.{
  Delegation, Undelegation, CovenantSigs, TxResponse, has_covenant_quorum,
}
use covenant.Types.Params.{StakingParams}
use covenant.Emulator.Defs.{CovenantEmulator, get_priv_key}
use covenant.Emulator.Signing.{check_delegation, sign_delegation}

module _ {b : Btc} {W : Type 0} (ce : CovenantEmulator b W) where
  -- Steps 2 to 8 for one delegation.
  unfoldable pub sign_checked :
      StakingParams b → Delegation b → Undelegation b → Exec (World W) (CovenantSigs b)
  sign_checked p d ud = do
    c ← lift (check_delegation b ce.config.btc_net_params p d ud)
    sk ← wrap (wrapf "failed to get Covenant private key: %w") (get_priv_key ce)
    lift (sign_delegation b ce.config.btc_net_params p ce.pk d ud c sk)

  -- Step 1: `none` is the `return nil, nil` of a quorum that is there already.
  unfoldable pub sign_unless_quorum :
      StakingParams b
      → Delegation b
      → Undelegation b
      → Bool
      → Exec (World W) (Option (CovenantSigs b))
  sign_unless_quorum p d ud true = pure none
  sign_unless_quorum p d ud false = do sigs ← sign_checked p d ud; pure (some sigs)

  -- Step 0 for the undelegation.
  unfoldable pub process_undelegation :
      Delegation b → Option (Undelegation b) → Exec (World W) (Option (CovenantSigs b))
  process_undelegation d none = lift (err (errorf "empty undelegation"))
  process_undelegation d (some ud) = do
    p ← lift (deref ce.params)
    quorum ← lift (has_covenant_quorum d p.covenant_quorum)
    sign_unless_quorum p d ud quorum

  -- The body of the loop.
  unfoldable pub process_delegation :
      Option (Delegation b) → Exec (World W) (Option (CovenantSigs b))
  process_delegation none = lift (err (errorf "empty delegation"))
  process_delegation (some d) = process_undelegation d d.btc_undelegation

  -- The `return nil, nil` leaves the loop.
  abbrev pub unless_quorum :
      Option (CovenantSigs b)
      → (CovenantSigs b → Exec (World W) (Option (List (CovenantSigs b))))
      → Exec (World W) (Option (List (CovenantSigs b)))
  unless_quorum none rest = pure none
  unless_quorum (some sigs) rest = rest sigs

  unfoldable pub sign_batch :
      List (Option (Delegation b))
      → List (CovenantSigs b)
      → Exec (World W) (Option (List (CovenantSigs b)))
  sign_batch [] covenant_sigs = pure (some covenant_sigs)
  sign_batch (d ∷ dels) covenant_sigs = do
    signed ← process_delegation d
    unless_quorum signed (λ sigs. sign_batch dels (covenant_sigs ++ sigs ∷ []))

  -- Step 9, unless the loop was left.
  unfoldable pub submit_signed :
      Option (List (CovenantSigs b)) → Exec (World W) (Option (TxResponse b))
  submit_signed none = pure none
  submit_signed (some covenant_sigs) = do
    res ← ce.cc.submit_covenant_sigs covenant_sigs
    pure (some res)

  unfoldable pub add_covenant_signatures :
      List (Option (Delegation b)) → Exec (World W) (Option (TxResponse b))
  add_covenant_signatures [] = lift (err (errorf "no delegations"))
  add_covenant_signatures (d ∷ dels) = do signed ← sign_batch (d ∷ dels) []; submit_signed signed
