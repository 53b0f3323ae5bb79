-- ===== src/Emulator/Submit/Certified.antt =====
-- What the signatures that `AddCovenantSignatures` makes for one delegation certify.
use covenant.Prelude.{◌≡◌, refl, Bool, true, false, Option, none, some, ok, ap, ◌∙◌}
use covenant.Prelude.Results.{deref, deref-eq-ok}
use covenant.Prelude.Exec.{wrap, bind-eq-ok, continue-eq-ok, wrap-eq-ok}
use covenant.Libraries.{Btc}
use covenant.Machine.{World}
use covenant.Types.Delegation.{Delegation, Undelegation, CovenantSigs, has_covenant_quorum}
use covenant.Types.Params.{StakingParams}
use covenant.Emulator.Defs.{CovenantEmulator, get_priv_key}
use covenant.Emulator.Signing.{Checked, check_delegation}
use covenant.Emulator.Submit.{
  sign_checked, sign_unless_quorum, process_undelegation, process_delegation,
}
use covenant.Emulator.Submit.Checked.{
  IsChecked, check_delegation-IsChecked, IsChecked-check_delegation,
}
use covenant.Emulator.Submit.Signed.{IsSigned, sign_delegation-IsSigned, IsSigned-sign_delegation}

-- `sigs` are signatures for a delegation that has an undelegation and no quorum yet, whose
-- transactions pass every check under the parameters in force, and they are made with a private
-- key that the keyring gave in the world `before`.
pub record IsCertified {b : Btc} {W : Type 0} (ce : CovenantEmulator b W) (before after : World W)
    (d : Delegation b) (sigs : CovenantSigs b) : Type 0 where
  pub p : StakingParams b
  pub ud : Undelegation b
  pub c : Checked b
  pub sk : b.PrivateKey
  pub in_force : ce.params ≡ some p
  pub undelegated : d.btc_undelegation ≡ some ud
  pub no_quorum : has_covenant_quorum d p.covenant_quorum ≡ ok false
  pub checked : IsChecked b ce.config.btc_net_params p d ud c
  pub key_read : get_priv_key ce before ≡ (ok sk, after)
  pub signed : IsSigned b ce.config.btc_net_params p d ud c sk ce.pk sigs

module _ {b : Btc} {W : Type 0} (ce : CovenantEmulator b W) where
  module _ (before after : World W) (d : Delegation b) (sigs : CovenantSigs b) where
    sign_unless_quorum-IsCertified :
        (p : StakingParams b) (ud : Undelegation b) (quorum : Bool)
        → ce.params ≡ some p
        → d.btc_undelegation ≡ some ud
        → has_covenant_quorum d p.covenant_quorum ≡ ok quorum
        → sign_unless_quorum ce p d ud quorum before ≡ (ok (some sigs), after)
        → IsCertified ce before after d sigs
    unfolding sign_unless_quorum sign_checked
    sign_unless_quorum-IsCertified p ud true in_force undelegated quorum h = cc
    sign_unless_quorum-IsCertified p ud false in_force undelegated quorum h =
        let (made, u, e, k) = bind-eq-ok (sign_checked ce p d ud) _ before h in
        let (c, checked, e') = continue-eq-ok (check_delegation b net p d ud) _ before e in
        let (sk, v, read, e'') = bind-eq-ok (wrap _ (get_priv_key ce)) _ before e' in
        let same : (made ≡ sigs) × (u ≡ after) × (v ≡ u) = (cc, cc, cc) in
        record {
          p = p;
          ud = ud;
          c = c;
          sk = sk;
          in_force = in_force;
          undelegated = undelegated;
          no_quorum = quorum;
          checked = check_delegation-IsChecked b net p d ud c checked;
          key_read =
              wrap-eq-ok _ (get_priv_key ce) before read ∙ ap (λ w. (ok sk, w)) (same.2 ∙ same.1);
          signed =
              sign_delegation-IsSigned b net p d ud c sk ce.pk sigs
                (ap (λ x. x.0) e'' ∙ ap ok same.0);
        }
      where
        net : b.NetParams
        net = ce.config.btc_net_params

    process_undelegation-IsCertified :
        (undel : Option (Undelegation b))
        → d.btc_undelegation ≡ undel
        → process_undelegation ce d undel before ≡ (ok (some sigs), after)
        → IsCertified ce before after d sigs
    unfolding process_undelegation
    process_undelegation-IsCertified none e h = cc
    process_undelegation-IsCertified (some ud) e h =
        let (p, in_force, k) = continue-eq-ok (deref ce.params) _ before h in
        let (quorum, q, k') = continue-eq-ok (has_covenant_quorum d p.covenant_quorum) _ before k in
        sign_unless_quorum-IsCertified p ud quorum (deref-eq-ok ce.params in_force) e q k'

    pub process_delegation-IsCertified :
        process_delegation ce (some d) before ≡ (ok (some sigs), after)
        → IsCertified ce before after d sigs
    unfolding process_delegation
    process_delegation-IsCertified h = process_undelegation-IsCertified d.btc_undelegation refl h

  pub IsCertified-process_delegation :
      (before after : World W) (d : Delegation b) (sigs : CovenantSigs b)
      → IsCertified ce before after d sigs
      → process_delegation ce (some d) before ≡ (ok (some sigs), after)
  unfolding process_delegation process_undelegation sign_unless_quorum sign_checked
  IsCertified-process_delegation before after d sigs k = rw (
    k.undelegated,
    process_undelegation,
    k.in_force,
    k.no_quorum,
    sign_unless_quorum,
    IsChecked-check_delegation b _ _ _ _ _ k.checked,
    k.key_read,
    IsSigned-sign_delegation b _ _ _ _ _ _ _ _ k.signed,
  )
