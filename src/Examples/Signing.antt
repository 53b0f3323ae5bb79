-- ===== src/Examples/Signing.antt =====
-- `AddCovenantSignatures` over the toy libraries.
use covenant.Prelude.{◌≡◌, refl, ◌⊎◌, true, none, some, [], ◌∷◌, ok}
use covenant.Types.Delegation.{Delegation, CovenantSigs, has_covenant_quorum, get_staking_time}
use covenant.Machine.{World}
use covenant.Controller.{ClientController}
use covenant.Keyring.{get_chain_priv_key}
use covenant.Emulator.Defs.{get_priv_key}
use covenant.Emulator.Signing.{
  check_delegation, sign_delegation, check_unbonding_time, check_staking, check_unbonding,
  staking_info_of, sign_slashing, sign_unbonding, sign_unbonding_slashing, enc_sign_for,
  first_value,
}
use covenant.Prelude.Results.{traverse}
use covenant.Emulator.Submit.{
  process_delegation, process_undelegation, sign_unless_quorum, sign_checked,
  add_covenant_signatures,
}
use covenant.Emulator.Submit.Certified.{IsCertified, process_delegation-IsCertified}
use covenant.Emulator.Submit.Batch.{Signing, done, next}
use covenant.Emulator.Submit.Safety.{
  Submitted, SubmittedNothing, add_covenant_signatures_safe, add_covenant_signatures_complete,
  add_covenant_signatures_quorum,
}
use covenant.Examples.Toy.{toy, Chain, params, undelegation, delegation, chain, emulator, start}

abbrev pub signatures : CovenantSigs toy
signatures = record {
  public_key = 1;
  staking_tx_hash = "aa";
  slashing_sigs = (8 ∷ 42 ∷ 5 ∷ []) ∷ (9 ∷ 42 ∷ 5 ∷ []) ∷ [];
  unbonding_sig = 42 ∷ 5 ∷ [];
  slashing_unbonding_sigs = (8 ∷ 42 ∷ 101 ∷ []) ∷ (9 ∷ 42 ∷ 101 ∷ []) ∷ [];
}

-- Whatever the client does, at any time.
signs :
    (client : ClientController toy (World Chain)) (u : World Chain)
    → process_delegation (record (emulator []) { cc = client }) (some delegation) u
      ≡ (ok (some signatures), record u { input = "" })
unfolding process_delegation process_undelegation sign_unless_quorum sign_checked
    has_covenant_quorum get_priv_key get_chain_priv_key check_delegation check_unbonding_time
    check_staking check_unbonding first_value sign_delegation staking_info_of get_staking_time
    sign_slashing sign_unbonding sign_unbonding_slashing enc_sign_for traverse
signs client u = refl

pub certified :
    (client : ClientController toy (World Chain)) (u : World Chain)
    → IsCertified
        (record (emulator []) { cc = client })
        u
        (record u { input = "" })
        delegation
        signatures
certified client u =
    process_delegation-IsCertified (record (emulator []) { cc = client }) u
      (record u { input = "" }) delegation signatures (signs client u)

pub signing :
    (client : ClientController toy (World Chain))
    → Signing (record (emulator []) { cc = client }) start (delegation ∷ []) (signatures ∷ []) start
signing client = next (certified client start) done

add_covenant_signatures_safe_example :
    Submitted
      (emulator [])
      (some delegation ∷ none ∷ [])
      start
      (add_covenant_signatures (emulator []) (some delegation ∷ none ∷ []) start)
    ⊎ SubmittedNothing
        (emulator [])
        start
        (add_covenant_signatures (emulator []) (some delegation ∷ none ∷ []) start)
add_covenant_signatures_safe_example =
    add_covenant_signatures_safe (emulator []) (some delegation ∷ none ∷ []) start

add_covenant_signatures_complete_example :
    add_covenant_signatures (emulator []) (some delegation ∷ []) start ≡ (
      ok (some (record { tx_hash = "hash"; events = [] })),
      record start { outside = signatures ∷ [] },
    )
add_covenant_signatures_complete_example =
    add_covenant_signatures_complete (emulator []) delegation [] (signatures ∷ []) start start
      (signing (chain []))

-- `delegation`, with the two signatures of each kind that make the quorum.
abbrev with_quorum : Delegation toy
with_quorum = record delegation {
  covenant_sigs = record { pk = 2; sigs = [] } ∷ record { pk = 3; sigs = [] } ∷ [];
  btc_undelegation = some (record undelegation {
    covenant_unbonding_sigs = record { pk = 2; sig = [] } ∷ record { pk = 3; sig = [] } ∷ [];
  });
}

quorum : has_covenant_quorum with_quorum 2 ≡ ok true
unfolding has_covenant_quorum
quorum = refl

add_covenant_signatures_quorum_example :
    add_covenant_signatures
      (emulator [])
      (some delegation ∷ some with_quorum ∷ some delegation ∷ [])
      start
    ≡ (ok none, start)
add_covenant_signatures_quorum_example =
    add_covenant_signatures_quorum (emulator []) params (delegation ∷ []) (signatures ∷ [])
      with_quorum _ (some delegation ∷ []) start start (signing (chain [])) refl refl quorum
