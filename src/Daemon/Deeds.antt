-- ===== src/Daemon/Deeds.antt =====
-- What the daemon does to the chain and to the keyring, call by call.
use covenant.Prelude.{
  ◌≡◌, refl, ap, sym, ◌∙◌, subst, inl, inr, some, List, [], map, Outcome, All, All₂,
}
use covenant.Prelude.Results.{traverse, deref}
use covenant.Prelude.Exec.{Moves, Moves-bind, bind_still, bind_pure, wrap, lift, pure, ◌>>=◌}
use covenant.Libraries.{Btc}
use covenant.Machine.{World}
use covenant.Types.Delegation.{CovenantSigs}
use covenant.Controller.Messages.{MsgAddCovenantSigs, add_covenant_sigs, pending}
use covenant.Controller.Convert.{convert_delegation_type}
use covenant.Controller.Babylon.{
  BabylonController, unrecoverable_errors, query_staking_params, query_pending_delegations,
  query_delegations_with_status, submit_covenant_sigs,
}
use covenant.Controller.Babylon.Queries.{query_pending_delegations_converts}
use covenant.Controller.Babylon.Sending.{
  IsMsgOf, KeyLookups, here, looked_up, Sent, submit_covenant_sigs_sends,
}
use covenant.Emulator.Defs.{CovenantEmulator, get_priv_key}
use covenant.Emulator.Sanitize.Kept.{IsEligible}
use covenant.Emulator.Loop.Acts.{
  Act, read_key, ask_params, ask_pending, submit, Acts, none_yet, then,
}
use covenant.Daemon.{over_babylon}
use covenant.Daemon.Warranted.{IsWarranted}

module _ {b : Btc} {W : Type 0} (ce : CovenantEmulator b W)
    (bc : BabylonController b (World W)) where
  mutual
    -- What was done from `start` on, one call after the other.
    pub data Deeds (start : World W) : World W → Type 0 where
      nothing : Deeds start start
      next : {v w : World W} → Deeds start v → Deed start v w → Deeds start w

    -- One call to the keyring or to the RPC client. What stands behind a transaction was done since
    -- `start`: the parameters were fetched, and the signatures were made.
    pub data Deed (start : World W) : World W → World W → Type 0 where
      read_private_key : {u v : World W} → (get_priv_key ce u).1 ≡ v → Deed start u v
      look_up_address : {u v : World W} → (bc.bbn_client.key bc.cfg.key u).1 ≡ v → Deed start u v
      ask_checkpoint_params :
          {u v : World W} → (bc.bbn_client.btc_checkpoint_params u).1 ≡ v → Deed start u v
      ask_staking_params :
          {u v : World W} → (bc.bbn_client.btc_staking_params u).1 ≡ v → Deed start u v
      ask_delegations :
          {u v : World W}
          → (bc.bbn_client.btc_delegations pending ce.config.delegation_limit u).1 ≡ v
          → Deed start u v
      send :
          {u v : World W} (msgs : List (MsgAddCovenantSigs b)) (w : IsWarranted ce bc msgs)
          → Deeds start w.fetching
          → Deeds start w.after
          → (bc.bbn_client.reliably_send_msgs
              (map add_covenant_sigs msgs)
              []
              unrecoverable_errors
              u).1
            ≡ v
          → Deed start u v

module _ {b : Btc} {W : Type 0} (ce : CovenantEmulator b W)
    (bc : BabylonController b (World W)) where
  mutual
    pub Deeds-trans : (u v w : World W) → Deeds ce bc u v → Deeds ce bc v w → Deeds ce bc u w
    Deeds-trans u v w h nothing = h
    Deeds-trans u v w h (next {v = x} k d) = next (Deeds-trans u v x h k) (Deed-later u v x w h d)

    Deed-later : (u v x y : World W) → Deeds ce bc u v → Deed ce bc v x y → Deed ce bc u x y
    Deed-later u v x y h (read_private_key e) = read_private_key e
    Deed-later u v x y h (look_up_address e) = look_up_address e
    Deed-later u v x y h (ask_checkpoint_params e) = ask_checkpoint_params e
    Deed-later u v x y h (ask_staking_params e) = ask_staking_params e
    Deed-later u v x y h (ask_delegations e) = ask_delegations e
    Deed-later u v x y h (send msgs w fetched signed e) =
        send msgs w (Deeds-trans u v w.fetching h fetched) (Deeds-trans u v w.after h signed) e

  KeyLookups-Deeds : (u v : World W) → KeyLookups bc u v → Deeds ce bc u v
  KeyLookups-Deeds u v here = nothing
  KeyLookups-Deeds u v (looked_up {t = x} k e) = next (KeyLookups-Deeds u x k) (look_up_address e)

  query_staking_params-Deeds : Moves (Deeds ce bc) (query_staking_params bc)
  unfolding query_staking_params
  query_staking_params-Deeds =
      Moves-bind (Deeds ce bc) (λ u. nothing) Deeds-trans
        (wrap _ bc.bbn_client.btc_checkpoint_params) _
        (λ u. next nothing (ask_checkpoint_params refl))
        (λ ckpt.
          Moves-bind (Deeds ce bc) (λ u. nothing) Deeds-trans
            (wrap _ bc.bbn_client.btc_staking_params) _
            (λ u. next nothing (ask_staking_params refl)) (λ params u. nothing))

  query_pending_delegations-Deeds :
      Moves (Deeds ce bc) (query_pending_delegations bc ce.config.delegation_limit)
  unfolding query_pending_delegations query_delegations_with_status
  query_pending_delegations-Deeds u = next nothing (
      ask_delegations (
        sym (
          bind_still
            (λ answer. (do
              dels ← lift (traverse convert_delegation_type answer)
              pure (map some dels)))
            (wrap _ (bc.bbn_client.btc_delegations pending ce.config.delegation_limit)) u
            (λ answer v. bind_pure (map some) (lift (traverse convert_delegation_type answer)) v))))

  -- The messages are warranted by what was done since `start`.
  abbrev Warrant : World W → List (CovenantSigs b) → Type 0
  Warrant start made =
      (msgs : List (MsgAddCovenantSigs b))
      → All₂ IsMsgOf made msgs
      → (w : IsWarranted ce bc msgs) × Deeds ce bc start w.fetching × Deeds ce bc start w.after

  Sent-Deeds :
      (start : World W) (made : List (CovenantSigs b)) (u v : World W) (r : Outcome _)
      → Sent bc made u (r, v)
      → Warrant start made
      → Deeds ce bc start u
      → Deeds ce bc start v
  Sent-Deeds start made u v r s warrant h =
      let (w, fetched, signed) = warrant s.msgs s.same in
      next (Deeds-trans start u s.before h (KeyLookups-Deeds u s.before s.lookups)) (
        send s.msgs w fetched signed (
          sym (
            bind_still
              (λ response. (do
                res ← lift (deref response)
                pure (record { tx_hash = res.tx_hash; events = res.events })))
              (bc.bbn_client.reliably_send_msgs (map add_covenant_sigs s.msgs) []
                unrecoverable_errors)
              s.before (λ response t. bind_pure _ (lift (deref response)) t))
          ∙ ap (λ x. x.1) s.answered))

  -- What a call of `SubmitCovenantSigs` does, when its messages are warranted.
  submit_covenant_sigs-Deeds :
      (start : World W) (made : List (CovenantSigs b)) (u : World W)
      → Warrant start made
      → Deeds ce bc start u
      → Deeds ce bc start (submit_covenant_sigs bc made u).1
  submit_covenant_sigs-Deeds start made u warrant h =
      let (r, v) = submit_covenant_sigs bc made u in
      elim (submit_covenant_sigs_sends bc made u) [
        | inl s ↦ Sent-Deeds start made u v r s warrant h
        | inr n ↦ Deeds-trans start u v h (KeyLookups-Deeds u v n.only_lookups)
      ]

  mutual
    unfolding get_priv_key

    pub Acts-Deeds : (start v : World W) → Acts (over_babylon ce bc) start v → Deeds ce bc start v
    Acts-Deeds start v none_yet = nothing
    Acts-Deeds start v (then {v = x} k a) = Act-Deeds start x v (Acts-Deeds start x k) a

    Act-Deeds :
        (start u v : World W)
        → Deeds ce bc start u
        → Act (over_babylon ce bc) start u v
        → Deeds ce bc start v
    Act-Deeds start u v h (read_key e) = next h (read_private_key e)
    Act-Deeds start u v h (ask_params e) =
        subst (Deeds ce bc start) e (Deeds-trans start u _ h (query_staking_params-Deeds u))
    Act-Deeds start u v h (ask_pending e) =
        subst (Deeds ce bc start) e (Deeds-trans start u _ h (query_pending_delegations-Deeds u))
    Act-Deeds start u v h
          (submit params fetching asked at dels before present made past f q i c e) =
        let (answer, converted, query, same, conversion) =
          query_pending_delegations_converts bc ce.config.delegation_limit asked at dels q in
        subst (Deeds ce bc start) e (
          submit_covenant_sigs-Deeds start made u
            (λ msgs unchanged. (
              record {
                params = params;
                fetching = fetching;
                asked = asked;
                answered_at = at;
                answer = answer;
                converted = converted;
                before = before;
                after = u;
                present = present;
                made = made;
                fetched = f;
                query = query;
                conversion = conversion;
                eligible = subst (λ l. All (IsEligible ce.pk l) (map some present)) same i;
                certified = c;
                unchanged = unchanged;
              },
              Acts-Deeds start fetching past,
              h,
            ))
            h)
