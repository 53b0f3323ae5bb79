-- ===== src/Emulator/Submit/Safety.antt =====
-- What `AddCovenantSignatures` submits, and when it submits nothing.
use covenant.Prelude.{
  ◌≡◌, ◌≢◌, refl, ap, sym, ◌⊎◌, inl, inr, true, Option, none, some, List, [], ◌∷◌, ◌++◌, map,
  Outcome, ok, err, panic, running,
}
use covenant.Prelude.Exec.{pure, continue, ◌>>=◌}
use covenant.Libraries.{Btc}
use covenant.Machine.{World}
use covenant.Types.Delegation.{
  Delegation, Undelegation, CovenantSigs, TxResponse, has_covenant_quorum,
}
use covenant.Types.Params.{StakingParams}
use covenant.Emulator.Defs.{CovenantEmulator}
use covenant.Emulator.Submit.{
  process_delegation, process_undelegation, sign_unless_quorum, sign_batch, submit_signed,
  add_covenant_signatures,
}
use covenant.Emulator.Submit.Certified.{IsCertified-process_delegation}
use covenant.Emulator.Submit.Quiet.{KeyReads, sign_batch-IsQuiet}
use covenant.Emulator.Submit.Batch.{Signing, sign_batch-Signed, Signing-sign_batch, done, next}

module _ {b : Btc} {W : Type 0} (ce : CovenantEmulator b W) where
  -- The call submitted `made`, one certified set of signatures for each delegation in order, and
  -- hands on what the consumer chain answered.
  pub record Submitted (dels : List (Option (Delegation b))) (before : World W)
      (result : Outcome (Option (TxResponse b)) × World W) : Type 0 where
    pub present : List (Delegation b)
    pub made : List (CovenantSigs b)
    pub between : World W
    pub not_nil : dels ≡ map some present
    pub signing : Signing ce before present made between
    pub answered : (do res ← ce.cc.submit_covenant_sigs made; pure (some res)) between ≡ result

  -- The call has no response, and did nothing but read the covenant's key.
  pub record SubmittedNothing (before : World W)
      (result : Outcome (Option (TxResponse b)) × World W) : Type 0 where
    pub no_response : (res : TxResponse b) → result.0 ≢ ok (some res)
    pub only_reads : KeyReads ce before result.1

  submit_signed_cases :
      (dels : List (Option (Delegation b))) (before after : World W)
      (r : Outcome (Option (List (CovenantSigs b))))
      → sign_batch ce dels [] before ≡ (r, after)
      → KeyReads ce before after
      → Submitted dels before (continue r (submit_signed ce) after)
        ⊎ SubmittedNothing before (continue r (submit_signed ce) after)
  unfolding submit_signed
  submit_signed_cases dels before after (ok (some all)) e k =
      let s = sign_batch-Signed ce dels [] all before after e in
      inl (record {
        present = s.present;
        made = s.made;
        between = after;
        not_nil = s.not_nil;
        signing = s.signing;
        answered =
            ap (λ sigs. (do res ← ce.cc.submit_covenant_sigs sigs; pure (some res)) after)
              (sym s.appended);
      })
  submit_signed_cases dels before after (ok none) e k =
      inr (record { no_response = λ res h. cc; only_reads = k })
  submit_signed_cases dels before after (err x) e k =
      inr (record { no_response = λ res h. cc; only_reads = k })
  submit_signed_cases dels before after (panic p) e k =
      inr (record { no_response = λ res h. cc; only_reads = k })
  submit_signed_cases dels before after running e k =
      inr (record { no_response = λ res h. cc; only_reads = k })

  -- Whatever the batch, `AddCovenantSignatures` either submits once, and then every delegation of
  -- the batch is certified and the signatures stand in the order of the delegations; or it submits
  -- nothing, and has only read the covenant's key. This covers every error and every panic.
  pub add_covenant_signatures_safe :
      (dels : List (Option (Delegation b))) (w : World W)
      → Submitted dels w (add_covenant_signatures ce dels w)
        ⊎ SubmittedNothing w (add_covenant_signatures ce dels w)
  unfolding add_covenant_signatures
  add_covenant_signatures_safe [] w =
      inr (record { no_response = λ res h. cc; only_reads = KeyReads.here })
  add_covenant_signatures_safe (d ∷ dels) w =
      let (r, u) = sign_batch ce (d ∷ dels) [] w in
      submit_signed_cases (d ∷ dels) w u r refl (sign_batch-IsQuiet ce (d ∷ dels) [] w)

  -- If each delegation of a batch that is not empty can be certified, one after the other, then
  -- `AddCovenantSignatures` submits these signatures and hands on the answer.
  pub add_covenant_signatures_complete :
      (d : Delegation b) (dels : List (Delegation b)) (made : List (CovenantSigs b))
      (before after : World W)
      → Signing ce before (d ∷ dels) made after
      → add_covenant_signatures ce (map some (d ∷ dels)) before
        ≡ (do res ← ce.cc.submit_covenant_sigs made; pure (some res)) after
  unfolding add_covenant_signatures submit_signed
  add_covenant_signatures_complete d dels made before after s =
      rw (Signing-sign_batch ce (d ∷ dels) [] made before after s)

  process_delegation_quorum :
      (p : StakingParams b) (d : Delegation b) (ud : Undelegation b) (w : World W)
      → ce.params ≡ some p
      → d.btc_undelegation ≡ some ud
      → has_covenant_quorum d p.covenant_quorum ≡ ok true
      → process_delegation ce (some d) w ≡ (ok none, w)
  unfolding process_delegation process_undelegation sign_unless_quorum
  process_delegation_quorum p d ud w in_force undelegated quorum =
      rw (undelegated, process_undelegation, in_force, quorum, sign_unless_quorum)

  sign_batch_quorum :
      (p : StakingParams b) (dels : List (Delegation b)) (made earlier : List (CovenantSigs b))
      (d : Delegation b) (ud : Undelegation b) (rest : List (Option (Delegation b)))
      (before after : World W)
      → Signing ce before dels made after
      → ce.params ≡ some p
      → d.btc_undelegation ≡ some ud
      → has_covenant_quorum d p.covenant_quorum ≡ ok true
      → sign_batch ce (map some dels ++ some d ∷ rest) earlier before ≡ (ok none, after)
  unfolding sign_batch
  sign_batch_quorum p dels made earlier d ud rest before after done in_force undelegated quorum =
      rw (process_delegation_quorum p d ud before in_force undelegated quorum)
  sign_batch_quorum p dels made earlier d ud rest before after
        (next {v = v} {d = d'} {dels = more} {sigs = sigs} {rest = others} c s) in_force undelegated
        quorum =
      rw (
        IsCertified-process_delegation ce before v d' sigs c,
        sign_batch_quorum p more others (earlier ++ sigs ∷ []) d ud rest v after s in_force
            undelegated quorum,
      )

  -- One delegation with a quorum silences its batch: the signatures made for the delegations before
  -- it are dropped, the delegations behind it are not looked at, and nothing is submitted, with no
  -- error.
  pub add_covenant_signatures_quorum :
      (p : StakingParams b) (dels : List (Delegation b)) (made : List (CovenantSigs b))
      (d : Delegation b) (ud : Undelegation b) (rest : List (Option (Delegation b)))
      (before after : World W)
      → Signing ce before dels made after
      → ce.params ≡ some p
      → d.btc_undelegation ≡ some ud
      → has_covenant_quorum d p.covenant_quorum ≡ ok true
      → add_covenant_signatures ce (map some dels ++ some d ∷ rest) before ≡ (ok none, after)
  unfolding add_covenant_signatures
  add_covenant_signatures_quorum p [] made d ud rest before after s in_force undelegated quorum =
      rw (sign_batch_quorum p [] made [] d ud rest before after s in_force undelegated quorum)
        (unfold submit_signed in refl)
  add_covenant_signatures_quorum p (x ∷ dels) made d ud rest before after s in_force undelegated
        quorum =
      rw
        (sign_batch_quorum p (x ∷ dels) made [] d ud rest before after s in_force undelegated
          quorum)
        (unfold submit_signed in refl)
