-- ===== src/Emulator/Loop/Once.antt =====
-- A delegation whose signatures the chain has accepted is not signed again.
use mathlib.Core.List.{Memᴰ}
use covenant.Prelude.{ℕ, ◌≡◌, ◌≢◌, ap, sym, ◌∙◌, subst, Option, some, List, [], ◌∷◌, map, ok, All}
use covenant.Libraries.{Btc}
use covenant.Machine.{World}
use covenant.Types.Delegation.{Delegation, CovenantSigs, TxResponse}
use covenant.Types.Params.{StakingParams}
use covenant.Emulator.Defs.{CovenantEmulator, get_priv_key}
use covenant.Emulator.Sanitize.Kept.{HasSigBy, IsEligible}
use covenant.Emulator.Submit.Batch.{Signing, done, next}
use covenant.Emulator.Submit.Certified.{IsCertified}
use covenant.Emulator.Loop.Acts.{
  Act, read_key, ask_params, ask_pending, submit, Acts, none_yet, then,
}

module _ {b : Btc} {W : Type 0} (ce : CovenantEmulator b W) where
  -- The chain records for which staking transactions it has accepted signatures by the daemon's key,
  -- keeps the records, and shows such a signature with each pending delegation that it answers with.
  -- Of the signatures of another member it may record what it likes.
  pub record IsRecording : Type 1 where
    pub recorded : World W → b.Hash → Type 0
    pub accepted :
        (made : List (CovenantSigs b)) (res : TxResponse b) (u v : World W)
        → ce.cc.submit_covenant_sigs made u ≡ (ok res, v)
        → All (λ s. s.public_key ≡ ce.pk → recorded v s.staking_tx_hash) made
    pub shown :
        (limit : ℕ) (pending : List (Option (Delegation b))) (u v : World W)
        → ce.cc.query_pending_delegations limit u ≡ (ok pending, v)
        → (d : Delegation b) (tx : b.MsgTx) → Memᴰ (some d) pending
        → b.new_btc_tx_from_hex d.staking_tx_hex ≡ ok tx
        → recorded u (b.tx_hash tx)
        → HasSigBy ce.pk d.covenant_sigs
    pub kept_by_key : (u : World W) (h : b.Hash) → recorded u h → recorded (get_priv_key ce u).1 h
    pub kept_by_params :
        (u : World W) (h : b.Hash) → recorded u h → recorded (ce.cc.query_staking_params u).1 h
    pub kept_by_query :
        (limit : ℕ) (u : World W) (h : b.Hash)
        → recorded u h
        → recorded (ce.cc.query_pending_delegations limit u).1 h
    pub kept_by_submit :
        (made : List (CovenantSigs b)) (u : World W) (h : b.Hash)
        → recorded u h
        → recorded (ce.cc.submit_covenant_sigs made u).1 h

module _ {b : Btc} {W : Type 0} (ce : CovenantEmulator b W) (hash : b.Hash) where
  -- No submission has signatures for the staking transaction with this hash.
  abbrev pub ActSpares : {start u v : World W} → Act ce start u v → Type 0
  ActSpares (read_key e) = Unit
  ActSpares (ask_params e) = Unit
  ActSpares (ask_pending e) = Unit
  ActSpares (submit params fetching asked at pending before present made past f q i c e) =
      All (λ s. s.staking_tx_hash ≢ hash) made

  abbrev pub Spares : {start v : World W} → Acts ce start v → Type 0
  Spares none_yet = Unit
  Spares (then acts act) = Spares acts × ActSpares act

module _ {b : Btc} {W : Type 0} (ce : CovenantEmulator b W) (chain : IsRecording ce)
    (hash : b.Hash) where
  Act-recorded :
      {start u v : World W} → Act ce start u v → chain.recorded u hash → chain.recorded v hash
  Act-recorded (read_key {u = u} e) r =
      subst (λ w. chain.recorded w hash) e (chain.kept_by_key u hash r)
  Act-recorded (ask_params {u = u} e) r =
      subst (λ w. chain.recorded w hash) e (chain.kept_by_params u hash r)
  Act-recorded (ask_pending {u = u} e) r =
      subst (λ w. chain.recorded w hash) e (chain.kept_by_query ce.config.delegation_limit u hash r)
  Act-recorded (submit {u = u} params fetching asked at pending before present made past f q i c e)
        r =
      subst (λ w. chain.recorded w hash) e (chain.kept_by_submit made u hash r)

  Acts-recorded :
      {start v : World W} → Acts ce start v → chain.recorded start hash → chain.recorded v hash
  Acts-recorded none_yet r = r
  Acts-recorded (then acts act) r = Act-recorded act (Acts-recorded acts r)

  module _ (asked at : World W) (pending : List (Option (Delegation b)))
      (answer : ce.cc.query_pending_delegations ce.config.delegation_limit asked ≡ (ok pending, at))
      (r : chain.recorded asked hash) (params : Option (StakingParams b)) where
    not-IsCertified :
        (u v : World W) (d : Delegation b) (s : CovenantSigs b)
        → IsCertified (record ce { params = params }) u v d s
        → IsEligible ce.pk pending (some d)
        → s.staking_tx_hash ≢ hash
    not-IsCertified u v d s c (unsigned, member) e = unsigned (
        chain.shown ce.config.delegation_limit pending asked at answer d c.c.staking_msg_tx member
          c.checked.staking.staking_read
          (subst (chain.recorded asked) (sym e ∙ c.signed.names_staking_tx) r))

    Signing-Spares :
        {u v : World W} (present : List (Delegation b)) (made : List (CovenantSigs b))
        → Signing (record ce { params = params }) u present made v
        → All (IsEligible ce.pk pending) (map some present)
        → All (λ s. s.staking_tx_hash ≢ hash) made
    Signing-Spares present made done i = tt
    Signing-Spares present made
          (next {u = u} {v = v} {d = d} {dels = dels} {sigs = s} {rest = rest} c k) i =
        (not-IsCertified u v d s c i.0, Signing-Spares dels rest k i.1)

  Act-Spares :
      {start u v : World W} (act : Act ce start u v)
      → chain.recorded start hash
      → ActSpares ce hash act
  Act-Spares (read_key e) r = tt
  Act-Spares (ask_params e) r = tt
  Act-Spares (ask_pending e) r = tt
  Act-Spares (submit params fetching asked at pending before present made past f q i c e) r =
      Signing-Spares asked at pending q
        (subst (λ w. chain.recorded w hash) (ap (λ x. x.1) f)
          (chain.kept_by_params fetching hash (Acts-recorded past r)))
        (some params) present made c i

  Acts-Spares :
      {start v : World W} (acts : Acts ce start v) → chain.recorded start hash → Spares ce hash acts
  Acts-Spares none_yet r = tt
  Acts-Spares (then acts act) r = (Acts-Spares acts r, Act-Spares act r)

All-at : {A : Type 0} (P : A → Type 0) (x : A) (xs : List A) → All P xs → Memᴰ x xs → P x
All-at P x [] h m = elim m [ ]
All-at P x (y ∷ ys) h (Memᴰ.head e) = subst P (sym e) h.0
All-at P x (y ∷ ys) h (Memᴰ.tail m) = All-at P x ys h.1 m

module _ {b : Btc} {W : Type 0} (ce : CovenantEmulator b W) where
  -- With a chain that records the signatures by the daemon's key that it has accepted and shows them
  -- with the pending delegations: once a submission with signatures by this key for a staking
  -- transaction has been accepted, and other things may have been done, whatever the loop does from
  -- then on has no signatures for this transaction.
  pub accepted-Spares :
      (chain : IsRecording ce) (made : List (CovenantSigs b)) (res : TxResponse b) (u v : World W)
      → ce.cc.submit_covenant_sigs made u ≡ (ok res, v)
      → (s : CovenantSigs b) → Memᴰ s made
      → s.public_key ≡ ce.pk
      → {w x : World W} → Acts ce v w
      → (acts : Acts ce w x) → Spares ce s.staking_tx_hash acts
  accepted-Spares chain made res u v h s m own between acts =
      let r =
        All-at (λ s. s.public_key ≡ ce.pk → chain.recorded v s.staking_tx_hash) s made
          (chain.accepted made res u v h) m own in
      Acts-Spares ce chain s.staking_tx_hash acts
        (Acts-recorded ce chain s.staking_tx_hash between r)
