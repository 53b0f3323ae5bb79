-- ===== src/Emulator/Submit/Batch.antt =====
-- What `AddCovenantSignatures` submits, and when it submits nothing.
use mathlib.Core.List.{append_assoc, append-nil}
use covenant.Prelude.{
  ◌≡◌, refl, subst, ap, sym, ◌∙◌, Option, none, some, List, [], ◌∷◌, ◌++◌, map, ok,
}
use covenant.Prelude.Exec.{Exec, bind-eq-ok}
use covenant.Libraries.{Btc}
use covenant.Machine.{World}
use covenant.Types.Delegation.{Delegation, CovenantSigs}
use covenant.Emulator.Defs.{CovenantEmulator}
use covenant.Emulator.Submit.{process_delegation, unless_quorum, sign_batch}
use covenant.Emulator.Submit.Certified.{
  IsCertified, process_delegation-IsCertified, IsCertified-process_delegation,
}

module _ {b : Btc} {W : Type 0} (ce : CovenantEmulator b W) where
  -- One certificate for each delegation of a batch, in order, with the worlds in between.
  pub data Signing : World W → List (Delegation b) → List (CovenantSigs b) → World W → Type 0 where
    done : {w : World W} → Signing w [] [] w
    next :
        {u v w : World W} {d : Delegation b} {dels : List (Delegation b)} {sigs : CovenantSigs b}
        {rest : List (CovenantSigs b)}
        → IsCertified ce u v d sigs
        → Signing v dels rest w
        → Signing u (d ∷ dels) (sigs ∷ rest) w

module _ {b : Btc} {W : Type 0} (ce : CovenantEmulator b W) where
  -- What the loop has signed when it comes to its end.
  pub record Signed (before after : World W) (dels : List (Option (Delegation b)))
      (earlier all : List (CovenantSigs b)) : Type 0 where
    pub present : List (Delegation b)
    pub made : List (CovenantSigs b)
    pub not_nil : dels ≡ map some present
    pub appended : all ≡ earlier ++ made
    pub signing : Signing ce before present made after

  unless_quorum-eq-some :
      (signed : Option (CovenantSigs b))
      (rest : CovenantSigs b → Exec (World W) (Option (List (CovenantSigs b)))) (u after : World W)
      (all : List (CovenantSigs b))
      → unless_quorum ce signed rest u ≡ (ok (some all), after)
      → (sigs : CovenantSigs b) × (signed ≡ some sigs) × (rest sigs u ≡ (ok (some all), after))
  unless_quorum-eq-some none rest u after all h = cc
  unless_quorum-eq-some (some sigs) rest u after all h = (sigs, refl, h)

  not-process_nil :
      (before u : World W) (signed : Option (CovenantSigs b))
      → ¬ (process_delegation ce none before ≡ (ok signed, u))
  unfolding process_delegation
  not-process_nil before u signed h = cc

  pub sign_batch-Signed :
      (dels : List (Option (Delegation b))) (earlier all : List (CovenantSigs b))
      (before after : World W)
      → sign_batch ce dels earlier before ≡ (ok (some all), after)
      → Signed before after dels earlier all
  unfolding sign_batch
  sign_batch-Signed [] earlier all before after h = record {
    present = [];
    made = [];
    not_nil = refl;
    appended = let e : earlier ≡ all = cc in sym e ∙ sym (append-nil earlier);
    signing = subst (Signing ce before [] []) (ap (λ x. x.1) h) done;
  }
  sign_batch-Signed (none ∷ dels) earlier all before after h =
      let (signed, u, e, k) = bind-eq-ok (process_delegation ce none) _ before h in
      absurd (not-process_nil before u signed e)
  sign_batch-Signed (some d ∷ dels) earlier all before after h =
      let (signed, u, e, k) = bind-eq-ok (process_delegation ce (some d)) _ before h in
      let (sigs, found, k') = unless_quorum-eq-some signed _ u after all k in
      let s = sign_batch-Signed dels (earlier ++ sigs ∷ []) all u after k' in
      record {
        present = d ∷ s.present;
        made = sigs ∷ s.made;
        not_nil = ap (λ l. some d ∷ l) s.not_nil;
        appended = s.appended ∙ append_assoc earlier (sigs ∷ []) s.made;
        signing =
            next (process_delegation-IsCertified ce before u d sigs (e ∙ ap (λ x. (ok x, u)) found))
              s.signing;
      }

  pub Signing-sign_batch :
      (dels : List (Delegation b)) (earlier made : List (CovenantSigs b)) (before after : World W)
      → Signing ce before dels made after
      → sign_batch ce (map some dels) earlier before ≡ (ok (some (earlier ++ made)), after)
  unfolding sign_batch
  Signing-sign_batch dels earlier made before after done = rw (append-nil earlier)
  Signing-sign_batch dels earlier made before after
        (next {v = v} {d = d} {dels = rest} {sigs = sigs} {rest = more} c s) =
      rw (
        IsCertified-process_delegation ce before v d sigs c,
        Signing-sign_batch rest (earlier ++ sigs ∷ []) more v after s,
        append_assoc earlier (sigs ∷ []) more,
      )
