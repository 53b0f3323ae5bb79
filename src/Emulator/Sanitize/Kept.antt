-- ===== src/Emulator/Sanitize/Kept.antt =====
-- Which delegations `removeAlreadySigned` keeps.
use mathlib.Core.List.{Memᴰ}
use covenant.Prelude.{
  ◌≡◌, refl, ◌↔◌, ◌⊎◌, inl, inr, subst, true, false, Option, none, some, List, [], ◌∷◌, ok, arith,
  All, All-weaken, Bool-cases, map, if◌then◌else◌,
}
use covenant.Prelude.Results.{bind-eq-ok, ok-injective}
use covenant.Libraries.{Btc, Bytes}
use covenant.Types.Delegation.{Delegation, CovenantAdaptorSigInfo}
use covenant.Emulator.Sanitize.{bytes_equal, already_signed, remove_already_signed}

pub bytes_equal_iff : (xs ys : Bytes) → (bytes_equal xs ys ≡ true) ↔ (xs ≡ ys)
unfolding bytes_equal
bytes_equal_iff [] [] = (λ h. refl, λ h. refl)
bytes_equal_iff [] (y ∷ ys) = (λ h. cc, λ h. cc)
bytes_equal_iff (x ∷ xs) [] = (λ h. cc, λ h. cc)
bytes_equal_iff (x ∷ xs) (y ∷ ys) =
    (λ h. ground (arith, (bytes_equal_iff xs ys).0), λ h. ground (arith, (bytes_equal_iff xs ys).1))

module _ {b : Btc} (pk : b.PublicKey) where
  -- One of the signatures is by a key with the serialization of `pk`.
  abbrev pub HasSigBy : List (CovenantAdaptorSigInfo b) → Type 0
  HasSigBy [] = ⊥
  HasSigBy (s ∷ sigs) = (b.serialize_pub_key s.pk ≡ b.serialize_pub_key pk) ⊎ HasSigBy sigs

  pub already_signed_cases :
      (sigs : List (CovenantAdaptorSigInfo b))
      → ((already_signed pk sigs ≡ true) × HasSigBy sigs)
        ⊎ ((already_signed pk sigs ≡ false) × (¬ HasSigBy sigs))
  unfolding already_signed
  already_signed_cases [] = inr (refl, λ h. absurd h)
  already_signed_cases (s ∷ sigs) =
      let same = bytes_equal_iff (b.serialize_pub_key s.pk) (b.serialize_pub_key pk) in
      elim (Bool-cases (bytes_equal (b.serialize_pub_key s.pk) (b.serialize_pub_key pk))) [
        | inl e ↦ inl (rw e, inl (same.0 e))
        | inr e ↦ elim (already_signed_cases sigs) [
          | inl found ↦ inl (rw (e, found.0), inr found.1)
          | inr clear ↦ inr (rw (e, clear.0), elim [ inl h ↦ cc (same.1 h) | inr h ↦ clear.1 h ])
        ]
      ]

  already_signed-true :
      (sigs : List (CovenantAdaptorSigInfo b)) → HasSigBy sigs → already_signed pk sigs ≡ true
  already_signed-true sigs h = elim (already_signed_cases sigs) [
    | inl found ↦ found.0
    | inr clear ↦ absurd (clear.1 h)
  ]

  already_signed-false :
      (sigs : List (CovenantAdaptorSigInfo b)) → ¬ HasSigBy sigs → already_signed pk sigs ≡ false
  already_signed-false sigs h = elim (already_signed_cases sigs) [
    | inl found ↦ absurd (h found.1)
    | inr clear ↦ clear.0
  ]

  -- `kept` is `dels` in its order, without the delegations that have a signature by `pk`.
  pub data Sanitized : List (Option (Delegation b)) → List (Option (Delegation b)) → Type 0 where
    done : Sanitized [] []
    skip :
        {d : Delegation b} {dels kept : List (Option (Delegation b))}
        → HasSigBy d.covenant_sigs
        → Sanitized dels kept
        → Sanitized (some d ∷ dels) kept
    keep :
        {d : Delegation b} {dels kept : List (Option (Delegation b))}
        → ¬ HasSigBy d.covenant_sigs
        → Sanitized dels kept
        → Sanitized (some d ∷ dels) (some d ∷ kept)

  remove_already_signed-Sanitized :
      (dels kept : List (Option (Delegation b)))
      → remove_already_signed pk dels ≡ ok kept
      → Sanitized dels kept
  unfolding remove_already_signed
  remove_already_signed-Sanitized [] kept h = subst (Sanitized []) (ok-injective h) done
  remove_already_signed-Sanitized (none ∷ dels) kept h = cc
  remove_already_signed-Sanitized (some d ∷ dels) kept h =
      let (rest, e, k) = bind-eq-ok (remove_already_signed pk dels) _ h in
      let s = remove_already_signed-Sanitized dels rest e in
      elim (already_signed_cases d.covenant_sigs) [
        | inl found ↦
            subst (Sanitized (some d ∷ dels)) (ok-injective (rw found.0 at k)) (skip found.1 s)
        | inr clear ↦
            subst (Sanitized (some d ∷ dels)) (ok-injective (rw clear.0 at k)) (keep clear.1 s)
      ]

  Sanitized-remove_already_signed :
      (dels kept : List (Option (Delegation b)))
      → Sanitized dels kept
      → remove_already_signed pk dels ≡ ok kept
  unfolding remove_already_signed
  Sanitized-remove_already_signed dels kept done = refl
  Sanitized-remove_already_signed dels kept (skip {d = d} {dels = rest} {kept = others} h s) =
      rw (Sanitized-remove_already_signed rest others s, already_signed-true d.covenant_sigs h)
  Sanitized-remove_already_signed dels kept (keep {d = d} {dels = rest} {kept = others} h s) =
      rw (Sanitized-remove_already_signed rest others s, already_signed-false d.covenant_sigs h)

  -- `removeAlreadySigned` returns exactly the delegations without a signature by the covenant's
  -- key, in their order; keys are compared by their serialization.
  pub remove_already_signed_iff :
      (dels kept : List (Option (Delegation b)))
      → (remove_already_signed pk dels ≡ ok kept) ↔ Sanitized dels kept
  remove_already_signed_iff dels kept =
      (remove_already_signed-Sanitized dels kept, Sanitized-remove_already_signed dels kept)

  -- A delegation of `dels` without a signature by `pk`.
  abbrev pub IsEligible : List (Option (Delegation b)) → Option (Delegation b) → Type 0
  IsEligible dels none = ⊥
  IsEligible dels (some d) = (¬ HasSigBy d.covenant_sigs) × Memᴰ (some d) dels

  IsEligible-tail :
      (x : Option (Delegation b)) (dels : List (Option (Delegation b))) (d : Option (Delegation b))
      → IsEligible dels d
      → IsEligible (x ∷ dels) d
  IsEligible-tail x dels none h = h
  IsEligible-tail x dels (some d) h = (h.0, Memᴰ.tail h.1)

  pub Sanitized-IsEligible :
      {dels kept : List (Option (Delegation b))} → Sanitized dels kept → All (IsEligible dels) kept
  Sanitized-IsEligible done = tt
  Sanitized-IsEligible (skip {d = d} {dels = rest} {kept = others} h s) =
      All-weaken _ _ (IsEligible-tail (some d) rest) others (Sanitized-IsEligible s)
  Sanitized-IsEligible (keep {d = d} {dels = rest} {kept = others} h s) = (
    (h, Memᴰ.head refl),
    All-weaken _ _ (IsEligible-tail (some d) rest) others (Sanitized-IsEligible s),
  )

  -- A list of delegations none of which is nil is sanitized with no panic.
  pub remove_already_signed_total :
      (dels : List (Delegation b))
      → (kept : List (Option (Delegation b))) × (remove_already_signed pk (map some dels) ≡ ok kept)
  unfolding remove_already_signed
  remove_already_signed_total [] = ([], refl)
  remove_already_signed_total (d ∷ dels) =
      let (kept, e) = remove_already_signed_total dels in
      (if already_signed pk d.covenant_sigs then kept else some d ∷ kept, rw e)
