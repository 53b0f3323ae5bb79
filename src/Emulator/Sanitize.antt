-- ===== src/Emulator/Sanitize.antt =====
-- `removeAlreadySigned` of covenant/covenant.go.
pub mod Kept
use covenant.Prelude.{
  ℕ, Bool, true, false, ◌&&◌, Option, none, some, List, [], ◌∷◌, Outcome, ok, panic,
  nil_dereference, ◌==◌, if◌then◌else◌,
}
use covenant.Prelude.Results.{◌>>=◌}
use covenant.Libraries.{Btc, Bytes}
use covenant.Types.Delegation.{Delegation, CovenantAdaptorSigInfo}

-- `bytes.Equal`
unfoldable pub bytes_equal : Bytes → Bytes → Bool
bytes_equal [] [] = true
bytes_equal [] (y ∷ ys) = false
bytes_equal (x ∷ xs) [] = false
bytes_equal (x ∷ xs) (y ∷ ys) = x == y && bytes_equal xs ys

module _ {b : Btc} where
  -- The inner loop, which stops at the first signature by `pk`.
  unfoldable pub already_signed : b.PublicKey → List (CovenantAdaptorSigInfo b) → Bool
  unfolding bytes_equal
  already_signed pk [] = false
  already_signed pk (cov_sig ∷ sigs) =
      let rest = already_signed pk sigs in
      if bytes_equal (b.serialize_pub_key cov_sig.pk) (b.serialize_pub_key pk) then true else rest

  -- A nil delegation is followed.
  unfoldable pub remove_already_signed :
      b.PublicKey → List (Option (Delegation b)) → Outcome (List (Option (Delegation b)))
  unfolding already_signed
  remove_already_signed pk [] = ok []
  remove_already_signed pk (none ∷ dels) = panic nil_dereference
  remove_already_signed pk (some d ∷ dels) = do
    sanitized ← remove_already_signed pk dels
    ok (if already_signed pk d.covenant_sigs then sanitized else some d ∷ sanitized)
