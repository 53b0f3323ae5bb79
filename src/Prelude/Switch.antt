-- ===== src/Prelude/Switch.antt =====
-- A `switch` on a text, one case at a time.
use text.Mathlib.Text.{◌==◌}
use text.Mathlib.TextEquality.{eq_iff}
use mathlib.Core.Path.{◌≡◌, sym}
use mathlib.Core.Logic.{◌⊎◌, inl, inr}
use mathlib.Core.Bool.{◌||◌}
use mathlib.Core.Option.{Option, some}
use Prim.Native.String.{String}
use covenant.Prelude.Tests.{if◌then◌else◌, Bool-cases}

some-injective {ℓ} : {A : Type ℓ} {x y : A} → some x ≡ some y → x ≡ y
some-injective e = cc

module _ {ℓ} {A : Type ℓ} (name : String) (x net : A) (rest : Option A) where
  pub switch_case :
      (text : String)
      → (if name == text then some x else rest) ≡ some net
      → ((name ≡ text) × (net ≡ x)) ⊎ (rest ≡ some net)
  switch_case text h = elim (Bool-cases (name == text)) [
    | inl e ↦ inl ((eq_iff name text).0 e, sym (some-injective (rw e at h)))
    | inr e ↦ inr (rw e at h)
  ]

  -- A case with two texts.
  pub switch_cases :
      (text text' : String)
      → (if name == text || name == text' then some x else rest) ≡ some net
      → (((name ≡ text) ⊎ (name ≡ text')) × (net ≡ x)) ⊎ (rest ≡ some net)
  switch_cases text text' h = elim (Bool-cases (name == text)) [
    | inl e ↦ inl (inl ((eq_iff name text).0 e), sym (some-injective (rw e at h)))
    | inr e ↦ elim (Bool-cases (name == text')) [
      | inl e' ↦ inl (inr ((eq_iff name text').0 e'), sym (some-injective (rw (e, e') at h)))
      | inr e' ↦ inr (rw (e, e') at h)
    ]
  ]
