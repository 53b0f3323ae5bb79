-- ===== src/Prelude/Results.antt =====
-- What a Go call does: it returns a value, returns an error, panics, or is still running when the
-- fuel of the model ends. A call that acts on the world passes the world on in each case.
use Prim.Native.Nat.{ℕ}
use Prim.Native.String.{String}
use mathlib.Core.Path.{◌≡◌, refl, subst}
use covenant.Prelude.Lists.{All₂}
use mathlib.Core.Option.{Option, none, some}
use mathlib.Core.List.{List, [], ◌∷◌}

-- `library` is an error of a package that is not part of the repository; the others are made by
-- `fmt.Errorf`, with the operands of the format string.
pub data Error : Type 0 where
  library : String → Error
  errorf : String → Error
  errorf_text : String → String → Error
  errorf_texts : String → String → String → Error
  errorf_nums : String → ℕ → ℕ → Error
  wrapf : String → Error → Error
  wrapf_text : String → String → Error → Error

pub data Panic : Type 0 where
  nil_dereference index_out_of_range : Panic
  panic_with : Error → Panic

pub data Outcome {ℓ} (A : Type ℓ) : Type ℓ where
  ok : A → Outcome A
  err : Error → Outcome A
  panic : Panic → Outcome A
  running : Outcome A

-- The first call that does not return a value ends the block.
infixl 5 ◌>>=◌ ◌>>◌
abbrev pub ◌>>=◌ {ℓ κ} : {A : Type ℓ} {B : Type κ} → Outcome A → (A → Outcome B) → Outcome B
ok a >>= f = f a
err e >>= f = err e
panic p >>= f = panic p
running >>= f = running

abbrev pub ◌>>◌ {ℓ} : {B : Type ℓ} → Outcome (Unit {0}) → Outcome B → Outcome B
m >> k = m >>= λ _. k

-- `if err != nil { return nil, fmt.Errorf(f, err) }`
abbrev pub map_err {ℓ} : {A : Type ℓ} → (Error → Error) → Outcome A → Outcome A
map_err f (ok a) = ok a
map_err f (err e) = err (f e)
map_err f (panic p) = panic p
map_err f running = running

-- A pointer that is followed.
abbrev pub deref {ℓ} : {A : Type ℓ} → Option A → Outcome A
deref none = panic nil_dereference
deref (some a) = ok a

pub deref-eq-ok {ℓ} : {A : Type ℓ} (o : Option A) {a : A} → deref o ≡ ok a → o ≡ some a
deref-eq-ok none h = cc
deref-eq-ok (some x) h = cc

-- `append(out, f(x))` for each `x`, left at the first call that fails.
unfoldable pub traverse {ℓ κ} :
    {A : Type ℓ} {B : Type κ} → (A → Outcome B) → List A → Outcome (List B)
traverse f [] = ok []
traverse f (x ∷ xs) = do y ← f x; ys ← traverse f xs; ok (y ∷ ys)

-- Inversion of a block that returned a value: the first call returned one, and so did the rest.
module _ {ℓ κ} {A : Type ℓ} {B : Type κ} where
  pub bind-eq-ok :
      (first : Outcome A) (rest : A → Outcome B) {result : B}
      → (first >>= rest) ≡ ok result
      → (value : A) × (first ≡ ok value) × (rest value ≡ ok result)
  bind-eq-ok running rest e = cc
  bind-eq-ok (panic p) rest e = cc
  bind-eq-ok (err x) rest e = cc
  bind-eq-ok (ok value) rest e = (value, refl, e)

pub ok-injective {ℓ} : {A : Type ℓ} {a b : A} → ok a ≡ ok b → a ≡ b
ok-injective h = cc

pub map_err-eq-ok {ℓ} :
    {A : Type ℓ} (f : Error → Error) (m : Outcome A) {a : A} → map_err f m ≡ ok a → m ≡ ok a
map_err-eq-ok f (ok x) h = h
map_err-eq-ok f (err e) h = cc
map_err-eq-ok f (panic p) h = cc
map_err-eq-ok f running h = cc

module _ {ℓ} {A : Type ℓ} {B : Type 0} (f : A → Outcome B) where
  pub traverse-All₂ :
      (xs : List A) (ys : List B) → traverse f xs ≡ ok ys → All₂ (λ x y. f x ≡ ok y) xs ys
  unfolding traverse
  traverse-All₂ [] ys h = subst (All₂ (λ x y. f x ≡ ok y) []) (ok-injective h) tt
  traverse-All₂ (x ∷ xs) ys h =
      let (y, e, h1) = bind-eq-ok (f x) _ h in
      let (zs, k, h2) = bind-eq-ok (traverse f xs) _ h1 in
      subst (All₂ (λ x y. f x ≡ ok y) (x ∷ xs)) (ok-injective h2) (e, traverse-All₂ xs zs k)

  pub All₂-traverse :
      (xs : List A) (ys : List B) → All₂ (λ x y. f x ≡ ok y) xs ys → traverse f xs ≡ ok ys
  unfolding traverse
  All₂-traverse [] [] h = refl
  All₂-traverse [] (y ∷ ys) h = absurd h
  All₂-traverse (x ∷ xs) [] h = absurd h
  All₂-traverse (x ∷ xs) (y ∷ ys) h = rw (h.0, All₂-traverse xs ys h.1)

-- The outcome is not an error.
abbrev pub NoError {ℓ} : {A : Type ℓ} → Outcome A → Type 0
NoError (ok a) = Unit
NoError (err e) = ⊥
NoError (panic p) = Unit
NoError running = Unit

module _ {ℓ κ} {A : Type ℓ} {B : Type κ} where
  pub NoError-bind :
      (r : Outcome A) (f : A → Outcome B)
      → NoError r
      → ((a : A) → NoError (f a))
      → NoError (r >>= f)
  NoError-bind (ok a) f h k = k a
  NoError-bind (err e) f h k = h
  NoError-bind (panic p) f h k = tt
  NoError-bind running f h k = tt
