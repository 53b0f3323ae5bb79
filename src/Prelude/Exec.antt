-- ===== src/Prelude/Exec.antt =====
-- Calls that act on a state: the state comes back in every case, since what was done before an
-- error or a panic stays done.
use mathlib.Core.Path.{◌≡◌, refl, ap, ap₂, ◌∙◌}
use covenant.Prelude.Results.{Error, Outcome, ok, err, panic, running, map_err, map_err-eq-ok}

abbrev pub Exec {ℓ κ} : Type ℓ → Type κ → Type (ℓ ⊔ κ)
Exec S A = S → Outcome A × S

module _ {ℓ κ} {S : Type ℓ} {A : Type κ} where
  abbrev pub pure : A → Exec S A
  pure a s = (ok a, s)

  abbrev pub lift : Outcome A → Exec S A
  lift r s = (r, s)

  abbrev pub wrap : (Error → Error) → Exec S A → Exec S A
  wrap f m s = let (r, s') = m s in (map_err f r, s')

module _ {ℓ κ ι} {S : Type ℓ} {A : Type κ} {B : Type ι} where
  abbrev pub continue : Outcome A → (A → Exec S B) → Exec S B
  continue (ok a) f s = f a s
  continue (err e) f s = (err e, s)
  continue (panic p) f s = (panic p, s)
  continue running f s = (running, s)

  infixl 5 ◌>>=◌
  abbrev pub ◌>>=◌ : Exec S A → (A → Exec S B) → Exec S B
  ◌>>=◌ m f s = let (r, s') = m s in continue r f s'

module _ {ℓ κ ι} {S : Type ℓ} {A : Type κ} {B : Type ι} where
  pub continue-eq-ok :
      (r : Outcome A) (f : A → Exec S B) (s : S) {b : B} {t : S}
      → continue r f s ≡ (ok b, t)
      → (a : A) × (r ≡ ok a) × (f a s ≡ (ok b, t))
  continue-eq-ok (ok a) f s h = (a, refl, h)
  continue-eq-ok (err e) f s h = cc
  continue-eq-ok (panic p) f s h = cc
  continue-eq-ok running f s h = cc

  -- Inversion of a block that returned a value.
  pub bind-eq-ok :
      (m : Exec S A) (f : A → Exec S B) (s : S) {b : B} {t : S}
      → (m >>= f) s ≡ (ok b, t)
      → (a : A) × (u : S) × (m s ≡ (ok a, u)) × (f a u ≡ (ok b, t))
  bind-eq-ok m f s h =
      let (r, u) = m s in let (a, e, k) = continue-eq-ok r f u h in (a, u, ap (λ x. (x, u)) e, k)

pub wrap-eq-ok {ℓ κ} :
    {S : Type ℓ} {A : Type κ} (f : Error → Error) (m : Exec S A) (s : S) {a : A} {t : S}
    → wrap f m s ≡ (ok a, t)
    → m s ≡ (ok a, t)
wrap-eq-ok f m s h =
    let (r, u) = m s in ap₂ (λ x y. (x, y)) (map_err-eq-ok f r (ap (λ x. x.0) h)) (ap (λ x. x.1) h)

-- Every run of `m` moves the state along `R`, also when it fails.
abbrev pub Moves {ℓ κ} : {S : Type ℓ} {A : Type κ} → (S → S → Type 0) → Exec S A → Type ℓ
Moves {S} R m = (s : S) → R s (m s).1

module _ {ℓ κ ι} {S : Type ℓ} {A : Type κ} {B : Type ι} (R : S → S → Type 0)
    (stay : (s : S) → R s s) (join : (s t u : S) → R s t → R t u → R s u) where
  Moves-continue :
      (r : Outcome A) (f : A → Exec S B) → ((a : A) → Moves R (f a)) → Moves R (continue r f)
  Moves-continue (ok a) f h s = h a s
  Moves-continue (err e) f h s = stay s
  Moves-continue (panic p) f h s = stay s
  Moves-continue running f h s = stay s

  pub Moves-bind :
      (m : Exec S A) (f : A → Exec S B) → Moves R m → ((a : A) → Moves R (f a)) → Moves R (m >>= f)
  Moves-bind m f h k s =
      let (r, u) = m s in join s u (continue r f u).1 (h s) (Moves-continue r f k u)

  -- The rest of the block may use that `r` returned a value.
  pub Moves-lift :
      (r : Outcome A) (f : A → Exec S B) (s : S)
      → ((a : A) → r ≡ ok a → R s (f a s).1)
      → R s ((lift r >>= f) s).1
  Moves-lift (ok a) f s h = h a refl
  Moves-lift (err e) f s h = stay s
  Moves-lift (panic p) f s h = stay s
  Moves-lift running f s h = stay s

-- A block that ends in `pure` leaves the state where its first call left it.
module _ {ℓ κ ι} {S : Type ℓ} {A : Type κ} {B : Type ι} (g : A → B) where
  continue-pure : (r : Outcome A) (s : S) → (continue r (λ a. pure (g a)) s).1 ≡ s
  continue-pure (ok a) s = refl
  continue-pure (err e) s = refl
  continue-pure (panic p) s = refl
  continue-pure running s = refl

  pub bind_pure : (m : Exec S A) (s : S) → ((m >>= λ a. pure (g a)) s).1 ≡ (m s).1
  bind_pure m s = let (r, u) = m s in continue-pure r u

-- A block whose rest leaves the state alone.
module _ {ℓ κ ι} {S : Type ℓ} {A : Type κ} {B : Type ι} (f : A → Exec S B) where
  continue_still : (r : Outcome A) (s : S) → ((a : A) → (f a s).1 ≡ s) → (continue r f s).1 ≡ s
  continue_still (ok a) s h = h a
  continue_still (err e) s h = refl
  continue_still (panic p) s h = refl
  continue_still running s h = refl

  pub bind_still :
      (m : Exec S A) (s : S) → ((a : A) (t : S) → (f a t).1 ≡ t) → ((m >>= f) s).1 ≡ (m s).1
  bind_still m s h = let (r, t) = m s in continue_still r t (λ a. h a t)

-- Every run of `m` returns a value.
abbrev pub Returns {ℓ κ} : {S : Type ℓ} {A : Type κ} → Exec S A → Type (ℓ ⊔ κ)
Returns {S} {A} m = (s : S) → (a : A) × (t : S) × (m s ≡ (ok a, t))

pub bind-Returns {ℓ κ ι} :
    {S : Type ℓ} {A : Type κ} {B : Type ι} (m : Exec S A) (f : A → Exec S B)
    → Returns m
    → ((a : A) → Returns (f a))
    → Returns (m >>= f)
bind-Returns m f h k s =
    let (a, t, e) = h s in let (b, u, d) = k a t in (b, u, ap (λ x. continue x.0 f x.1) e ∙ d)
