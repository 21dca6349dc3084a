-- ===== src/Base/Actions.antt =====
-- Methods that change a world and may raise. What was changed before the raise stays changed.
use mathlib.Core.Path.{◌≡◌, refl}
use mathlib.Core.Logic.{◌⊎◌, inl, inr}

-- `ok a` returns, `err e` raises.
pub data Result {ℓ κ} (E : Type ℓ) (A : Type κ) : Type (ℓ ⊔ κ) where
  ok : A → Result E A
  err : E → Result E A

pub Result-cases {ℓ κ} :
    {E : Type ℓ} {A : Type κ} (r : Result E A) → ((a : A) × (r ≡ ok a)) ⊎ ((e : E) × (r ≡ err e))
Result-cases (ok a) = inl (a, refl)
Result-cases (err e) = inr (e, refl)

abbrev pub Act {ℓ} : Type 0 → Type ℓ → Type 0 → Type ℓ
Act E W A = W → Result E A × W

module _ {ℓ} {W : Type ℓ} {E : Type 0} where
  abbrev pub pure : {A : Type 0} → A → Act E W A
  pure a w = (ok a, w)

  abbrev pub raise : {A : Type 0} → E → Act E W A
  raise e w = (err e, w)

  abbrev pub continue : {A B : Type 0} → Result E A → (A → Act E W B) → Act E W B
  continue (ok a) f w = f a w
  continue (err e) f w = (err e, w)

  infixl 10 ◌>>=◌ ◌>>◌
  abbrev pub ◌>>=◌ : {A B : Type 0} → Act E W A → (A → Act E W B) → Act E W B
  ◌>>=◌ m f w = continue (m w).0 f (m w).1

  abbrev pub ◌>>◌ : {B : Type 0} → Act E W (Unit {0}) → Act E W B → Act E W B
  ◌>>◌ m k w = continue (m w).0 (λ _. k) (m w).1

  -- A block that returns has returned from each part.
  pub continue-eq-ok :
      {A B : Type 0} (r : Result E A) (w : W) (f : A → Act E W B) {b : B}
      → (continue r f w).0 ≡ ok b
      → (a : A) × (r ≡ ok a) × ((f a w).0 ≡ ok b) × ((continue r f w).1 ≡ (f a w).1)
  continue-eq-ok (ok a) w f h = (a, refl, h, refl)
  continue-eq-ok (err e) w f h = cc
