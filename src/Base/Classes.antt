-- ===== src/Base/Classes.antt =====
-- Equality that Python's `==` and `in` decide, as an interface, and sets as lists of members.
use Prim.Native.Nat.{ℕ}
use mathlib.Core.Path.{◌≡◌, refl}
use mathlib.Core.Logic.{◌↔◌}
use mathlib.Core.Bool.{Bool, true, false, not, ◌&&◌, ◌||◌}
use mathlib.Core.List.{List, [], ◌∷◌, ◌++◌}
use native.Mathlib.Omega.{arith}
use tezcatlipoca.Base.Tests.{nat_beq, nat_beq_iff, if◌then◌else◌}

pub record Eq {ℓ} (A : Type ℓ) : Type ℓ where
  pub beq : A → A → Bool
  pub beq_iff : (a b : A) → (beq a b ≡ true) ↔ (a ≡ b)

instance abbrev pub nat_eq : Eq ℕ
nat_eq = record { beq = nat_beq; beq_iff = nat_beq_iff }

infix 50 ◌==◌
abbrev pub ◌==◌ {ℓ} : {A : Type ℓ} ⦃e : Eq A⦄ → A → A → Bool
◌==◌ ⦃e⦄ = e.beq

module _ {ℓ} {A : Type ℓ} ⦃e : Eq A⦄ where
  -- a in xs
  unfoldable pub contains : List A → A → Bool
  contains [] a = false
  contains (x ∷ xs) a = x == a || contains xs a

  -- set(xs) <= set(ys)
  unfoldable pub subset : List A → List A → Bool
  unfolding contains
  subset [] ys = true
  subset (x ∷ xs) ys = contains ys x && subset xs ys

  -- set(xs) - set(ys)
  unfoldable pub minus : List A → List A → List A
  unfolding contains
  minus [] ys = []
  minus (x ∷ xs) ys = let rest = minus xs ys in if contains ys x then rest else x ∷ rest

  pub beq_refl : (a : A) → (a == a) ≡ true
  beq_refl a = (e.beq_iff a a).1 refl

  pub contains_head : (a : A) (xs : List A) → contains (a ∷ xs) a ≡ true
  unfolding contains
  contains_head a xs = ground (arith, beq_refl a)

  pub contains_tail : (a x : A) (xs : List A) → contains xs a ≡ true → contains (x ∷ xs) a ≡ true
  unfolding contains
  contains_tail a x xs h = ground arith

  pub contains-append :
      (xs ys : List A) (a : A) → contains (xs ++ ys) a ≡ (contains xs a || contains ys a)
  unfolding contains
  contains-append [] ys a = refl
  contains-append (x ∷ xs) ys a = ground (arith, contains-append xs ys a)

  pub subset→contains :
      (xs ys : List A) (a : A) → subset xs ys ≡ true → contains xs a ≡ true → contains ys a ≡ true
  unfolding subset
  subset→contains [] ys a h m = ground arith
  subset→contains (x ∷ xs) ys a h m = ground (arith, subset→contains xs ys a, e.beq_iff x a)

  pub contains→subset :
      (xs ys : List A)
      → ((a : A) → contains xs a ≡ true → contains ys a ≡ true)
      → subset xs ys ≡ true
  unfolding subset
  contains→subset [] ys h = refl
  contains→subset (x ∷ xs) ys h =
      ground (
        arith,
        h x,
        contains_head x xs,
        contains→subset xs ys (λ a m. h a (contains_tail a x xs m)),
      )

  pub subset_refl : (xs : List A) → subset xs xs ≡ true
  subset_refl xs = contains→subset xs xs (λ a m. m)

  pub contains-minus :
      (xs ys : List A) (a : A) → contains (minus xs ys) a ≡ (contains xs a && not (contains ys a))
  unfolding minus
  contains-minus [] ys a = refl
  contains-minus (x ∷ xs) ys a = ground (arith, contains-minus xs ys a, e.beq_iff x a)

  pub minus-eq-nil : (xs ys : List A) → subset xs ys ≡ true → minus xs ys ≡ []
  unfolding subset minus
  minus-eq-nil [] ys h = refl
  minus-eq-nil (x ∷ xs) ys h = ground (arith, minus-eq-nil xs ys)
