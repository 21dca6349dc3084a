-- ===== src/Preflight/Numerals.antt =====
-- Python's str on natural numbers, which writes vmids and addresses: the fuel is enough.
use tezcatlipoca.Base.{
  ℕ, zero, suc, ◌+◌, ◌-◌, ◌*◌, ◌/◌, ◌%◌, ◌<◌, ◌≡◌, refl, inl, inr, [], ◌∷◌, ◌++◌, arith, ltb, Text,
  Bool-cases,
}
use tezcatlipoca.Preflight.{digits, numeral}

-- the number that decimal digits stand for, after those read so far
value_from : ℕ → Text → ℕ
value_from n [] = n
value_from n (c ∷ s) = value_from (n * 10 + (c - 48)) s

pub value : Text → ℕ
unfolding value_from
value = value_from 0

value_from-append :
    (n : ℕ) (s : Text) (c : ℕ) → value_from n (s ++ c ∷ []) ≡ value_from n s * 10 + (c - 48)
unfolding value_from
value_from-append n [] c = refl
value_from-append n (d ∷ s) c = value_from-append (n * 10 + (d - 48)) s c

digits_enough : (f g n : ℕ) → n < f → n < g → digits f n ≡ digits g n
unfolding digits
digits_enough zero g n h k = absurd (omega arith)
digits_enough (suc f) zero n h k = absurd (omega arith)
digits_enough (suc f) (suc g) n h k = elim (Bool-cases (ltb n 10)) [
  | inl e ↦ rw (digits, e) refl
  | inr e ↦
      let same = digits_enough f g (n / 10) (ground arith) (ground arith) in
      rw (digits, e, same) refl
]

value-digits : (f n : ℕ) → n < f → value (digits f n) ≡ n
unfolding digits value value_from
value-digits zero n h = absurd (omega arith)
value-digits (suc f) n h = elim (Bool-cases (ltb n 10)) [
  | inl e ↦ rw (digits, e) (omega arith)
  | inr e ↦
      let rest = value-digits f (n / 10) (ground arith) in
      rw (digits, e) (ground (arith, value_from-append 0 (digits f (n / 10)) (48 + n % 10), rest))
]

-- For each number and any fuel above it the loop that writes its digits ends with what `numeral`
-- gives, and those digits are read back as the number.
pub digits_lem : (f n : ℕ) → n < f → (digits f n ≡ numeral n) × (value (digits f n) ≡ n)
unfolding numeral
digits_lem f n h = (digits_enough f (suc n) n h (omega arith), value-digits f n h)
