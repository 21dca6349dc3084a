-- ===== src/Planner/Place/Entries.antt =====
-- multinode/placement_planner.py: the entries of a dict of teams, and the members of the lists of
-- `compute_placement` that pass a test.
use tezcatlipoca.Base.{
  Bool, true, false, ◌≡◌, refl, ap, inl, inr, none, some, List, [], ◌∷◌, ◌++◌, map, arith, All,
  All-map, any, keep, is_empty, contains, Text, text_beq, text_beq_iff, text_eq, Bool-cases,
  Option-cases,
}
use tezcatlipoca.Base.Dict.{lookup, keys}
use tezcatlipoca.Planner.Place.{TeamNodes}
use tezcatlipoca.Planner.Place.Overrides.{contains-lookup}

pub member-any :
    {A : Type 0} (f : A → A → Bool) (xs : List A) → All (λ x. f x x ≡ true → any (f x) xs ≡ true) xs
unfolding any
member-any f [] = tt
member-any f (x ∷ xs) =
    ((λ h. ground arith), All-map _ _ (λ y g h. ground (arith, g h)) xs (member-any f xs))

pub is_empty-append : {A : Type 0} (xs : List A) (x : A) → is_empty (xs ++ x ∷ []) ≡ false
is_empty-append [] x = refl
is_empty-append (y ∷ xs) x = refl

pub keep-then :
    {A : Type 0} (P : A → Type 0) (test : A → Bool) (xs : List A)
    → All P (keep test xs)
    → All (λ x. test x ≡ true → P x) xs
unfolding keep
keep-then P test [] h = tt
keep-then P test (x ∷ xs) h = elim (Bool-cases (test x)) [
  | inl e ↦ let both = rw (keep, e) at h in ((λ g. both.0), keep-then P test xs both.1)
  | inr e ↦ ((λ g. let q = e in cc), keep-then P test xs (rw (keep, e) at h))
]

pub contains-keep :
    (test : Text → Bool) (xs : List Text) (x : Text)
    → test x ≡ false
    → contains (keep test xs) x ≡ false
unfolding keep contains
contains-keep test [] x h = refl
contains-keep test (y ∷ ys) x h = elim (Bool-cases (text_beq y x)) [
  | inl e ↦
      let same = ap test ((text_beq_iff y x).0 e) in ground (arith, contains-keep test ys x h, same)
  | inr e ↦ ground (arith, contains-keep test ys x h)
]

pub All-unmap :
    {A B : Type 0} (P : B → Type 0) (f : A → B) (xs : List A)
    → All P (map f xs)
    → All (λ x. P (f x)) xs
All-unmap P f [] h = tt
All-unmap P f (x ∷ xs) h = (h.0, All-unmap P f xs h.1)

pub has-value :
    (k : Text) (d : TeamNodes) → contains (keys d) k ≡ true → (n : Text) × (lookup k d ≡ some n)
has-value k d h = elim (Option-cases (lookup k d)) [
  | inl e ↦ let q = contains-lookup k d e in cc
  | inr some_n ↦ some_n
]

pub has-no-value : (k : Text) (d : TeamNodes) → contains (keys d) k ≡ false → lookup k d ≡ none
unfolding contains lookup
has-no-value k [] h = refl
has-no-value k ((j, w) ∷ d) h = ground (arith, has-no-value k d)
