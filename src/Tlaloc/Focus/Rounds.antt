-- ===== src/Tlaloc/Focus/Rounds.antt =====
-- tlaloc/tlaloc/policy.py: each team in the bag comes into focus.
use tezcatlipoca.Base.{
  ℕ, suc, ◌+◌, ◌≤◌, ◌≡◌, refl, ap, inl, inr, Bool, true, false, not, ◌&&◌, none, some, List, [],
  ◌∷◌, arith, keep, contains, is_empty, length, Text, text_beq, text_beq_iff, text_eq, Bool-cases,
}
use tezcatlipoca.Tlaloc.Focus.{
  Meta, is_current, without, or_all, refilled, is_due, is_stale_focus, left_in_bag, drawn, refocus,
}

contains-keep :
    (test : Text → Bool) (xs : List Text) (x : Text)
    → contains (keep test xs) x ≡ (contains xs x && test x)
unfolding keep contains
contains-keep test [] x = refl
contains-keep test (y ∷ ys) x = elim (Bool-cases (text_beq y x)) [
  | inl e ↦
      let same = ap test ((text_beq_iff y x).0 e) in ground (arith, contains-keep test ys x, same)
  | inr e ↦ ground (arith, contains-keep test ys x)
]

keep_shorter : (test : Text → Bool) (xs : List Text) → length (keep test xs) ≤ length xs
unfolding keep
keep_shorter test [] = omega arith
keep_shorter test (x ∷ xs) = ground (arith, keep_shorter test xs)

-- dropping a member makes a list shorter
without_shorter :
    (c : Text) (xs : List Text)
    → contains xs c ≡ true
    → suc (length (without (some c) xs)) ≤ length xs
unfolding without keep contains is_current
without_shorter c [] h = cc
without_shorter c (x ∷ xs) h =
    ground
      (arith, without_shorter c xs, keep_shorter (λ t. not (text_beq t c)) xs, text_beq_iff x c)

differs :
    (c t : Text) (teams : List Text)
    → contains (without (some c) teams) t ≡ true
    → text_beq t c ≡ false
unfolding without is_current
differs c t teams h = ground (arith, contains-keep (λ x. not (text_beq x c)) teams t)

-- what `choice` draws from a list is in it
unfoldable pub IsChoice : (List Text → Text) → Type 0
IsChoice choose = (xs : List Text) → is_empty xs ≡ false → contains xs (choose xs) ≡ true

-- one call: what is drawn, and when
abbrev pub Call : Type 0
Call = (List Text → Text) × ℕ

module _ (teams : List Text) (rotate_after : ℕ) where
  -- each call comes at least the time of a rotation after the one before
  unfoldable pub Spaced : ℕ → List Call → Type 0
  Spaced since [] = Unit
  Spaced since ((choose, now) ∷ calls) =
      IsChoice choose × (since + rotate_after ≤ now) × Spaced now calls

  -- the teams that come into focus
  unfoldable pub focused : Meta → List Call → List Text
  unfolding refocus
  focused m [] = []
  focused m ((choose, now) ∷ calls) =
      let rest = focused (refocus teams rotate_after choose now m) calls in
      elim (refocus teams rotate_after choose now m).focused_team [
        | none ↦ rest
        | some t ↦ t ∷ rest
      ]

  has_member : (xs : List Text) (t : Text) → contains xs t ≡ true → is_empty xs ≡ false
  unfolding contains
  has_member [] t h = cc
  has_member (x ∷ xs) t h = refl

  no_member : (xs : List Text) (t : Text) → length xs ≤ 0 → contains xs t ≡ true → ⊥
  unfolding contains
  no_member [] t e h = cc
  no_member (x ∷ xs) t e h = omega arith

  or_all-left : (xs ys : List Text) → is_empty xs ≡ false → or_all xs ys ≡ xs
  unfolding or_all
  or_all-left [] ys h = cc
  or_all-left (x ∷ xs) ys h = refl

  refocus_late :
      (choose : List Text → Text) (now : ℕ) (m : Meta)
      → m.focus_since + rotate_after ≤ now
      → is_empty (left_in_bag teams m) ≡ false
      → refocus teams rotate_after choose now m
        ≡ drawn now (choose (left_in_bag teams m)) (left_in_bag teams m)
  unfolding refocus is_due is_stale_focus refilled
  refocus_late choose now m late full =
      let due : is_due teams rotate_after now m ≡ true = ground arith in
      let same : refilled teams m ≡ left_in_bag teams m =
        or_all-left (left_in_bag teams m) _ full in
      rw (refocus, due, same) refl

  left_after :
      (now : ℕ) (c : Text) (m : Meta) (t : Text)
      → text_beq t c ≡ false
      → contains (left_in_bag teams m) t ≡ true
      → contains (left_in_bag teams (drawn now c (left_in_bag teams m))) t ≡ true
  unfolding left_in_bag drawn without is_current
  left_after now c m t other h =
      let bag = left_in_bag teams m in
      let keeps : Text → Bool = λ x. not (is_current (some c) x) in
      ground (
        arith,
        contains-keep keeps (keep (contains teams) (without (some c) bag)) t,
        contains-keep (contains teams) (without (some c) bag) t,
        contains-keep keeps bag t,
        contains-keep (λ x. not (is_current m.focused_team x)) (keep (contains teams) m.focus_bag)
            t,
        contains-keep (contains teams) m.focus_bag t,
      )

  left_shorter :
      (now : ℕ) (c : Text) (m : Meta)
      → contains (left_in_bag teams m) c ≡ true
      → suc (length (left_in_bag teams (drawn now c (left_in_bag teams m))))
        ≤ length (left_in_bag teams m)
  unfolding left_in_bag drawn without
  left_shorter now c m h =
      let bag = left_in_bag teams m in
      let keeps : Text → Bool = λ x. not (is_current (some c) x) in
      ground (
        arith,
        keep_shorter keeps (keep (contains teams) (without (some c) bag)),
        keep_shorter (contains teams) (without (some c) bag),
        without_shorter c bag h,
      )

  -- Teams that are left in the bag come into focus within as many calls as the bag has teams left,
  -- when each call comes at least the time of a rotation after the one before and draws from the
  -- list that it is given.
  pub refocus-focused :
      (calls : List Call) (m : Meta) (t : Text)
      → Spaced m.focus_since calls
      → length (left_in_bag teams m) ≤ length calls
      → contains (left_in_bag teams m) t ≡ true
      → contains (focused m calls) t ≡ true
  unfolding focused Spaced drawn contains IsChoice
  refocus-focused [] m t spaced enough h = absurd (no_member (left_in_bag teams m) t enough h)
  refocus-focused ((choose, now) ∷ calls) m t spaced enough h =
      let bag = left_in_bag teams m in
      let full = has_member bag t h in
      let c = choose bag in
      let step = refocus_late choose now m spaced.1 full in
      let member = spaced.0 bag full in
      let drawn_first : focused m ((choose, now) ∷ calls) ≡ c ∷ focused (drawn now c bag) calls =
        ap (λ m'. elim m'.focused_team [ none ↦ focused m' calls | some u ↦ u ∷ focused m' calls ])
          step in
      elim (Bool-cases (text_beq t c)) [
        | inl e ↦ rw drawn_first (ground (arith, text_beq_iff t c, text_beq_iff c t))
        | inr e ↦
            let rest =
              refocus-focused calls (drawn now c bag) t spaced.2
                (ground (arith, left_shorter now c m member)) (left_after now c m t e h) in
            rw drawn_first (ground (arith, rest))
      ]

  -- When no other team is left in the bag and there is another team, a call that draws from the list
  -- that it is given puts another team into focus, however short the time since the last one was.
  pub refocus_empty_bag :
      (choose : List Text → Text) (now : ℕ) (m : Meta) (current : Text)
      → IsChoice choose
      → m.focused_team ≡ some current
      → left_in_bag teams m ≡ []
      → is_empty (without (some current) teams) ≡ false
      → (t : Text) × ((refocus teams rotate_after choose now m).focused_team ≡ some t)
        × (text_beq t current ≡ false)
  unfolding refocus is_due refilled drawn IsChoice
  refocus_empty_bag choose now m current draws here left others =
      let due : is_due teams rotate_after now m ≡ true = rw (is_due, left) (ground arith) in
      let bag = without (some current) teams in
      let same : refilled teams m ≡ bag =
        rw (refilled, left, here) (or_all-left bag teams others) in
      let t = choose bag in
      (t, rw (refocus, due, same) refl, differs current t teams (draws bag others))
