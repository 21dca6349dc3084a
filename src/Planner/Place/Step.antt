-- ===== src/Planner/Place/Step.antt =====
-- multinode/placement_planner.py: a property that the loop of `compute_placement` keeps while it places
-- the teams, from the property of one round.
use tezcatlipoca.Base.{
  ℕ, Bool, true, false, ◌≡◌, refl, ◌⊎◌, inl, inr, none, some, List, [], ◌∷◌, ◌++◌, arith,
  if◌then◌else◌, All, keep, Text, text_eq, Bool-cases, Option-cases,
}
use tezcatlipoca.Base.Dict.{put}
use tezcatlipoca.Planner.{Node, Box, Probe, team_reservation_mb}
use tezcatlipoca.Planner.Place.{Ledger, least_by, reserve, eligible, roomier, place_on, place_team}

module _ {ℓ} {A : Type 0} where
  -- what holds of all that pass a test and of the members of a list holds of those kept
  pub keep-All :
      (P : A → Type ℓ) (test : A → Bool) (xs : List A)
      → All P xs
      → All (λ x. P x × (test x ≡ true)) (keep test xs)
  unfolding keep
  keep-All P test [] h = tt
  keep-All P test (x ∷ xs) h = elim (Bool-cases (test x)) [
    | inl e ↦ rw (e) ((h.0, e), keep-All P test xs h.1)
    | inr e ↦ rw (e) (keep-All P test xs h.1)
  ]

  pub least_by-All :
      (P : A → Type ℓ) (before : A → A → Bool) (xs : List A) (x : A)
      → All P xs
      → least_by before xs ≡ some x
      → P x
  unfolding least_by
  least_by-All P before [] x h e = cc
  least_by-All P before (y ∷ ys) x h e = elim (Option-cases (least_by before ys)) [
    | inl f ↦ let q : some y ≡ some x = rw (least_by, f) at e in ground (arith, h.0)
    | inr (z, f) ↦
        let q : some (if before z y then z else y) ≡ some x = rw (least_by, f) at e in
        ground (arith, h.0, least_by-All P before ys z h.1 f)
  ]

pub keep-eq-nil :
    {A : Type 0} (test : A → Bool) (xs : List A) → keep test xs ≡ [] → All (λ x. test x ≡ false) xs
unfolding keep
keep-eq-nil test [] h = tt
keep-eq-nil test (x ∷ xs) h = elim (Bool-cases (test x)) [
  | inl e ↦ let q = rw (keep, e) at h in cc
  | inr e ↦ (e, keep-eq-nil test xs (rw (keep, e) at h))
]

pub least_by-eq-none :
    {A : Type 0} (before : A → A → Bool) (xs : List A) → least_by before xs ≡ none → xs ≡ []
unfolding least_by
least_by-eq-none before [] h = refl
least_by-eq-none before (x ∷ xs) h = elim (Option-cases (least_by before xs)) [
  | inl e ↦ let q = rw (least_by, e) at h in cc
  | inr (y, e) ↦ let q = rw (least_by, e) at h in cc
]

module _ {W F : Type 0} (scaled : ℕ → ℕ → W → F) (float_ltb : F → F → Bool) where
  module _ (records : List (Node W)) (prefer : List Text) (boxes : List Box)
      (probes : Text → Probe) where
    -- A round either skips the team, where no node may take it, or places it on a node that may.
    pub place_team-cases :
        (P : Node W → Type 0) (key : Text) (l : Ledger)
        → All P records
        → ((place_team scaled float_ltb records prefer boxes probes key l
              ≡ record l { skipped = l.skipped ++ key ∷ [] })
            × All (λ r. eligible boxes probes l.placed r ≡ false) records)
          ⊎ ((r : Node W) × P r
              × (eligible boxes probes l.placed r ≡ true)
              × (place_team scaled float_ltb records prefer boxes probes key l ≡ record l {
                placed = put key r.name l.placed;
                reserved = reserve r.name (team_reservation_mb boxes) l.reserved;
              }))
    unfolding place_team place_on
    place_team-cases P key l h =
        let before = roomier scaled float_ltb records prefer boxes probes l.reserved in
        let test = eligible boxes probes l.placed in
        elim (Option-cases (least_by before (keep test records))) [
          | inl e ↦
              inl (rw (place_team, e) refl, keep-eq-nil test records (least_by-eq-none before _ e))
          | inr (r, e) ↦
              let both =
                least_by-All (λ x. P x × (test x ≡ true)) before _ r (keep-All P test records h)
                  e in
              inr (r, both.0, both.1, rw (place_team, e) refl)
        ]
