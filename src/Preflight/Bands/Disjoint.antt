-- ===== src/Preflight/Bands/Disjoint.antt =====
-- `check_placement` decides that the run's own bands are disjoint.
use tezcatlipoca.Base.{
  ℕ, Bool, true, false, ◌||◌, ◌==◌, nat_beq_iff, beq_refl, All-map, All-zip, ◌≡◌, ◌⊎◌, refl, ◌↔◌,
  none, some, List, [], ◌∷◌, arith, contains, nat_beq, All, Text, nat_eq, text_eq, Option-cases,
  Bool-cases, inl, inr,
}
use tezcatlipoca.Base.Actions.{Result, ok, err}
use tezcatlipoca.Base.Dict.{lookup}
use tezcatlipoca.Vmids.{Placement, reserved_vmids, BlockClash, check_team_blocks}
use tezcatlipoca.Vmids.Blocks.{IsFree, check_team_blocks_iff}
use tezcatlipoca.Preflight.Bands.{
  Inconsistent, distinct, bands, claim_band, claim_bands, then_blocks, check_placement,
}

-- no two of the bands share a vmid
abbrev pub Disjoint : List (Text × List ℕ) → Type 0
Disjoint [] = Unit
Disjoint ((name, band) ∷ rest) =
    All (λ other. (v : ℕ) → contains band v ≡ true → contains other.1 v ≡ false) rest
    × Disjoint rest

unfoldable marked : List (ℕ × Text) → ℕ → Bool
unfolding lookup
marked seen v = elim (lookup v seen) [ none ↦ false | some name ↦ true ]

marked-cons :
    (v w : ℕ) (name : Text) (seen : List (ℕ × Text))
    → marked ((v, name) ∷ seen) w ≡ (v == w || marked seen w)
unfolding marked
marked-cons v w name seen = elim (Bool-cases (v == w)) [
  | inl e ↦ rw (marked, lookup, e) refl
  | inr e ↦ rw (marked, lookup, e) refl
]

contains-distinct : (vs : List ℕ) (v : ℕ) → contains (distinct vs) v ≡ contains vs v
unfolding distinct contains
contains-distinct [] v = refl
contains-distinct (w ∷ vs) v =
    ground (arith, contains-distinct vs v, contains-distinct vs w, nat_beq_iff w v)

-- no member is in the rest
abbrev Different : List ℕ → Type 0
Different [] = Unit
Different (v ∷ vs) = (contains vs v ≡ false) × Different vs

distinct-Different : (vs : List ℕ) → Different (distinct vs)
unfolding distinct
distinct-Different [] = tt
distinct-Different (v ∷ vs) = elim (Bool-cases (contains (distinct vs) v)) [
  | inl e ↦ rw e (distinct-Different vs)
  | inr e ↦ rw e (e, distinct-Different vs)
]

-- no vmid of the band was claimed before
abbrev Fresh : List (ℕ × Text) → List ℕ → Type 0
Fresh seen band = (v : ℕ) → contains band v ≡ true → marked seen v ≡ false

claim_band-marked :
    (seen : List (ℕ × Text)) (name : Text) (vs : List ℕ) (seen' : List (ℕ × Text)) (w : ℕ)
    → claim_band seen name vs ≡ ok seen'
    → marked seen' w ≡ (contains vs w || marked seen w)
unfolding claim_band contains
claim_band-marked seen name [] seen' w e = let q : seen ≡ seen' = cc in rw q refl
claim_band-marked seen name (v ∷ vs) seen' w e = elim (Option-cases (lookup v seen)) [
  | inl new ↦
      let rest = claim_band-marked ((v, name) ∷ seen) name vs seen' w (rw (new, claim_band) at e) in
      ground (arith, rest, marked-cons v w name seen)
  | inr old ↦ let q = rw (old.1, claim_band) at e in cc
]

claim_band-Fresh :
    (seen : List (ℕ × Text)) (name : Text) (vs : List ℕ) (seen' : List (ℕ × Text))
    → claim_band seen name vs ≡ ok seen'
    → Fresh seen vs
unfolding claim_band contains marked
claim_band-Fresh seen name [] seen' e w m = cc
claim_band-Fresh seen name (v ∷ vs) seen' e w m = elim (Option-cases (lookup v seen)) [
  | inl new ↦
      let rest = claim_band-Fresh ((v, name) ∷ seen) name vs seen' (rw (new, claim_band) at e) w in
      ground (arith, rest, marked-cons v w name seen, nat_beq_iff v w)
  | inr old ↦ let q = rw (old.1, claim_band) at e in cc
]

Fresh-claim_band :
    (seen : List (ℕ × Text)) (name : Text) (vs : List ℕ)
    → Fresh seen vs
    → Different vs
    → (seen' : List (ℕ × Text)) × (claim_band seen name vs ≡ ok seen')
unfolding claim_band contains marked
Fresh-claim_band seen name [] fresh d = (seen, refl)
Fresh-claim_band seen name (v ∷ vs) fresh d = elim (Option-cases (lookup v seen)) [
  | inl new ↦
      rw (new, claim_band)
        (Fresh-claim_band ((v, name) ∷ seen) name vs
          (λ w m. ground (arith, marked-cons v w name seen, fresh w, nat_beq_iff v w)) d.1)
  | inr old ↦
      let h = fresh v (ground (arith, beq_refl v)) in
      let q : true ≡ false = rw (marked, old.1) at h in cc
]

abbrev AllFresh : List (ℕ × Text) → List (Text × List ℕ) → Type 0
AllFresh seen bands = All (λ b. Fresh seen b.1) bands

Result-cases : {A E : Type 0} (r : Result E A) → ((a : A) × (r ≡ ok a)) ⊎ ((e : E) × (r ≡ err e))
Result-cases (ok a) = inl (a, refl)
Result-cases (err e) = inr (e, refl)

claim_bands-AllFresh :
    (seen : List (ℕ × Text)) (bands : List (Text × List ℕ))
    → claim_bands seen bands ≡ ok tt
    → AllFresh seen bands × Disjoint bands
unfolding claim_bands
claim_bands-AllFresh seen [] h = (tt, tt)
claim_bands-AllFresh seen ((name, band) ∷ rest) h =
    elim (Result-cases (claim_band seen name (distinct band))) [
      | inl done ↦
          let ih = claim_bands-AllFresh done.0 rest (rw (done.1, claim_bands) at h) in
          let new : Fresh seen band = λ v m.
            claim_band-Fresh seen name (distinct band) done.0 done.1 v
              (ground (arith, contains-distinct band v)) in
          let seen_after : (v : ℕ)
              → marked done.0 v ≡ (contains (distinct band) v || marked seen v) =
            λ v. claim_band-marked seen name (distinct band) done.0 v done.1 in
          (
            (new, All-map _ _ (λ b f v m. ground (arith, f v m, seen_after v)) rest ih.0),
            (
              All-map _ _ (λ b f v m. ground (arith, f v, seen_after v, contains-distinct band v))
                  rest ih.0,
              ih.1,
            ),
          )
      | inr e ↦ let q = rw (e.1, claim_bands) at h in cc
    ]

AllFresh-claim_bands :
    (seen : List (ℕ × Text)) (bands : List (Text × List ℕ))
    → AllFresh seen bands
    → Disjoint bands
    → claim_bands seen bands ≡ ok tt
unfolding claim_bands
AllFresh-claim_bands seen [] h d = refl
AllFresh-claim_bands seen ((name, band) ∷ rest) h d =
    let done =
      Fresh-claim_band seen name (distinct band)
        (λ v m. h.0 v (ground (arith, contains-distinct band v))) (distinct-Different band) in
    let seen_after : (v : ℕ) → marked done.0 v ≡ (contains (distinct band) v || marked seen v) =
      λ v. claim_band-marked seen name (distinct band) done.0 v done.1 in
    rw (done.1, claim_bands)
      (AllFresh-claim_bands done.0 rest
        (All-zip _ _ _
          (λ b f g v m. ground (arith, f v, g v, seen_after v, contains-distinct band v)) rest h.1
          d.0)
        d.1)

nothing_marked : (groups : List (Text × List ℕ)) → AllFresh [] groups
unfolding marked
nothing_marked [] = tt
nothing_marked (b ∷ groups) = ((λ v m. refl), nothing_marked groups)

then_blocks_iff :
    (r : Result Inconsistent (Unit {0})) (q : Result BlockClash (Unit {0}))
    → (then_blocks r q ≡ ok tt) ↔ ((r ≡ ok tt) × (q ≡ ok tt))
unfolding then_blocks
then_blocks_iff (err e) q = ((λ h. cc), λ h. cc)
then_blocks_iff (ok u) (ok v) = ((λ h. (refl, refl)), λ h. refl)
then_blocks_iff (ok u) (err c) = ((λ h. cc), λ h. cc)

-- `check_placement` accepts a record that names an engine exactly when no vmid is in two of the
-- run's own bands, and every vmid that a box of a recorded team can have is free of the vmids that the record
-- reserves.
pub check_placement_iff :
    (p : Placement)
    → nat_beq p.engine_vmid 0 ≡ false
    → (check_placement (some p) ≡ ok tt)
      ↔ (Disjoint (bands p) × All (λ t. IsFree (reserved_vmids p) t.1) p.team_identifiers)
unfolding check_placement
check_placement_iff p named =
    let blocks = check_team_blocks_iff p p.team_identifiers in
    let both =
      then_blocks_iff (claim_bands [] (bands p)) (check_team_blocks p p.team_identifiers) in
    rw named (
      (λ h.
          let parts = both.0 h in
          ((claim_bands-AllFresh [] (bands p) parts.0).1, blocks.0 parts.1)),
      λ h. both.1 (AllFresh-claim_bands [] (bands p) (nothing_marked (bands p)) h.0, blocks.1 h.1),
    )
