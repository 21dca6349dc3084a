-- ===== src/Naming/Slug.antt =====
-- The slug of a competition name is its own slug, so the two ways to reach a tag agree.
use tezcatlipoca.Base.{Bool, true, false, ◌≡◌, refl, [], ◌∷◌, arith, nat_beq, All, Text, not}
use tezcatlipoca.Naming.{
  lower, is_slug_char, dash_runs, lstrip_dash, rstrip_dash, comp_slug, comp_tag,
}

abbrev pub IsSlug : Text → Type 0
IsSlug = All (λ c. is_slug_char c ≡ true)

abbrev no_lead : Text → Bool
no_lead [] = true
no_lead (c ∷ s) = not (nat_beq c b'-')

dash_runs-IsSlug : (b : Bool) (s : Text) → IsSlug (dash_runs b s)
unfolding dash_runs
dash_runs-IsSlug b [] = tt
dash_runs-IsSlug b (c ∷ s) = ground (arith, dash_runs-IsSlug (not (is_slug_char c)) s)

lstrip_dash-IsSlug : (s : Text) → IsSlug s → IsSlug (lstrip_dash s)
unfolding lstrip_dash
lstrip_dash-IsSlug [] h = tt
lstrip_dash-IsSlug (c ∷ s) h = ground (arith, lstrip_dash-IsSlug s h.1)

rstrip_dash-IsSlug : (s : Text) → IsSlug s → IsSlug (rstrip_dash s)
unfolding rstrip_dash
rstrip_dash-IsSlug [] h = tt
rstrip_dash-IsSlug (c ∷ s) h = ground (arith, rstrip_dash-IsSlug s h.1)

lstrip_dash-no_lead : (s : Text) → no_lead (lstrip_dash s) ≡ true
unfolding lstrip_dash
lstrip_dash-no_lead [] = refl
lstrip_dash-no_lead (c ∷ s) = ground (arith, lstrip_dash-no_lead s)

rstrip_dash-no_lead : (s : Text) → no_lead s ≡ true → no_lead (rstrip_dash s) ≡ true
unfolding rstrip_dash
rstrip_dash-no_lead [] h = refl
rstrip_dash-no_lead (c ∷ s) h = ground arith

lstrip_dash_of_no_lead : (s : Text) → no_lead s ≡ true → lstrip_dash s ≡ s
unfolding lstrip_dash
lstrip_dash_of_no_lead [] h = refl
lstrip_dash_of_no_lead (c ∷ s) h = ground arith

rstrip_dash_idem : (s : Text) → rstrip_dash (rstrip_dash s) ≡ rstrip_dash s
unfolding rstrip_dash
rstrip_dash_idem [] = refl
rstrip_dash_idem (c ∷ s) = ground (arith, rstrip_dash_idem s)

lower_of_slug : (s : Text) → IsSlug s → lower s ≡ s
unfolding lower is_slug_char
lower_of_slug [] h = refl
lower_of_slug (c ∷ s) h = ground (arith, lower_of_slug s h.1)

dash_runs_of_slug : (s : Text) → IsSlug s → dash_runs false s ≡ s
unfolding dash_runs
dash_runs_of_slug [] h = refl
dash_runs_of_slug (c ∷ s) h = ground (arith, dash_runs_of_slug s h.1)

pub comp_slug-IsSlug : (name : Text) → IsSlug (comp_slug name)
unfolding comp_slug
comp_slug-IsSlug name =
    rstrip_dash-IsSlug _ (lstrip_dash-IsSlug _ (dash_runs-IsSlug false (lower name)))

comp_slug_fixed : (s : Text) → IsSlug s → no_lead s ≡ true → rstrip_dash s ≡ s → comp_slug s ≡ s
unfolding comp_slug
comp_slug_fixed s h lead trail =
    rw (lower_of_slug s h, dash_runs_of_slug s h, lstrip_dash_of_no_lead s lead) trail

comp_slug-no_lead : (name : Text) → no_lead (comp_slug name) ≡ true
unfolding comp_slug
comp_slug-no_lead name =
    let runs = dash_runs false (lower name) in
    rstrip_dash-no_lead (lstrip_dash runs) (lstrip_dash-no_lead runs)

comp_slug_rstrip : (name : Text) → rstrip_dash (comp_slug name) ≡ comp_slug name
unfolding comp_slug
comp_slug_rstrip name = rstrip_dash_idem (lstrip_dash (dash_runs false (lower name)))

-- A slug is its own slug, for every competition name.
pub comp_slug_idem : (name : Text) → comp_slug (comp_slug name) ≡ comp_slug name
comp_slug_idem name =
    comp_slug_fixed (comp_slug name) (comp_slug-IsSlug name) (comp_slug-no_lead name)
      (comp_slug_rstrip name)

-- So a tag built from a slug is the tag built from the name.
pub comp_tag-comp_slug : (name : Text) → comp_tag (comp_slug name) ≡ comp_tag name
unfolding comp_tag
comp_tag-comp_slug name = rw (comp_slug_idem name)
