-- ===== src/Ownership/Bridges.antt =====
-- infra/ownership.py: a bridge has no tags, so its comment is the only proof of its owner.
use mathlib.Core.List.{append_assoc}
use tezcatlipoca.Base.{
  ℕ, Bool, true, false, ◌||◌, ◌≡◌, refl, List, [], ◌∷◌, ◌++◌, arith, if◌then◌else◌, is_empty, All,
  subset, Text, text, text_beq, text_beq_iff, text_eq, starts_with, ◌≤◌, beq_refl,
}
use tezcatlipoca.Naming.{comp_tag, comp_slug, tool_tag, is_slug_char}
use tezcatlipoca.Naming.Slug.{IsSlug, comp_slug-IsSlug}
use tezcatlipoca.Tags.{tokens, is_space}
use tezcatlipoca.Tags.RoundTrip.{plain_char, IsTag, tokens_cons, tokens_one}

-- `prose` is empty where the caller gives none
unfoldable pub bridge_comment : Text → Text → Text → Text
bridge_comment comp run_id prose =
    let base = tool_tag ++ (b' ' ∷ (comp_tag comp ++ (b' ' ∷ run_id))) in
    if is_empty prose then base else base ++ (text " — " ++ prose)

unfoldable pub bridge_owned_by : Text → Text → Text → Bool
bridge_owned_by comment comp run_id =
    if is_empty run_id || is_empty comp
    then false
    else subset (tool_tag ∷ comp_tag comp ∷ run_id ∷ []) (tokens comment)

plain_range : (c : ℕ) → 45 ≤ c → c ≤ 122 → is_space c ≡ false
unfolding is_space
plain_range c lo hi = ground arith

slug_char_plain : (c : ℕ) → is_slug_char c ≡ true → plain_char c ≡ true
unfolding is_slug_char
slug_char_plain c h = ground (arith, plain_range c)

slug_plain : (s : Text) → IsSlug s → All (λ c. plain_char c ≡ true) s
slug_plain [] h = tt
slug_plain (c ∷ s) h = (slug_char_plain c h.0, slug_plain s h.1)

pub comp_tag-IsTag : (comp : Text) → IsTag (comp_tag comp)
unfolding comp_tag is_slug_char
comp_tag-IsTag comp = (
  refl,
  slug_plain (text "comp-" ++ comp_slug comp)
      (refl, (refl, (refl, (refl, (refl, comp_slug-IsSlug comp))))),
)

pub tool_tag-IsTag : IsTag tool_tag
unfolding is_slug_char
tool_tag-IsTag = (
  refl,
  slug_plain tool_tag (
    refl,
    (refl, (refl, (refl, (refl, (refl, (refl, (refl, (refl, (refl, (refl, (refl, tt))))))))))),
  ),
)

-- the tokens that follow the run's
abbrev prose_tokens : Text → List Text
prose_tokens [] = []
prose_tokens (c ∷ p) = tokens (text "— " ++ (c ∷ p))

tokens-bridge_comment :
    (comp run_id prose : Text)
    → IsTag run_id
    → tokens (bridge_comment comp run_id prose)
      ≡ tool_tag ∷ comp_tag comp ∷ run_id ∷ prose_tokens prose
unfolding bridge_comment
tokens-bridge_comment comp run_id [] h =
    rw (tokens_cons tool_tag _ tool_tag-IsTag, tokens_cons (comp_tag comp) _ (comp_tag-IsTag comp))
      (rw (tokens_one run_id h))
tokens-bridge_comment comp run_id (c ∷ p) h =
    rw (append_assoc (comp_tag comp) (b' ' ∷ run_id) (text " — " ++ (c ∷ p))) (
      rw
        (tokens_cons tool_tag _ tool_tag-IsTag, tokens_cons (comp_tag comp) _ (comp_tag-IsTag comp))
        (rw (tokens_cons run_id _ h)))

-- The comment that a run writes on its bridge proves that the bridge is its own, whatever prose
-- follows, for a competition with a name and a run id that is one token.
pub bridge_owned_by-bridge_comment :
    (comp run_id prose : Text)
    → is_empty comp ≡ false
    → IsTag run_id
    → bridge_owned_by (bridge_comment comp run_id prose) comp run_id ≡ true
unfolding bridge_owned_by subset
bridge_owned_by-bridge_comment comp run_id prose named h =
    rw (tokens-bridge_comment comp run_id prose h)
      (ground (arith, h.0, beq_refl tool_tag, beq_refl (comp_tag comp), beq_refl run_id))

abbrev pub IsRunId : Text → Type 0
IsRunId r = (starts_with (text "run-") r ≡ true) × IsTag r

owned_subset : (b c : Bool) → (if b then false else c) ≡ true → c ≡ true
owned_subset b c h = ground arith

pub tool_not_comp : (comp : Text) → text_beq tool_tag (comp_tag comp) ≡ false
unfolding text_beq comp_tag
tool_not_comp comp = refl

pub tool_not_run : (r : Text) → starts_with (text "run-") r ≡ true → text_beq tool_tag r ≡ false
unfolding text_beq starts_with
tool_not_run [] h = refl
tool_not_run (c ∷ r) h = ground arith

pub run_not_comp :
    (r comp : Text) → starts_with (text "run-") r ≡ true → text_beq r (comp_tag comp) ≡ false
unfolding text_beq starts_with comp_tag
run_not_comp [] comp h = refl
run_not_comp (c ∷ r) comp h = ground arith

pub comp_not_run :
    (r comp : Text) → starts_with (text "run-") r ≡ true → text_beq (comp_tag comp) r ≡ false
unfolding text_beq starts_with comp_tag
comp_not_run [] comp h = refl
comp_not_run (c ∷ r) comp h = ground arith

pub unique_among :
    (comp run_id comp' run_id' : Text)
    → starts_with (text "run-") run_id ≡ true
    → starts_with (text "run-") run_id' ≡ true
    → subset (tool_tag ∷ comp_tag comp' ∷ run_id' ∷ []) (tool_tag ∷ comp_tag comp ∷ run_id ∷ [])
      ≡ true
    → (comp_tag comp' ≡ comp_tag comp) × (run_id' ≡ run_id)
unfolding subset
unique_among comp run_id comp' run_id' h h' owned = ground (
  arith,
  tool_not_comp comp',
  tool_not_run run_id' h',
  run_not_comp run_id comp' h,
  comp_not_run run_id' comp h',
  text_beq_iff (comp_tag comp) (comp_tag comp'),
  text_beq_iff run_id run_id',
)

-- A bridge that one run has commented, with no prose, is owned by another run's teardown only if
-- both have the same run id and the same competition tag, for run ids that begin with run- and are
-- one token.
pub bridge_owner_unique :
    (comp run_id comp' run_id' : Text)
    → IsRunId run_id
    → IsRunId run_id'
    → bridge_owned_by (bridge_comment comp run_id []) comp' run_id' ≡ true
    → (comp_tag comp' ≡ comp_tag comp) × (run_id' ≡ run_id)
unfolding bridge_owned_by
bridge_owner_unique comp run_id comp' run_id' h h' owned =
    unique_among comp run_id comp' run_id' h.0 h'.0 (
      rw (tokens-bridge_comment comp run_id [] h.1) at
        (owned_subset (is_empty run_id' || is_empty comp') _ owned))
