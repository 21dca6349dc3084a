-- ===== src/Ownership/Classify.antt =====
-- infra/ownership.py: what the verdict says of the VMs that a deploy made.
use tezcatlipoca.Base.{
  ◌⊎◌, inl, inr, ap, contains, text, text_beq, text_beq_iff, Bool-cases, All-map, beq_refl,
  contains_head, ℕ, Bool, true, false, ◌≡◌, refl, ◌↔◌, some, List, [], ◌∷◌, arith, if◌then◌else◌,
  is_empty, All, subset, find, Text, starts_with, is_infix, text_eq, starts_with-append,
}
use tezcatlipoca.Naming.{comp_tag, comp_slug, tool_tag, ownership_tags}
use tezcatlipoca.Naming.Slug.{comp_tag-comp_slug}
use tezcatlipoca.Tags.{parse_vm_tags, join_tags}
use tezcatlipoca.Tags.RoundTrip.{IsTag, parse_vm_tags-join_tags}
use tezcatlipoca.Proxmox.{joined, Config, Proxmox}
use tezcatlipoca.Ownership.{
  Verdict, owned, missing, marker, clone_marker, comp_name_from_tags, has_clone_marker,
  carries_marker, ownership_verdict,
}
use tezcatlipoca.Ownership.Bridges.{
  IsRunId, comp_tag-IsTag, tool_tag-IsTag, tool_not_comp, tool_not_run, run_not_comp, comp_not_run,
}
use mathlib.Core.List.{append-nil}

is_infix_refl : (s : Text) → is_infix s s ≡ true
unfolding is_infix
is_infix_refl [] = starts_with-append [] []
is_infix_refl (c ∷ s) = ground (arith, rw append-nil at (starts_with-append (c ∷ s) []))

clone_marker-comp_slug : (comp : Text) → clone_marker (comp_slug comp) ≡ clone_marker comp
unfolding clone_marker
clone_marker-comp_slug comp = rw (comp_tag-comp_slug comp)

comp_name-ownership_tags :
    (comp run_id : Text) (extra : List Text)
    → comp_name_from_tags (ownership_tags comp run_id extra) ≡ some (comp_slug comp)
unfolding comp_name_from_tags ownership_tags comp_tag find starts_with
comp_name-ownership_tags comp run_id extra = refl

owned_branch :
    (b : Bool) (l : List Text)
    → (if◌then◌else◌ {A = Verdict × List Text} b (owned, []) (missing, l)).0 ≡ owned
    → b ≡ true
owned_branch true l h = refl
owned_branch false l h = cc

-- a tag of a machine's role
abbrev pub IsRole : Text → Type 0
IsRole t =
    IsTag t
    × (starts_with (text "comp-") t ≡ false)
    × (starts_with (text "run-") t ≡ false)
    × (text_beq t tool_tag ≡ false)

-- what a set names as its run: nothing, or a run id
abbrev pub IsRunOrNone : Text → Type 0
IsRunOrNone r = (is_empty r ≡ true) ⊎ IsRunId r

-- a tag with a property is not among tags without it
not_among :
    (test : Text → Bool) (x : Text) (ts : List Text)
    → test x ≡ true
    → All (λ t. test t ≡ false) ts
    → contains ts x ≡ false
unfolding contains
not_among test x [] h none_has = refl
not_among test x (t ∷ ts) h none_has = elim (Bool-cases (text_beq t x)) [
  | inl e ↦ let same = ap test ((text_beq_iff t x).0 e) in let q = none_has.0 in cc
  | inr e ↦ ground (arith, not_among test x ts h none_has.1)
]

-- a tag with a property is not a text without it
differs : (test : Text → Bool) (t x : Text) → test t ≡ true → test x ≡ false → text_beq t x ≡ false
differs test t x h k = elim (Bool-cases (text_beq t x)) [
  | inl e ↦ let same = ap test ((text_beq_iff t x).0 e) in cc
  | inr e ↦ e
]

comp_tag-prefix : (comp : Text) → starts_with (text "comp-") (comp_tag comp) ≡ true
unfolding starts_with comp_tag
comp_tag-prefix comp = refl

module _ (comp run_id : Text) (extra : List Text) (id : IsRunId run_id)
    (roles : All IsRole extra) where
  written : List Text
  written = tool_tag ∷ comp_tag comp ∷ run_id ∷ extra

  written_tags : ownership_tags comp run_id extra ≡ written
  unfolding ownership_tags written
  written_tags = ground (arith, id.1.0)

  written-IsTag : All IsTag written
  unfolding written
  written-IsTag =
      (tool_tag-IsTag, (comp_tag-IsTag comp, (id.1, All-map IsRole IsTag (λ t h. h.0) extra roles)))

  contains-comp_tag :
      (comp' : Text) → contains written (comp_tag comp') ≡ text_beq (comp_tag comp) (comp_tag comp')
  unfolding contains written
  contains-comp_tag comp' = ground (
    arith,
    tool_not_comp comp',
    run_not_comp run_id comp' id.0,
    not_among (starts_with (text "comp-")) (comp_tag comp') extra (comp_tag-prefix comp')
        (All-map IsRole _ (λ t h. h.1) extra roles),
  )

  contains-run_id :
      (run_id' : Text) → IsRunId run_id' → contains written run_id' ≡ text_beq run_id run_id'
  unfolding contains written
  contains-run_id run_id' id' = ground (
    arith,
    tool_not_run run_id' id'.0,
    comp_not_run run_id' comp id'.0,
    not_among (starts_with (text "run-")) run_id' extra id'.0
        (All-map IsRole _ (λ t h. h.2) extra roles),
  )

  contains-role : (x : Text) → IsRole x → contains written x ≡ contains extra x
  unfolding contains written
  contains-role x h = ground (
    arith,
    differs (λ t. text_beq t tool_tag) tool_tag x (beq_refl tool_tag) h.3,
    differs (starts_with (text "comp-")) (comp_tag comp) x (comp_tag-prefix comp) h.1,
    differs (starts_with (text "run-")) run_id x id.0 h.2,
  )

  subset-roles : (xs : List Text) → All IsRole xs → subset xs written ≡ subset xs extra
  unfolding subset
  subset-roles [] h = refl
  subset-roles (x ∷ xs) h = ground (arith, contains-role x h.0, subset-roles xs h.1)

  subset-written :
      (comp' run_id' : Text) (extra' : List Text)
      → IsRunOrNone run_id'
      → All IsRole extra'
      → (subset (ownership_tags comp' run_id' extra') written ≡ true) ↔ (
          (comp_tag comp' ≡ comp_tag comp)
          × ((is_empty run_id' ≡ true) ⊎ (run_id' ≡ run_id))
          × (subset extra' extra ≡ true))
  unfolding ownership_tags subset written
  subset-written comp' run_id' extra' id' roles' =
      let head : contains written tool_tag ≡ true =
        contains_head tool_tag (comp_tag comp ∷ run_id ∷ extra) in
      let own = contains-comp_tag comp' in
      let same = text_beq_iff (comp_tag comp) (comp_tag comp') in
      let rest = subset-roles extra' roles' in
      elim id' [
        | inl e ↦ (
          (λ h. (ground (arith, same), inl e, ground (arith, rest))),
          (λ h. ground (arith, same, rest)),
        )
        | inr r ↦
            let run = contains-run_id run_id' r in
            let same_run = text_beq_iff run_id run_id' in
            (
              (λ h. (ground (arith, same), inr (ground (arith, same_run)), ground (arith, rest))),
              (λ h. ground (arith, same, same_run, rest)),
            )
      ]

module _ (px : Proxmox) (s : px.State) (node : Text) (vmid : ℕ) where
  -- A VM whose tags are those that a run with a run id writes, with any role tags, is owned under an
  -- ownership set, of a run id or none and with any role tags, exactly when both have the same
  -- competition tag, the set has no run id or the VM's, and each role tag of the set is one that was
  -- written. A role tag is one token that neither begins with comp- or run- nor is the tool's tag.
  pub owned_iff :
      (comp run_id : Text) (extra : List Text) (comp' run_id' : Text) (extra' : List Text)
      → IsRunId run_id
      → All IsRole extra
      → IsRunOrNone run_id'
      → All IsRole extra'
      → ((ownership_verdict px s node vmid
            (joined (join_tags (ownership_tags comp run_id extra)))
            (ownership_tags comp' run_id' extra')).0
          ≡ owned)
        ↔ ((comp_tag comp' ≡ comp_tag comp)
            × ((is_empty run_id' ≡ true) ⊎ (run_id' ≡ run_id))
            × (subset extra' extra ≡ true))
  unfolding ownership_verdict written
  owned_iff comp run_id extra comp' run_id' extra' id roles id' roles' =
      let both = subset-written comp run_id extra id roles comp' run_id' extra' id' roles' in
      rw
        (
          written_tags comp run_id extra id roles,
          parse_vm_tags-join_tags _ (written-IsTag comp run_id extra id roles),
        )
        (λ e. both.0 (owned_branch _ _ e), λ h. rw (both.1 h))

  carries :
      (comp : Text) (cfg : Config)
      → is_empty (comp_slug comp) ≡ false
      → px.config s node vmid ≡ some cfg
      → cfg.description ≡ clone_marker comp
      → carries_marker px s node vmid (some (comp_slug comp)) ≡ true
  unfolding carries_marker has_clone_marker
  carries comp cfg named listed described =
      rw (named, has_clone_marker, listed)
        (rw (clone_marker-comp_slug comp, described) (is_infix_refl (clone_marker comp)))

  -- An interrupted clone, a VM with no tags whose description is the marker that the clone request
  -- carries, is classified by its marker under every ownership set of the same competition, though
  -- the set names the competition by its slug only.
  pub interrupted_clone :
      (comp run_id : Text) (extra : List Text) (cfg : Config)
      → is_empty (comp_slug comp) ≡ false
      → px.config s node vmid ≡ some cfg
      → cfg.description ≡ clone_marker comp
      → (ownership_verdict px s node vmid (joined []) (ownership_tags comp run_id extra)).0 ≡ marker
  unfolding ownership_verdict parse_vm_tags
  interrupted_clone comp run_id extra cfg named listed described =
      rw (comp_name-ownership_tags comp run_id extra, carries comp cfg named listed described)
