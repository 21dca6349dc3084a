-- ===== src/Estate/Flat/Table.antt =====
-- estate/state.py: what `absorb` leaves under each key, for any table of keys.
use tezcatlipoca.Base.{
  ℕ, zero, suc, Bool, true, false, not, ◌&&◌, ◌||◌, ◌≡◌, refl, sym, ap, ◌∙◌, ◌↔◌, inl, inr,
  Bool-cases, Option, none, some, List, [], ◌∷◌, arith, if◌then◌else◌, Text, text, text_beq,
  text_beq_iff, text_eq, ◌==◌,
}
use tezcatlipoca.Base.Dict.{lookup, IsDict, or_other, lookup-put, lookup-remove}
use tezcatlipoca.Estate.Flat.{
  Section, identity, secrets, templates, roster, section_index, section_beq, Items, set_section,
  absorb_key, absorb_section, absorb_sections,
}

abbrev section_at : ℕ → Section
section_at zero = identity
section_at (suc zero) = secrets
section_at (suc (suc zero)) = templates
section_at (suc (suc (suc n))) = roster

section_at_index : (s : Section) → section_at (section_index s) ≡ s
section_at_index identity = refl
section_at_index secrets = refl
section_at_index templates = refl
section_at_index roster = refl

pub section_beq_iff : (s t : Section) → (section_beq s t ≡ true) ↔ (s ≡ t)
section_beq_iff s t = (
  λ h. sym (section_at_index s) ∙ ap section_at (ground arith) ∙ section_at_index t,
  λ e. rw e (ground arith),
)

-- the table puts the key into this section
abbrev pub owns : List (Text × Section) → Section → Text → Bool
owns table s k = elim (lookup k table) [ none ↦ false | some owner ↦ section_beq owner s ]

abbrev pub section_in : Section → List Section → Bool
section_in t [] = false
section_in t (s ∷ ss) = section_beq s t || section_in t ss

abbrev pub owned_in : List (Text × Section) → List Section → Text → Bool
owned_in table ss k = elim (lookup k table) [ none ↦ false | some owner ↦ section_in owner ss ]

abbrev pub AllDifferent : List Section → Type 0
AllDifferent [] = Unit
AllDifferent (s ∷ ss) = (section_in s ss ≡ false) × AllDifferent ss

-- what stays of a value that the flat dict does not have
abbrev pub stays : {V : Type 0} → Bool → Text → Option V → Option V
stays replace k old = if replace && not (k == text "comp_name") then none else old

module _ {V : Type 0} (fields : V → Option (Items V)) (object : Items V → V) (truthy : V → Bool)
    (replace : Bool) where
  abbrev absorbed_key : Text → Option V → Items V × Items V → Items V × Items V
  absorbed_key = absorb_key fields object truthy replace

  key_rest :
      (j k : Text) (flat target : Items V)
      → lookup k (absorbed_key j (lookup j flat) (flat, target)).0
        ≡ (if text_beq j k then none else lookup k flat)
  unfolding absorb_key
  key_rest j k flat target = read (lookup j flat) refl
    where
      read :
          (v : Option V)
          → lookup j flat ≡ v
          → lookup k (absorbed_key j v (flat, target)).0
            ≡ (if text_beq j k then none else lookup k flat)
      read none e = ground (arith, e, text_beq_iff j k)
      read (some v) e = lookup-remove j k flat

  key_target :
      (j k : Text) (flat target : Items V)
      → lookup k (absorbed_key j (lookup j flat) (flat, target)).1 ≡ (
          if text_beq j k
          then or_other (lookup k flat) (stays replace k (lookup k target))
          else lookup k target)
  unfolding absorb_key
  key_target j k flat target = read (lookup j flat) refl
    where
      read :
          (v : Option V)
          → lookup j flat ≡ v
          → lookup k (absorbed_key j v (flat, target)).1 ≡ (
              if text_beq j k
              then or_other (lookup k flat) (stays replace k (lookup k target))
              else lookup k target)
      read none e = ground (arith, e, text_beq_iff j k, lookup-remove j k target)
      read (some v) e = ground (arith, e, text_beq_iff j k, lookup-put j k v target)

  pub section_rest :
      (s : Section) (table : List (Text × Section)) (flat target : Items V) (k : Text)
      → IsDict table
      → lookup k (absorb_section fields object truthy replace s table (flat, target)).0
        ≡ (if owns table s k then none else lookup k flat)
  unfolding absorb_section lookup
  section_rest s [] flat target k h = refl
  section_rest s ((j, owner) ∷ table) flat target k h =
      let after = absorbed_key j (lookup j flat) (flat, target) in
      ground (
        arith,
        text_beq_iff j k,
        key_rest j k flat target,
        section_rest s table after.0 after.1 k h.1,
        section_rest s table flat target k h.1,
      )

  pub section_target :
      (s : Section) (table : List (Text × Section)) (flat target : Items V) (k : Text)
      → IsDict table
      → lookup k (absorb_section fields object truthy replace s table (flat, target)).1 ≡ (
          if owns table s k
          then or_other (lookup k flat) (stays replace k (lookup k target))
          else lookup k target)
  unfolding absorb_section lookup
  section_target s [] flat target k h = refl
  section_target s ((j, owner) ∷ table) flat target k h =
      let after = absorbed_key j (lookup j flat) (flat, target) in
      ground (
        arith,
        key_rest j k flat target,
        key_target j k flat target,
        text_beq_iff j k,
        section_target s table after.0 after.1 k h.1,
        section_target s table flat target k h.1,
      )

  pub sections_rest :
      (table : List (Text × Section)) (ss : List Section) (flat : Items V)
      (sections : Section → Items V) (k : Text)
      → IsDict table
      → lookup k (absorb_sections fields object truthy replace table ss (flat, sections)).0
        ≡ (if owned_in table ss k then none else lookup k flat)
  unfolding absorb_sections
  sections_rest table [] flat sections k h = ground arith
  sections_rest table (s ∷ ss) flat sections k h =
      let done = absorb_section fields object truthy replace s table (flat, sections s) in
      ground (
        arith,
        section_rest s table flat (sections s) k h,
        sections_rest table ss done.0 (set_section s done.1 sections) k h,
      )

  -- a section that is not gone through is left
  sections_other :
      (table : List (Text × Section)) (ss : List Section) (flat : Items V)
      (sections : Section → Items V) (t : Section)
      → section_in t ss ≡ false
      → (absorb_sections fields object truthy replace table ss (flat, sections)).1 t ≡ sections t
  unfolding absorb_sections
  sections_other table [] flat sections t m = refl
  sections_other table (s ∷ ss) flat sections t m =
      let done = absorb_section fields object truthy replace s table (flat, sections s) in
      sections_other table ss done.0 (set_section s done.1 sections) t (ground arith) ∙ ground arith

  pub sections_target :
      (table : List (Text × Section)) (ss : List Section) (flat : Items V)
      (sections : Section → Items V) (t : Section) (k : Text)
      → IsDict table
      → AllDifferent ss
      → section_in t ss ≡ true
      → owns table t k ≡ true
      → lookup k ((absorb_sections fields object truthy replace table ss (flat, sections)).1 t)
        ≡ or_other (lookup k flat) (stays replace k (lookup k (sections t)))
  unfolding absorb_sections
  sections_target table [] flat sections t k h d m o = ground arith
  sections_target table (s ∷ ss) flat sections t k h d m o =
      let done = absorb_section fields object truthy replace s table (flat, sections s) in
      let later = set_section s done.1 sections in
      elim (Bool-cases (section_beq s t)) [
        | inl e ↦
            let q : s ≡ t = (section_beq_iff s t).0 e in
            let gone : section_in t ss ≡ false = rw q at d.0 in
            let here : owns table s k ≡ true = rw (← q) at o in
            rw (sections_other table ss done.0 later t gone, e)
              (rw (← q) (rw (section_target s table flat (sections s) k h, here) refl))
        | inr e ↦ ground (
          arith,
          section_rest s table flat (sections s) k h,
          sections_target table ss done.0 later t k h d.1,
        )
      ]
