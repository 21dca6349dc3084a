-- ===== src/Estate/Flat/Kept.antt =====
-- What `absorb` keeps of a flat dict and `flatten` reads, key by key.
use tezcatlipoca.Base.{
  Bool, true, false, ◌≡◌, refl, ◌∙◌, ◌⊎◌, inl, inr, Bool-cases, Option, none, some, List, [], ◌∷◌,
  arith, if◌then◌else◌, Text, text, text_beq, text_beq_iff, text_eq, ◌==◌,
}
use tezcatlipoca.Base.Dict.{lookup, IsDict, or_other, lookup-put, remove-IsDict}
use tezcatlipoca.Estate.Flat.{
  Section, identity, secrets, templates, roster, flat_section, flat_sections, Items, absorb_key,
  absorb_section, absorb_sections, flatten_key, flatten_table, flatten_red, falsy, fill, fill_from,
}
use tezcatlipoca.Estate.Flat.Table.{
  section_in, owned_in, owns, stays, section_beq_iff, sections_rest, sections_target,
}

pub flat_section-IsDict : IsDict flat_section
unfolding lookup text_beq
flat_section-IsDict = (
  refl,
  (
    refl,
    (
      refl,
      (
        refl,
        (
          refl,
          (
            refl,
            (
              refl,
              (
                refl,
                (
                  refl,
                  (
                    refl,
                    (
                      refl,
                      (
                        refl,
                        (
                          refl,
                          (
                            refl,
                            (
                              refl,
                              (
                                refl,
                                (
                                  refl,
                                  (
                                    refl,
                                    (refl, (refl, (refl, (refl, (refl, (refl, (refl, tt))))))),
                                  ),
                                ),
                              ),
                            ),
                          ),
                        ),
                      ),
                    ),
                  ),
                ),
              ),
            ),
          ),
        ),
      ),
    ),
  ),
)

in_flat_sections : (s : Section) → section_in s flat_sections ≡ true
in_flat_sections identity = refl
in_flat_sections secrets = refl
in_flat_sections templates = refl
in_flat_sections roster = refl

-- the value that a table's section has for a key
abbrev pub placed : {V : Type 0} → List (Text × Section) → (Section → Items V) → Text → Option V
placed table sections k = elim (lookup k table) [ none ↦ none | some s ↦ lookup k (sections s) ]

written_kept :
    {V : Type 0} (k : Text) (v old : Option V)
    → ((k == text "comp_name") ≡ true → (w : V) × (v ≡ some w))
    → or_other v (stays true k old) ≡ v
written_kept k (some v) old h = refl
written_kept k none old h = elim (Bool-cases (k == text "comp_name")) [
  | inl e ↦ (let q = (h e).1 in cc)
  | inr e ↦ rw e refl
]

module _ {V : Type 0} (fields : V → Option (Items V)) (object : Items V → V)
    (truthy : V → Bool) where
  key-IsDict :
      (replace : Bool) (j : Text) (v : Option V) (flat target : Items V)
      → IsDict flat
      → IsDict (absorb_key fields object truthy replace j v (flat, target)).0
  unfolding absorb_key
  key-IsDict replace j none flat target h = h
  key-IsDict replace j (some v) flat target h = remove-IsDict j flat h

  section-IsDict :
      (replace : Bool) (s : Section) (table : List (Text × Section)) (flat target : Items V)
      → IsDict flat
      → IsDict (absorb_section fields object truthy replace s table (flat, target)).0
  unfolding absorb_section
  section-IsDict replace s [] flat target h = h
  section-IsDict replace s ((j, owner) ∷ table) flat target h =
      let after = absorb_key fields object truthy replace j (lookup j flat) (flat, target) in
      ground (
        arith,
        section-IsDict replace s table flat target h,
        section-IsDict replace s table after.0 after.1
            (key-IsDict replace j (lookup j flat) flat target h),
      )

  pub sections-IsDict :
      (replace : Bool) (table : List (Text × Section)) (ss : List Section) (flat : Items V)
      (sections : Section → Items V)
      → IsDict flat
      → IsDict (absorb_sections fields object truthy replace table ss (flat, sections)).0
  unfolding absorb_sections
  sections-IsDict replace table [] flat sections h = h
  sections-IsDict replace table (s ∷ ss) flat sections h =
      sections-IsDict replace table ss _ _ (section-IsDict replace s table flat (sections s) h)

  -- between them, the sections and the rest hold what the flat dict held
  pub held :
      (table : List (Text × Section)) (flat : Items V) (sections : Section → Items V) (k : Text)
      → IsDict table
      → ((k == text "comp_name") ≡ true → (v : V) × (lookup k flat ≡ some v))
      → or_other
          (lookup k
            (absorb_sections fields object truthy true table flat_sections (flat, sections)).0)
          (placed table
            (absorb_sections fields object truthy true table flat_sections (flat, sections)).1
            k)
        ≡ lookup k flat
  held table flat sections k h written = owner (lookup k table) refl
    where
      owner :
          (o : Option Section)
          → lookup k table ≡ o
          → or_other
              (lookup k
                (absorb_sections fields object truthy true table flat_sections (flat, sections)).0)
              (placed table
                (absorb_sections fields object truthy true table flat_sections (flat, sections)).1
                k)
            ≡ lookup k flat
      owner none e =
          ground
            (arith, sections_rest fields object truthy true table flat_sections flat sections k h)
      owner (some s) e =
          let here : owns table s k ≡ true = rw (owns, e) ((section_beq_iff s s).1 refl) in
          let gone : owned_in table flat_sections k ≡ true =
            rw (owned_in, e) (in_flat_sections s) in
          rw
            (
              sections_rest fields object truthy true table flat_sections flat sections k h,
              gone,
              placed,
              e,
            )
            (sections_target fields object truthy true table flat_sections flat sections s k h
                (refl, (refl, (refl, (refl, tt)))) (in_flat_sections s) here
              ∙ written_kept k (lookup k flat) (lookup k (sections s)) written)

  fill_other :
      (k j : Text) (v : Option V) (flat : Items V)
      → (v ≡ none) ⊎ ((text_beq j k ≡ false) ⊎ (falsy fields object truthy (lookup k flat) ≡ false))
      → lookup k (fill fields object truthy j v flat) ≡ lookup k flat
  unfolding fill falsy
  fill_other k j none flat h = refl
  fill_other k j (some v) flat h = ground (arith, lookup-put j k v flat, text_beq_iff j k)

  pub fill_from_other :
      (placement : Items V) (ks : List Text) (flat : Items V) (k : Text)
      → (lookup k placement ≡ none) ⊎ (falsy fields object truthy (lookup k flat) ≡ false)
      → lookup k (fill_from fields object truthy placement ks flat) ≡ lookup k flat
  unfolding fill_from
  fill_from_other placement [] flat k h = refl
  fill_from_other placement (j ∷ ks) flat k h =
      let same = fill_other k j (lookup j placement) flat (ground (arith, text_beq_iff j k)) in
      fill_from_other placement ks _ k (rw same h) ∙ same

  lookup-flatten_key :
      (j k : Text) (v : Option V) (flat : Items V)
      → lookup k (flatten_key fields object truthy j v flat)
        ≡ (if text_beq j k then or_other v (lookup k flat) else lookup k flat)
  unfolding flatten_key
  lookup-flatten_key j k none flat = ground arith
  lookup-flatten_key j k (some v) flat = ground (arith, lookup-put j k v flat)

  pub lookup-flatten_table :
      (table : List (Text × Section)) (sections : Section → Items V) (flat : Items V) (k : Text)
      → IsDict table
      → lookup k (flatten_table fields object truthy table sections flat)
        ≡ or_other (placed table sections k) (lookup k flat)
  unfolding flatten_table lookup
  lookup-flatten_table [] sections flat k h = refl
  lookup-flatten_table ((j, s) ∷ table) sections flat k h =
      let next = flatten_key fields object truthy j (lookup j (sections s)) flat in
      ground (
        arith,
        lookup-flatten_table table sections next k h.1,
        text_beq_iff j k,
        lookup-flatten_key j k (lookup j (sections s)) flat,
      )

  pub lookup-flatten_red :
      (red flat : Items V) (k : Text)
      → text_beq (text "red") k ≡ false
      → lookup k (flatten_red fields object truthy red flat) ≡ lookup k flat
  unfolding flatten_red
  lookup-flatten_red red flat k h = ground (arith, lookup-put (text "red") k (object red) flat)
