-- ===== src/Estate/Flat/RoundTrip.antt =====
-- estate/state.py: the flat view after `absorb` is the flat dict that was absorbed.
use tezcatlipoca.Base.{
  Bool, true, false, ◌≡◌, refl, sym, ap, ◌∙◌, ◌⊎◌, inl, inr, Option-cases, Option, none, some, List,
  [], ◌∷◌, arith, Text, text, text_beq, text_beq_iff, text_eq, ◌==◌,
}
use tezcatlipoca.Base.Dict.{
  lookup, remove, update, IsDict, lookup-remove, lookup-update, remove-IsDict, update-IsDict,
}
use tezcatlipoca.Estate.Flat.{
  Section, flat_section, flat_sections, Items, Document, absorb_sections, absorb_red, absorb_run,
  absorb, flatten_table, flatten_red, falsy, flatten, absorb_by, flatten_by,
}
use tezcatlipoca.Estate.Flat.Kept.{
  flat_section-IsDict, sections-IsDict, held, fill_from_other, lookup-flatten_table,
  lookup-flatten_red,
}

module _ {V : Type 0} (fields : V → Option (Items V)) (object : Items V → V)
    (truthy : V → Bool) where
  -- the view of a document that holds what `absorb_sections` made of a flat dict
  view :
      (table : List (Text × Section)) (flat : Items V) (doc : Document V) (red : Items V) (k : Text)
      → IsDict table
      → IsDict flat
      → ((k == text "comp_name") ≡ true → (v : V) × (lookup k flat ≡ some v))
      → text_beq (text "red") k ≡ false
      → (lookup k doc.placement ≡ none) ⊎ (falsy fields object truthy (lookup k flat) ≡ false)
      → lookup k (
          flatten_by fields object truthy table (record doc {
            flat =
                (absorb_sections fields object truthy true table flat_sections (flat, doc.flat)).1;
            red = red;
            run = update [] (
                remove
                  (text "red")
                  (absorb_sections fields object truthy true table flat_sections
                    (flat, doc.flat)).0);
          }))
        ≡ lookup k flat
  unfolding flatten_by lookup
  view table flat doc red k h d written other place =
      let done = absorb_sections fields object truthy true table flat_sections (flat, doc.flat) in
      let rest = remove (text "red") done.0 in
      let rest-IsDict : IsDict rest =
        remove-IsDict (text "red") done.0
          (sections-IsDict fields object truthy true table flat_sections flat doc.flat d) in
      let below = flatten_table fields object truthy table done.1 [] in
      let inner : lookup k (update (flatten_red fields object truthy red below) (update [] rest))
          ≡ lookup k flat =
        ground (
          arith,
          lookup-update k (flatten_red fields object truthy red below) (update [] rest)
              (update-IsDict [] rest tt),
          lookup-update k [] rest rest-IsDict,
          lookup-remove (text "red") k done.0,
          lookup-flatten_red fields object truthy red below k other,
          lookup-flatten_table fields object truthy table done.1 [] k h,
          held fields object truthy table flat doc.flat k h written,
        ) in
      fill_from_other fields object truthy doc.placement
        (text "engine_mgmt_ip" ∷ text "engine_mgmt_gw" ∷ []) _ k (rw inner place)
      ∙ inner

  -- it raises only for a `red` that is no object
  pub absorb_total :
      (flat : Items V) (replace : Bool) (doc : Document V)
      → ((v : V) → (items : Items V) × (fields v ≡ some items))
      → (doc' : Document V) × (absorb fields object truthy flat replace doc ≡ some doc')
  unfolding absorb absorb_by absorb_red
  absorb_total flat replace doc total =
      let rest =
        (absorb_sections fields object truthy replace flat_section flat_sections
          (flat, doc.flat)).0 in
      elim (Option-cases (lookup (text "red") rest)) [
        | inl e ↦ rw (absorb, absorb_by, e, absorb_red) (_, refl)
        | inr v ↦ rw (absorb, absorb_by, v.1, absorb_red, (total v.0).1) (_, refl)
      ]

  -- `absorb` that replaces makes the flat view the dict that it was given: what `flatten` then has
  -- under a key is what the dict has, for a dict with a competition's name, and for every key but
  -- `red` under which the placement has nothing or the dict has something true.
  pub flatten-absorb :
      (flat : Items V) (doc doc' : Document V) (name : V) (k : Text)
      → IsDict flat
      → lookup (text "comp_name") flat ≡ some name
      → absorb fields object truthy flat true doc ≡ some doc'
      → text_beq (text "red") k ≡ false
      → (lookup k doc.placement ≡ none) ⊎ (falsy fields object truthy (lookup k flat) ≡ false)
      → lookup k (flatten fields object truthy doc') ≡ lookup k flat
  unfolding absorb flatten absorb_by absorb_run
  flatten-absorb flat doc doc' name k h named done other place =
      made
        (absorb_red fields object truthy
          (lookup (text "red")
            (absorb_sections fields object truthy true flat_section flat_sections
              (flat, doc.flat)).0)
          doc.red)
        done
    where
      made :
          (r : Option (Items V))
          → (elim r [
            | none ↦ none
            | some red ↦ some (record doc {
              flat =
                  (absorb_sections fields object truthy true flat_section flat_sections
                    (flat, doc.flat)).1;
              red = red;
              run = update [] (
                  remove
                    (text "red")
                    (absorb_sections fields object truthy true flat_section flat_sections
                      (flat, doc.flat)).0);
            })
          ])
            ≡ some doc'
          → lookup k (flatten_by fields object truthy flat_section doc') ≡ lookup k flat
      made none e = cc
      made (some red) e =
          let rest =
            remove (text "red")
              (absorb_sections fields object truthy true flat_section flat_sections
                (flat, doc.flat)).0 in
          let same : record doc {
            flat =
                (absorb_sections fields object truthy true flat_section flat_sections
                  (flat, doc.flat)).1;
            red = red;
            run = update [] rest;
          }
              ≡ doc' =
            ap (λ o. elim o [ none ↦ doc' | some d ↦ d ]) e in
          let written : (k == text "comp_name") ≡ true → (v : V) × (lookup k flat ≡ some v) = λ e.
            (name, ap (λ j. lookup j flat) ((text_beq_iff k (text "comp_name")).0 e) ∙ named) in
          ap (λ d. lookup k (flatten_by fields object truthy flat_section d)) (sym same)
          ∙ view flat_section flat doc red k flat_section-IsDict h written other place
