-- ===== src/Estate/Flat.antt =====
-- estate/state.py: the flat view of the state document, `EstateState.absorb` and `flatten`. `V` is a
-- value of JSON, `fields` the items of an object, none for a value that is not one, `object` the
-- object of some items, and `truthy` what `not` reads. A section that is missing is an empty one.
pub mod Table
pub mod Kept
pub mod RoundTrip
use tezcatlipoca.Base.{
  ℕ, Bool, true, false, not, ◌&&◌, Option, none, some, List, [], ◌∷◌, if◌then◌else◌, is_empty, keep,
  nat_beq, Text, text, text_eq, ◌==◌,
}
use tezcatlipoca.Base.Dict.{lookup, put, remove, update}
use tezcatlipoca.Estate.Rows.{Row}

pub data Section : Type 0 where
  identity secrets templates roster : Section

abbrev pub section_index : Section → ℕ
section_index identity = 0
section_index secrets = 1
section_index templates = 2
section_index roster = 3

abbrev pub section_beq : Section → Section → Bool
section_beq s t = nat_beq (section_index s) (section_index t)

-- _FLAT_SECTION
abbrev pub flat_section : List (Text × Section)
flat_section =
    (text "comp_name", identity)
    ∷ (text "run_id", identity)
    ∷ (text "scoring_vm_id", identity)
    ∷ (text "engine_mgmt_ip", identity)
    ∷ (text "engine_mgmt_gw", identity)
    ∷ (text "endpoint", identity)
    ∷ (text "node", identity)
    ∷ (text "datastore", identity)
    ∷ (text "name", identity)
    ∷ (text "teams", secrets)
    ∷ (text "admin_password", secrets)
    ∷ (text "scoring_password", secrets)
    ∷ (text "postgres_password", secrets)
    ∷ (text "redis_password", secrets)
    ∷ (text "box_password", secrets)
    ∷ (text "box_creds", secrets)
    ∷ (text "domain_creds", secrets)
    ∷ (text "inject_password", secrets)
    ∷ (text "engine_build_info", templates)
    ∷ (text "engine_template_vmid", templates)
    ∷ (text "engine_template_hash", templates)
    ∷ (text "golden_template_ids", templates)
    ∷ (text "golden_ids_by_slot", templates)
    ∷ (text "golden_hashes", templates)
    ∷ (text "boxes", roster)
    ∷ []

-- _FLAT_SECTIONS
abbrev pub flat_sections : List Section
flat_sections = identity ∷ secrets ∷ templates ∷ roster ∷ []

-- a dict
abbrev pub Items : Type 0 → Type 0
Items V = List (Text × V)

pub record Document (V : Type 0) : Type 0 where
  pub flat : Section → Items V
  pub red : Items V
  pub run : Items V
  -- None and an empty placement are no items
  pub placement : Items V
  pub teardown : Items V
  pub resources : List Row

abbrev pub set_section : {A : Type 0} → Section → A → (Section → A) → Section → A
set_section s a f t = if section_beq s t then a else f t

module _ {V : Type 0} (fields : V → Option (Items V)) (object : Items V → V)
    (truthy : V → Bool) where
  -- one key of a section: the rest of the flat dict, and the section
  absorb_key : Bool → Text → Option V → Items V × Items V → Items V × Items V
  absorb_key replace k (some v) (flat, target) = (remove k flat, put k v target)
  absorb_key replace k none (flat, target) =
      (flat, if replace && not (k == text "comp_name") then remove k target else target)

  pub absorb_section :
      Bool → Section → List (Text × Section) → Items V × Items V → Items V × Items V
  unfolding absorb_key
  absorb_section replace s [] state = state
  absorb_section replace s ((k, owner) ∷ table) state =
      if section_beq owner s
      then absorb_section replace s table (absorb_key replace k (lookup k state.0) state)
      else absorb_section replace s table state

  pub absorb_sections :
      Bool
      → List (Text × Section)
      → List Section
      → Items V × (Section → Items V)
      → Items V × (Section → Items V)
  unfolding absorb_section
  absorb_sections replace table [] state = state
  absorb_sections replace table (s ∷ ss) (flat, sections) =
      let done = absorb_section replace s table (flat, sections s) in
      absorb_sections replace table ss (done.0, set_section s done.1 sections)

  -- a `red` that is no object raises
  absorb_red : Option V → Items V → Option (Items V)
  absorb_red none red = some red
  absorb_red (some v) red = elim (fields v) [ none ↦ none | some items ↦ some (update red items) ]

  absorb_run : Bool → Items V → Items V → Items V
  absorb_run replace flat run = update (if replace then [] else run) flat

  pub absorb_by : List (Text × Section) → Items V → Bool → Document V → Option (Document V)
  unfolding absorb_sections absorb_red absorb_run remove
  absorb_by table flat replace doc =
      let done = absorb_sections replace table flat_sections (flat, doc.flat) in
      elim (absorb_red (lookup (text "red") done.0) doc.red) [
        | none ↦ none
        | some red ↦ some (record doc {
          flat = done.1;
          red = red;
          run = absorb_run replace (remove (text "red") done.0) doc.run;
        })
      ]

  -- EstateState.absorb, none where it raises
  unfoldable pub absorb : Items V → Bool → Document V → Option (Document V)
  unfolding absorb_by
  absorb = absorb_by flat_section

  flatten_key : Text → Option V → Items V → Items V
  flatten_key k none flat = flat
  flatten_key k (some v) flat = put k v flat

  pub flatten_table : List (Text × Section) → (Section → Items V) → Items V → Items V
  unfolding flatten_key
  flatten_table [] sections flat = flat
  flatten_table ((k, s) ∷ table) sections flat =
      flatten_table table sections (flatten_key k (lookup k (sections s)) flat)

  pub flatten_red : Items V → Items V → Items V
  flatten_red red flat = if is_empty red then flat else put (text "red") (object red) flat

  pub falsy : Option V → Bool
  falsy none = true
  falsy (some v) = not (truthy v)

  fill : Text → Option V → Items V → Items V
  unfolding falsy
  fill k none flat = flat
  fill k (some v) flat = if falsy (lookup k flat) && truthy v then put k v flat else flat

  -- the engine's address as placed, where the flat view has none
  pub fill_from : Items V → List Text → Items V → Items V
  unfolding fill
  fill_from placement [] flat = flat
  fill_from placement (k ∷ ks) flat = fill_from placement ks (fill k (lookup k placement) flat)

  pub flatten_by : List (Text × Section) → Document V → Items V
  unfolding flatten_table flatten_red fill_from
  flatten_by table doc =
      fill_from doc.placement (text "engine_mgmt_ip" ∷ text "engine_mgmt_gw" ∷ [])
        (update (flatten_red doc.red (flatten_table table doc.flat [])) doc.run)

  -- EstateState.flatten
  unfoldable pub flatten : Document V → Items V
  unfolding flatten_by
  flatten = flatten_by flat_section
