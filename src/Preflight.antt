-- ===== src/Preflight.antt =====
-- infra/plan.py and infra/collisions.py: what a deploy will create on one node. Team identifiers
-- are numerals in the source and numbers here; the text of a label is made from its parts.
pub mod Numerals
pub mod Bands
pub mod Collisions
pub mod Addresses
mod Tests
use tezcatlipoca.Base.{
  ℕ, zero, suc, ◌+◌, ◌/◌, ◌%◌, Bool, true, false, not, ◌&&◌, Option, none, some, List, [], ◌∷◌,
  ◌++◌, map, if◌then◌else◌, ltb, nat_beq, any, find, is_empty, Text, text,
}
use tezcatlipoca.Base.Dict.{lookup}
use tezcatlipoca.Base.{text_eq}
use tezcatlipoca.Naming.{comp_tag}
use tezcatlipoca.Proxmox.{RawTags}
use tezcatlipoca.Vmids.{
  Placement, Satellite, or_else, vm_id_for, engine_template_vmid, golden_vmid_for_slot,
  jump_vmid_for,
}

-- str(n): the fuel n + 1 is at least the number of digits
unfoldable pub digits : ℕ → ℕ → Text
digits zero n = []
digits (suc fuel) n =
    let rest = digits fuel (n / 10) in
    if ltb n 10 then (48 + n) ∷ [] else rest ++ (48 + n % 10) ∷ []

unfoldable pub numeral : ℕ → Text
unfolding digits
numeral n = digits (suc n) n

pub record Box : Type 0 where
  pub name : Text
  pub in_path : Bool

-- NodeShare
pub record Share : Type 0 where
  pub name : Text
  pub node : Text
  pub multi : Bool
  pub slot : ℕ
  pub is_engine : Bool
  pub teams : List (Text × ℕ)

-- PreflightPlan, with the competition's name
pub record Plan : Type 0 where
  pub comp_name : Text
  pub boxes : List Box
  pub engine_vmid : ℕ
  -- the empty text where there is none
  pub our_run_tag : Text
  pub placement : Option Placement

unfoldable pub our_tags : Plan → List Text
our_tags plan =
    text "tezcatlipoca"
    ∷ comp_tag plan.comp_name
    ∷ (if is_empty plan.our_run_tag then [] else plan.our_run_tag ∷ [])

-- an entry of GET /cluster/resources
pub record Guest : Type 0 where
  pub vmid : ℕ
  pub node : Text
  pub name : Text
  pub tags : RawTags
  pub template : Bool
  -- the status is running, or stopped, or another
  pub running : Bool
  pub stopped : Bool

-- the label of a slot
pub data Label : Type 0 where
  engine_label engine_template_label jump_label : Label
  team_label : (team box : Text) → Label
  golden_label : (box : Text) → Label

pub record Slot : Type 0 where
  pub vmid : ℕ
  pub label : Label
  pub persistent_template : Bool
  pub template_slot : Bool

nth : {A : Type 0} → ℕ → List A → Option A
nth n [] = none
nth zero (x ∷ xs) = some x
nth (suc n) (x ∷ xs) = nth n xs

engine_slots : Share → ℕ → Option Placement → List Slot
engine_slots share engine_vmid placement =
    let recorded : Option ℕ = elim placement [ none ↦ none | some p ↦ p.engine_template ] in
    if share.is_engine
    then record {
      vmid = engine_vmid;
      label = engine_label;
      persistent_template = false;
      template_slot = false;
    }
      ∷ record {
        vmid = or_else recorded (engine_template_vmid engine_vmid);
        label = engine_template_label;
        persistent_template = not share.multi;
        template_slot = true;
      }
      ∷ []
    else []

pub box_slots : Text → ℕ → ℕ → List Box → List Slot
box_slots team identifier i [] = []
box_slots team identifier i (b ∷ bs) =
    record {
      vmid = vm_id_for identifier i;
      label = team_label team b.name;
      persistent_template = false;
      template_slot = false;
    }
    ∷ box_slots team identifier (suc i) bs

pub team_slots : List Box → List (Text × ℕ) → List Slot
unfolding box_slots
team_slots boxes [] = []
team_slots boxes ((team, identifier) ∷ teams) =
    box_slots team identifier 0 boxes ++ team_slots boxes teams

-- None and an empty list are both false
recorded_goldens : Text → Option Placement → Option (List ℕ)
recorded_goldens name none = none
recorded_goldens name (some p) = elim (lookup name p.golden_vmids) [
  | none ↦ none
  | some vmids ↦ if is_empty vmids then none else some vmids
]

golden_vmid : Share → ℕ → Option (List ℕ) → ℕ → Option ℕ
unfolding nth
golden_vmid share engine_vmid none i = some (golden_vmid_for_slot engine_vmid share.slot i)
golden_vmid share engine_vmid (some vmids) i = nth i vmids

golden_onto : Option ℕ → Box → Option (List Slot) → Option (List Slot)
golden_onto none b rest = none
golden_onto (some v) b none = none
golden_onto (some v) b (some rest) = some (
    record {
      vmid = v;
      label = golden_label b.name;
      persistent_template = false;
      template_slot = true;
    }
    ∷ rest)

-- none where the recorded list is too short
golden_slots : Share → ℕ → Option (List ℕ) → ℕ → List Box → Option (List Slot)
unfolding golden_vmid golden_onto
golden_slots share engine_vmid recorded i [] = some []
golden_slots share engine_vmid recorded i (b ∷ bs) =
    golden_onto (golden_vmid share engine_vmid recorded i) b
      (golden_slots share engine_vmid recorded (suc i) bs)

jump_slots : Share → ℕ → Option Placement → List Slot
jump_slots share engine_vmid placement =
    let satellites : List Satellite = elim placement [ none ↦ [] | some p ↦ p.satellites ] in
    let vmid : ℕ = elim (find (λ s. nat_beq s.slot share.slot) satellites) [
      | none ↦ jump_vmid_for engine_vmid share.slot
      | some s ↦ s.jump_vmid
    ] in
    if ltb 0 share.slot
    then record {
      vmid = vmid;
      label = jump_label;
      persistent_template = false;
      template_slot = false;
    }
      ∷ []
    else []

-- every vmid that the share's deploy will create, none where reading them raises
unfoldable pub expected_slots : Share → Plan → Option (List Slot)
unfolding engine_slots team_slots recorded_goldens golden_slots jump_slots
expected_slots share plan =
    let teams = team_slots plan.boxes share.teams in
    let recorded = recorded_goldens share.name plan.placement in
    elim (golden_slots share plan.engine_vmid recorded 0 plan.boxes) [
      | none ↦ none
      | some goldens ↦ some (
          engine_slots share plan.engine_vmid plan.placement
          ++ (if share.multi
              then goldens ++ jump_slots share plan.engine_vmid plan.placement ++ teams
              else teams ++ goldens))
    ]

unfoldable pub expected_bridges : Share → List Box → List Text
unfolding any
expected_bridges share boxes =
    let team_bridges = map (λ t. text "vmbr" ++ numeral t.1) share.teams in
    if any (λ b. b.in_path) boxes && nat_beq share.slot 0
    then team_bridges ++ map (λ t. text "vmbrW" ++ numeral t.1) share.teams
    else team_bridges
