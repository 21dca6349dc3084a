-- ===== src/Planner/Compute.antt =====
-- multinode/placement_planner.py: `compute_placement` from its parts, with the satellites.
pub mod Parts
pub mod Raises
pub mod Assigned
pub mod Satellites
use tezcatlipoca.Base.{
  ℕ, zero, suc, ◌+◌, ◌-◌, Bool, true, false, not, ◌&&◌, ◌||◌, Option, none, some, List, [], ◌∷◌,
  ◌++◌, map, if◌then◌else◌, any, find, keep, contains, is_empty, length, nat_beq, ltb, text_ltb,
  insert_text, Text, text, text_beq, text_eq,
}
use tezcatlipoca.Base.Actions.{Result, ok, err}
use tezcatlipoca.Base.Dict.{lookup}
use tezcatlipoca.Vmids.{
  Placement, Satellite, BlockClash, jump_vmid_for, default_jump_octet, max_satellites,
  check_team_blocks,
}
use tezcatlipoca.Preflight.{numeral}
use tezcatlipoca.Planner.{Node, Team, Box, Probe}
use tezcatlipoca.Planner.Place.{
  TeamNodes, Refused, no_node, too_many_satellites, no_jump_address, duplicate_jump, unknown_node,
  blocks_clash, node_names, resolve_overrides, prefer_index, preferred_before, Ledger, fill_nodes,
  engine_node,
}

-- insertion into a list in the order of `sorted`, without a second copy
pub insert_preferred : List Text → Text → List Text → List Text
unfolding preferred_before
insert_preferred prefer n [] = n ∷ []
insert_preferred prefer n (m ∷ ms) =
    let rest = insert_preferred prefer n ms in
    if text_beq n m then m ∷ ms else if preferred_before prefer n m then n ∷ m ∷ ms else m ∷ rest

-- the nodes of the teams but the engine's, in order
pub other_nodes : List Text → Text → TeamNodes → List Text
unfolding insert_preferred
other_nodes prefer engine [] = []
other_nodes prefer engine ((key, n) ∷ placed) =
    let rest = other_nodes prefer engine placed in
    if text_beq n engine then rest else insert_preferred prefer n rest

-- {name: i for i, name in enumerate(used)}
pub number_from : ℕ → List Text → List (Text × ℕ)
number_from i [] = []
number_from i (n ∷ ns) = (n, i) ∷ number_from (suc i) ns

-- the keys of a node's teams in order
teams_on_node : TeamNodes → Text → List Text
unfolding insert_text
teams_on_node [] name = []
teams_on_node ((key, n) ∷ placed) name =
    let rest = teams_on_node placed name in if text_beq n name then insert_text key rest else rest

-- the identifier of the team with the least number, the first of those in the order of their keys
least_number : List Text → List Team → Option Team
unfolding find
least_number [] teams = none
least_number (key ∷ keys) teams = elim (find (λ t. text_beq t.key key) teams) [
  | none ↦ least_number keys teams
  | some t ↦ elim (least_number keys teams) [
    | none ↦ some t
    | some u ↦ some (if ltb u.number t.number then u else t)
  ]
]

anchor_identifier : List Team → TeamNodes → Text → Option Text
unfolding teams_on_node least_number
anchor_identifier teams placed name = elim (least_number (teams_on_node placed name) teams) [
  | none ↦ none
  | some t ↦ some t.identifier
]

pub record SatelliteNode : Type 0 where
  pub name : Text
  pub slot : ℕ
  pub teams : List Text
  pub jump_vmid : ℕ
  pub jump_mgmt_ip : Text
  pub anchor : Option Text

-- default_jump_mgmt_ip
default_jump_ip : ℕ → Option Text
unfolding default_jump_octet numeral
default_jump_ip slot = elim (default_jump_octet slot) [
  | none ↦ none
  | some octet ↦ some (text "10.0.0." ++ numeral octet)
]

-- the placement that is computed, less the copies of its arguments
pub record Placed : Type 0 where
  pub engine_node : Text
  pub slots : List (Text × ℕ)
  pub team_nodes : TeamNodes
  pub satellites : List SatelliteNode

jump_of : Text → ℕ → Option Text
unfolding default_jump_ip
jump_of own slot = if is_empty own then default_jump_ip slot else some own

-- {k: i} as the check of the team blocks reads it
pub to_record : ℕ → List Team → Placed → Placement
to_record engine_vmid teams p = record {
  engine_vmid = engine_vmid;
  engine_template = none;
  red01 = none;
  slots = p.slots;
  golden_vmids = [];
  jump_ips = [];
  satellites =
      map
        (λ s. record {
          name = s.name;
          slot = s.slot;
          jump_vmid = s.jump_vmid;
          jump_mgmt_ip = s.jump_mgmt_ip;
        })
        p.satellites;
  team_identifiers = map (λ t. (t.key, t.number)) teams;
}

checked : Placed → Result BlockClash (Unit {0}) → Result Refused Placed
checked p (ok _) = ok p
checked p (err c) = err (blocks_clash c)

onto_satellites :
    SatelliteNode → Result Refused (List SatelliteNode) → Result Refused (List SatelliteNode)
onto_satellites s (ok ss) = ok (s ∷ ss)
onto_satellites s (err e) = err e

module _ {W : Type 0} (records : List (Node W)) (teams : List Team) (engine_vmid : ℕ) where
  -- `seen` maps a jump's address to its node
  pub satellites_from :
      TeamNodes → ℕ → List (Text × Text) → List Text → Result Refused (List SatelliteNode)
  unfolding find lookup jump_of anchor_identifier jump_vmid_for onto_satellites keep
  satellites_from placed slot seen [] = ok []
  satellites_from placed slot seen (name ∷ names) =
      elim (find (λ r. text_beq r.name name) records) [
        | none ↦ err (unknown_node name)
        | some rec ↦ elim (jump_of rec.jump_mgmt_ip slot) [
          | none ↦ err (no_jump_address slot)
          | some ip ↦ elim (lookup ip seen) [
            | some first ↦ err (duplicate_jump ip first name)
            | none ↦
                onto_satellites
                  (record {
                    name = name;
                    slot = slot;
                    teams = map (λ p. p.0) (keep (λ p. text_beq p.1 name) placed);
                    jump_vmid = jump_vmid_for engine_vmid slot;
                    jump_mgmt_ip = ip;
                    anchor = anchor_identifier teams placed name;
                  })
                  (satellites_from placed (suc slot) ((ip, name) ∷ seen) names)
          ]
        ]
      ]

  pub finish :
      Text → List Text → TeamNodes → Result Refused (List SatelliteNode) → Result Refused Placed
  unfolding number_from to_record checked check_team_blocks
  finish engine others placed (err e) = err e
  finish engine others placed (ok satellites) =
      let p : Placed = record {
        engine_node = engine;
        slots = number_from 0 (engine ∷ others);
        team_nodes = placed;
        satellites = satellites;
      } in
      checked p
        (check_team_blocks (to_record engine_vmid teams p) (map (λ t. (t.key, t.number)) teams))

  pub build : List Text → TeamNodes → Result Refused Text → Result Refused Placed
  unfolding other_nodes satellites_from finish
  build prefer placed (err e) = err e
  build prefer placed (ok engine) =
      let others = other_nodes prefer engine placed in
      if ltb max_satellites (length others)
      then err (too_many_satellites (length others))
      else finish engine others placed (satellites_from placed 1 [] others)

module _ {W F : Type 0} (scaled : ℕ → ℕ → W → F) (float_ltb : F → F → Bool) where
  module _ (records : List (Node W)) (teams : List Team) (engine_vmid : ℕ) where
    after_fill : List Text → List Box → (Text → Probe) → Text → Ledger → Result Refused Placed
    unfolding build engine_node
    after_fill prefer boxes probes engine_override l =
        if is_empty l.skipped
        then build records teams engine_vmid prefer l.placed
            (engine_node records prefer probes engine_override l.placed)
        else err (no_node l.skipped)

    unfoldable pub compute_placement :
        List Text → List Box → (Text → Probe) → List (Text × Text) → Text → Result Refused Placed
    unfolding resolve_overrides after_fill fill_nodes
    compute_placement prefer boxes probes team_overrides engine_override =
        elim (resolve_overrides (node_names records) teams team_overrides []) [
          | err e ↦ err e
          | ok placed ↦
              after_fill prefer boxes probes engine_override
                (fill_nodes scaled float_ltb records prefer boxes probes teams placed)
        ]
