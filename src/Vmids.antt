-- ===== src/Vmids.antt =====
-- common/constants.py, common/targets.py, multinode/nodes_config.py and
-- multinode/placement_record.py: the arithmetic of vmids, and the placement record.
-- A team identifier is a numeral in the source and a number here.
pub mod Bands
pub mod Blocks
mod Tests
use tezcatlipoca.Base.{
  ℕ, zero, suc, ◌+◌, ◌-◌, ◌*◌, Option, none, some, List, [], ◌∷◌, ◌++◌, map, leb, if◌then◌else◌,
  is_empty, contains, keep, length, Text, nat_eq, text_eq,
}
use tezcatlipoca.Base.Actions.{Result, ok, err}

abbrev pub max_boxes_per_team : ℕ
max_boxes_per_team = 10

abbrev pub max_satellites : ℕ
max_satellites = 4

unfoldable pub vm_id_for : ℕ → ℕ → ℕ
vm_id_for identifier box_index = 200 + identifier * 10 + box_index

unfoldable pub engine_template_vmid : ℕ → ℕ
engine_template_vmid engine_vmid = engine_vmid + 140

unfoldable pub golden_vmid_for_slot : ℕ → ℕ → ℕ → ℕ
golden_vmid_for_slot engine_vmid slot box_idx =
    engine_vmid + 150 + slot * max_boxes_per_team + box_idx

unfoldable pub jump_vmid_for : ℕ → ℕ → ℕ
jump_vmid_for engine_vmid slot = engine_vmid + 130 + slot

-- red/red01_ops.py
unfoldable pub default_red_vmid : ℕ → ℕ → ℕ
default_red_vmid engine_vmid slots_used = engine_vmid + 150 + (slots_used + 1) * max_boxes_per_team

-- the last octet of 10.0.0.239, less slot - 1, which is 1 more than 239 at slot 0; `none` raises
unfoldable pub default_jump_octet : ℕ → Option ℕ
default_jump_octet slot = if leb 240 slot then none else some (240 - slot)

-- range(start, start + count)
unfoldable pub range_from : ℕ → ℕ → List ℕ
range_from start zero = []
range_from start (suc count) = start ∷ range_from (suc start) count

unfoldable pub golden_slot_span : ℕ → ℕ → List ℕ
golden_slot_span engine_vmid slot =
    map (golden_vmid_for_slot engine_vmid slot) (range_from 0 max_boxes_per_team)

pub record Satellite : Type 0 where
  pub name : Text
  pub slot : ℕ
  pub jump_vmid : ℕ
  pub jump_mgmt_ip : Text

-- the fields of the placement record that the gates read
pub record Placement : Type 0 where
  pub engine_vmid : ℕ
  pub engine_template : Option ℕ
  pub red01 : Option ℕ
  -- by node name
  pub slots : List (Text × ℕ)
  pub golden_vmids : List (Text × List ℕ)
  -- the address that the node's own record sets for its jump, or the empty text
  pub jump_ips : List (Text × Text)
  pub satellites : List Satellite
  -- by team
  pub team_identifiers : List (Text × ℕ)

-- `recorded or derived`: None and 0 are both false
unfoldable pub or_else : Option ℕ → ℕ → ℕ
or_else none d = d
or_else (some zero) d = d
or_else (some (suc n)) d = suc n

spans : ℕ → List (Text × ℕ) → List ℕ
unfolding golden_slot_span
spans engine_vmid [] = []
spans engine_vmid ((name, slot) ∷ rest) =
    golden_slot_span engine_vmid slot ++ spans engine_vmid rest

unfoldable pub reserved_vmids : Placement → List ℕ
unfolding engine_template_vmid or_else default_red_vmid spans
reserved_vmids p =
    p.engine_vmid
    ∷ engine_template_vmid p.engine_vmid
    ∷ or_else p.red01 (default_red_vmid p.engine_vmid (length p.satellites))
    ∷ (spans p.engine_vmid p.slots ++ map (λ s. s.jump_vmid) p.satellites)

-- the team, the first vmid of its block, and what the block clashes with
pub data BlockClash : Type 0 where
  clash : (team : Text) (base : ℕ) (vmids : List ℕ) → BlockClash

check_block : List ℕ → Text → ℕ → Result BlockClash (Unit {0})
check_block reserved team base =
    let found = keep (contains reserved) (range_from base max_boxes_per_team) in
    if is_empty found then ok tt else err (clash team base found)

after_block :
    Result BlockClash (Unit {0}) → Result BlockClash (Unit {0}) → Result BlockClash (Unit {0})
after_block (ok _) rest = rest
after_block (err c) rest = err c

check_blocks : List ℕ → List (Text × ℕ) → Result BlockClash (Unit {0})
unfolding check_block after_block
check_blocks reserved [] = ok tt
check_blocks reserved ((team, identifier) ∷ teams) =
    let rest = check_blocks reserved teams in
    after_block (check_block reserved team (200 + identifier * 10)) rest

unfoldable pub check_team_blocks : Placement → List (Text × ℕ) → Result BlockClash (Unit {0})
unfolding check_blocks reserved_vmids
check_team_blocks p teams = check_blocks (reserved_vmids p) teams
