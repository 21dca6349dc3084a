-- ===== src/Preflight/Tests.antt =====
-- A preflight of one node on which a build of ours was interrupted.
use tezcatlipoca.Base.{
  ℕ, ◌<◌, Bool, true, false, ◌≡◌, ◌⊎◌, ◌↔◌, refl, Option, none, some, List, [], ◌∷◌, All, length,
  contains, Text, text, text_eq, nat_eq, nat_beq, keep, find, any, subset, text_beq, starts_with,
  if◌then◌else◌, ◌||◌, arith,
}
use tezcatlipoca.Base.Actions.{ok, err}
use tezcatlipoca.Proxmox.{Proxmox, joined}
use tezcatlipoca.Vmids.{Placement, Satellite, vm_id_for, reserved_vmids}
use tezcatlipoca.Vmids.Blocks.{IsFree}
use tezcatlipoca.Preflight.{
  Box, Share, Plan, Guest, Slot, numeral, our_tags, expected_slots, expected_bridges, jump_label,
}
use tezcatlipoca.Preflight.Bands.{in_two_bands, bands, check_placement}
use tezcatlipoca.Preflight.Bands.Disjoint.{Disjoint, check_placement_iff}
use tezcatlipoca.Preflight.Collisions.{check_collisions}
use tezcatlipoca.Preflight.Collisions.Vacant.{Vacant, engine_vmids, check_collisions-Vacant}
use tezcatlipoca.Preflight.Addresses.{
  Agent, select_engine_ip, select_red_ip, never_engine, red_band_ips, own_build_vmids, Pin,
  engine_mgmt_ip_gate,
}
use tezcatlipoca.Preflight.Addresses.Scan.{is_silent}
use tezcatlipoca.Preflight.Addresses.Found.{is_free, select_red_ip_iff}
use tezcatlipoca.Preflight.Addresses.Chosen.{select_engine_ip-passes}

numeral_253 : numeral 253 ≡ text "253"
unfolding numeral
numeral_253 = refl

abbrev host : Proxmox
host = record {
  State = Unit;
  list_vms = λ s node. none;
  config = λ s node vmid.
      some (record { tags = []; description = text "tezcatlipoca-clone comp-alpha"; lock = [] });
  networks = λ s node. none;
  storages = λ s node. none;
  volumes = λ s node storage vmid. none;
  send = λ m s. (true, s);
}

abbrev satellite : Satellite
satellite = record {
  name = text "sat1";
  slot = 1;
  jump_vmid = 1031;
  jump_mgmt_ip = text "10.0.0.239";
}

abbrev placement : Placement
placement = record {
  engine_vmid = 900;
  engine_template = none;
  red01 = some 1070;
  slots = (text "main", 0) ∷ (text "sat1", 1) ∷ [];
  golden_vmids = (text "sat1", 1060 ∷ 1061 ∷ []) ∷ [];
  jump_ips = [];
  satellites = satellite ∷ [];
  team_identifiers = (text "blue", 7) ∷ [];
}

-- the jump is given the vmid of a golden
golden_and_jump :
    check_placement
      (some (record placement { satellites = record satellite { jump_vmid = 1061 } ∷ [] }))
    ≡ err (in_two_bands 1061 (text "goldens on sat1") (text "jump on sat1"))
unfolding check_placement text_beq
golden_and_jump = refl

abbrev share : Share
share = record {
  name = [];
  node = text "pve";
  multi = false;
  slot = 0;
  is_engine = true;
  teams = (text "blue", 7) ∷ [];
}

abbrev plan : Plan
plan = record {
  comp_name = text "alpha";
  boxes = record { name = text "web"; in_path = true } ∷ [];
  engine_vmid = 900;
  our_run_tag = text "run-1";
  placement = none;
}

abbrev clone : Guest
clone = record {
  vmid = 270;
  node = text "pve";
  name = text "web";
  tags = joined [];
  template = false;
  running = false;
  stopped = true;
}

abbrev squatter : Guest
squatter = record clone { vmid = 55; tags = joined (text "prod"); running = true; stopped = false }

bridges_of_share : expected_bridges share plan.boxes ≡ text "vmbr7" ∷ text "vmbrW7" ∷ []
unfolding expected_bridges numeral
bridges_of_share = refl

jump_of_satellite :
    expected_slots
      (record share { multi = true; slot = 1; is_engine = false; teams = [] })
      (record plan { boxes = []; placement = some placement })
    ≡ some (
        record {
          vmid = 1031;
          label = jump_label;
          persistent_template = false;
          template_slot = false;
        }
        ∷ [])
unfolding expected_slots find
jump_of_satellite = refl

clone_passes :
    check_collisions host tt share plan (some (text "vmbr0" ∷ [])) (clone ∷ squatter ∷ []) ≡ ok tt
unfolding check_collisions check_placement expected_slots vm_id_for
    tezcatlipoca.Ownership.ownership_verdict tezcatlipoca.Tags.parse_vm_tags
    tezcatlipoca.Ownership.comp_name_from_tags our_tags starts_with tezcatlipoca.Naming.comp_tag
    tezcatlipoca.Base.is_infix tezcatlipoca.Ownership.clone_marker
    tezcatlipoca.Vmids.golden_vmid_for_slot expected_bridges text_beq numeral
clone_passes = refl

-- the squatter answers the first address of the band
abbrev agent : Agent
agent node vmid = some ((record { ip = text "10.0.0.251"; kind = text "ipv4" } ∷ []) ∷ [])

octet : Text → Option ℕ
unfolding text_beq
octet t =
    if text_beq t (text "251") then some 251 else if text_beq t (text "254") then some 254 else none

second_chosen :
    select_engine_ip octet agent [] (squatter ∷ clone ∷ []) [] (900 ∷ []) (our_tags plan)
    ≡ some (some (text "10.0.0.252"), [])
unfolding select_engine_ip our_tags tezcatlipoca.Tags.parse_vm_tags tezcatlipoca.Tags.is_space
    text_beq tezcatlipoca.Preflight.Addresses.guest_ipv4s octet tezcatlipoca.Vmids.range_from
    numeral
second_chosen = refl

red_lowest :
    select_red_ip agent (squatter ∷ []) (text "10.0.0.240" ∷ []) [] []
    ≡ (some (text "10.0.0.241"), [])
unfolding select_red_ip tezcatlipoca.Preflight.Addresses.guest_ipv4s tezcatlipoca.Vmids.range_from
    text_beq numeral
red_lowest = refl

check_placement_iff_example : (check_placement (some placement) ≡ ok tt) ↔ (
    Disjoint (bands placement)
    × All (λ t. IsFree (reserved_vmids placement) t.1) placement.team_identifiers)
check_placement_iff_example = check_placement_iff placement refl

check_collisions-Vacant_example :
    All
      (λ t.
        (j : ℕ)
        → j < length plan.boxes
        → Vacant host tt share plan (clone ∷ squatter ∷ []) (vm_id_for t.1 j))
      share.teams
    × All
        (Vacant host tt share plan (clone ∷ squatter ∷ []))
        (engine_vmids host tt share plan (clone ∷ squatter ∷ []))
    × (existing : List Text) × (some (text "vmbr0" ∷ []) ≡ some existing)
    × All (λ b. contains existing b ≡ false) (expected_bridges share plan.boxes)
check_collisions-Vacant_example =
    check_collisions-Vacant host tt share plan (clone ∷ squatter ∷ []) (some (text "vmbr0" ∷ []))
      clone_passes

own_engine :
    (e v : ℕ)
    → contains (e ∷ []) v ≡ true
    → contains (own_build_vmids (squatter ∷ clone ∷ []) e (our_tags plan)) v ≡ true
unfolding own_build_vmids contains
own_engine e v h = ground arith

abbrev pin : Pin
pin = record { configured = []; is_default = false; is_auto_selected = true }

select_engine_ip-passes_example :
    (engine_mgmt_ip_gate agent (squatter ∷ clone ∷ []) 900 (text "10.0.0.252") (our_tags plan) pin
      ≡ ok tt)
    × (contains [] (text "10.0.0.252") ≡ false)
    × (contains never_engine (text "10.0.0.252") ≡ false)
select_engine_ip-passes_example =
    select_engine_ip-passes octet agent [] (squatter ∷ clone ∷ []) [] (900 ∷ []) (our_tags plan)
      (text "10.0.0.252") [] 900 pin second_chosen (own_engine 900)

select_red_ip_iff_example :
    ((ip : Text) × ((select_red_ip agent (squatter ∷ []) [] [] []).0 ≡ some ip)) ↔ (
      (any (is_silent agent [] []) (squatter ∷ []) ≡ false)
      × (any (is_free agent (squatter ∷ []) [] [] []) red_band_ips ≡ true))
select_red_ip_iff_example = select_red_ip_iff agent (squatter ∷ []) [] [] []
