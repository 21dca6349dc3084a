-- ===== src/Vmids/Tests.antt =====
-- The vmids of a placement with two satellites.
use tezcatlipoca.Base.{
  ℕ, ◌+◌, ◌≤◌, ◌<◌, ◌≡◌, refl, ◌↔◌, Option, none, some, List, [], ◌∷◌, All, Text, text, arith,
}
use tezcatlipoca.Base.Actions.{ok, err}
use tezcatlipoca.Vmids.{
  vm_id_for, engine_template_vmid, golden_vmid_for_slot, jump_vmid_for, default_red_vmid,
  default_jump_octet, max_satellites, Satellite, Placement, reserved_vmids, clash,
  check_team_blocks,
}
use tezcatlipoca.Vmids.Blocks.{IsFree, check_team_blocks_iff}

abbrev satellite : Satellite
satellite = record {
  name = text "sat1";
  slot = 1;
  jump_vmid = 1031;
  jump_mgmt_ip = text "10.0.0.239";
}

abbrev placement : Placement
placement = record {
  engine_vmid = 900;
  engine_template = none;
  red01 = none;
  slots = (text "main", 0) ∷ (text "sat1", 1) ∷ [];
  golden_vmids = [];
  jump_ips = [];
  satellites = satellite ∷ [];
  team_identifiers = [];
}

far_team : check_team_blocks placement ((text "blue", 7) ∷ []) ≡ ok tt
unfolding check_team_blocks tezcatlipoca.Base.keep tezcatlipoca.Vmids.range_from
    tezcatlipoca.Base.contains golden_vmid_for_slot
far_team = refl

team_on_goldens :
    check_team_blocks placement ((text "red", 85) ∷ [])
    ≡ err (
        clash
          (text "red")
          1050
          (1050 ∷ 1051 ∷ 1052 ∷ 1053 ∷ 1054 ∷ 1055 ∷ 1056 ∷ 1057 ∷ 1058 ∷ 1059 ∷ []))
unfolding check_team_blocks tezcatlipoca.Base.keep tezcatlipoca.Vmids.range_from
    tezcatlipoca.Base.contains golden_vmid_for_slot
team_on_goldens = refl

check_team_blocks_iff_example :
    (check_team_blocks placement ((text "red", 85) ∷ []) ≡ ok tt)
    ↔ All {A = Text × ℕ} (λ t. IsFree (reserved_vmids placement) t.1) ((text "red", 85) ∷ [])
check_team_blocks_iff_example = check_team_blocks_iff placement ((text "red", 85) ∷ [])
