-- ===== src/Planner/Tests.antt =====
-- Runs of the placement planner, and witnesses of its properties.
use tezcatlipoca.Base.{
  inl, inr, ℕ, ◌+◌, ◌-◌, ◌*◌, ◌≤◌, ◌<◌, Bool, true, false, ◌&&◌, ◌≡◌, refl, ◌⊎◌, Option, none, some,
  List, [], ◌∷◌, map, keep, All, any, contains, is_empty, length, ltb, Text, text, text_beq,
  text_eq, nat_eq, arith,
}
use tezcatlipoca.Base.Actions.{Result, ok, err}
use tezcatlipoca.Base.Dict.{IsDict}
use tezcatlipoca.Naming.{comp_tag}
use tezcatlipoca.Vmids.{engine_template_vmid, max_satellites, reserved_vmids}
use tezcatlipoca.Vmids.Blocks.{IsFree}
use tezcatlipoca.Preflight.{Guest}
use tezcatlipoca.Proxmox.{joined}
use tezcatlipoca.Planner.{Node, Team, Box, Probe}
use tezcatlipoca.Planner.Nodes.{Entry, unset, duplicate_names, File, no_file, object, load_nodes}
use tezcatlipoca.Planner.Nodes.Sound.{IsSound, load_nodes-Sound}
use tezcatlipoca.Planner.Routes.{route_to, satellite_routes}
use tezcatlipoca.Planner.Routes.Reach.{IsReached, satellite_routes-IsReached}
use tezcatlipoca.Planner.Probing.{Answers, not_a_collision, probe_node}
use tezcatlipoca.Planner.Probing.Ready.{NoBridges}
use tezcatlipoca.Planner.Probing.Vmids.{IsTemplateSlot, IsWanted, NoneAt}
use tezcatlipoca.Planner.Probing.Vacant.{IsOfComp, probe_node-ok}
use tezcatlipoca.Planner.Place.{Refused, no_node, node_names, resolve_overrides, teams_at}
use tezcatlipoca.Planner.Place.Capacity.{HasOwnNames, capacity}
use tezcatlipoca.Planner.Place.Filled.{Assigned}
use tezcatlipoca.Planner.Compute.{Placed, to_record, compute_placement}
use tezcatlipoca.Planner.Compute.Assigned.{
  compute_placement-capacity, compute_placement-Assigned, compute_placement-bound,
}
use tezcatlipoca.Planner.Compute.Satellites.{compute_placement-satellites}

-- the headroom in whole bytes
abbrev headroom : ℕ → ℕ → ℕ → ℕ
headroom mem taken weight = (mem - taken) * weight

abbrev host : Text → ℕ → Node ℕ
host name max_teams = record {
  name = name;
  endpoint = [];
  node = name;
  datastore = [];
  token_env = [];
  engine_base_vmid = 0;
  jump_mgmt_ip = [];
  weight = 1;
  max_teams = max_teams;
}

abbrev hosts : List (Node ℕ)
hosts = host (text "a") 1 ∷ host (text "b") 1 ∷ []

abbrev team : ℕ → Text → Team
team number key = record { key = key; identifier = key; number = number }

abbrev two_teams : List Team
two_teams = team 1 (text "t1") ∷ team 2 (text "t2") ∷ []

abbrev three_teams : List Team
three_teams = team 1 (text "t1") ∷ team 2 (text "t2") ∷ team 3 (text "t3") ∷ []

abbrev one_box : List Box
one_box = record { template = text "deb"; memory_mb = none } ∷ []

abbrev well : Text → Probe
well name = record {
  ok = true;
  reasons = [];
  missing_templates = [];
  collisions = [];
  mem_free_bytes = some 8589934592;
  running_ours = 0;
  templates = (text "deb", 100) ∷ [];
}

abbrev onto_b : List (Text × Text)
onto_b = (text "t1", text "b") ∷ []

abbrev placement : Result Refused Placed
placement = compute_placement headroom ltb hosts two_teams 900 [] one_box well onto_b []

abbrev placed : Placed
placed = record {
  engine_node = text "a";
  slots = (text "a", 0) ∷ (text "b", 1) ∷ [];
  team_nodes = (text "t1", text "b") ∷ (text "t2", text "a") ∷ [];
  satellites =
      record {
        name = text "b";
        slot = 1;
        teams = text "t1" ∷ [];
        jump_vmid = 1031;
        jump_mgmt_ip = text "10.0.0.239";
        anchor = some (text "t1");
      }
      ∷ [];
}

runs : placement ≡ ok placed
unfolding compute_placement text_beq tezcatlipoca.Vmids.range_from
    tezcatlipoca.Vmids.golden_vmid_for_slot
runs = refl

-- a third team finds no place on two nodes of one place each
lacks :
    compute_placement headroom ltb hosts three_teams 900 [] one_box well onto_b []
    ≡ err (no_node (text "t3" ∷ []))
unfolding compute_placement text_beq
lacks = refl

own_names : HasOwnNames hosts
unfolding HasOwnNames contains text_beq
own_names = (refl, (refl, tt))

resolves : resolve_overrides (node_names hosts) two_teams onto_b [] ≡ ok onto_b
unfolding resolve_overrides text_beq
resolves = refl

caps : All (λ r. text_beq r.name (text "b") ≡ true → r.max_teams ≤ 1) hosts
caps = ((λ h. ground arith), ((λ h. ground arith), tt))

few : teams_at (text "b") onto_b ≤ 1
unfolding teams_at keep text_beq
few = ground arith

-- a machine of another competition in a slot of the own templates is a collision, an untagged one
-- is not
stray : Text → Guest
stray tags = record {
  name = text "m";
  node = text "a";
  vmid = engine_template_vmid 900;
  tags = joined tags;
  template = false;
  running = true;
  stopped = false;
}

strays :
    map
      (λ tags. not_a_collision (text "x") 900 (stray tags))
      ([] ∷ text "comp-y" ∷ text "comp-x" ∷ [])
    ≡ true ∷ false ∷ true ∷ []
unfolding not_a_collision stray tezcatlipoca.Tags.is_space tezcatlipoca.Base.starts_with text_beq
    comp_tag
strays = refl

compute_placement-capacity_example : capacity one_box well hosts < 3
compute_placement-capacity_example =
    compute_placement-capacity headroom ltb hosts three_teams 900 [] one_box well onto_b []
      own_names (text "t3" ∷ []) lacks

compute_placement-Assigned_example :
    All (λ t. Assigned headroom ltb hosts [] one_box well onto_b placed.team_nodes t.key) two_teams
compute_placement-Assigned_example =
    compute_placement-Assigned headroom ltb hosts two_teams 900 [] one_box well onto_b [] onto_b
      resolves placed runs

compute_placement-bound_example : teams_at (text "b") placed.team_nodes ≤ 1
compute_placement-bound_example =
    compute_placement-bound headroom ltb hosts two_teams 900 [] one_box well onto_b [] onto_b
      resolves placed runs (text "b") 1 caps few

compute_placement-satellites_example :
    (length placed.satellites ≤ max_satellites)
    × IsDict (map (λ s. (s.jump_mgmt_ip, s.name)) placed.satellites)
    × All
        (λ q.
          (q.1 ≡ placed.engine_node)
          ⊎ (any (λ s. text_beq s.name q.1 && contains s.teams q.0) placed.satellites ≡ true))
        placed.team_nodes
    × All {A = Text × ℕ}
        (λ t. IsFree (reserved_vmids (to_record 900 two_teams placed)) t.1)
        (map (λ t. (t.key, t.number)) two_teams)
compute_placement-satellites_example =
    compute_placement-satellites headroom ltb hosts two_teams 900 [] one_box well onto_b [] placed
      runs

-- a node with a machine of no competition at the vmid of the engine's template, and one at a vmid
-- that no placement uses
abbrev quiet : Answers
quiet = record {
  token = text "key";
  status = some (some 1024);
  vms = some (record (stray []) { vmid = 5 } ∷ stray [] ∷ record (stray []) { vmid = 6 } ∷ []);
  networks = some (text "vmbr0" ∷ []);
}

is_well : (probe_node (host (text "a") 1) [] 900 two_teams (text "x") quiet).ok ≡ true
unfolding probe_node text_beq stray tezcatlipoca.Vmids.golden_vmid_for_slot
is_well = refl

stray-vmid : (stray []).vmid ≡ 1040
unfolding stray engine_template_vmid
stray-vmid = refl

stray-IsWanted : IsWanted 900 (map (λ t. t.number) two_teams) (stray []).vmid
unfolding IsWanted IsTemplateSlot stray engine_template_vmid
stray-IsWanted = inr (inr (inl (inl refl)))

stray-last : NoneAt (text "a") (stray []).vmid (record (stray []) { vmid = 6 } ∷ [])
unfolding NoneAt stray engine_template_vmid
stray-last = ((λ h k. omega arith), tt)

stray-node : (stray []).node ≡ text "a"
unfolding stray
stray-node = refl

probe_node-ok_example :
    (is_empty quiet.token ≡ false)
    × ((mem : Option ℕ) × (quiet.status ≡ some mem))
    × NoBridges quiet.networks two_teams
    × IsTemplateSlot 900 (stray []).vmid
    × IsOfComp (text "x") (stray [])
probe_node-ok_example =
    probe_node-ok (host (text "a") 1) [] 900 two_teams (text "x") quiet
      (record (stray []) { vmid = 5 } ∷ []) (stray []) (record (stray []) { vmid = 6 } ∷ []) refl
      stray-node stray-last stray-IsWanted is_well

abbrev entry : Text → Entry ℕ
entry name = record {
  name = name;
  endpoint = text "https://h/";
  node = name;
  datastore = text "d";
  token_env = name;
  engine_base_vmid = 0;
  jump_mgmt_ip = [];
  weight = none;
  max_teams = unset;
}

abbrev read_node : Text → Node ℕ
read_node name = record {
  name = name;
  endpoint = text "https://h";
  node = name;
  datastore = text "d";
  token_env = name;
  engine_base_vmid = 0;
  jump_mgmt_ip = [];
  weight = 1;
  max_teams = 8;
}

abbrev two_entries : List (Option (Entry ℕ))
two_entries = some (entry (text "a")) ∷ some (entry (text "b")) ∷ []

abbrev file : File ℕ ℕ
file = object two_entries 7

abbrev found : List (Node ℕ) × ℕ
found = (read_node (text "a") ∷ read_node (text "b") ∷ [], 7)

loads_two : load_nodes (ltb 0) 1 file ≡ ok (some found)
unfolding load_nodes text_beq
loads_two = refl

nothing_there : load_nodes {B = ℕ} (ltb 0) 1 no_file ≡ ok none
unfolding load_nodes
nothing_there = refl

refuses_twice :
    load_nodes {B = ℕ} (ltb 0) 1 (object (some (entry (text "a")) ∷ some (entry (text "a")) ∷ []) 7)
    ≡ err duplicate_names
unfolding load_nodes text_beq
refuses_twice = refl

load_nodes-Sound_example :
    ((file ≡ no_file) × (some found ≡ none))
    ⊎ ((es : List (Option (Entry ℕ))) × (b : ℕ) × (rs : List (Node ℕ)) × (file ≡ object es b)
        × (some found ≡ some (rs, b))
        × IsSound (ltb 0) 1 es rs)
load_nodes-Sound_example = load_nodes-Sound (ltb 0) 1 file (some found) loads_two

abbrev identifiers : List (Text × Text)
identifiers = (text "t1", text "t1") ∷ (text "t2", text "t2") ∷ []

-- the anchor's route is that of its team
one_route :
    satellite_routes identifiers placed.satellites
    ≡ some (route_to (text "t1") (text "10.0.0.239") ∷ [])
unfolding satellite_routes text_beq
one_route = refl

satellite_routes-IsReached_example :
    All
      (λ s.
        All
          (IsReached identifiers (route_to (text "t1") (text "10.0.0.239") ∷ []) s.jump_mgmt_ip)
          s.teams)
      placed.satellites
satellite_routes-IsReached_example =
    satellite_routes-IsReached identifiers placed.satellites
      (route_to (text "t1") (text "10.0.0.239") ∷ []) one_route
