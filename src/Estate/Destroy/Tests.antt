-- ===== src/Estate/Destroy/Tests.antt =====
-- The teardown of an estate one box of which is another run's.
use tezcatlipoca.Base.{
  ℕ, true, false, not, ◌&&◌, ◌≡◌, refl, inl, Option, none, some, List, [], ◌∷◌, keep, Text, text,
  text_eq, text_beq, find, subset,
}
use tezcatlipoca.Base.Actions.{ok}
use tezcatlipoca.Proxmox.{
  joined, Vm, Network, Mutation, unlock, stop, delete, delete_volume, put_tags, delete_bridge,
  apply_network, Proxmox,
}
use tezcatlipoca.Estate.Rows.{Row}
use tezcatlipoca.Estate.Rows.Kinds.{rows_of}
use tezcatlipoca.Estate.Destroy.{Report, clones_remain}
use tezcatlipoca.Estate.Destroy.Tiers.{Estate, destroy_tier, destroy_estate}
use tezcatlipoca.Estate.Destroy.Tiers.Conserved.{tally, count, reported, destroy_tier-reports}
use tezcatlipoca.Estate.Destroy.Tiers.Templates.{destroy_estate-templates}

-- a service that keeps the bridges of one node, and lists one machine
without : Text → List Network → List Network
unfolding keep text_beq
without bridge = keep (λ n. not (text_beq n.iface bridge))

after_request : Mutation → List Network → List Network
unfolding without
after_request (unlock node vmid) ns = ns
after_request (stop node vmid) ns = ns
after_request (delete node vmid) ns = ns
after_request (delete_volume node storage volid owner) ns = ns
after_request (put_tags node vmid tags) ns = ns
after_request (delete_bridge node bridge) ns = without bridge ns
after_request (apply_network node) ns = ns

abbrev theirs : Vm
theirs = record {
  vmid = 270;
  name = text "web";
  tags = joined (text "tezcatlipoca;comp-alpha;run-2");
  running = true;
}

host : Proxmox
unfolding after_request
host = record {
  State = List Network;
  list_vms = λ ns node. some (theirs ∷ []);
  config = λ ns node vmid.
      some (record { tags = text "tezcatlipoca;comp-alpha;run-2"; description = []; lock = [] });
  networks = λ ns node. some ns;
  storages = λ ns node. some [];
  volumes = λ ns node storage vmid. some [];
  send = λ m ns. (true, after_request m ns);
}

abbrev vmbr7 : Network
vmbr7 = record {
  iface = text "vmbr7";
  comments = text "tezcatlipoca comp-alpha run-1";
  kind = some (text "bridge");
}

abbrev row : Text → Text → Option ℕ → Row
row kind name vmid = record {
  kind = kind;
  node = text "pve";
  name = name;
  vmid = vmid;
  bridge = none;
  tags = [];
  at = [];
}

abbrev box : Row
box = row (text "team_box") (text "web") (some 270)

abbrev golden : Row
golden = row (text "golden") (text "web") (some 1050)

abbrev bridge : Row
bridge = row (text "bridge") (text "vmbr7") none

estate : Estate host
unfolding host
estate = record {
  rows = box ∷ golden ∷ bridge ∷ [];
  world = record { state = vmbr7 ∷ []; sent = [] };
}

abbrev report : Report
report = record { destroyed = bridge ∷ []; refused = box ∷ []; skipped = golden ∷ []; kept = [] }

-- the box is refused, so the golden is skipped, and the bridge goes
whole_estate : (destroy_estate host (text "alpha") (text "run-1") true none estate).0 ≡ ok report
unfolding destroy_estate text_beq estate find tezcatlipoca.Tags.parse_vm_tags
    tezcatlipoca.Tags.is_space subset tezcatlipoca.Naming.ownership_tags
    tezcatlipoca.Naming.comp_tag tezcatlipoca.Ownership.Bridges.bridge_owned_by
    tezcatlipoca.Tags.tokens
whole_estate = refl

box_remains :
    clones_remain none
      (text "golden")
      (destroy_estate host (text "alpha") (text "run-1") true none estate).1.rows
    ≡ true
unfolding clones_remain text_beq destroy_estate estate find tezcatlipoca.Tags.parse_vm_tags
    tezcatlipoca.Tags.is_space subset tezcatlipoca.Naming.ownership_tags
    tezcatlipoca.Naming.comp_tag tezcatlipoca.Ownership.Bridges.bridge_owned_by
    tezcatlipoca.Tags.tokens tezcatlipoca.Estate.Rows.resource_identity
box_remains = refl

destroy_estate-templates_example :
    rows_of
      (text "golden")
      (destroy_estate host (text "alpha") (text "run-1") true none estate).1.rows
    ≡ rows_of (text "golden") estate.rows
destroy_estate-templates_example =
    destroy_estate-templates host (text "alpha") (text "run-1") true none (text "golden") estate
      report (inl refl) whole_estate box_remains

abbrev bridges_report : Report
bridges_report = record { destroyed = bridge ∷ []; refused = []; skipped = []; kept = [] }

bridges_tier :
    (destroy_tier host (text "alpha") (text "run-1") (text "bridge") none none estate).0
    ≡ ok bridges_report
unfolding destroy_tier estate tezcatlipoca.Ownership.Bridges.bridge_owned_by subset
    tezcatlipoca.Tags.tokens tezcatlipoca.Tags.is_space tezcatlipoca.Naming.comp_tag
bridges_tier = refl

not_golden : text_beq (text "bridge") (text "golden") ≡ false
unfolding text_beq
not_golden = refl

destroy_tier-reports_example :
    (tally (λ r. true) bridges_report
      ≡ count
          (λ r. reported host (text "alpha") (text "run-1") (text "bridge") none none r && true)
          (rows_of (text "bridge") estate.rows))
    × (rows_of
          (text "golden")
          (destroy_tier host (text "alpha") (text "run-1") (text "bridge") none none estate).1.rows
        ≡ rows_of (text "golden") estate.rows)
destroy_tier-reports_example =
    destroy_tier-reports host (text "alpha") (text "run-1") (text "bridge") none none estate
      bridges_report (λ r. true) (text "golden") not_golden bridges_tier
