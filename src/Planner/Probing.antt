-- ===== src/Planner/Probing.antt =====
-- multinode/placement_planner.py: `probe_node`, over what the node's service answers. A set of vmids
-- is the list of its members.
pub mod Vmids
pub mod Ready
pub mod Vacant
use tezcatlipoca.Base.{
  ℕ, suc, Bool, true, false, not, ◌&&◌, Option, none, some, List, [], ◌∷◌, ◌++◌, map, if◌then◌else◌,
  any, keep, contains, minus, is_empty, length, nat_beq, ltb, insert_text, Text, text, text_beq,
  text_eq, nat_eq, starts_with,
}
use tezcatlipoca.Base.Dict.{put, keys}
use tezcatlipoca.Naming.{comp_tag}
use tezcatlipoca.Tags.{parse_vm_tags}
use tezcatlipoca.Vmids.{
  engine_template_vmid, golden_slot_span, jump_vmid_for, range_from, max_satellites,
  max_boxes_per_team, vm_id_for,
}
use tezcatlipoca.Preflight.{Guest}
use tezcatlipoca.Planner.{
  Node, Team, Probe, Reason, no_token, unreachable, vmid_collisions, bridge_collisions,
}

-- what the service of a node answers; a request that raises gives none
pub record Answers : Type 0 where
  pub token : Text
  -- the free memory, with none for a status without it
  pub status : Option (Option ℕ)
  pub vms : Option (List Guest)
  -- the interfaces of the node
  pub networks : Option (List Text)

abbrev no_probe : Probe
no_probe = record {
  ok = true;
  reasons = [];
  missing_templates = [];
  collisions = [];
  mem_free_bytes = none;
  running_ours = 0;
  templates = [];
}

refused_probe : Reason → Probe
refused_probe reason = record no_probe { ok = false; reasons = reason ∷ [] }

-- `template` is 1 and the status is stopped
pub is_kept_template : Guest → Bool
is_kept_template vm = vm.template && vm.stopped

templates_onto : List (Text × ℕ) → List Guest → List (Text × ℕ)
unfolding put contains parse_vm_tags is_kept_template
templates_onto found [] = found
templates_onto found (vm ∷ vms) =
    templates_onto
      (if is_kept_template vm && contains (parse_vm_tags vm.tags) (text "template")
        then put vm.name vm.vmid found
        else found)
      vms

count_ours : List Guest → ℕ
unfolding keep contains parse_vm_tags
count_ours vms =
    length (keep (λ vm. contains (parse_vm_tags vm.tags) (text "tezcatlipoca") && vm.running) vms)

pub slots_span : ℕ → List ℕ → List ℕ
unfolding golden_slot_span
slots_span engine_vmid [] = []
slots_span engine_vmid (slot ∷ slots) =
    golden_slot_span engine_vmid slot ++ slots_span engine_vmid slots

-- the slots of the engine and of the most satellites
abbrev all_slots : List ℕ
all_slots = range_from 0 (suc max_satellites)

-- the slots that a template of this run may occupy
unfoldable pub template_slots : ℕ → List ℕ
unfolding engine_template_vmid slots_span
template_slots engine_vmid = engine_template_vmid engine_vmid ∷ slots_span engine_vmid all_slots

team_vmids : List ℕ → List ℕ
unfolding range_from vm_id_for
team_vmids [] = []
team_vmids (number ∷ numbers) =
    range_from (vm_id_for number 0) max_boxes_per_team ++ team_vmids numbers

-- every vmid that a placement could use on the node
unfoldable pub wanted_vmids : ℕ → List ℕ → List ℕ
unfolding template_slots team_vmids jump_vmid_for
wanted_vmids engine_vmid numbers =
    engine_vmid
    ∷ (template_slots engine_vmid
        ++ map (jump_vmid_for engine_vmid) all_slots
        ++ team_vmids numbers)

-- the last of the VMs of a vmid
pub last_at : ℕ → List Guest → Option Guest
last_at vmid [] = none
last_at vmid (vm ∷ vms) = elim (last_at vmid vms) [
  | none ↦ if nat_beq vm.vmid vmid then some vm else none
  | some w ↦ some w
]

pub is_of_other_comp : Text → List Text → Bool
unfolding any
is_of_other_comp own = any (λ t. starts_with (text "comp-") t && not (text_beq t own))

-- what stands in a slot of this run's own templates, and is no other competition's
unfoldable pub not_a_collision : Text → ℕ → Guest → Bool
unfolding template_slots contains parse_vm_tags is_kept_template is_of_other_comp
not_a_collision comp engine_vmid vm =
    let tags = parse_vm_tags vm.tags in
    contains (template_slots engine_vmid) vm.vmid
    && (if is_kept_template vm
        then contains tags (comp_tag comp)
        else not (is_of_other_comp (comp_tag comp) tags))

unfoldable pub is_collision : Text → ℕ → List Guest → ℕ → Bool
unfolding last_at not_a_collision
is_collision comp engine_vmid vms vmid = elim (last_at vmid vms) [
  | none ↦ false
  | some vm ↦ not (not_a_collision comp engine_vmid vm)
]

-- sorted(set(vmids))
insert_vmid : ℕ → List ℕ → List ℕ
insert_vmid v [] = v ∷ []
insert_vmid v (w ∷ ws) =
    let rest = insert_vmid v ws in
    if ltb v w then v ∷ w ∷ ws else if nat_beq v w then w ∷ ws else w ∷ rest

sorted_vmids : List ℕ → List ℕ
unfolding insert_vmid
sorted_vmids [] = []
sorted_vmids (v ∷ vs) = insert_vmid v (sorted_vmids vs)

sorted_texts : List Text → List Text
unfolding insert_text
sorted_texts [] = []
sorted_texts (t ∷ ts) = insert_text t (sorted_texts ts)

with_collisions : List ℕ → Probe → Probe
with_collisions [] p = p
with_collisions (v ∷ vs) p = record p {
  ok = false;
  reasons = p.reasons ++ vmid_collisions (v ∷ vs) ∷ [];
  collisions = v ∷ vs;
}

-- a node whose networks cannot be read has no bridge collisions
with_bridges : Option (List Text) → List Text → Probe → Probe
unfolding keep contains
with_bridges none identifiers p = p
with_bridges (some bridges) identifiers p =
    let bad = keep (λ i. contains bridges (text "vmbr" ++ i)) identifiers in
    if is_empty bad
    then p
    else record p { ok = false; reasons = p.reasons ++ bridge_collisions bad ∷ [] }

-- before the collisions are looked for
read_probe : List Text → Option ℕ → List Guest → Probe
unfolding templates_onto count_ours minus sorted_texts
read_probe need mem here =
    let found = templates_onto [] here in
    record no_probe {
      missing_templates = sorted_texts (minus need (keys found));
      mem_free_bytes = mem;
      running_ours = count_ours here;
      templates = found;
    }

probe_read :
    Text
    → ℕ
    → List Text
    → List Team
    → Option (Option ℕ)
    → Option (List Guest)
    → Option (List Text)
    → Text
    → Probe
unfolding read_probe sorted_vmids keep is_collision wanted_vmids with_collisions with_bridges
probe_read node engine_vmid need teams none vms networks comp = refused_probe unreachable
probe_read node engine_vmid need teams (some mem) none networks comp = refused_probe unreachable
probe_read node engine_vmid need teams (some mem) (some vms) networks comp =
    let here = keep (λ vm. text_beq vm.node node) vms in
    with_bridges networks (map (λ t. t.identifier) teams) (
      with_collisions
        (sorted_vmids (
          keep (is_collision comp engine_vmid here)
            (wanted_vmids engine_vmid (map (λ t. t.number) teams))))
        (read_probe need mem here))

-- probe_node, with the teams whose identifiers it gets
unfoldable pub probe_node :
    {W : Type 0} → Node W → List Text → ℕ → List Team → Text → Answers → Probe
unfolding refused_probe probe_read
probe_node rec need engine_vmid teams comp answers =
    if is_empty answers.token
    then refused_probe no_token
    else probe_read rec.node engine_vmid need teams answers.status answers.vms answers.networks comp
