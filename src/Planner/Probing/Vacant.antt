-- ===== src/Planner/Probing/Vacant.antt =====
-- multinode/placement_planner.py: what a probe that is well says of each VM on the node.
use std.Option.{some-injective}
use tezcatlipoca.Base.{
  ℕ, true, false, ◌&&◌, ◌≡◌, Option, some, List, [], ◌∷◌, ◌++◌, map, arith, All, any, contains,
  is_empty, Text, text, text_beq_iff, text_eq, starts_with,
}
use tezcatlipoca.Naming.{comp_tag}
use tezcatlipoca.Tags.{parse_vm_tags}
use tezcatlipoca.Preflight.{Guest}
use tezcatlipoca.Planner.{Node, Team}
use tezcatlipoca.Planner.Probing.{
  Answers, is_kept_template, is_of_other_comp, not_a_collision, last_at, is_collision, probe_node,
}
use tezcatlipoca.Planner.Probing.Ready.{NoBridges, on_node, probe_node_clear}
use tezcatlipoca.Planner.Probing.Vmids.{
  IsTemplateSlot, IsWanted, NoneAt, template_slots-IsTemplateSlot, contains-wanted_vmids,
  All-contains, last_at-there,
}

-- the VM may stand in a template slot of the competition: a stopped template has the competition's
-- tag, and any other VM has no other competition's
pub IsOfComp : Text → Guest → Type 0
IsOfComp comp vm =
    (vm.template ≡ true
      → vm.stopped ≡ true
      → contains (parse_vm_tags vm.tags) (comp_tag comp) ≡ true)
    × ((vm.template && vm.stopped) ≡ false
        → All (λ t. starts_with (text "comp-") t ≡ true → t ≡ comp_tag comp)
            (parse_vm_tags vm.tags))

is_of_other_comp-none :
    (own : Text) (tags : List Text)
    → is_of_other_comp own tags ≡ false
    → All (λ t. starts_with (text "comp-") t ≡ true → t ≡ own) tags
unfolding is_of_other_comp any
is_of_other_comp-none own [] h = tt
is_of_other_comp-none own (t ∷ tags) h =
    let same = text_beq_iff t own in
    ((λ s. ground arith), is_of_other_comp-none own tags (ground arith))

not_a_collision-IsOfComp :
    (comp : Text) (engine : ℕ) (vm : Guest)
    → not_a_collision comp engine vm ≡ true
    → IsTemplateSlot engine vm.vmid × IsOfComp comp vm
unfolding not_a_collision IsOfComp is_kept_template
not_a_collision-IsOfComp comp engine vm h =
    let tags = parse_vm_tags vm.tags in
    let slot = template_slots-IsTemplateSlot engine vm.vmid in
    (
      slot (ground arith),
      ((λ t s. ground arith), (λ k. is_of_other_comp-none (comp_tag comp) tags (ground arith))),
    )

is_collision-none :
    (comp : Text) (engine : ℕ) (vms : List Guest) (vm : Guest)
    → last_at vm.vmid vms ≡ some vm
    → is_collision comp engine vms vm.vmid ≡ false
    → not_a_collision comp engine vm ≡ true
unfolding is_collision
is_collision-none comp engine vms vm found free =
    let q = rw (is_collision, found) at free in ground arith

-- Let a VM that the node's service lists stand on the node, be the last there with its vmid, and
-- have a vmid that a placement may use there: the engine's, a jump's, a template slot's or one of a
-- team's ten. When the probe of the node is well, that vmid is a template slot's, so the VM stands on
-- no vmid of the engine, a jump or a team outside of these slots; as a stopped template it has the
-- competition's tag, and otherwise it has no tag of another competition. Also the token is set, the
-- status could be read, and if the interfaces could be read, none is the bridge of a team.
pub probe_node-ok :
    {W : Type 0}
    → (rec : Node W) (need : List Text) (engine_vmid : ℕ) (teams : List Team) (comp : Text)
      (answers : Answers) (before : List Guest) (vm : Guest) (after : List Guest)
    → answers.vms ≡ some (before ++ vm ∷ after)
    → vm.node ≡ rec.node
    → NoneAt rec.node vm.vmid after
    → IsWanted engine_vmid (map (λ t. t.number) teams) vm.vmid
    → (probe_node rec need engine_vmid teams comp answers).ok ≡ true
    → (is_empty answers.token ≡ false)
      × ((mem : Option ℕ) × (answers.status ≡ some mem))
      × NoBridges answers.networks teams
      × IsTemplateSlot engine_vmid vm.vmid
      × IsOfComp comp vm
probe_node-ok rec need engine_vmid teams comp answers before vm after listed here last wanted h =
    let (token, status, (vms, read, clear), bridges) =
      probe_node_clear rec need engine_vmid teams comp answers h in
    let same : vms ≡ before ++ vm ∷ after = some-injective (cc) in
    let free =
      All-contains (is_collision comp engine_vmid (on_node rec.node vms)) _ vm.vmid clear
        (contains-wanted_vmids engine_vmid _ vm.vmid wanted) in
    let found = last_at-there rec.node before vm after here last in
    let own = not_a_collision-IsOfComp comp engine_vmid vm (
      is_collision-none comp engine_vmid (on_node rec.node (before ++ vm ∷ after)) vm found
        (rw same at free)) in
    (token, status, bridges, own.0, own.1)
