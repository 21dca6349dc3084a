-- ===== src/Preflight/Addresses/Jumps.antt =====
-- infra/collisions.py: `scan_vms_for`, `share_mgmt_bridge`, `check_mgmt_bridge` and
-- `jump_mgmt_ip_gate`, over the machines that every hosting node lists.
use tezcatlipoca.Base.{
  Bool, false, not, ◌&&◌, ◌||◌, Option, none, some, List, [], ◌∷◌, ◌++◌, map, if◌then◌else◌, any,
  keep, contains, is_empty, nat_beq, Text, text_beq, text_eq,
}
use tezcatlipoca.Base.Actions.{Result, ok, err}
use tezcatlipoca.Base.Dict.{lookup}
use tezcatlipoca.Vmids.{Placement, Satellite}
use tezcatlipoca.Preflight.{Share, Plan, Guest, our_tags}
use tezcatlipoca.Preflight.Addresses.{
  Agent, is_taken, running_guest_ips, Refused, is_answered, unverified,
}

same_machine : Guest → Guest → Bool
same_machine v w = nat_beq v.vmid w.vmid && text_beq v.node w.node

-- the union of the lists of several nodes: the first entry for a vmid on a node stays
scan_onto : List Guest → List Guest → List Guest
unfolding same_machine any
scan_onto out [] = out
scan_onto out (vm ∷ vms) = scan_onto (if any (same_machine vm) out then out else out ++ vm ∷ []) vms

scan_all : List Guest → List (List Guest) → List Guest
unfolding scan_onto
scan_all out [] = out
scan_all out (vms ∷ rest) = scan_all (scan_onto out vms) rest

-- scan_vms_for, over what each node lists
unfoldable scan_vms_for : List (List Guest) → List Guest
unfolding scan_all
scan_vms_for = scan_all []

-- resolved_mgmt_bridge, with the bridge that the placement records, or the empty text, and the one
-- that the profile gives
resolved_mgmt_bridge : Text → Text → Text
resolved_mgmt_bridge recorded profile = if is_empty recorded then profile else recorded

-- with the bridge of the node's own record, where there is a placement and the share has a name
unfoldable share_mgmt_bridge : Share → Option Text → Text → Text → Text
unfolding resolved_mgmt_bridge
share_mgmt_bridge share none recorded profile = resolved_mgmt_bridge recorded profile
share_mgmt_bridge share (some own) recorded profile =
    if is_empty share.name || is_empty own then resolved_mgmt_bridge recorded profile else own

-- whether the bridge is among the interfaces of the node
unfoldable check_mgmt_bridge : List Text → Text → Bool
unfolding contains
check_mgmt_bridge interfaces bridge = contains interfaces bridge

on_its_node : List (Share × List Guest) → List Guest
unfolding keep
on_its_node [] = []
on_its_node ((share, vms) ∷ rest) = keep (λ v. text_beq v.node share.node) vms ++ on_its_node rest

own_jump_ip : Placement → Satellite → Bool
unfolding lookup
own_jump_ip p s = elim (lookup s.name p.jump_ips) [ none ↦ false | some ip ↦ not (is_empty ip) ]

-- The refusal of an address that could not be verified is itself not built: its message reads the
-- labels of the machines as if they were records, which raises a TypeError.
unfoldable jump_mgmt_ip_gate :
    Agent → Plan → Placement → List (Share × List Guest) → Result Refused (Unit {0})
unfolding on_its_node running_guest_ips is_taken own_jump_ip any keep our_tags
jump_mgmt_ip_gate agent plan p shares =
    let ips = map (λ s. s.jump_mgmt_ip) p.satellites in
    let (takers, unchecked) =
      running_guest_ips agent (on_its_node shares)
        (plan.engine_vmid ∷ map (λ s. s.jump_vmid) p.satellites) (our_tags plan) in
    let dupes = keep (is_taken takers) ips in
    if is_empty ips
    then ok tt
    else if not (is_empty dupes)
    then err (is_answered dupes)
    else if not (is_empty unchecked) && any (λ s. not (own_jump_ip p s)) p.satellites
    then err (unverified unchecked)
    else ok tt
