-- ===== src/Preflight/Collisions.antt =====
-- infra/collisions.py: `check_collisions`, the refuse_found to create over what is there. The lines that
-- it prints, and the words of its refuse_found, are not modelled.
pub mod Vacant
use tezcatlipoca.Base.{
  ℕ, Bool, true, false, not, ◌&&◌, ◌||◌, Option, none, some, List, [], ◌∷◌, if◌then◌else◌, any,
  find, keep, contains, is_empty, nat_beq, Text, text, text_eq, starts_with, text_beq,
}
use tezcatlipoca.Base.Actions.{Result, ok, err}
use tezcatlipoca.Naming.{comp_tag}
use tezcatlipoca.Tags.{parse_vm_tags}
use tezcatlipoca.Proxmox.{Proxmox}
use tezcatlipoca.Ownership.{Verdict, owned, marker, unproven, missing, ownership_verdict}
use tezcatlipoca.Preflight.{Share, Plan, Guest, Slot, our_tags, expected_slots, expected_bridges}
use tezcatlipoca.Preflight.Bands.{Inconsistent, check_placement}

-- vm_by_vmid: the last VM of those with the same vmid stays
vm_by_vmid : List Guest → List Guest
unfolding any
vm_by_vmid [] = []
vm_by_vmid (v ∷ vs) =
    let rest = vm_by_vmid vs in if any (λ w. nat_beq w.vmid v.vmid) vs then rest else v ∷ rest

unfoldable pub holder : ℕ → List Guest → Option Guest
unfolding vm_by_vmid find
holder vmid vms = find (λ v. nat_beq v.vmid vmid) (vm_by_vmid vms)

-- what the loop does with a slot: nothing is there, our template stays, an interrupted clone or an
-- unconverted build is taken over later, or the slot is refused
pub data Fate : Type 0 where
  free reused reclaimed rebuilt leftover clashing : Fate

pub data Collision : Type 0 where
  inconsistent : (found : Inconsistent) → Collision
  -- the recorded goldens are fewer than the boxes
  no_golden : Collision
  no_networks : Collision
  -- with whether another run of the competition is there
  occupied : (clashes leftovers : List Slot) (bridges : List Text) (another_run : Bool) → Collision

is_marker : Verdict → Bool
is_marker owned = false
is_marker marker = true
is_marker unproven = false
is_marker missing = false

is_foreign : Text → List Text → Bool
unfolding any
is_foreign own = any (λ t. starts_with (text "comp-") t && not (text_beq t own))

fate_of_vm : Text → Slot → Guest → Verdict → List Text → Fate
unfolding is_marker is_foreign
fate_of_vm own slot vm verdict tags =
    if (slot.persistent_template || slot.template_slot) && vm.template && contains tags own
    then reused
    else if is_marker verdict
    then reclaimed
    else if slot.template_slot && not vm.template && not (is_foreign own tags)
    then rebuilt
    else if contains tags own
    then leftover
    else clashing

is_leftover : Fate → Bool
is_leftover leftover = true
is_leftover _ = false

is_clash : Fate → Bool
is_clash clashing = true
is_clash _ = false

-- `run and run not in tags`, on a VM with our competition's tag
of_another_run : Text → Text → List Text → Bool
of_another_run own run tags = contains tags own && not (is_empty run) && not (contains tags run)

module _ (px : Proxmox) where
  fate_of : px.State → Share → Plan → List Guest → Slot → Fate
  unfolding holder fate_of_vm
  fate_of s share plan vms slot = elim (holder slot.vmid vms) [
    | none ↦ free
    | some vm ↦
        fate_of_vm (comp_tag plan.comp_name) slot vm
          (ownership_verdict px s share.node slot.vmid vm.tags (our_tags plan)).0
          (parse_vm_tags vm.tags)
  ]

  refuse_found : Plan → List Guest → List Slot → List Slot → List Text → Result Collision (Unit {0})
  unfolding any vm_by_vmid of_another_run
  refuse_found plan vms clashes leftovers bridges =
      if is_empty clashes && is_empty leftovers && is_empty bridges
      then ok tt
      else err (
          occupied clashes leftovers bridges (
            any
              (λ v.
                of_another_run (comp_tag plan.comp_name) plan.our_run_tag (parse_vm_tags v.tags))
              (vm_by_vmid vms)))

  check_slots :
      px.State
      → Share
      → Plan
      → Option (List Text)
      → List Guest
      → List Slot
      → Result Collision (Unit {0})
  unfolding keep is_clash is_leftover fate_of refuse_found
  check_slots s share plan none vms slots = err no_networks
  check_slots s share plan (some existing) vms slots =
      refuse_found plan vms (keep (λ slot. is_clash (fate_of s share plan vms slot)) slots)
        (keep (λ slot. is_leftover (fate_of s share plan vms slot)) slots)
        (keep (contains existing) (expected_bridges share plan.boxes))

  after_placement :
      Result Inconsistent (Unit {0})
      → Option (List Slot)
      → (List Slot → Result Collision (Unit {0}))
      → Result Collision (Unit {0})
  after_placement (err e) slots check = err (inconsistent e)
  after_placement (ok _) none check = err no_golden
  after_placement (ok _) (some slots) check = check slots

  -- with what GET /nodes/{node}/network answers: the interfaces, or none where it raises
  unfoldable pub check_collisions :
      px.State → Share → Plan → Option (List Text) → List Guest → Result Collision (Unit {0})
  unfolding after_placement check_slots
  check_collisions s share plan networks vms =
      after_placement (check_placement plan.placement) (expected_slots share plan)
        (check_slots s share plan networks vms)
