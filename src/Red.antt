-- ===== src/Red.antt =====
-- infra/red01.py: who holds the vmid of red01, the red team's machine.
pub mod Ours
mod Tests
use tezcatlipoca.Base.{
  ℕ, Bool, true, false, not, ◌&&◌, Option, none, some, List, if◌then◌else◌, is_empty, contains,
  find, nat_beq, Text, text_eq,
}
use tezcatlipoca.Naming.{comp_tag}
use tezcatlipoca.Tags.{parse_vm_tags}
use tezcatlipoca.Proxmox.{joined, Vm}

pub data Occupant : Type 0 where
  absent ours another_run foreign unmarked unknown : Occupant

-- the tags that decide, none where they cannot be read
occupant_of_tags : Text → Text → List Text → Occupant
occupant_of_tags comp run_id tags =
    if is_empty tags
    then unmarked
    else if not (is_empty comp) && not (contains tags (comp_tag comp))
    then foreign
    else if not (is_empty run_id) && not (contains tags run_id)
    then another_run
    else ours

occupant_of_read : Text → Text → Option Text → Occupant
unfolding occupant_of_tags
occupant_of_read comp run_id none = unmarked
occupant_of_read comp run_id (some raw) = occupant_of_tags comp run_id (parse_vm_tags (joined raw))

occupant_of_vm : (Vm → Option Text) → Text → Text → Option Vm → Occupant
unfolding occupant_of_read
occupant_of_vm read_tags comp run_id none = absent
occupant_of_vm read_tags comp run_id (some vm) = occupant_of_read comp run_id (read_tags vm)

-- `cluster` is the list of the cluster's VMs and `read_tags` the tags in a VM's configuration, none
-- where the request raises
unfoldable pub occupant_verdict : Option (List Vm) → (Vm → Option Text) → ℕ → Text → Text → Occupant
unfolding occupant_of_vm
occupant_verdict none read_tags vmid comp run_id = unknown
occupant_verdict (some vms) read_tags vmid comp run_id =
    occupant_of_vm read_tags comp run_id (find (λ v. nat_beq v.vmid vmid) vms)
