-- ===== src/Red/Ours.antt =====
-- infra/red01.py: the proof on which the occupant of red01's vmid counts as this run's.
use tezcatlipoca.Base.{
  ℕ, true, false, ◌≡◌, ◌↔◌, Option, none, some, List, [], ◌∷◌, arith, is_empty, contains, find,
  nat_beq, Text, text_eq,
}
use tezcatlipoca.Naming.{comp_tag}
use tezcatlipoca.Tags.{parse_vm_tags}
use tezcatlipoca.Proxmox.{joined, Vm}
use tezcatlipoca.Red.{ours, occupant_of_tags, occupant_of_read, occupant_of_vm, occupant_verdict}

-- the tags could be read and name the competition and the run
abbrev pub NamesRun : Text → Text → Option Text → Type 0
NamesRun comp run_id none = ⊥
NamesRun comp run_id (some raw) =
    (contains (parse_vm_tags (joined raw)) (comp_tag comp) ≡ true)
    × (contains (parse_vm_tags (joined raw)) run_id ≡ true)

abbrev pub IsOurs : (Vm → Option Text) → Text → Text → Option Vm → Type 0
IsOurs read_tags comp run_id none = ⊥
IsOurs read_tags comp run_id (some vm) = NamesRun comp run_id (read_tags vm)

-- the cluster could be listed, and the VM at the vmid is this run's
abbrev pub HoldsOurs : Option (List Vm) → (Vm → Option Text) → ℕ → Text → Text → Type 0
HoldsOurs none read_tags vmid comp run_id = ⊥
HoldsOurs (some vms) read_tags vmid comp run_id =
    IsOurs read_tags comp run_id (find (λ v. nat_beq v.vmid vmid) vms)

ours_of_tags :
    (comp run_id : Text) (tags : List Text)
    → is_empty comp ≡ false
    → is_empty run_id ≡ false
    → (occupant_of_tags comp run_id tags ≡ ours)
      ↔ ((contains tags (comp_tag comp) ≡ true) × (contains tags run_id ≡ true))
unfolding occupant_of_tags contains
ours_of_tags comp run_id [] named run = (λ h. cc, λ h. cc)
ours_of_tags comp run_id (t ∷ ts) named run = ground arith

ours_of_read :
    (comp run_id : Text) (read : Option Text)
    → is_empty comp ≡ false
    → is_empty run_id ≡ false
    → (occupant_of_read comp run_id read ≡ ours) ↔ NamesRun comp run_id read
unfolding occupant_of_read
ours_of_read comp run_id none named run = (λ h. cc, λ h. absurd h)
ours_of_read comp run_id (some raw) named run =
    ours_of_tags comp run_id (parse_vm_tags (joined raw)) named run

ours_of_vm :
    (read_tags : Vm → Option Text) (comp run_id : Text) (vm : Option Vm)
    → is_empty comp ≡ false
    → is_empty run_id ≡ false
    → (occupant_of_vm read_tags comp run_id vm ≡ ours) ↔ IsOurs read_tags comp run_id vm
unfolding occupant_of_vm
ours_of_vm read_tags comp run_id none named run = (λ h. cc, λ h. absurd h)
ours_of_vm read_tags comp run_id (some vm) named run =
    ours_of_read comp run_id (read_tags vm) named run

-- For a competition with a name and a run with an id, the occupant of a vmid counts as this run's
-- exactly when the cluster could be listed, it lists a VM under the vmid, and the tags in that VM's
-- configuration could be read and contain both the competition's tag and the run id.
pub occupant_verdict-ours :
    (cluster : Option (List Vm)) (read_tags : Vm → Option Text) (vmid : ℕ) (comp run_id : Text)
    → is_empty comp ≡ false
    → is_empty run_id ≡ false
    → (occupant_verdict cluster read_tags vmid comp run_id ≡ ours)
      ↔ HoldsOurs cluster read_tags vmid comp run_id
unfolding occupant_verdict
occupant_verdict-ours none read_tags vmid comp run_id named run = (λ h. cc, λ h. absurd h)
occupant_verdict-ours (some vms) read_tags vmid comp run_id named run =
    ours_of_vm read_tags comp run_id (find (λ v. nat_beq v.vmid vmid) vms) named run
