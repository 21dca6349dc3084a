-- ===== src/Teardown/Inventory.antt =====
-- teardown/inventory.py: what the nodes list, and which of it carries the ownership set or the
-- competition's tag. A view is what one generation of the inventory holds of a node.
use tezcatlipoca.Base.{
  Option, none, some, List, [], ◌∷◌, ◌++◌, map, contains, subset, keep, Text, text_eq,
}
use tezcatlipoca.Naming.{comp_tag}
use tezcatlipoca.Tags.{parse_vm_tags}
use tezcatlipoca.Proxmox.{Vm}

pub record View : Type 0 where
  pub node : Text
  -- none where the listing failed
  pub vms : Option (List Vm)

unfoldable pub listing_failed : List View → List Text
listing_failed [] = []
listing_failed (v ∷ vs) =
    let rest = listing_failed vs in elim v.vms [ none ↦ v.node ∷ rest | some _ ↦ rest ]

-- every VM of the nodes that could be listed, with its node
unfoldable pub listed_vms : List View → List (Text × Vm)
listed_vms [] = []
listed_vms (v ∷ vs) =
    let rest = listed_vms vs in
    elim v.vms [ none ↦ rest | some vms ↦ map (λ vm. (v.node, vm)) vms ++ rest ]

unfoldable pub owned : List Text → List View → List (Text × Vm)
unfolding listed_vms
owned ownership views = keep (λ p. subset ownership (parse_vm_tags p.1.tags)) (listed_vms views)

unfoldable pub comp_tagged : Text → List View → List (Text × Vm)
unfolding listed_vms
comp_tagged comp views =
    keep (λ p. contains (parse_vm_tags p.1.tags) (comp_tag comp)) (listed_vms views)
