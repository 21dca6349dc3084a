-- ===== src/Ownership/Roles.antt =====
-- infra/ownership.py: the occupant of a vmid, the destruction of a role template and the stamping of
-- a VM with the tags of the present run. An ownership set is the sorted list of its members.
pub mod Retag
mod Tests
use tezcatlipoca.Base.{
  ℕ, Bool, true, false, not, ◌&&◌, ◌||◌, ◌≡◌, refl, sym, ap, ◌∙◌, ◌⊎◌, inl, inr, Option, none, some,
  List, [], ◌∷◌, ◌++◌, arith, if◌then◌else◌, is_empty, All, contains, subset, find, nat_beq,
  Bool-cases, Option-cases, Text, text, text_eq, starts_with, subset_refl,
}
use tezcatlipoca.Base.Actions.{Act, Result, ok, err, continue, pure, ◌>>=◌, ◌>>◌}
use tezcatlipoca.Naming.{comp_tag}
use tezcatlipoca.Tags.{parse_vm_tags, join_tags}
use tezcatlipoca.Tags.RoundTrip.{IsTag, parse_vm_tags-join_tags}
use tezcatlipoca.Proxmox.{joined, Vm, Config, Mutation, put_tags, Proxmox}
use tezcatlipoca.Ownership.{
  Verdict, owned, marker, unproven, missing, comp_name_from_tags, Failure, request_failed, find_vm,
  World, request, ownership_verdict, destroy_vm_if_exists,
}

-- what `vm_occupancy` returns: absent, unknown, or a verdict with the tags
pub data Occupancy : Type 0 where
  absent unreadable : Occupancy
  occupied : (verdict : Verdict) (tags : List Text) → Occupancy

-- the messages of `destroy_role_template`
pub data Skip : Type 0 where
  unclassified : Skip
  other_run : (tags : List Text) → Skip
  foreign : (tags : List Text) → Skip

names_comp : Option Text → List Text → Bool
names_comp none tags = false
names_comp (some comp) tags = not (is_empty comp) && contains tags (comp_tag comp)

-- `missing` with this competition's tag is another run of it
skip_missing : List Text → List Text → Skip
unfolding names_comp
skip_missing expect tags =
    if names_comp (comp_name_from_tags expect) tags then other_run tags else foreign tags

-- no competition's tag in the set, or the VM carries it
may_retag : Option Text → List Text → Bool
may_retag none tags = true
may_retag (some comp) tags = is_empty comp || contains tags comp

module _ (px : Proxmox) where
  occupancy_read : px.State → Text → ℕ → List Text → Option Config → Occupancy
  unfolding ownership_verdict
  occupancy_read s node vmid expect none = unreadable
  occupancy_read s node vmid expect (some cfg) =
      occupied (ownership_verdict px s node vmid (joined cfg.tags) expect).0
        (parse_vm_tags (joined cfg.tags))

  occupancy_found : px.State → Text → ℕ → List Text → Option Vm → Occupancy
  unfolding occupancy_read
  occupancy_found s node vmid expect none = absent
  occupancy_found s node vmid expect (some vm) =
      occupancy_read s node vmid expect (px.config s node vmid)

  occupancy_listed : px.State → Text → ℕ → List Text → Option (List Vm) → Occupancy
  unfolding occupancy_found
  occupancy_listed s node vmid expect none = unreadable
  occupancy_listed s node vmid expect (some vms) =
      occupancy_found s node vmid expect (find_vm vmid vms)

  unfoldable pub vm_occupancy : px.State → Text → ℕ → List Text → Occupancy
  unfolding occupancy_listed
  vm_occupancy s node vmid expect = occupancy_listed s node vmid expect (px.list_vms s node)

  destroy_role : Text → ℕ → List Text → Occupancy → Act Failure (World px) (Option Skip)
  unfolding skip_missing
  destroy_role node vmid expect absent = pure none
  destroy_role node vmid expect unreadable = pure (some unclassified)
  destroy_role node vmid expect (occupied owned tags) =
      destroy_vm_if_exists px node vmid (some expect) false >> pure none
  destroy_role node vmid expect (occupied marker tags) =
      destroy_vm_if_exists px node vmid (some expect) false >> pure none
  destroy_role node vmid expect (occupied missing tags) = pure (some (skip_missing expect tags))
  destroy_role node vmid expect (occupied unproven tags) = pure (some (foreign tags))

  unfoldable pub destroy_role_template : Text → ℕ → List Text → Act Failure (World px) (Option Skip)
  unfolding destroy_role
  destroy_role_template node vmid expect w =
      destroy_role node vmid expect (vm_occupancy w.state node vmid expect) w

  retag_read : Text → ℕ → List Text → Option Config → Act Failure (World px) (Unit {0})
  unfolding may_retag request
  retag_read node vmid ownership none w = (err request_failed, w)
  retag_read node vmid ownership (some cfg) w =
      let tags = parse_vm_tags (joined cfg.tags) in
      if subset ownership tags
      then (ok tt, w)
      else if may_retag (find (starts_with (text "comp-")) ownership) tags
      then request px (put_tags node vmid (join_tags ownership)) w
      else (ok tt, w)

  unfoldable pub retag_ownership : Text → ℕ → List Text → Act Failure (World px) (Unit {0})
  unfolding retag_read
  retag_ownership node vmid ownership w =
      retag_read node vmid ownership (px.config w.state node vmid) w
