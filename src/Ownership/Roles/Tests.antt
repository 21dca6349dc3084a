-- ===== src/Ownership/Roles/Tests.antt =====
-- Stamping a VM of another run, on a service that keeps one configuration.
use tezcatlipoca.Base.{
  ℕ, Bool, true, false, ◌≡◌, refl, ◌⊎◌, Option, none, some, List, [], ◌∷◌, ◌++◌, arith, All,
  contains, subset, find, Text, text, text_eq, starts_with,
}
use tezcatlipoca.Base.Actions.{ok}
use tezcatlipoca.Tags.{parse_vm_tags, join_tags}
use tezcatlipoca.Tags.RoundTrip.{IsTag}
use tezcatlipoca.Proxmox.{
  joined, Vm, Config, Mutation, unlock, stop, delete, delete_volume, put_tags, delete_bridge,
  apply_network, Proxmox,
}
use tezcatlipoca.Ownership.{World}
use tezcatlipoca.Ownership.Roles.{Skip, other_run, destroy_role_template, retag_ownership}
use tezcatlipoca.Ownership.Roles.Retag.{
  StoresTags, destroy_role_template_skip, retag_ownership_guard,
}

abbrev golden : Vm
golden = record { vmid = 1050; name = text "golden"; tags = joined []; running = false }

abbrev store : Mutation → Config → Config
store (unlock node vmid) cfg = cfg
store (stop node vmid) cfg = cfg
store (delete node vmid) cfg = cfg
store (delete_volume node storage volid vmid) cfg = cfg
store (put_tags node vmid tags) cfg = record cfg { tags = tags }
store (delete_bridge node bridge) cfg = cfg
store (apply_network node) cfg = cfg

abbrev service : Proxmox
service = record {
  State = Config;
  list_vms = λ cfg node. some (golden ∷ []);
  config = λ cfg node vmid. some cfg;
  networks = λ cfg node. some [];
  storages = λ cfg node. some [];
  volumes = λ cfg node storage vmid. some [];
  send = λ m cfg. (true, store m cfg);
}

abbrev node : Text
node = text "pve"

abbrev last_run : List Text
last_run = text "comp-cde" ∷ text "run-1" ∷ []

abbrev this_run : List Text
this_run = text "comp-cde" ∷ text "run-2" ∷ []

abbrev before : World service
before = record {
  state = record { tags = text "comp-cde;run-1"; description = []; lock = [] };
  sent = [];
}

service-StoresTags : StoresTags service node 1050
service-StoresTags s tags h = (record s { tags = tags }, refl, refl)

this_run-IsTag : All IsTag this_run
unfolding tezcatlipoca.Tags.is_space
this_run-IsTag = ground arith

stamped : (retag_ownership service node 1050 this_run before).0 ≡ ok tt
unfolding retag_ownership subset parse_vm_tags tezcatlipoca.Tags.is_space tezcatlipoca.Base.text_beq
    find starts_with
stamped = refl

left_alone :
    (destroy_role_template service node 1050 this_run before).0 ≡ ok (some (other_run last_run))
unfolding destroy_role_template tezcatlipoca.Ownership.Roles.vm_occupancy find parse_vm_tags
    tezcatlipoca.Tags.is_space subset tezcatlipoca.Base.text_beq
    tezcatlipoca.Ownership.comp_name_from_tags starts_with tezcatlipoca.Naming.comp_tag
left_alone = refl

named : find (starts_with (text "comp-")) this_run ≡ some (text "comp-cde")
unfolding find starts_with
named = refl

destroy_role_template_skip_example :
    (destroy_role_template service node 1050 this_run before).1 ≡ before
destroy_role_template_skip_example =
    destroy_role_template_skip service node 1050 this_run before (other_run last_run) left_alone

retag_ownership_guard_example :
    ((retag_ownership service node 1050 this_run before).1 ≡ before)
    ⊎ ((cfg : Config) × (service.config before.state node 1050 ≡ some cfg)
        × (contains (parse_vm_tags (joined cfg.tags)) (text "comp-cde") ≡ true)
        × ((retag_ownership service node 1050 this_run before).1.sent
            ≡ before.sent ++ put_tags node 1050 (join_tags this_run) ∷ []))
retag_ownership_guard_example =
    retag_ownership_guard service node 1050 this_run before (text "comp-cde") named refl
