-- ===== src/Ownership/Tests.antt =====
-- infra/ownership.py on one host that holds a box of a competition and an interrupted clone.
use tezcatlipoca.Base.{
  inr, text_eq, ℕ, Bool, true, false, ◌≡◌, refl, ◌↔◌, ◌⊎◌, ◌≢◌, arith, is_empty, Option, none, some,
  List, [], ◌∷◌, ◌++◌, map, find, keep, nat_beq, not, Text, text, subset, contains, minus,
  starts_with, is_infix,
}
use tezcatlipoca.Base.Actions.{ok, err}
use tezcatlipoca.Naming.{comp_tag, comp_slug, ownership_tags}
use tezcatlipoca.Tags.{join_tags, parse_vm_tags, tokens}
use tezcatlipoca.Proxmox.{
  joined, Vm, Config, Mutation, unlock, stop, delete, delete_volume, put_tags, delete_bridge,
  apply_network, Proxmox,
}
use tezcatlipoca.Ownership.{
  owned, outside, request_failed, clone_marker, find_vm, World, ownership_verdict,
  destroy_vm_if_exists,
}
use tezcatlipoca.Ownership.Guard.{Proven, destroy_vm-Proven}
use tezcatlipoca.Ownership.Requests.{Sends, destroy_vm-Sends}
use tezcatlipoca.Ownership.Effects.{removal, destroy_vm_refusal, destroy_vm_requests}
use tezcatlipoca.Ownership.Bridges.{
  bridge_comment, bridge_owned_by, IsRunId, bridge_owned_by-bridge_comment,
}
use tezcatlipoca.Ownership.Classify.{IsRole, owned_iff}

record Machine : Type 0 where
  vm : Vm
  cfg : Config

abbrev apply : Mutation → List Machine → List Machine
apply (delete node vmid) = keep (λ m. not (nat_beq m.vm.vmid vmid))
apply (unlock node vmid) = λ ms. ms
apply (stop node vmid) = λ ms. ms
apply (delete_volume node storage volid vmid) = λ ms. ms
apply (put_tags node vmid tags) = λ ms. ms
apply (delete_bridge node bridge) = λ ms. ms
apply (apply_network node) = λ ms. ms

-- a host on which every request succeeds
abbrev host : Proxmox
host = record {
  State = List Machine;
  list_vms = λ ms node. some (map (λ m. m.vm) ms);
  config = λ ms node vmid. elim (find (λ m. nat_beq m.vm.vmid vmid) ms) [
    | none ↦ none
    | some m ↦ some m.cfg
  ];
  networks = λ ms node. some [];
  storages = λ ms node. some (text "local" ∷ []);
  volumes = λ ms node storage vmid. some [];
  send = λ m ms. (true, apply m ms);
}

abbrev comp : Text
comp = text "CDE 2026"

abbrev run_id : Text
run_id = text "run-1a2b"

abbrev other_run : Text
other_run = text "run-9f"

abbrev box : Machine
box = record {
  vm = record {
    vmid = 211;
    name = text "web-team1";
    tags = joined (text "tezcatlipoca;comp-cde-2026;run-1a2b");
    running = true;
  };
  cfg = record {
    tags = text "tezcatlipoca;comp-cde-2026;run-1a2b";
    description = [];
    lock = text "clone";
  };
}

abbrev half_clone : Machine
half_clone = record {
  vm = record { vmid = 212; name = text "db-team1"; tags = joined []; running = false };
  cfg = record { tags = []; description = clone_marker comp; lock = [] };
}

abbrev before : World host
before = record { state = box ∷ half_clone ∷ []; sent = [] }

abbrev node : Text
node = text "pve"

abbrev ours : List Text
ours = ownership_tags comp run_id []

abbrev theirs : List Text
theirs = ownership_tags comp other_run []

abbrev listing : List Vm
listing = box.vm ∷ half_clone.vm ∷ []

found_box : find_vm 211 listing ≡ some box.vm
unfolding find
found_box = refl

destroys_own_box : (destroy_vm_if_exists host node 211 (some ours) true before).0 ≡ ok tt
unfolding destroy_vm_if_exists ownership_tags ownership_verdict parse_vm_tags find keep subset
    contains starts_with comp_tag comp_slug is_infix tezcatlipoca.Tags.is_space
    tezcatlipoca.Base.text_beq
destroys_own_box = refl

refuses_their_box :
    (destroy_vm_if_exists host node 211 (some theirs) true before).0
    ≡ err (outside 211 (other_run ∷ []))
unfolding destroy_vm_if_exists ownership_tags find starts_with comp_tag parse_vm_tags
    tezcatlipoca.Tags.is_space subset tezcatlipoca.Base.text_beq minus
refuses_their_box = refl

destroy_vm-Proven_example :
    ((destroy_vm_if_exists host node 211 (some ours) true before).1 ≡ before)
    ⊎ Proven host before.state node 211 ours true
destroy_vm-Proven_example =
    destroy_vm-Proven host node 211 ours true before listing box.vm refl found_box

destroy_vm-Sends_example :
    Sends host node 211 before (destroy_vm_if_exists host node 211 (some ours) true before).1
destroy_vm-Sends_example = destroy_vm-Sends host node 211 (some ours) true before

outside_is_no_failed_request : outside 211 (other_run ∷ []) ≢ request_failed
outside_is_no_failed_request e = cc e

destroy_vm_refusal_example :
    (destroy_vm_if_exists host node 211 (some theirs) true before).1 ≡ before
destroy_vm_refusal_example =
    destroy_vm_refusal host node 211 (some theirs) true before (outside 211 (other_run ∷ []))
      refuses_their_box outside_is_no_failed_request

destroy_vm_requests_example :
    (cfg : Config) × (host.config before.state node 211 ≡ some cfg)
    × ((destroy_vm_if_exists host node 211 (some ours) true before).1.sent
        ≡ before.sent ++ removal node 211 box.vm cfg)
destroy_vm_requests_example =
    destroy_vm_requests host node 211 (some ours) true before listing box.vm refl found_box
      destroys_own_box

run_id-IsRunId : IsRunId run_id
unfolding starts_with tezcatlipoca.Tags.is_space
run_id-IsRunId = ground arith

other_run-IsRunId : IsRunId other_run
unfolding starts_with tezcatlipoca.Tags.is_space
other_run-IsRunId = ground arith

bridge_owned_by-bridge_comment_example :
    bridge_owned_by (bridge_comment comp run_id (text "isolated team net")) comp run_id ≡ true
bridge_owned_by-bridge_comment_example =
    bridge_owned_by-bridge_comment comp run_id (text "isolated team net") refl run_id-IsRunId.1

own_bridge : bridge_owned_by (bridge_comment comp run_id []) (text "cde-2026") run_id ≡ true
unfolding bridge_owned_by bridge_comment tezcatlipoca.Tags.is_space subset tokens
    tezcatlipoca.Base.text_beq comp_tag
own_bridge = refl

golden : Text
golden = text "golden"

golden-IsRole : IsRole golden
unfolding golden tezcatlipoca.Tags.is_space starts_with tezcatlipoca.Base.text_beq
golden-IsRole = ((refl, (refl, (refl, (refl, (refl, (refl, (refl, tt))))))), refl, refl, refl)

-- a template that a run has tagged with its role, under the set of a teardown of goldens
owned_iff_example :
    ((ownership_verdict host before.state node 211
        (joined (join_tags (ownership_tags comp run_id (golden ∷ []))))
        (ownership_tags comp other_run (golden ∷ []))).0
      ≡ owned)
    ↔ ((comp_tag comp ≡ comp_tag comp)
        × ((is_empty other_run ≡ true) ⊎ (other_run ≡ run_id))
        × (subset (golden ∷ []) (golden ∷ []) ≡ true))
owned_iff_example =
    owned_iff host before.state node 211 comp run_id (golden ∷ []) comp other_run (golden ∷ [])
      run_id-IsRunId (golden-IsRole, tt) (inr other_run-IsRunId) (golden-IsRole, tt)

named : (is_empty (comp_slug comp)) ≡ false
unfolding comp_slug
named = refl

half_clone_listed : host.config before.state node 212 ≡ some half_clone.cfg
unfolding find
half_clone_listed = refl
