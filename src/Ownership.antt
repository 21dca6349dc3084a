-- ===== src/Ownership.antt =====
-- infra/ownership.py: which VMs and bridges belong to a run, and the one function that destroys a
-- VM. Output and the waits for a task that a request starts are not modelled: `send` says whether
-- the request and its task succeed.
pub mod Guard
pub mod Requests
pub mod Effects
pub mod Bridges
pub mod Classify
pub mod Roles
mod Tests
use tezcatlipoca.Base.{
  ℕ, ◌+◌, Bool, true, false, not, ◌&&◌, Option, none, some, List, [], ◌∷◌, ◌++◌, nat_beq,
  if◌then◌else◌, is_empty, drop, find, subset, minus, Text, text, text_eq, starts_with, is_infix,
}
use tezcatlipoca.Base.Actions.{Act, ok, err, pure, raise, ◌>>=◌, ◌>>◌}
use tezcatlipoca.Naming.{comp_tag}
use tezcatlipoca.Tags.{parse_vm_tags}
use tezcatlipoca.Proxmox.{
  RawTags, joined, Vm, Config, Volume, Mutation, unlock, stop, delete, delete_volume, Proxmox,
}

pub data Verdict : Type 0 where
  owned marker unproven missing : Verdict

unfoldable pub clone_marker : Text → Text
clone_marker comp = text "tezcatlipoca-clone " ++ comp_tag comp

-- next((t[len("comp-"):] for t in expect_tags if t.startswith("comp-")), None)
unfoldable pub comp_name_from_tags : List Text → Option Text
comp_name_from_tags tags = elim (find (starts_with (text "comp-")) tags) [
  | none ↦ none
  | some t ↦ some (drop 5 t)
]

pub data Failure : Type 0 where
  -- a `Refusal`
  untagged : (vmid : ℕ) → Failure
  marker_only : (vmid : ℕ) → Failure
  outside : (vmid : ℕ) (lacking : List Text) → Failure
  -- a request that raised
  request_failed : Failure

abbrev pub find_vm : ℕ → List Vm → Option Vm
find_vm vmid = find (λ v. nat_beq v.vmid vmid)

module _ (px : Proxmox) where
  -- the service, and the mutating requests that were sent to it
  pub record World : Type 0 where
    pub state : px.State
    pub sent : List Mutation

  -- a mutating request, with the task that it starts
  unfoldable pub request : Mutation → Act Failure World Unit
  request m w =
      let (done, state) = px.send m w.state in
      (
        if done then ok tt else err request_failed,
        record { state = state; sent = w.sent ++ m ∷ [] },
      )

  unfoldable pub has_clone_marker : px.State → Text → ℕ → Text → Bool
  has_clone_marker s node vmid comp = elim (px.config s node vmid) [
    | none ↦ false
    | some cfg ↦ is_infix (clone_marker comp) cfg.description
  ]

  -- `comp and has_clone_marker(...)`
  carries_marker : px.State → Text → ℕ → Option Text → Bool
  unfolding has_clone_marker
  carries_marker s node vmid none = false
  carries_marker s node vmid (some comp) = not (is_empty comp) && has_clone_marker s node vmid comp

  -- The verdict, and the set that the source returns beside it.
  unfoldable pub ownership_verdict : px.State → Text → ℕ → RawTags → List Text → Verdict × List Text
  unfolding carries_marker
  ownership_verdict s node vmid raw expect =
      let tags = parse_vm_tags raw in
      if is_empty tags
      then (if carries_marker s node vmid (comp_name_from_tags expect)
          then (marker, [])
          else (unproven, expect))
      else if subset expect tags
      then (owned, [])
      else (missing, minus expect tags)

  -- the loops of `gc_orphan_volumes`, with the count of the volumes that were removed
  gc_volume : Text → Text → ℕ → Volume → ℕ × World → ℕ × World
  unfolding request
  gc_volume node storage vmid v (removed, w) =
      if nat_beq v.owner vmid
      then (let (r, w') = request (delete_volume node storage v.volid v.owner) w in
          (elim r [ ok _ ↦ removed + 1 | err _ ↦ removed ], w'))
      else (removed, w)

  gc_volumes : Text → Text → ℕ → List Volume → ℕ × World → ℕ × World
  unfolding gc_volume
  gc_volumes node storage vmid [] acc = acc
  gc_volumes node storage vmid (v ∷ vs) acc =
      gc_volumes node storage vmid vs (gc_volume node storage vmid v acc)

  gc_storage : Text → ℕ → Text → ℕ × World → ℕ × World
  unfolding gc_volumes
  gc_storage node vmid storage (removed, w) = elim (px.volumes w.state node storage vmid) [
    | none ↦ (removed, w)
    | some vs ↦ gc_volumes node storage vmid vs (removed, w)
  ]

  gc_storages : Text → ℕ → List Text → ℕ × World → ℕ × World
  unfolding gc_storage
  gc_storages node vmid [] acc = acc
  gc_storages node vmid (st ∷ sts) acc = gc_storages node vmid sts (gc_storage node vmid st acc)

  gc_listed : Text → ℕ → Option (List Text) → Act Failure World ℕ
  unfolding gc_storages
  gc_listed node vmid none w = (err request_failed, w)
  gc_listed node vmid (some sts) w =
      let (removed, w') = gc_storages node vmid sts (0, w) in (ok removed, w')

  gc_orphan_volumes : Text → ℕ → Act Failure World ℕ
  unfolding gc_listed
  gc_orphan_volumes node vmid w = gc_listed node vmid (px.storages w.state node) w

  -- the branches of the guard on the verdict
  judge : ℕ → Bool → Verdict × List Text → Act Failure World Unit
  judge vmid require_owned (owned, lacking) = pure tt
  judge vmid true (marker, lacking) = raise (marker_only vmid)
  judge vmid false (marker, lacking) = pure tt
  judge vmid require_owned (unproven, lacking) = raise (untagged vmid)
  judge vmid require_owned (missing, lacking) = raise (outside vmid lacking)

  judge_config : Text → ℕ → List Text → Bool → Option Config → Act Failure World Unit
  unfolding ownership_verdict judge
  judge_config node vmid expect require_owned none w = (err request_failed, w)
  judge_config node vmid expect require_owned (some cfg) w =
      judge vmid require_owned (ownership_verdict w.state node vmid (joined cfg.tags) expect) w

  -- `expect_tags` is None for a caller that has its own proof
  pub guard_ownership : Text → ℕ → Option (List Text) → Bool → Act Failure World Unit
  unfolding judge_config
  guard_ownership node vmid none require_owned w = (ok tt, w)
  guard_ownership node vmid (some expect) require_owned w =
      judge_config node vmid expect require_owned (px.config w.state node vmid) w

  when : Bool → Mutation → Act Failure World Unit
  unfolding request
  when true m w = request m w
  when false m w = (ok tt, w)

  -- unlock if locked, stop if running, delete
  remove_configured : Text → ℕ → Vm → Option Config → Act Failure World Unit
  unfolding request when
  remove_configured node vmid vm none w = (err request_failed, w)
  remove_configured node vmid vm (some cfg) w =
      (when (not (is_empty cfg.lock)) (unlock node vmid)
          >> when vm.running (stop node vmid)
          >> request (delete node vmid))
        w

  remove_vm : Text → ℕ → Vm → Act Failure World Unit
  unfolding remove_configured
  remove_vm node vmid vm w = remove_configured node vmid vm (px.config w.state node vmid) w

  destroy_found : Text → ℕ → Option (List Text) → Bool → Option Vm → Act Failure World Unit
  unfolding guard_ownership remove_vm gc_orphan_volumes
  destroy_found node vmid expect require_owned none = gc_orphan_volumes node vmid >>= λ _. pure tt
  destroy_found node vmid expect require_owned (some vm) =
      guard_ownership node vmid expect require_owned >> remove_vm node vmid vm

  destroy_listed : Text → ℕ → Option (List Text) → Bool → Option (List Vm) → Act Failure World Unit
  unfolding destroy_found
  destroy_listed node vmid expect require_owned none w = (err request_failed, w)
  destroy_listed node vmid expect require_owned (some vms) w =
      destroy_found node vmid expect require_owned (find_vm vmid vms) w

  unfoldable pub destroy_vm_if_exists :
      Text → ℕ → Option (List Text) → Bool → Act Failure World Unit
  unfolding destroy_listed
  destroy_vm_if_exists node vmid expect require_owned w =
      destroy_listed node vmid expect require_owned (px.list_vms w.state node) w
