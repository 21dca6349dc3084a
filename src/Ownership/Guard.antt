-- ===== src/Ownership/Guard.antt =====
-- What `destroy_vm_if_exists` sends, and on what proof.
use tezcatlipoca.Base.{
  ℕ, Bool, true, false, ◌≡◌, refl, ◌⊎◌, inl, inr, Option, none, some, List, Text,
}
use tezcatlipoca.Base.Actions.{Result, ok, err}
use tezcatlipoca.Proxmox.{joined, Vm, Config, Proxmox}
use tezcatlipoca.Ownership.{
  Verdict, owned, marker, unproven, missing, Failure, World, ownership_verdict, judge, judge_config,
  guard_ownership, find_vm, destroy_found, destroy_vm_if_exists,
}

module _ (px : Proxmox) where
  -- the proof of ownership that a destruction needs
  abbrev pub Proven : px.State → Text → ℕ → List Text → Bool → Type 0
  Proven s node vmid expect require_owned =
      (cfg : Config) × (px.config s node vmid ≡ some cfg)
      × (((ownership_verdict px s node vmid (joined cfg.tags) expect).0 ≡ owned)
          ⊎ (((ownership_verdict px s node vmid (joined cfg.tags) expect).0 ≡ marker)
              × (require_owned ≡ false)))

  judge_passes :
      (vmid : ℕ) (req : Bool) (v : Verdict × List Text) (w : World px)
      → ((judge px vmid req v w).0 ≡ ok tt)
      → (v.0 ≡ owned) ⊎ ((v.0 ≡ marker) × (req ≡ false))
  unfolding judge
  judge_passes vmid req (owned, l) w h = inl refl
  judge_passes vmid true (marker, l) w h = cc
  judge_passes vmid false (marker, l) w h = inr (refl, refl)
  judge_passes vmid req (unproven, l) w h = cc
  judge_passes vmid req (missing, l) w h = cc

  judge_world :
      (vmid : ℕ) (req : Bool) (v : Verdict × List Text) (w : World px)
      → (judge px vmid req v w).1 ≡ w
  unfolding judge
  judge_world vmid req (owned, l) w = refl
  judge_world vmid true (marker, l) w = refl
  judge_world vmid false (marker, l) w = refl
  judge_world vmid req (unproven, l) w = refl
  judge_world vmid req (missing, l) w = refl

  pub guard_world :
      (node : Text) (vmid : ℕ) (expect : Option (List Text)) (req : Bool) (w : World px)
      → (guard_ownership px node vmid expect req w).1 ≡ w
  unfolding guard_ownership
  guard_world node vmid none req w = refl
  guard_world node vmid (some expect) req w = configured (px.config w.state node vmid)
    where
      configured : (c : Option Config) → (judge_config px node vmid expect req c w).1 ≡ w
      configured none = refl
      configured (some cfg) =
          judge_world vmid req (ownership_verdict px w.state node vmid (joined cfg.tags) expect) w

  guard-Proven :
      (node : Text) (vmid : ℕ) (expect : List Text) (req : Bool) (w : World px)
      → (guard_ownership px node vmid (some expect) req w).0 ≡ ok tt
      → Proven w.state node vmid expect req
  unfolding guard_ownership
  guard-Proven node vmid expect req w = configured (px.config w.state node vmid) refl
    where
      configured :
          (c : Option Config)
          → px.config w.state node vmid ≡ c
          → (judge_config px node vmid expect req c w).0 ≡ ok tt
          → Proven w.state node vmid expect req
      configured none e h = cc
      configured (some cfg) e h = (cfg, e, judge_passes vmid req _ w h)

  -- The calls that follow a guard run in the state that it read, and only if it passed.
  destroy_found-Proven :
      (node : Text) (vmid : ℕ) (expect : List Text) (req : Bool) (w : World px) (vm : Vm)
      → ((destroy_found px node vmid (some expect) req (some vm) w).1 ≡ w)
        ⊎ Proven w.state node vmid expect req
  unfolding destroy_found
  destroy_found-Proven node vmid expect req w vm =
      passed (guard_ownership px node vmid (some expect) req w).0 refl
    where
      passed :
          (r : Result Failure Unit)
          → (guard_ownership px node vmid (some expect) req w).0 ≡ r
          → ((destroy_found px node vmid (some expect) req (some vm) w).1 ≡ w)
            ⊎ Proven w.state node vmid expect req
      passed (ok u) e = inr (guard-Proven node vmid expect req w e)
      passed (err f) e = inl (rw (e, destroy_found) (guard_world node vmid (some expect) req w))

  -- With an ownership set given, `destroy_vm_if_exists` on a VM that the service lists leaves the
  -- service untouched and sends nothing, unless the configuration that it read shows the proof:
  -- all tags of the set, or, where the caller does not insist on them, this competition's clone
  -- marker on a VM with no tags at all.
  pub destroy_vm-Proven :
      (node : Text) (vmid : ℕ) (expect : List Text) (req : Bool) (w : World px) (vms : List Vm)
      (vm : Vm)
      → px.list_vms w.state node ≡ some vms
      → find_vm vmid vms ≡ some vm
      → ((destroy_vm_if_exists px node vmid (some expect) req w).1 ≡ w)
        ⊎ Proven w.state node vmid expect req
  unfolding destroy_vm_if_exists
  destroy_vm-Proven node vmid expect req w vms vm listing found =
      rw (listing, destroy_vm_if_exists) (rw found (destroy_found-Proven node vmid expect req w vm))
