-- ===== src/Ownership/Effects.antt =====
-- How `destroy_vm_if_exists` ends: a refusal has changed nothing, a success has sent all requests.
use mathlib.Core.List.{append_assoc, append-nil}
use tezcatlipoca.Base.{
  ℕ, Bool, true, false, not, ◌≡◌, refl, ap, sym, ◌∙◌, ◌≢◌, Option, none, some, List, [], ◌∷◌, ◌++◌,
  arith, is_empty, Text,
}
use tezcatlipoca.Base.Actions.{Result, ok, err, continue, continue-eq-ok, pure, ◌>>◌}
use tezcatlipoca.Proxmox.{Vm, Config, Mutation, unlock, stop, delete, Proxmox}
use tezcatlipoca.Ownership.{
  Verdict, owned, marker, unproven, missing, Failure, request_failed, World, request, gc_listed,
  judge, guard_ownership, when, remove_configured, remove_vm, find_vm, destroy_found,
  destroy_listed, destroy_vm_if_exists,
}
use tezcatlipoca.Ownership.Guard.{guard_world}

abbrev pub once : Bool → Mutation → List Mutation
once true m = m ∷ []
once false m = []

-- the requests that remove a VM
abbrev pub removal : Text → ℕ → Vm → Config → List Mutation
removal node vmid vm cfg =
    once (not (is_empty cfg.lock)) (unlock node vmid)
    ++ (once vm.running (stop node vmid) ++ delete node vmid ∷ [])

chain {ℓ} :
    {A : Type ℓ} (s : List A) {t u v : List A} (a b c : List A)
    → t ≡ s ++ a
    → u ≡ t ++ b
    → v ≡ u ++ c
    → v ≡ s ++ (a ++ (b ++ c))
chain s a b c p q r =
    r
    ∙ ap (λ l. l ++ c) (q ∙ ap (λ l. l ++ b) p)
    ∙ append_assoc (s ++ a) b c
    ∙ append_assoc s a (b ++ c)

module _ (px : Proxmox) (node : Text) (vmid : ℕ) where
  when_sent : (b : Bool) (m : Mutation) (w : World px) → (when px b m w).1.sent ≡ w.sent ++ once b m
  unfolding when request
  when_sent true m w = refl
  when_sent false m w = sym (append-nil w.sent)

  request_sent : (m : Mutation) (w : World px) → (request px m w).1.sent ≡ w.sent ++ m ∷ []
  unfolding request
  request_sent m w = refl

  remove_requests :
      (vm : Vm) (c : Option Config) (w : World px)
      → (remove_configured px node vmid vm c w).0 ≡ ok tt
      → (cfg : Config) × (c ≡ some cfg)
        × ((remove_configured px node vmid vm c w).1.sent ≡ w.sent ++ removal node vmid vm cfg)
  unfolding remove_configured
  remove_requests vm none w h = cc
  remove_requests vm (some cfg) w h =
      let unlocking = when px (not (is_empty cfg.lock)) (unlock node vmid) in
      let stopping = when px vm.running (stop node vmid) in
      let both = unlocking >> stopping in
      let (_, stopped, _, deletes) =
        continue-eq-ok (both w).0 (both w).1 (λ _. request px (delete node vmid)) h in
      let (_, _, _, stops) =
        continue-eq-ok (unlocking w).0 (unlocking w).1 (λ _. stopping) stopped in
      (
        cfg,
        refl,
        chain w.sent (once (not (is_empty cfg.lock)) (unlock node vmid))
            (once vm.running (stop node vmid)) (delete node vmid ∷ [])
            (when_sent (not (is_empty cfg.lock)) (unlock node vmid) w)
            (ap (λ v. v.sent) stops ∙ when_sent vm.running (stop node vmid) (unlocking w).1)
            (ap (λ v. v.sent) deletes ∙ request_sent (delete node vmid) (both w).1),
      )

  -- a request that fails is no refusal
  remove_failure :
      (vm : Vm) (c : Option Config) (w : World px) (f : Failure)
      → (remove_configured px node vmid vm c w).0 ≡ err f
      → f ≡ request_failed
  unfolding remove_configured
  remove_failure vm none w f h = cc
  remove_failure vm (some cfg) w f h = ground arith

  judge_failure :
      (req : Bool) (v : Verdict × List Text) (w : World px) (f : Failure)
      → (judge px vmid req v w).0 ≡ err f
      → f ≢ request_failed
  unfolding judge
  judge_failure req (owned, l) w f h = cc
  judge_failure true (marker, l) w f h = λ e. cc
  judge_failure false (marker, l) w f h = cc
  judge_failure req (unproven, l) w f h = λ e. cc
  judge_failure req (missing, l) w f h = λ e. cc

  found_refusal :
      (expect : Option (List Text)) (req : Bool) (vm : Vm) (w : World px) (f : Failure)
      → (destroy_found px node vmid expect req (some vm) w).0 ≡ err f
      → f ≢ request_failed
      → (destroy_found px node vmid expect req (some vm) w).1 ≡ w
  unfolding destroy_found
  found_refusal expect req vm w f h ne = passed (guard_ownership px node vmid expect req w).0 refl
    where
      passed :
          (r : Result Failure Unit)
          → (guard_ownership px node vmid expect req w).0 ≡ r
          → (destroy_found px node vmid expect req (some vm) w).1 ≡ w
      passed (ok u) e = absurd (
          ne (
            remove_failure vm
              (px.config (guard_ownership px node vmid expect req w).1.state node vmid)
              (guard_ownership px node vmid expect req w).1 f (rw (e, destroy_found) at h)))
      passed (err g) e = rw (e, destroy_found) (guard_world px node vmid expect req w)

  gc_failure :
      (sts : Option (List Text)) (w : World px) (f : Failure)
      → (continue
          (gc_listed px node vmid sts w).0
          (λ _. pure tt)
          (gc_listed px node vmid sts w).1).0
        ≡ err f
      → f ≡ request_failed
  unfolding gc_listed
  gc_failure none w f h = cc
  gc_failure (some sts) w f h = cc

  listed_refusal :
      (expect : Option (List Text)) (req : Bool) (vms : Option (List Vm)) (w : World px)
      (f : Failure)
      → (destroy_listed px node vmid expect req vms w).0 ≡ err f
      → f ≢ request_failed
      → (destroy_listed px node vmid expect req vms w).1 ≡ w
  unfolding destroy_listed
  listed_refusal expect req none w f = λ h ne. refl
  listed_refusal expect req (some vms) w f = found (find_vm vmid vms)
    where
      found :
          (vm : Option Vm)
          → (destroy_found px node vmid expect req vm w).0 ≡ err f
          → f ≢ request_failed
          → (destroy_found px node vmid expect req vm w).1 ≡ w
      found none h ne =
          absurd (ne (unfold destroy_found in gc_failure (px.storages w.state node) w f h))
      found (some vm) h ne = found_refusal expect req vm w f h ne

  found_requests :
      (expect : Option (List Text)) (req : Bool) (vm : Vm) (w : World px)
      → (destroy_found px node vmid expect req (some vm) w).0 ≡ ok tt
      → (cfg : Config) × (px.config w.state node vmid ≡ some cfg)
        × ((destroy_found px node vmid expect req (some vm) w).1.sent
            ≡ w.sent ++ removal node vmid vm cfg)
  unfolding destroy_found remove_vm
  found_requests expect req vm w h =
      let guard = guard_ownership px node vmid expect req in
      let same = guard_world px node vmid expect req w in
      let (_, _, removed, after) =
        continue-eq-ok (guard w).0 (guard w).1 (λ _. remove_vm px node vmid vm) h in
      let (cfg, e, sent) =
        remove_requests vm (px.config w.state node vmid) w (rw same at removed) in
      (cfg, e, ap (λ v. v.sent) after ∙ rw same sent)

  -- A refusal of `destroy_vm_if_exists`, of any kind, leaves the service in the state that it was
  -- in, and no mutating request has been sent.
  pub destroy_vm_refusal :
      (expect : Option (List Text)) (req : Bool) (w : World px) (f : Failure)
      → (destroy_vm_if_exists px node vmid expect req w).0 ≡ err f
      → f ≢ request_failed
      → (destroy_vm_if_exists px node vmid expect req w).1 ≡ w
  unfolding destroy_vm_if_exists
  destroy_vm_refusal expect req w = listed_refusal expect req (px.list_vms w.state node) w

  -- When `destroy_vm_if_exists` returns for a VM that the service lists, it has sent, in this
  -- order, the unlock if the VM was locked, the stop if it was running, and the delete, and
  -- nothing else.
  pub destroy_vm_requests :
      (expect : Option (List Text)) (req : Bool) (w : World px) (vms : List Vm) (vm : Vm)
      → px.list_vms w.state node ≡ some vms
      → find_vm vmid vms ≡ some vm
      → (destroy_vm_if_exists px node vmid expect req w).0 ≡ ok tt
      → (cfg : Config) × (px.config w.state node vmid ≡ some cfg)
        × ((destroy_vm_if_exists px node vmid expect req w).1.sent
            ≡ w.sent ++ removal node vmid vm cfg)
  unfolding destroy_vm_if_exists
  destroy_vm_requests expect req w vms vm listing found h =
      rw listing (rw found (found_requests expect req vm w (rw (listing, found) at h)))
