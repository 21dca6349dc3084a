-- ===== src/Ownership/Requests.antt =====
-- Which requests `destroy_vm_if_exists` sends.
use mathlib.Core.List.{append_assoc, append-nil}
use tezcatlipoca.Base.{
  nat_beq_iff, ℕ, Bool, true, false, not, ◌≡◌, refl, ap, sym, ◌∙◌, inl, inr, Option, none, some,
  List, [], ◌∷◌, ◌++◌, nat_beq, is_empty, All, Bool-cases, Option-cases, Text,
}
use tezcatlipoca.Base.Actions.{Act, Result, ok, err, continue, pure, ◌>>=◌, ◌>>◌}
use tezcatlipoca.Proxmox.{
  Vm, Config, Volume, Mutation, unlock, stop, delete, delete_volume, put_tags, delete_bridge,
  apply_network, Proxmox,
}
use tezcatlipoca.Ownership.{
  Failure, World, request, gc_volume, gc_volumes, gc_storage, gc_storages, gc_listed,
  gc_orphan_volumes, guard_ownership, when, remove_configured, remove_vm, find_vm, destroy_found,
  destroy_listed, destroy_vm_if_exists,
}
use tezcatlipoca.Ownership.Guard.{guard_world}

-- the request is about this VM, or a volume that it owns, and no other
abbrev pub Targets : Text → ℕ → Mutation → Type 0
Targets node vmid (unlock n v) = (n ≡ node) × (v ≡ vmid)
Targets node vmid (stop n v) = (n ≡ node) × (v ≡ vmid)
Targets node vmid (delete n v) = (n ≡ node) × (v ≡ vmid)
Targets node vmid (delete_volume n storage volid v) = (n ≡ node) × (v ≡ vmid)
Targets node vmid (put_tags n v tags) = (n ≡ node) × (v ≡ vmid)
Targets node vmid (delete_bridge n bridge) = ⊥
Targets node vmid (apply_network n) = ⊥

All-append {ℓ κ} :
    {A : Type ℓ} (P : A → Type κ) (xs ys : List A) → All P xs → All P ys → All P (xs ++ ys)
All-append P [] ys hx hy = hy
All-append P (x ∷ xs) ys hx hy = (hx.0, All-append P xs ys hx.1 hy)

module _ (px : Proxmox) where
  -- from `w` to `w'` only requests about this VM are sent
  pub record Sends (node : Text) (vmid : ℕ) (w w' : World px) : Type 0 where
    pub new : List Mutation
    pub sent_eq : w'.sent ≡ w.sent ++ new
    pub targets : All (Targets node vmid) new

  Sends-refl : {node : Text} {vmid : ℕ} (w : World px) → Sends node vmid w w
  Sends-refl w = record { new = []; sent_eq = sym (append-nil w.sent); targets = tt }

  Sends-trans :
      {node : Text} {vmid : ℕ} {u v w : World px}
      → Sends node vmid u v
      → Sends node vmid v w
      → Sends node vmid u w
  Sends-trans {u = u} p q = record {
    new = p.new ++ q.new;
    sent_eq = q.sent_eq ∙ ap (λ l. l ++ q.new) p.sent_eq ∙ append_assoc u.sent p.new q.new;
    targets = All-append (Targets _ _) p.new q.new p.targets q.targets;
  }

  module _ (node : Text) (vmid : ℕ) where
    request-Sends :
        (m : Mutation) (w : World px) → Targets node vmid m → Sends node vmid w (request px m w).1
    unfolding request
    request-Sends m w t = record { new = m ∷ []; sent_eq = refl; targets = (t, tt) }

    abbrev IsLocal : {A : Type 0} → Act Failure (World px) A → Type 0
    IsLocal m = (w : World px) → Sends node vmid w (m w).1

    continue-Sends :
        {A B : Type 0} (u : World px) (r : Result Failure A) (v : World px)
        (f : A → Act Failure (World px) B)
        → Sends node vmid u v
        → ((a : A) → IsLocal (f a))
        → Sends node vmid u (continue r f v).1
    continue-Sends u (ok a) v f h k = Sends-trans h (k a v)
    continue-Sends u (err e) v f h k = h

    bind-IsLocal :
        {A B : Type 0} (m : Act Failure (World px) A) (f : A → Act Failure (World px) B)
        → IsLocal m
        → ((a : A) → IsLocal (f a))
        → IsLocal (m >>= f)
    bind-IsLocal m f h k w = continue-Sends w (m w).0 (m w).1 f (h w) k

    when-Sends :
        (b : Bool) (m : Mutation) (w : World px)
        → Targets node vmid m
        → Sends node vmid w (when px b m w).1
    unfolding when
    when-Sends true m w t = request-Sends m w t
    when-Sends false m w t = Sends-refl w

    remove_configured-Sends :
        (vm : Vm) (c : Option Config) → IsLocal (remove_configured px node vmid vm c)
    unfolding remove_configured
    remove_configured-Sends vm none = Sends-refl
    remove_configured-Sends vm (some cfg) =
        bind-IsLocal
          (when px (not (is_empty cfg.lock)) (unlock node vmid)
            >> when px vm.running (stop node vmid))
          (λ _. request px (delete node vmid))
          (bind-IsLocal (when px (not (is_empty cfg.lock)) (unlock node vmid))
            (λ _. when px vm.running (stop node vmid))
            (λ w. when-Sends (not (is_empty cfg.lock)) (unlock node vmid) w (refl, refl))
            (λ _ v. when-Sends vm.running (stop node vmid) v (refl, refl)))
          (λ _ v. request-Sends (delete node vmid) v (refl, refl))

    gc_volume-Sends :
        (storage : Text) (v : Volume) (n : ℕ) (w : World px)
        → Sends node vmid w (gc_volume px node storage vmid v (n, w)).1
    unfolding gc_volume
    gc_volume-Sends storage v n w = elim (Bool-cases (nat_beq v.owner vmid)) [
      | inl e ↦ rw e (
          request-Sends (delete_volume node storage v.volid v.owner) w
            (refl, (nat_beq_iff v.owner vmid).0 e))
      | inr e ↦ rw e (Sends-refl w)
    ]

    gc_volumes-Sends :
        (storage : Text) (vs : List Volume) (n : ℕ) (w : World px)
        → Sends node vmid w (gc_volumes px node storage vmid vs (n, w)).1
    unfolding gc_volumes
    gc_volumes-Sends storage [] n w = Sends-refl w
    gc_volumes-Sends storage (v ∷ vs) n w = Sends-trans (gc_volume-Sends storage v n w) (
        gc_volumes-Sends storage vs (gc_volume px node storage vmid v (n, w)).0
          (gc_volume px node storage vmid v (n, w)).1)

    gc_storage-Sends :
        (storage : Text) (n : ℕ) (w : World px)
        → Sends node vmid w (gc_storage px node vmid storage (n, w)).1
    unfolding gc_storage
    gc_storage-Sends storage n w = elim (Option-cases (px.volumes w.state node storage vmid)) [
      | inl e ↦ rw (e, gc_storage) (Sends-refl w)
      | inr (vs, e) ↦ rw (e, gc_storage) (gc_volumes-Sends storage vs n w)
    ]

    gc_storages-Sends :
        (sts : List Text) (n : ℕ) (w : World px)
        → Sends node vmid w (gc_storages px node vmid sts (n, w)).1
    unfolding gc_storages
    gc_storages-Sends [] n w = Sends-refl w
    gc_storages-Sends (st ∷ sts) n w = Sends-trans (gc_storage-Sends st n w) (
        gc_storages-Sends sts (gc_storage px node vmid st (n, w)).0
          (gc_storage px node vmid st (n, w)).1)

    gc_listed-Sends : (sts : Option (List Text)) → IsLocal (gc_listed px node vmid sts)
    unfolding gc_listed
    gc_listed-Sends none w = Sends-refl w
    gc_listed-Sends (some sts) w = gc_storages-Sends sts 0 w

    guard-Sends :
        (expect : Option (List Text)) (req : Bool)
        → IsLocal (guard_ownership px node vmid expect req)
    guard-Sends expect req w = rw (guard_world px node vmid expect req w) (Sends-refl w)

    destroy_found-Sends :
        (expect : Option (List Text)) (req : Bool) (vm : Option Vm)
        → IsLocal (destroy_found px node vmid expect req vm)
    unfolding destroy_found
    destroy_found-Sends expect req none =
        bind-IsLocal (gc_orphan_volumes px node vmid) (λ _. pure tt)
          (λ w. gc_listed-Sends (px.storages w.state node) w) (λ _ w. Sends-refl w)
    destroy_found-Sends expect req (some vm) =
        bind-IsLocal (guard_ownership px node vmid expect req) (λ _. remove_vm px node vmid vm)
          (guard-Sends expect req)
          (λ _ w. remove_configured-Sends vm (px.config w.state node vmid) w)

    destroy_listed-Sends :
        (expect : Option (List Text)) (req : Bool) (vms : Option (List Vm))
        → IsLocal (destroy_listed px node vmid expect req vms)
    unfolding destroy_listed
    destroy_listed-Sends expect req none w = Sends-refl w
    destroy_listed-Sends expect req (some vms) w =
        destroy_found-Sends expect req (find_vm vmid vms) w

  -- Whatever the service answers, and however the call ends, every request that
  -- `destroy_vm_if_exists` sends names the node and the vmid that it was called with, or is the
  -- deletion on that node of a volume that the listing says belongs to that vmid.
  pub destroy_vm-Sends :
      (node : Text) (vmid : ℕ) (expect : Option (List Text)) (req : Bool) (w : World px)
      → Sends node vmid w (destroy_vm_if_exists px node vmid expect req w).1
  unfolding destroy_vm_if_exists
  destroy_vm-Sends node vmid expect req w =
      destroy_listed-Sends node vmid expect req (px.list_vms w.state node) w
