-- ===== src/Planner/Probing/Ready.antt =====
-- multinode/placement_planner.py: lemmas on a probe that is well.
use tezcatlipoca.Base.{
  ℕ, Bool, true, false, ◌≡◌, refl, inl, inr, Option, none, some, List, [], ◌∷◌, ◌++◌, map, arith,
  All, keep, contains, is_empty, Text, text, text_beq, text_eq, Bool-cases, Option-cases,
}
use tezcatlipoca.Preflight.{Guest}
use tezcatlipoca.Planner.{Node, Team, Probe}
use tezcatlipoca.Planner.Probing.{
  Answers, refused_probe, insert_vmid, sorted_vmids, is_collision, wanted_vmids, with_collisions,
  with_bridges, read_probe, probe_read, probe_node,
}
use tezcatlipoca.Planner.Place.Step.{keep-eq-nil}
use tezcatlipoca.Planner.Place.Entries.{All-unmap}

insert_vmid-full : (v : ℕ) (ws : List ℕ) → is_empty (insert_vmid v ws) ≡ false
unfolding insert_vmid
insert_vmid-full v [] = refl
insert_vmid-full v (w ∷ ws) = ground arith

sorted_vmids-eq-nil : (vs : List ℕ) → is_empty (sorted_vmids vs) ≡ true → vs ≡ []
unfolding sorted_vmids
sorted_vmids-eq-nil [] h = refl
sorted_vmids-eq-nil (v ∷ vs) h = let full = insert_vmid-full v (sorted_vmids vs) in ground arith

with_collisions-ok :
    (vs : List ℕ) (p : Probe) → (with_collisions vs p).ok ≡ true → is_empty vs ≡ true
unfolding with_collisions
with_collisions-ok [] p h = refl
with_collisions-ok (v ∷ vs) p h = cc

-- no bridge of a team is there, if the bridges are known
pub NoBridges : Option (List Text) → List Team → Type 0
NoBridges none teams = Unit
NoBridges (some bridges) teams =
    All (λ t. contains bridges (text "vmbr" ++ t.identifier) ≡ false) teams

with_bridges-ok :
    (networks : Option (List Text)) (teams : List Team) (p : Probe)
    → (with_bridges networks (map (λ t. t.identifier) teams) p).ok ≡ true
    → (p.ok ≡ true) × NoBridges networks teams
unfolding with_bridges NoBridges
with_bridges-ok none teams p h = (h, tt)
with_bridges-ok (some bridges) teams p h =
    let test : Text → Bool = λ i. contains bridges (text "vmbr" ++ i) in
    elim (Bool-cases (is_empty (keep test (map (λ t. t.identifier) teams)))) [
      | inr e ↦ let q = rw (with_bridges, e) at h in cc
      | inl e ↦ (rw (with_bridges, e) at h, All-unmap _ _ teams (keep-eq-nil test _ (nothing _ e)))
    ]
  where
    nothing : (xs : List Text) → is_empty xs ≡ true → xs ≡ []
    nothing [] g = refl
    nothing (x ∷ xs) g = cc

-- the VMs that are on the node
abbrev pub on_node : Text → List Guest → List Guest
on_node node = keep (λ vm. text_beq vm.node node)

pub probe_node_clear :
    {W : Type 0}
    → (rec : Node W) (need : List Text) (engine_vmid : ℕ) (teams : List Team) (comp : Text)
      (answers : Answers)
    → (probe_node rec need engine_vmid teams comp answers).ok ≡ true
    → (is_empty answers.token ≡ false)
      × ((mem : Option ℕ) × (answers.status ≡ some mem))
      × ((vms : List Guest) × (answers.vms ≡ some vms)
          × All
              (λ v. is_collision comp engine_vmid (on_node rec.node vms) v ≡ false)
              (wanted_vmids engine_vmid (map (λ t. t.number) teams)))
      × NoBridges answers.networks teams
unfolding probe_node probe_read refused_probe
probe_node_clear rec need engine_vmid teams comp answers h =
    elim (Bool-cases (is_empty answers.token)) [
      | inl e ↦ let q = rw (probe_node, e) at h in cc
      | inr e ↦ elim (Option-cases answers.status) [
        | inl f ↦ let q = rw (probe_node, e, f) at h in cc
        | inr (mem, f) ↦ elim (Option-cases answers.vms) [
          | inl g ↦ let q = rw (probe_node, e, f, g) at h in cc
          | inr (vms, g) ↦
              let both = with_bridges-ok answers.networks teams _ (rw (probe_node, e, f, g) at h) in
              let here = on_node rec.node vms in
              let wanted = wanted_vmids engine_vmid (map (λ t. t.number) teams) in
              let test = is_collision comp engine_vmid here in
              let clear =
                with_collisions-ok (sorted_vmids (keep test wanted)) (read_probe need mem here)
                  both.0 in
              let free = keep-eq-nil test wanted (sorted_vmids-eq-nil (keep test wanted) clear) in
              (e, (mem, f), (vms, g, free), both.1)
        ]
      ]
    ]
