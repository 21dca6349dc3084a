-- ===== src/Preflight/Collisions/Vacant.antt =====
-- What `check_collisions` proves of the vmids and bridges that the deploy will create.
use tezcatlipoca.Base.{
  ℕ, zero, suc, ◌+◌, ◌<◌, Bool, true, false, ◌≡◌, sym, ap, ◌⊎◌, inl, inr, refl, Option, none, some,
  List, [], ◌∷◌, ◌++◌, arith, if◌then◌else◌, keep, contains, text_eq, is_empty, All, All-zip,
  append-All, length, Text, Bool-cases, Option-cases,
}
use tezcatlipoca.Base.Actions.{Result, ok, err}
use tezcatlipoca.Proxmox.{Proxmox}
use tezcatlipoca.Naming.{comp_tag}
use tezcatlipoca.Tags.{parse_vm_tags}
use tezcatlipoca.Vmids.{Placement, vm_id_for}
use tezcatlipoca.Ownership.{Verdict, owned, marker, unproven, missing, ownership_verdict}
use tezcatlipoca.Preflight.{
  Box, Share, Plan, Guest, Slot, our_tags, expected_slots, expected_bridges, box_slots, team_slots,
  recorded_goldens, golden_slots, jump_slots, engine_slots, engine_label,
}
use tezcatlipoca.Preflight.Bands.{Inconsistent, check_placement}
use tezcatlipoca.Preflight.Collisions.{
  holder, is_marker, fate_of_vm, fate_of, is_clash, is_leftover, refuse_found, check_slots,
  after_placement, check_collisions,
}

keep_none :
    {A : Type 0} (test : A → Bool) (xs : List A)
    → is_empty (keep test xs) ≡ true
    → All (λ x. test x ≡ false) xs
unfolding keep
keep_none test [] h = tt
keep_none test (x ∷ xs) h = elim (Bool-cases (test x)) [
  | inl e ↦ let q = rw (keep, e) at h in cc
  | inr e ↦ (e, keep_none test xs (rw (keep, e) at h))
]

is_marker_eq : (v : Verdict) → is_marker v ≡ true → v ≡ marker
unfolding is_marker
is_marker_eq owned h = cc
is_marker_eq marker h = refl
is_marker_eq unproven h = cc
is_marker_eq missing h = cc

fate-marker :
    (own : Text) (slot : Slot) (vm : Guest) (verdict : Verdict) (tags : List Text)
    → slot.persistent_template ≡ false
    → slot.template_slot ≡ false
    → is_clash (fate_of_vm own slot vm verdict tags) ≡ false
    → is_leftover (fate_of_vm own slot vm verdict tags) ≡ false
    → is_marker verdict ≡ true
unfolding fate_of_vm is_clash is_leftover
fate-marker own slot vm verdict tags p t c l = ground arith

engine_head :
    (P : Slot → Type 0) (share : Share) (engine_vmid : ℕ) (placement : Option Placement)
    → share.is_engine ≡ true
    → All P (engine_slots share engine_vmid placement)
    → P (record {
      vmid = engine_vmid;
      label = engine_label;
      persistent_template = false;
      template_slot = false;
    })
unfolding engine_slots
engine_head P share engine_vmid placement e h = (rw e at h).0

split_slots :
    (P : Slot → Type 0) (multi : Bool) (engine goldens jump teams : List Slot)
    → All P (engine ++ (if multi then goldens ++ jump ++ teams else teams ++ goldens))
    → All P teams × All P engine
split_slots P true engine goldens jump teams h =
    let front = append-All P engine (goldens ++ jump ++ teams) h in
    ((append-All P (goldens ++ jump) teams front.1).1, front.0)
split_slots P false engine goldens jump teams h =
    let front = append-All P engine (teams ++ goldens) h in
    ((append-All P teams goldens front.1).0, front.0)

refuse_found_ok :
    (px : Proxmox) (plan : Plan) (vms : List Guest) (clashes leftovers : List Slot)
    (bridges : List Text)
    → refuse_found px plan vms clashes leftovers bridges ≡ ok tt
    → (is_empty clashes ≡ true) × (is_empty leftovers ≡ true) × (is_empty bridges ≡ true)
unfolding refuse_found
refuse_found_ok px plan vms [] [] [] h = (refl, refl, refl)
refuse_found_ok px plan vms (x ∷ xs) leftovers bridges h = cc
refuse_found_ok px plan vms [] (x ∷ xs) bridges h = cc
refuse_found_ok px plan vms [] [] (x ∷ xs) h = cc

module _ (px : Proxmox) (s : px.State) (share : Share) (plan : Plan) (vms : List Guest) where
  -- nothing is at the vmid, or an untagged VM with the competition's clone marker is
  abbrev pub Vacant : ℕ → Type 0
  Vacant vmid =
      (holder vmid vms ≡ none)
      ⊎ ((vm : Guest) × (holder vmid vms ≡ some vm)
          × ((ownership_verdict px s share.node vmid vm.tags (our_tags plan)).0 ≡ marker))

  -- neither a clash nor a leftover
  abbrev Passes : Slot → Type 0
  Passes slot =
      (is_clash (fate_of px s share plan vms slot) ≡ false)
      × (is_leftover (fate_of px s share plan vms slot) ≡ false)

  Passes-Vacant :
      (slot : Slot)
      → slot.persistent_template ≡ false
      → slot.template_slot ≡ false
      → Passes slot
      → Vacant slot.vmid
  unfolding fate_of
  Passes-Vacant slot p t h = elim (Option-cases (holder slot.vmid vms)) [
    | inl e ↦ inl e
    | inr found ↦
        let (vm, e) = found in
        let verdict = (ownership_verdict px s share.node slot.vmid vm.tags (our_tags plan)).0 in
        inr (
          vm,
          e,
          is_marker_eq verdict (
              fate-marker (comp_tag plan.comp_name) slot vm verdict (parse_vm_tags vm.tags) p t
                (rw (fate_of, e) at h.0) (rw (fate_of, e) at h.1)),
        )
  ]

  box_slots-Vacant :
      (team : Text) (identifier i : ℕ) (boxes : List Box)
      → All Passes (box_slots team identifier i boxes)
      → (j : ℕ) → j < length boxes
      → Vacant (vm_id_for identifier (i + j))
  unfolding box_slots
  box_slots-Vacant team identifier i [] h j lt = absurd (omega arith)
  box_slots-Vacant team identifier i (b ∷ bs) h zero lt =
      let e : i + 0 ≡ i = omega arith in rw e (Passes-Vacant _ refl refl h.0)
  box_slots-Vacant team identifier i (b ∷ bs) h (suc j) lt =
      let e : i + suc j ≡ suc i + j = omega arith in
      rw e (box_slots-Vacant team identifier (suc i) bs h.1 j (omega arith))

  team_slots-Vacant :
      (boxes : List Box) (teams : List (Text × ℕ))
      → All Passes (team_slots boxes teams)
      → All (λ t. (j : ℕ) → j < length boxes → Vacant (vm_id_for t.1 j)) teams
  unfolding team_slots
  team_slots-Vacant boxes [] h = tt
  team_slots-Vacant boxes ((team, identifier) ∷ teams) h =
      let start : (j : ℕ) → 0 + j ≡ j = λ j. omega arith in
      let parts =
        append-All Passes (box_slots team identifier 0 boxes) (team_slots boxes teams) h in
      (
        (λ j lt. rw (start j) at (box_slots-Vacant team identifier 0 boxes parts.0 j lt)),
        team_slots-Vacant boxes teams parts.1,
      )

  engine-Vacant :
      share.is_engine ≡ true
      → All Passes (engine_slots share plan.engine_vmid plan.placement)
      → Vacant plan.engine_vmid
  engine-Vacant engine h =
      Passes-Vacant _ refl refl (engine_head Passes share plan.engine_vmid plan.placement engine h)

  -- the engine's vmid, on the engine's share
  abbrev pub engine_vmids : List ℕ
  engine_vmids = if share.is_engine then plan.engine_vmid ∷ [] else []

  engine_vmids-Vacant :
      All Passes (engine_slots share plan.engine_vmid plan.placement) → All Vacant engine_vmids
  engine_vmids-Vacant h = elim (Bool-cases share.is_engine) [
    | inl e ↦ rw e (engine-Vacant e h, tt)
    | inr e ↦ rw e tt
  ]

  -- the slots of the teams and of the engine are among those that are expected
  abbrev Expects : List Slot → Type 0
  Expects slots =
      (All Passes slots → All Passes (team_slots plan.boxes share.teams))
      × (All Passes slots → All Passes (engine_slots share plan.engine_vmid plan.placement))

  expected : (slots : List Slot) → expected_slots share plan ≡ some slots → Expects slots
  unfolding expected_slots
  expected slots e =
      found
        (golden_slots share plan.engine_vmid (recorded_goldens share.name plan.placement) 0
          plan.boxes)
        refl
    where
      found :
          (g : Option (List Slot))
          → golden_slots share plan.engine_vmid
              (recorded_goldens share.name plan.placement)
              0
              plan.boxes
            ≡ g
          → Expects slots
      found none q = let r = rw (q, expected_slots) at e in cc
      found (some goldens) q =
          let parts =
            split_slots Passes share.multi (engine_slots share plan.engine_vmid plan.placement)
              goldens (jump_slots share plan.engine_vmid plan.placement)
              (team_slots plan.boxes share.teams) in
          let same =
            ap {B = List Slot} (λ o. elim o [ none ↦ [] | some l ↦ l ])
              (rw (q, expected_slots) at e) in
          ((λ h. (parts (rw (sym same) at h)).0), λ h. (parts (rw (sym same) at h)).1)

  passed :
      (networks : Option (List Text)) (slots : List Slot)
      → check_slots px s share plan networks vms slots ≡ ok tt
      → All Passes slots
        × (existing : List Text) × (networks ≡ some existing)
        × All (λ b. contains existing b ≡ false) (expected_bridges share plan.boxes)
  unfolding check_slots refuse_found
  passed none slots h = cc
  passed (some existing) slots h =
      let empty =
        refuse_found_ok px plan vms
          (keep (λ slot. is_clash (fate_of px s share plan vms slot)) slots)
          (keep (λ slot. is_leftover (fate_of px s share plan vms slot)) slots)
          (keep (contains existing) (expected_bridges share plan.boxes)) h in
      (
        All-zip _ _ Passes (λ slot c l. (c, l)) slots (keep_none _ slots empty.0)
            (keep_none _ slots empty.1),
        existing,
        refl,
        keep_none (contains existing) (expected_bridges share plan.boxes) empty.2,
      )

  -- When `check_collisions` passes, no VM is at the vmid of any box of any team of the share, or of
  -- the engine on the engine's share, but an untagged one with this competition's clone marker; and
  -- the node has none of the bridges that the share creates. The last VM of those with one vmid is
  -- the VM at it, and the interfaces of the node were read.
  pub check_collisions-Vacant :
      (networks : Option (List Text))
      → check_collisions px s share plan networks vms ≡ ok tt
      → All (λ t. (j : ℕ) → j < length plan.boxes → Vacant (vm_id_for t.1 j)) share.teams
        × All Vacant engine_vmids
        × (existing : List Text) × (networks ≡ some existing)
        × All (λ b. contains existing b ≡ false) (expected_bridges share plan.boxes)
  unfolding check_collisions after_placement
  check_collisions-Vacant networks h =
      checked (check_placement plan.placement) (expected_slots share plan) refl h
    where
      checked :
          (r : Result Inconsistent (Unit {0})) (o : Option (List Slot))
          → expected_slots share plan ≡ o
          → after_placement px r o (check_slots px s share plan networks vms) ≡ ok tt
          → All (λ t. (j : ℕ) → j < length plan.boxes → Vacant (vm_id_for t.1 j)) share.teams
            × All Vacant engine_vmids
            × (existing : List Text) × (networks ≡ some existing)
            × All (λ b. contains existing b ≡ false) (expected_bridges share plan.boxes)
      checked (err e) o q k = cc
      checked (ok u) none q k = cc
      checked (ok u) (some slots) q k =
          let all = passed networks slots k in
          let parts = expected slots q in
          (
            team_slots-Vacant plan.boxes share.teams (parts.0 all.0),
            engine_vmids-Vacant (parts.1 all.0),
            all.1,
            all.2,
            all.3,
          )
