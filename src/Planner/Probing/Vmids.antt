-- ===== src/Planner/Probing/Vmids.antt =====
-- multinode/placement_planner.py: the vmids that `probe_node` looks at, as ranges, and the VM that a
-- listing has at one.
use tezcatlipoca.Base.{
  ℕ, zero, suc, ◌+◌, ◌*◌, ◌≤◌, ◌<◌, Bool, true, false, ◌||◌, ◌≡◌, refl, ap, ◌⊎◌, inl, inr, none,
  some, List, [], ◌∷◌, ◌++◌, map, arith, All, keep, contains, contains-append, nat_beq, nat_beq_iff,
  ltb, nat_eq, Text, text_beq, text_beq_iff, Bool-cases,
}
use tezcatlipoca.Vmids.{
  range_from, golden_vmid_for_slot, golden_slot_span, jump_vmid_for, engine_template_vmid,
  vm_id_for,
}
use tezcatlipoca.Preflight.{Guest}
use tezcatlipoca.Planner.Probing.{slots_span, template_slots, team_vmids, wanted_vmids, last_at}

-- the vmids of the run's own templates: the engine's, and the goldens of the engine's slot and of
-- four satellites
unfoldable pub IsTemplateSlot : ℕ → ℕ → Type 0
IsTemplateSlot engine v = (v ≡ engine + 140) ⊎ ((engine + 150 ≤ v) × (v < engine + 200))

-- a team's ten vmids
pub IsTeamSlot : List ℕ → ℕ → Type 0
IsTeamSlot [] v = ⊥
IsTeamSlot (n ∷ ns) v = ((200 + n * 10 ≤ v) × (v < 210 + n * 10)) ⊎ IsTeamSlot ns v

contains-range : (s n v : ℕ) → s ≤ v → v < s + n → contains (range_from s n) v ≡ true
unfolding range_from contains
contains-range s zero v h k = absurd (omega arith)
contains-range s (suc n) v h k = elim (Bool-cases (nat_beq s v)) [
  | inl e ↦ ground arith
  | inr e ↦ ground (arith, nat_beq_iff s v, contains-range (suc s) n v)
]

range-contains : (s n v : ℕ) → contains (range_from s n) v ≡ true → (s ≤ v) × (v < s + n)
unfolding range_from contains
range-contains s zero v h = cc
range-contains s (suc n) v h = elim (Bool-cases (nat_beq s v)) [
  | inl e ↦ let same = nat_beq_iff s v in (ground arith, ground arith)
  | inr e ↦
      let same = nat_beq_iff s v in
      let later = range-contains (suc s) n v in (ground arith, ground arith)
]

-- the goldens of a slot, from a box on
goldens-eq :
    (engine slot k n : ℕ)
    → map (golden_vmid_for_slot engine slot) (range_from k n)
      ≡ range_from (engine + 150 + slot * 10 + k) n
unfolding range_from golden_vmid_for_slot
goldens-eq engine slot k zero = refl
goldens-eq engine slot k (suc n) =
    let rest = goldens-eq engine slot (suc k) n in
    let next : engine + 150 + slot * 10 + suc k ≡ suc (engine + 150 + slot * 10 + k) =
      omega arith in
    ap (λ l. (engine + 150 + slot * 10 + k) ∷ l) (rw (rest, next))

golden_slot_span-eq :
    (engine slot : ℕ) → golden_slot_span engine slot ≡ range_from (engine + 150 + slot * 10 + 0) 10
unfolding golden_slot_span
golden_slot_span-eq engine slot = goldens-eq engine slot 0 10

golden_slot_span-contains :
    (engine slot v : ℕ)
    → contains (golden_slot_span engine slot) v ≡ true
    → (engine + 150 + slot * 10 ≤ v) × (v < engine + 160 + slot * 10)
golden_slot_span-contains engine slot v h =
    let at =
      range-contains (engine + 150 + slot * 10 + 0) 10 v
        (rw (golden_slot_span-eq engine slot) at h) in
    (omega (arith, at.0, at.1), omega (arith, at.0, at.1))

-- the goldens of some slots
slots_span-contains :
    (engine k n v : ℕ)
    → contains (slots_span engine (range_from k n)) v ≡ true
    → (engine + 150 + k * 10 ≤ v) × (v < engine + 150 + (k + n) * 10)
unfolding range_from contains slots_span
slots_span-contains engine k zero v h = cc
slots_span-contains engine k (suc n) v h =
    let rest = slots_span-contains engine (suc k) n v in
    let here = golden_slot_span-contains engine k v in
    let both =
      contains-append (golden_slot_span engine k) (slots_span engine (range_from (suc k) n)) v in
    elim (Bool-cases (contains (golden_slot_span engine k) v)) [
      | inl e ↦ (omega (arith, (here e).0, (here e).1), omega (arith, (here e).0, (here e).1))
      | inr e ↦ let g = rest (ground arith) in (omega (arith, g.0, g.1), omega (arith, g.0, g.1))
    ]

contains-golden_slot_span :
    (engine slot v : ℕ)
    → engine + 150 + slot * 10 ≤ v
    → v < engine + 160 + slot * 10
    → contains (golden_slot_span engine slot) v ≡ true
contains-golden_slot_span engine slot v h k = rw (
  golden_slot_span-eq engine slot,
  contains-range (engine + 150 + slot * 10 + 0) 10 v (omega arith) (omega arith),
)

contains-slots_span :
    (engine k n v : ℕ)
    → engine + 150 + k * 10 ≤ v
    → v < engine + 150 + (k + n) * 10
    → contains (slots_span engine (range_from k n)) v ≡ true
unfolding range_from contains slots_span
contains-slots_span engine k zero v h g = absurd (omega arith)
contains-slots_span engine k (suc n) v h g =
    let rest = contains-slots_span engine (suc k) n v in
    let here = contains-golden_slot_span engine k v in
    let both =
      contains-append (golden_slot_span engine k) (slots_span engine (range_from (suc k) n)) v in
    elim (Bool-cases (ltb v (engine + 160 + k * 10))) [
      | inl e ↦ let a = here h (ground arith) in ground arith
      | inr e ↦ let a = rest (ground arith) (ground arith) in ground arith
    ]

pub template_slots-IsTemplateSlot :
    (engine v : ℕ) → contains (template_slots engine) v ≡ true → IsTemplateSlot engine v
unfolding template_slots contains engine_template_vmid IsTemplateSlot
template_slots-IsTemplateSlot engine v h =
    let same = nat_beq_iff (engine + 140) v in
    let span : contains (slots_span engine (range_from 0 5)) v ≡ true
        → (engine + 150 + 0 * 10 ≤ v) × (v < engine + 150 + (0 + 5) * 10) =
      slots_span-contains engine 0 5 v in
    elim (Bool-cases (nat_beq (engine + 140) v)) [
      | inl e ↦ inl (ground arith)
      | inr e ↦ let at = span (ground arith) in inr (omega (arith, at.0), omega (arith, at.1))
    ]

contains-template_slots :
    (engine v : ℕ) → IsTemplateSlot engine v → contains (template_slots engine) v ≡ true
unfolding template_slots contains engine_template_vmid IsTemplateSlot
contains-template_slots engine v (inl h) = let same = nat_beq_iff (engine + 140) v in ground arith
contains-template_slots engine v (inr h) =
    let span = contains-slots_span engine 0 5 v (omega (arith, h.0)) (omega (arith, h.1)) in
    ground arith

-- every vmid that a placement may use on the node
unfoldable pub IsWanted : ℕ → List ℕ → ℕ → Type 0
IsWanted engine numbers v =
    (v ≡ engine)
    ⊎ (((engine + 130 ≤ v) × (v < engine + 135)) ⊎ (IsTemplateSlot engine v ⊎ IsTeamSlot numbers v))

contains-jumps :
    (engine k n v : ℕ)
    → engine + 130 + k ≤ v
    → v < engine + 130 + k + n
    → contains (map (jump_vmid_for engine) (range_from k n)) v ≡ true
unfolding range_from contains jump_vmid_for
contains-jumps engine k zero v h g = absurd (omega arith)
contains-jumps engine k (suc n) v h g = elim (Bool-cases (nat_beq (engine + 130 + k) v)) [
  | inl e ↦ ground arith
  | inr e ↦
      let other = nat_beq_iff (engine + 130 + k) v in
      ground (arith, contains-jumps engine (suc k) n v (ground arith) (omega arith))
]

team_vmids-cons :
    (n : ℕ) (ns : List ℕ) (v : ℕ)
    → contains (team_vmids (n ∷ ns)) v
      ≡ (contains (range_from (200 + n * 10 + 0) 10) v || contains (team_vmids ns) v)
unfolding team_vmids vm_id_for
team_vmids-cons n ns v = contains-append (range_from (200 + n * 10 + 0) 10) (team_vmids ns) v

contains-team_vmids :
    (numbers : List ℕ) (v : ℕ) → IsTeamSlot numbers v → contains (team_vmids numbers) v ≡ true
unfolding IsTeamSlot
contains-team_vmids [] v h = absurd h
contains-team_vmids (n ∷ ns) v (inl h) =
    let here = contains-range (200 + n * 10 + 0) 10 v (omega (arith, h.0)) (omega (arith, h.1)) in
    rw (team_vmids-cons n ns v, here)
contains-team_vmids (n ∷ ns) v (inr h) =
    let rest = contains-team_vmids ns v h in let both = team_vmids-cons n ns v in ground arith

-- what stands anywhere in the parts of the wanted vmids
wanted_vmids-parts :
    (engine : ℕ) (numbers : List ℕ) (v : ℕ)
    → contains (wanted_vmids engine numbers) v ≡ (
        nat_beq engine v
        || (contains (template_slots engine) v
            || (contains (map (jump_vmid_for engine) (range_from 0 5)) v
                || contains (team_vmids numbers) v)))
unfolding wanted_vmids contains
wanted_vmids-parts engine numbers v =
    let jumps = map (jump_vmid_for engine) (range_from 0 5) in
    rw (
      contains-append (template_slots engine) (jumps ++ team_vmids numbers) v,
      contains-append jumps (team_vmids numbers) v,
    )

pub contains-wanted_vmids :
    (engine : ℕ) (numbers : List ℕ) (v : ℕ)
    → IsWanted engine numbers v
    → contains (wanted_vmids engine numbers) v ≡ true
unfolding IsWanted
contains-wanted_vmids engine numbers v h =
    let parts = wanted_vmids-parts engine numbers v in
    elim h [
      | inl e ↦ let same = nat_beq_iff engine v in ground arith
      | inr (inl g) ↦
          let a = contains-jumps engine 0 5 v (omega (arith, g.0)) (omega (arith, g.1)) in
          ground arith
      | inr (inr (inl g)) ↦ let a = contains-template_slots engine v g in ground arith
      | inr (inr (inr g)) ↦ let a = contains-team_vmids numbers v g in ground arith
    ]

pub All-contains :
    (f : ℕ → Bool) (xs : List ℕ) (v : ℕ)
    → All (λ w. f w ≡ false) xs
    → contains xs v ≡ true
    → f v ≡ false
unfolding contains
All-contains f [] v a h = cc
All-contains f (x ∷ xs) v a h = elim (Bool-cases (nat_beq x v)) [
  | inl e ↦ let same : x ≡ v = (nat_beq_iff x v).0 e in rw same at a.0
  | inr e ↦ All-contains f xs v a.1 (rw (contains, e) at h)
]

-- no VM of the node has the vmid
unfoldable pub NoneAt : Text → ℕ → List Guest → Type 0
NoneAt node v vms = All (λ w. w.node ≡ node → ¬ (w.vmid ≡ v)) vms

last_at-none :
    (node : Text) (v : ℕ) (vms : List Guest)
    → NoneAt node v vms
    → last_at v (keep (λ w. text_beq w.node node) vms) ≡ none
unfolding keep last_at NoneAt
last_at-none node v [] a = refl
last_at-none node v (w ∷ ws) a =
    let rest = last_at-none node v ws a.1 in
    elim (Bool-cases (text_beq w.node node)) [
      | inr e ↦ rw (e, rest)
      | inl e ↦ elim (Bool-cases (nat_beq w.vmid v)) [
        | inl g ↦ absurd (a.0 ((text_beq_iff w.node node).0 e) ((nat_beq_iff w.vmid v).0 g))
        | inr g ↦ rw (e, last_at, rest, g)
      ]
    ]

pub last_at-there :
    (node : Text) (before : List Guest) (vm : Guest) (after : List Guest)
    → vm.node ≡ node
    → NoneAt node vm.vmid after
    → last_at vm.vmid (keep (λ w. text_beq w.node node) (before ++ vm ∷ after)) ≡ some vm
unfolding keep last_at
last_at-there node [] vm after h a =
    let rest = last_at-none node vm.vmid after a in
    let on = (text_beq_iff vm.node node).1 h in
    let same = (nat_beq_iff vm.vmid vm.vmid).1 refl in rw (on, last_at, rest, same)
last_at-there node (w ∷ before) vm after h a =
    let rest = last_at-there node before vm after h a in
    elim (Bool-cases (text_beq w.node node)) [
      | inr e ↦ rw (e, rest)
      | inl e ↦ rw (e, last_at, rest)
    ]
