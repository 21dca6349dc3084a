-- ===== src/Deploy/Gates.antt =====
-- infra/gates.py: what check_resume_gates establishes before a deploy resumes.
use tezcatlipoca.Base.{
  ℕ, ◌+◌, ◌≤◌, ◌<◌, Bool, true, false, ◌≡◌, ◌↔◌, ◌⊎◌, refl, Option, none, some, List, [], ◌∷◌,
  arith, is_empty, contains, keep, subset, nat_eq, nat_beq_iff,
}
use tezcatlipoca.Base.Actions.{Result, ok, err}
use tezcatlipoca.Deploy.{
  pipeline_version, Refusal, Previous, Probes, last_or_zero, guard_resume_from_phase, absent,
  boxes_live, machines_live, guard_resume_existence, and_then, version_gate, check_resume_gates,
}

-- no recorded box is absent exactly when all of them are live
absent_none : (live vmids : List ℕ) → is_empty (absent live vmids) ≡ subset vmids live
unfolding absent keep subset
absent_none live [] = refl
absent_none live (v ∷ vs) = ground (arith, absent_none live vs)

-- the recorded boxes could be read, there are some, and all of them are live
abbrev pub BoxesLive : List ℕ → Option (List ℕ) → Type 0
BoxesLive live recorded =
    (vmids : List ℕ) × (recorded ≡ some vmids)
    × (is_empty vmids ≡ false)
    × (subset vmids live ≡ true)

-- the live machines could be listed, the engine is one, and from phase 5 on so are the boxes
abbrev pub MachinesLive : ℕ → ℕ → Option (List ℕ) → Option (List ℕ) → Type 0
MachinesLive from engine listed recorded =
    (live : List ℕ) × (listed ≡ some live)
    × (contains live engine ≡ true)
    × (4 < from → BoxesLive live recorded)

-- What a resume at phase `from` stands on: a state of this pipeline's version, and unless it is
-- forced, no phase left out and the machines that the skipped phases built.
pub record Resumable (from : ℕ) (previous : Previous) (force : Bool) (probes : Probes)
    : Type 0 where
  version : previous.version ≡ some pipeline_version
  next : force ≡ false → from ≤ last_or_zero previous.last_phase + 1
  machines :
      force ≡ false
      → 2 < from
      → MachinesLive from previous.scoring_vm_id probes.live probes.team_vmids

and_then_iff :
    (r s : Result Refusal (Unit {0})) → (and_then r s ≡ ok tt) ↔ ((r ≡ ok tt) × (s ≡ ok tt))
and_then_iff (ok u) s = ((λ h. (refl, h)), λ h. h.1)
and_then_iff (err e) s = ((λ h. cc), λ h. cc)

version_gate_iff : (v : Option ℕ) → (version_gate v ≡ ok tt) ↔ (v ≡ some pipeline_version)
unfolding version_gate
version_gate_iff none = ground arith
version_gate_iff (some v) = ground (arith, nat_beq_iff v pipeline_version)

from_phase_iff :
    (from : ℕ) (last : Option ℕ) (force : Bool)
    → (guard_resume_from_phase from last force ≡ ok tt)
      ↔ (force ≡ false → from ≤ last_or_zero last + 1)
unfolding guard_resume_from_phase
from_phase_iff from last true = ground arith
from_phase_iff from last false = ground arith

boxes_live_iff :
    (live : List ℕ) (recorded : Option (List ℕ))
    → (boxes_live live recorded ≡ ok tt) ↔ BoxesLive live recorded
unfolding boxes_live
boxes_live_iff live none = (λ h. cc, λ h. cc)
boxes_live_iff live (some vs) = (
  λ h. (vs, refl, ground (arith, absent_none live vs), ground (arith, absent_none live vs)),
  λ h. listed h.0 h.1 h.2 h.3,
)
  where
    listed :
        (ws : List ℕ)
        → some vs ≡ some ws
        → is_empty ws ≡ false
        → subset ws live ≡ true
        → boxes_live live (some vs) ≡ ok tt
    listed ws e full all = ground (arith, absent_none live vs, absent_none live ws)

machines_live_iff :
    (from engine : ℕ) (listed recorded : Option (List ℕ))
    → (machines_live from engine listed recorded ≡ ok tt) ↔ MachinesLive from engine listed recorded
unfolding machines_live
machines_live_iff from engine none recorded = (λ h. cc, λ h. cc)
machines_live_iff from engine (some live) recorded = (
  λ h. (
    live,
    refl,
    ground (arith, boxes_live_iff live recorded),
    λ beyond. ground (arith, boxes_live_iff live recorded),
  ),
  λ h. in_list h.0 h.1 h.2 h.3,
)
  where
    in_list :
        (seen : List ℕ)
        → some live ≡ some seen
        → contains seen engine ≡ true
        → (4 < from → BoxesLive seen recorded)
        → machines_live from engine (some live) recorded ≡ ok tt
    in_list seen e here boxes =
        ground (arith, boxes_live_iff live recorded, boxes_live_iff seen recorded)

existence_iff :
    (from : ℕ) (previous : Previous) (force : Bool) (probes : Probes)
    → (guard_resume_existence from previous force probes ≡ ok tt) ↔ (
        force ≡ false
        → 2 < from
        → MachinesLive from previous.scoring_vm_id probes.live probes.team_vmids)
unfolding guard_resume_existence
existence_iff from previous true probes = ground arith
existence_iff from previous false probes =
    ground (arith, machines_live_iff from previous.scoring_vm_id probes.live probes.team_vmids)

gates-Resumable :
    (from : ℕ) (previous : Previous) (force : Bool) (probes : Probes)
    → (and_then (version_gate previous.version) (
          and_then
            (guard_resume_from_phase from previous.last_phase force)
            (guard_resume_existence from previous force probes))
        ≡ ok tt)
      ↔ Resumable from previous force probes
gates-Resumable from previous force probes = (
  λ h.
      let outer = (and_then_iff (version_gate previous.version) later).0 h in
      let inner =
        (and_then_iff (guard_resume_from_phase from previous.last_phase force)
            (guard_resume_existence from previous force probes)).0
          outer.1 in
      record {
        version = (version_gate_iff previous.version).0 outer.0;
        next = (from_phase_iff from previous.last_phase force).0 inner.0;
        machines = (existence_iff from previous force probes).0 inner.1;
      },
  λ r. (and_then_iff (version_gate previous.version) later).1 (
    (version_gate_iff previous.version).1 r.version,
    (and_then_iff (guard_resume_from_phase from previous.last_phase force)
          (guard_resume_existence from previous force probes)).1
        (
          (from_phase_iff from previous.last_phase force).1 r.next,
          (existence_iff from previous force probes).1 r.machines,
        ),
  ),
)
  where
    later : Result Refusal (Unit {0})
    later =
        and_then (guard_resume_from_phase from previous.last_phase force)
          (guard_resume_existence from previous force probes)

-- A deploy is let through exactly when it begins at the first phase, or there is a state to resume
-- from whose version is this pipeline's and, unless it is forced, which leaves no phase out and
-- whose machines, as far as the skipped phases built them, are live.
pub check_resume_gates_iff :
    (from : ℕ) (state_exists : Bool) (previous : Previous) (force : Bool) (probes : Probes)
    → (check_resume_gates from state_exists previous force probes ≡ ok tt)
      ↔ ((from ≤ 1) ⊎ ((state_exists ≡ true) × Resumable from previous force probes))
unfolding check_resume_gates
check_resume_gates_iff from state_exists previous force probes =
    ground (arith, gates-Resumable from previous force probes)
