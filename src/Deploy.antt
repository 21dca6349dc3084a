-- ===== src/Deploy.antt =====
-- infra/gates.py and deploy_lib/runner.py: when a deploy may resume at a phase, and how the
-- pipeline walks its phases and checkpoints them. The probes of the machines are answers here:
-- `none` where the probe raises. Output is not modelled.
pub mod Gates
pub mod Pipeline
pub mod Stale
pub mod Tests
use tezcatlipoca.Base.{
  ℕ, zero, suc, ◌+◌, Bool, true, false, not, ◌&&◌, ◌||◌, Option, none, some, List, [], ◌∷◌, leb,
  ltb, nat_beq, if◌then◌else◌, is_empty, contains, keep, nat_eq, length,
}
use tezcatlipoca.Base.Actions.{Result, ok, err}

abbrev pub pipeline_version : ℕ
pipeline_version = 3

-- what a resume is refused for
pub data Refusal : Type 0 where
  no_state foreign_version : Refusal
  skips_phases : (last : ℕ) → Refusal
  blind engine_missing : Refusal
  boxes_missing : (vmids : List ℕ) → Refusal

-- what the state document records: `last_phase` is none where it is no number from 0 on
pub record Previous : Type 0 where
  pub version : Option ℕ
  pub last_phase : Option ℕ
  pub scoring_vm_id : ℕ

-- the probes of `guard_resume_existence`
pub record Probes : Type 0 where
  pub live : Option (List ℕ)
  pub team_vmids : Option (List ℕ)

abbrev pub last_or_zero : Option ℕ → ℕ
last_or_zero none = 0
last_or_zero (some n) = n

unfoldable pub guard_resume_from_phase : ℕ → Option ℕ → Bool → Result Refusal (Unit {0})
guard_resume_from_phase from last_phase force =
    if force || leb from (last_or_zero last_phase + 1)
    then ok tt
    else err (skips_phases (last_or_zero last_phase))

-- the recorded team boxes that are not live
absent : List ℕ → List ℕ → List ℕ
absent live vmids = keep (λ v. not (contains live v)) vmids

boxes_live : List ℕ → Option (List ℕ) → Result Refusal (Unit {0})
unfolding absent
boxes_live live none = err blind
boxes_live live (some vmids) =
    if is_empty vmids || not (is_empty (absent live vmids))
    then err (boxes_missing (absent live vmids))
    else ok tt

machines_live : ℕ → ℕ → Option (List ℕ) → Option (List ℕ) → Result Refusal (Unit {0})
unfolding boxes_live
machines_live from engine none vmids = err blind
machines_live from engine (some live) vmids =
    if not (contains live engine)
    then err engine_missing
    else if leb from 4
    then ok tt
    else boxes_live live vmids

unfoldable pub guard_resume_existence : ℕ → Previous → Bool → Probes → Result Refusal (Unit {0})
unfolding machines_live
guard_resume_existence from previous force probes =
    if force || leb from 2
    then ok tt
    else machines_live from previous.scoring_vm_id probes.live probes.team_vmids

-- the second gate only runs if the first does not refuse
abbrev and_then : Result Refusal (Unit {0}) → Result Refusal (Unit {0}) → Result Refusal (Unit {0})
and_then (ok _) r = r
and_then (err e) r = err e

unfoldable pub version_gate : Option ℕ → Result Refusal (Unit {0})
version_gate none = err foreign_version
version_gate (some v) = if nat_beq v pipeline_version then ok tt else err foreign_version

unfoldable pub check_resume_gates : ℕ → Bool → Previous → Bool → Probes → Result Refusal (Unit {0})
unfolding guard_resume_from_phase guard_resume_existence version_gate
check_resume_gates from state_exists previous force probes =
    if ltb 1 from && not state_exists
    then err no_state
    else if leb from 1
    then ok tt
    else and_then (version_gate previous.version) (
        and_then (guard_resume_from_phase from previous.last_phase force)
          (guard_resume_existence from previous force probes))

-- A phase returns or raises `E`, and changes the world either way.
abbrev pub Phase : Type 0 → Type 0 → Type 0
Phase E W = W → Option E × W

pub record Context (W : Type 0) : Type 0 where
  pub world : W
  -- ctx.state: the checkpoint and the marker of a parked run
  pub last_phase : Option ℕ
  pub paused : Bool
  -- the checkpoint in the state document
  pub saved : Option ℕ

-- the phase that a failure names, and what was raised
pub record Failed (E : Type 0) : Type 0 where
  pub phase : ℕ
  pub raised : E

checkpoint : {W : Type 0} → ℕ → Context W → Context W
checkpoint n ctx = record ctx { last_phase = some n; saved = some n }

-- the marker of a parked run is cleared, and the state saved, before the first phase
unpark : {W : Type 0} → Context W → Context W
unpark ctx = if ctx.paused then record ctx { paused = false; saved = ctx.last_phase } else ctx

module _ {E W : Type 0} (connect_estate : Phase E W) (pause_at_boundary : ℕ → Phase E W)
    (from : ℕ) where
  call : Phase E W → ℕ → Context W → Result (Failed E) (Unit {0}) × Context W
  call phase current ctx =
      let (raised, w) = phase ctx.world in
      (
        elim raised [ none ↦ ok tt | some e ↦ err (record { phase = current; raised = e }) ],
        record ctx { world = w },
      )

  -- the rest of a block runs unless a call has raised
  abbrev after_call :
      Result (Failed E) (Unit {0}) × Context W
      → (Context W → Result (Failed E) (Unit {0}) × Context W)
      → Result (Failed E) (Unit {0}) × Context W
  after_call (ok _, ctx) k = k ctx
  after_call (err e, ctx) k = (err e, ctx)

  -- one turn of the loop
  turn : ℕ → Phase E W → ℕ → Context W → Result (Failed E) (Unit {0}) × Context W
  unfolding call checkpoint
  turn n phase current ctx =
      let running = leb from n in
      after_call (call phase current ctx) λ returned.
        let marked = if running then checkpoint n returned else returned in
        after_call (if nat_beq n 2 then call connect_estate current marked else (ok tt, marked))
          λ connected.
            if running then call (pause_at_boundary n) current connected else (ok tt, connected)

  walk : ℕ → ℕ → List (Phase E W) → Context W → Result (Failed E) (Unit {0}) × Context W
  unfolding turn
  walk n current [] ctx = (ok tt, ctx)
  walk n current (phase ∷ phases) ctx =
      let now = if leb from n then n else current in
      after_call (turn n phase now ctx) (walk (suc n) now phases)

  unfoldable pub run_pipeline :
      List (Phase E W) → Context W → Result (Failed E) (Unit {0}) × Context W
  unfolding walk unpark
  run_pipeline phases ctx = walk 1 (if leb from 1 then 1 else from) phases (unpark ctx)
