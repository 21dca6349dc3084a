-- ===== src/Deploy/Tests.antt =====
-- A deploy of three phases whose third fails, and the gates on small states.
use tezcatlipoca.Base.{
  Text, text, ◌<◌, ℕ, ◌+◌, ◌≤◌, Bool, true, false, ◌≡◌, refl, ◌↔◌, ◌⊎◌, none, some, List, [], ◌∷◌,
  arith,
}
use tezcatlipoca.Base.Actions.{ok, err}
use tezcatlipoca.Deploy.{
  Previous, Probes, guard_resume_from_phase, check_resume_gates, Phase, Context, Failed,
  run_pipeline,
}
use tezcatlipoca.Deploy.Stale.{Written, other_host, check_stale_estate_state}
use tezcatlipoca.Deploy.Gates.{Resumable, check_resume_gates_iff}
use tezcatlipoca.Deploy.Pipeline.{resume_hint}

-- the world counts the calls
abbrev fine : Phase ℕ ℕ
fine w = (none, w + 1)

abbrev broken : Phase ℕ ℕ
broken w = (some 7, w + 1)

abbrev start : Context ℕ
start = record { world = 0; last_phase = none; paused = false; saved = none }

abbrev phases : List (Phase ℕ ℕ)
phases = fine ∷ fine ∷ broken ∷ []

abbrev stopped : Failed ℕ
stopped = record { phase = 3; raised = 7 }

fails_in_third : (run_pipeline fine (λ n. fine) 1 phases start).0 ≡ err stopped
unfolding run_pipeline
fails_in_third = refl

resume_hint_example :
    guard_resume_from_phase 3 (run_pipeline fine (λ n. fine) 1 phases start).1.saved false ≡ ok tt
unfolding guard_resume_from_phase
resume_hint_example = resume_hint fine (λ n. fine) 1 phases start stopped refl refl fails_in_third

abbrev previous : Previous
previous = record { version = some 3; last_phase = some 4; scoring_vm_id = 900 }

abbrev probes : Probes
probes = record { live = some (900 ∷ 211 ∷ []); team_vmids = some (211 ∷ 212 ∷ []) }

check_resume_gates_iff_example :
    (check_resume_gates 5 true previous false probes ≡ ok tt)
    ↔ ((◌≤◌ 5 1) ⊎ (◌≡◌ {A = Bool} true true × Resumable 5 previous false probes))
check_resume_gates_iff_example = check_resume_gates_iff 5 true previous false probes

abbrev written : Written
written = record {
  deployed_endpoint = text "https://pve1:8006/";
  endpoint = [];
  engine_vmid = some 900;
}

elsewhere :
    check_stale_estate_state (some written) (text "https://pve2:8006") 900 1
    ≡ err (other_host (text "https://pve1:8006") (some 900))
unfolding check_stale_estate_state tezcatlipoca.Base.text_beq
elsewhere = refl
