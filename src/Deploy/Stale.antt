-- ===== src/Deploy/Stale.antt =====
-- infra/gates.py: `check_stale_estate_state`, which refuses a deploy against a host that the state
-- of the competition did not come from. Texts are empty where the state has none.
use tezcatlipoca.Base.{
  ℕ, ◌<◌, Bool, false, not, ◌&&◌, ◌||◌, ◌≡◌, refl, ◌↔◌, ◌⊎◌, inl, Option, none, some, [], ◌∷◌,
  arith, ltb, if◌then◌else◌, is_empty, nat_beq, Text, text_beq, text_beq_iff, text_eq,
}
use tezcatlipoca.Base.Actions.{Result, ok, err}

-- what the state document says of the host that it was written for
pub record Written : Type 0 where
  pub deployed_endpoint : Text
  pub endpoint : Text
  pub engine_vmid : Option ℕ

pub data StaleState : Type 0 where
  other_host : (endpoint : Text) (engine_vmid : Option ℕ) → StaleState

-- s.rstrip("/")
pub rstrip_slash : Text → Text
rstrip_slash [] = []
rstrip_slash (c ∷ s) =
    let rest = rstrip_slash s in if nat_beq c b'/' && is_empty rest then [] else c ∷ rest

-- (deployed_endpoint or endpoint or "").rstrip("/")
pub previous_endpoint : Written → Text
unfolding rstrip_slash
previous_endpoint previous =
    rstrip_slash (
      if is_empty previous.deployed_endpoint then previous.endpoint else previous.deployed_endpoint)

host_mismatch : Text → Text → Bool
host_mismatch previous current = not (is_empty previous) && not (text_beq previous current)

vmid_mismatch : Option ℕ → ℕ → Bool
vmid_mismatch none current = false
vmid_mismatch (some previous) current = not (nat_beq previous current)

-- `previous` is none for an empty state, `current` the endpoint that is configured now
unfoldable pub check_stale_estate_state :
    Option Written → Text → ℕ → ℕ → Result StaleState (Unit {0})
unfolding rstrip_slash previous_endpoint host_mismatch vmid_mismatch
check_stale_estate_state none current engine_vmid from = ok tt
check_stale_estate_state (some previous) current engine_vmid from =
    if ltb 2 from
    then ok tt
    else if host_mismatch (previous_endpoint previous) (rstrip_slash current)
        || vmid_mismatch previous.engine_vmid engine_vmid
    then err (other_host (previous_endpoint previous) previous.engine_vmid)
    else ok tt

-- the endpoints are the same but for slashes at their ends, or the state names none
abbrev pub SameHost : Written → Text → Type 0
SameHost previous current =
    (previous_endpoint previous ≡ []) ⊎ (previous_endpoint previous ≡ rstrip_slash current)

abbrev pub SameEngine : Option ℕ → ℕ → Type 0
SameEngine none current = Unit
SameEngine (some previous) current = previous ≡ current

host_mismatch_iff :
    (previous current : Text)
    → (host_mismatch previous current ≡ false) ↔ ((previous ≡ []) ⊎ (previous ≡ current))
unfolding host_mismatch
host_mismatch_iff [] current = (λ h. inl refl, λ h. refl)
host_mismatch_iff (c ∷ s) current = ground (arith, text_beq_iff (c ∷ s) current)

vmid_mismatch_iff :
    (previous : Option ℕ) (current : ℕ)
    → (vmid_mismatch previous current ≡ false) ↔ SameEngine previous current
unfolding vmid_mismatch
vmid_mismatch_iff none current = (λ h. tt, λ h. refl)
vmid_mismatch_iff (some previous) current = ground arith

-- A deploy that begins at phase 1 or 2 with a state from an earlier run is let through exactly when
-- the state names no endpoint or the configured one, slashes at the ends aside, and no engine vmid
-- or the one of this run; from phase 3 on every deploy is let through.
pub check_stale_estate_state_iff :
    (previous : Written) (current : Text) (engine_vmid from : ℕ)
    → (check_stale_estate_state (some previous) current engine_vmid from ≡ ok tt)
      ↔ ((2 < from) ⊎ (SameHost previous current × SameEngine previous.engine_vmid engine_vmid))
unfolding check_stale_estate_state
check_stale_estate_state_iff previous current engine_vmid from = ground (
  arith,
  host_mismatch_iff (previous_endpoint previous) (rstrip_slash current),
  vmid_mismatch_iff previous.engine_vmid engine_vmid,
)
