-- ===== src/Tlaloc/Rules/Standing.antt =====
-- tlaloc/tlaloc/policy.py: what the rules keep standing of a team's services.
use tezcatlipoca.Base.{
  ℕ, zero, suc, ◌≤◌, ◌<◌, ◌≡◌, refl, ◌⊎◌, inl, inr, true, false, not, ◌&&◌, Option, none, some,
  arith, Text, text_eq, Bool-cases, Option-cases,
}
use tezcatlipoca.Base.Actions.{Result, ok}
use tezcatlipoca.Tlaloc.{
  Red, Now, Hold, Candidate, Refusal, teardown_active, unrecoverable_unlocked,
}
use tezcatlipoca.Tlaloc.Rules.{
  over_cap, hold_by_counts, is_irreversible, is_impact, check_hold, check_known, can_impact,
  validate,
}

-- a team's services that stand and that are down
pub record Board : Type 0 where
  pub up : ℕ
  pub down : ℕ

-- what the counts of a team have to be for it to be pressed
HasRoom : Red → ℕ → ℕ → Type 0
HasRoom red up down = (over_cap red.max_down down ≡ false) × (red.min_standing < up)

over_cap-step : (m down : ℕ) → over_cap m down ≡ false → (m ≡ 0) ⊎ (suc down ≤ m)
unfolding over_cap
over_cap-step zero down h = inl refl
over_cap-step (suc m) down h = inr (ground arith)

fewer : (m down : ℕ) → (m ≡ 0) ⊎ (suc down ≤ m) → (m ≡ 0) ⊎ (down ≤ m)
fewer m down (inl none_set) = inl none_set
fewer m down (inr h) = inr (omega arith)

hold-HasRoom :
    (red : Red) (up down : ℕ) → hold_by_counts red (some (up, down)) ≡ none → HasRoom red up down
unfolding hold_by_counts HasRoom
hold-HasRoom red up down h = ground arith

check_hold-eq-ok :
    (c d : Candidate) (o : Option Hold) (rest : Result Refusal Candidate)
    → check_hold c o rest ≡ ok d
    → o ≡ none
unfolding check_hold
check_hold-eq-ok c d none rest h = refl
check_hold-eq-ok c d (some why) rest h = cc

module _ (minute : ℕ) (red : Red) (team_of : Option Text → Option Text) where
  can_impact-HasRoom :
      (counts : Option Text → Option (ℕ × ℕ)) (now : Now) (team : Option Text) (up down : ℕ)
      → teardown_active minute red now ≡ false
      → counts team ≡ some (up, down)
      → can_impact minute red counts team_of now team ≡ none
      → HasRoom red up down
  unfolding can_impact
  can_impact-HasRoom counts now team up down closed seen h = hold-HasRoom red up down (ground arith)

  check_known-can_impact :
      (counts : Option Text → Option (ℕ × ℕ)) (now : Now) (c d : Candidate)
      → is_impact c.effect ≡ true
      → check_known minute red counts team_of now c ≡ ok d
      → can_impact minute red counts team_of now (team_of c.ip) ≡ none
  unfolding check_known
  check_known-can_impact counts now c d impact h =
      elim (Bool-cases (is_irreversible c.effect && not (unrecoverable_unlocked minute red now))) [
        | inl e ↦ let q = rw (check_known, e) at h in cc
        | inr e ↦ check_hold-eq-ok c d _ _ (rw (check_known, e, impact) at h)
      ]

  validate-can_impact :
      (counts : Option Text → Option (ℕ × ℕ)) (now : Now) (c d : Candidate)
      → is_impact c.effect ≡ true
      → validate minute red counts team_of now c ≡ ok d
      → can_impact minute red counts team_of now (team_of c.ip) ≡ none
  unfolding validate
  validate-can_impact counts now c d impact h = elim (Option-cases c.ip) [
    | inl e ↦ check_known-can_impact counts now c d impact (rw (validate, e) at h)
    | inr (ip, e) ↦ elim (Option-cases (team_of (some ip))) [
      | inl f ↦ let q = rw (validate, e, f) at h in cc
      | inr (team, f) ↦ check_known-can_impact counts now c d impact (rw (validate, e, f) at h)
    ]
  ]

  module _ (team : Option Text) where
    -- A takedown of one of the team's services that `validate` lets through on the team's current
    -- counts, outside of the final window; or a service that the team brings back.
    pub data Step : Board → Board → Type 0 where
      strike :
          (up down : ℕ) (counts : Option Text → Option (ℕ × ℕ)) (now : Now) (c d : Candidate)
          → teardown_active minute red now ≡ false
          → is_impact c.effect ≡ true
          → team_of c.ip ≡ team
          → counts team ≡ some (suc up, down)
          → validate minute red counts team_of now c ≡ ok d
          → Step (record { up = suc up; down = down }) (record { up = up; down = suc down })
      restore :
          (up down : ℕ)
          → Step (record { up = up; down = suc down }) (record { up = suc up; down = down })

    pub data Reach (start : Board) : Board → Type 0 where
      here : Reach start start
      next : {b b' : Board} → Reach start b → Step b b' → Reach start b'

    -- the floor stands, and no more are down than the cap allows, where there is one
    unfoldable pub IsWithin : Board → Type 0
    IsWithin b = (red.min_standing ≤ b.up) × ((red.max_down ≡ 0) ⊎ (b.down ≤ red.max_down))

    Step-IsWithin : {b b' : Board} → Step b b' → IsWithin b → IsWithin b'
    unfolding IsWithin HasRoom over_cap
    Step-IsWithin (strike up down counts now c d closed impact own seen valid) h =
        let room =
          can_impact-HasRoom counts now team (suc up) down closed seen
            (rw own at (validate-can_impact counts now c d impact valid)) in
        (ground (arith, room.1), over_cap-step red.max_down down room.0)
    Step-IsWithin (restore up down) h = (ground (arith, h.0), fewer red.max_down down h.1)

    -- Outside of the final window, when each takedown that is carried out was let through by `validate`
    -- on the team's counts at that time, a team that begins with caps.min_standing services standing
    -- and no more down than caps.max_down, where that is not 0, has so after any takedowns and
    -- restored services, whatever boxes_per_team the tiers of the ladder have.
    pub validate-IsWithin : {start b : Board} → Reach start b → IsWithin start → IsWithin b
    validate-IsWithin here h = h
    validate-IsWithin (next r s) h = Step-IsWithin s (validate-IsWithin r h)
