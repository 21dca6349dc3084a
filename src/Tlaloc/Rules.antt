-- ===== src/Tlaloc/Rules.antt =====
-- tlaloc/tlaloc/policy.py: `can_impact` and `validate`. The counts of a team's services that stand and
-- that are down are a function of the team, with none where the scoreboard has none.
pub mod Standing
use tezcatlipoca.Base.{
  ℕ, zero, suc, Bool, true, false, not, ◌&&◌, Option, none, some, List, if◌then◌else◌, contains,
  is_empty, leb, Text, text, text_eq,
}
use tezcatlipoca.Base.Actions.{Result, ok, err}
use tezcatlipoca.Tlaloc.{
  max_down_now, Red, Now, Hold, opening_grace, at_max_down, at_floor, Effect, takedown, block_port,
  rotate_credlist, lockout, other_effect, Candidate, Refusal, unknown_box, still_locked, held,
  mode_locked, window_closed, teardown_active, impact_started, unrecoverable_unlocked,
  allowed_impact_modes, window_open,
}

-- `max_down` of 0 is no limit
over_cap : ℕ → ℕ → Bool
over_cap zero down = false
over_cap (suc m) down = leb (suc m) down

-- the choice by the counts; none is "ok"
hold_by_counts : Red → Option (ℕ × ℕ) → Option Hold
unfolding over_cap max_down_now
hold_by_counts red none = none
hold_by_counts red (some (up, down)) =
    if over_cap (max_down_now red) down
    then some (at_max_down down)
    else if leb up red.min_standing
    then some (at_floor up)
    else none

is_irreversible : Effect → Bool
is_irreversible block_port = true
is_irreversible rotate_credlist = true
is_irreversible lockout = true
is_irreversible takedown = false
is_irreversible (other_effect n) = false

-- what `can_impact` is asked about
unfoldable pub is_impact : Effect → Bool
is_impact takedown = true
is_impact block_port = true
is_impact rotate_credlist = false
is_impact lockout = false
is_impact (other_effect n) = false

check_hold : Candidate → Option Hold → Result Refusal Candidate → Result Refusal Candidate
check_hold c none rest = rest
check_hold c (some why) rest = err (held why)

module _ (minute : ℕ) (red : Red) (counts : Option Text → Option (ℕ × ℕ))
    (team_of : Option Text → Option Text) (now : Now) where
  -- none where the team may be pressed
  unfoldable pub can_impact : Option Text → Option Hold
  unfolding teardown_active impact_started hold_by_counts
  can_impact team =
      if teardown_active minute red now
      then none
      else if not (impact_started minute red now)
      then some opening_grace
      else hold_by_counts red (counts team)

  -- the conditions of the effects themselves
  check_effect : Candidate → Effect → Result Refusal Candidate
  unfolding allowed_impact_modes window_open contains
  check_effect c takedown =
      let mode = if is_empty c.mode then text "stop_mask" else c.mode in
      if contains (allowed_impact_modes minute red now) mode then ok c else err (mode_locked mode)
  check_effect c lockout =
      if window_open minute red now (text "lockout") then ok c else err window_closed
  check_effect c block_port = ok c
  check_effect c rotate_credlist = ok c
  check_effect c (other_effect n) = ok c

  check_known : Candidate → Result Refusal Candidate
  unfolding is_irreversible is_impact check_hold can_impact check_effect unrecoverable_unlocked
  check_known c =
      let rest = check_effect c c.effect in
      let gated = check_hold c (can_impact (team_of c.ip)) rest in
      if is_irreversible c.effect && not (unrecoverable_unlocked minute red now)
      then err still_locked
      else if is_impact c.effect
      then gated
      else rest

  unfoldable pub validate : Candidate → Result Refusal Candidate
  unfolding check_known
  validate c = elim c.ip [
    | none ↦ check_known c
    | some ip ↦ elim (team_of (some ip)) [ none ↦ err (unknown_box ip) | some team ↦ check_known c ]
  ]
