-- ===== src/Tlaloc.antt =====
-- tlaloc/tlaloc/policy.py: the rules of engagement of the red team's agent, as `Policy` reads them
-- from its configuration. Times are ticks of one clock and `minute` is a minute in ticks; a duration
-- of 0, by which the source divides, is left out.
mod Tests
pub mod Rules
pub mod Clef
pub mod Decide
pub mod Focus
use tezcatlipoca.Base.{
  ℕ, zero, suc, ◌+◌, ◌-◌, ◌*◌, Bool, true, false, not, ◌&&◌, ◌||◌, Option, none, some, List, [],
  ◌∷◌, if◌then◌else◌, any, keep, contains, is_empty, ltb, leb, Text, text, text_beq, text_eq,
}
use tezcatlipoca.Base.Actions.{Result, ok, err}
use tezcatlipoca.Base.Dict.{lookup}

-- an entry of ladder.tiers
pub record Tier : Type 0 where
  pub name : Text
  -- at_pct is the fraction at_num / at_den
  pub at_num : ℕ
  pub at_den : ℕ
  pub modes : List Text
  -- of what is modelled nothing reads it
  pub boxes_per_team : ℕ
  pub unrecoverable : Bool

-- what the policy reads of cfg["red"]; the times of windows, grace and pause are in ticks
pub record Red : Type 0 where
  pub duration : ℕ
  pub windows : List (Text × ℕ)
  -- [] where the ladder is off
  pub tiers : List Tier
  pub pause_after_restore : ℕ
  pub grace : ℕ
  -- 0 stands for no limit
  pub max_down : ℕ
  pub min_standing : ℕ

-- the time since the start of the event, and the ages of the services that the blue teams restored
pub record Now : Type 0 where
  pub elapsed : ℕ
  pub restore_ages : List ℕ

-- the keys of MODE_RANK and TAKEDOWN_MODES
unfoldable pub mode_ranks : List Text
mode_ranks =
    text "recon"
    ∷ text "stop"
    ∷ text "stop_mask"
    ∷ text "stop_rename"
    ∷ text "stop_break_config"
    ∷ text "stop_rename_config"
    ∷ text "block_port"
    ∷ []

unfoldable pub takedown_modes : List Text
takedown_modes =
    text "stop"
    ∷ text "stop_mask"
    ∷ text "stop_rename"
    ∷ text "stop_break_config"
    ∷ text "stop_rename_config"
    ∷ []

-- why a team is left alone
pub data Hold : Type 0 where
  opening_grace : Hold
  at_max_down at_floor : (count : ℕ) → Hold

pub data Effect : Type 0 where
  takedown block_port rotate_credlist lockout : Effect
  other_effect : (name : Text) → Effect

pub record Candidate : Type 0 where
  pub effect : Effect
  pub ip : Option Text
  -- the empty text where none is set
  pub mode : Text

pub data Refusal : Type 0 where
  unknown_box : (ip : Text) → Refusal
  still_locked : Refusal
  held : (why : Hold) → Refusal
  mode_locked : (mode : Text) → Refusal
  window_closed : Refusal

module _ (minute : ℕ) (red : Red) (now : Now) where
  remaining : ℕ
  remaining = red.duration - now.elapsed

  unfoldable pub event_over : Bool
  unfolding remaining
  event_over = leb remaining 0

  -- a window without minutes is never open
  window_open : Text → Bool
  unfolding lookup remaining
  window_open name = elim (lookup name red.windows) [
    | none ↦ false
    | some zero ↦ false
    | some (suc m) ↦ leb remaining (suc m)
  ]

  unfoldable pub teardown_active : Bool
  unfolding window_open
  teardown_active = window_open (text "endgame_teardown")

  unfoldable pub endgame_active : Bool
  unfolding teardown_active remaining
  endgame_active = teardown_active || leb remaining (5 * minute)

  unfoldable pub event_phase : Text
  unfolding teardown_active endgame_active
  event_phase =
      if teardown_active
      then text "endgame"
      else if endgame_active
      then text "final"
      else if ltb (5 * now.elapsed) red.duration
      then text "opening"
      else if ltb (5 * now.elapsed) (3 * red.duration)
      then text "build"
      else text "surge"

  -- more than a tenth of the event is left
  unfoldable pub recon_allowed : Bool
  unfolding remaining
  recon_allowed = ltb red.duration (10 * remaining)

  unfoldable pub restored_recently : ℕ → Bool
  unfolding any
  restored_recently zero = false
  restored_recently (suc m) = any (λ age. leb age (suc m)) now.restore_ages

  -- the time that the ladder goes by: a restored service sets it back
  unfoldable pub ladder_clock : ℕ
  unfolding restored_recently
  ladder_clock =
      if restored_recently red.pause_after_restore
      then now.elapsed - red.pause_after_restore
      else now.elapsed

-- the cap on a team's services that are down at one time: caps.max_down, whatever the tier
unfoldable pub max_down_now : Red → ℕ
max_down_now red = red.max_down

abbrev minimum : ℕ → ℕ → ℕ
minimum a b = if ltb b a then b else a

-- clock / total, capped at 1, is at least at_pct
reached : ℕ → ℕ → Tier → Bool
reached clock total tier = leb (tier.at_num * total) (minimum clock total * tier.at_den)

-- the last tier that is reached
last_reached : ℕ → ℕ → Tier → List Tier → Tier
unfolding reached
last_reached clock total tier [] = tier
last_reached clock total tier (t ∷ ts) =
    last_reached clock total (if reached clock total t then t else tier) ts

first_tier : ℕ → ℕ → List Tier → Option Tier
unfolding last_reached
first_tier clock total [] = none
first_tier clock total (t ∷ ts) = some (last_reached clock total t (t ∷ ts))

module _ (minute : ℕ) (red : Red) (now : Now) where
  -- the tier in force
  unfoldable pub ladder : Option Tier
  unfolding first_tier ladder_clock
  ladder =
      first_tier (ladder_clock minute red now)
        (if ltb red.duration minute then minute else red.duration) red.tiers

  unfoldable pub allowed_modes : List Text
  unfolding ladder mode_ranks keep contains
  allowed_modes = elim ladder [
    | none ↦ mode_ranks
    | some tier ↦ keep (contains mode_ranks) tier.modes
  ]

  unfoldable pub allowed_impact_modes : List Text
  unfolding teardown_active allowed_modes takedown_modes keep contains
  allowed_impact_modes =
      if teardown_active minute red now
      then takedown_modes
      else keep (contains takedown_modes) allowed_modes

  unfoldable pub impact_started : Bool
  unfolding teardown_active ladder mode_ranks contains any
  impact_started = if teardown_active minute red now then true else elim ladder [
    | none ↦ leb red.grace now.elapsed
    | some tier ↦ any (λ m. contains mode_ranks m && not (text_beq m (text "recon"))) tier.modes
  ]

  -- from the second half on, or by the tier
  unfoldable pub unrecoverable_unlocked : Bool
  unfolding teardown_active ladder
  unrecoverable_unlocked =
      teardown_active minute red now
      || elim ladder [ none ↦ false | some tier ↦ tier.unrecoverable ]
      || leb red.duration (2 * now.elapsed)
