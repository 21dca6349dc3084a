-- ===== src/RoundLoop.antt =====
-- engine/round_loop.py: whether the scoring rounds advance, and when the loop is healed. A payload
-- is what the engine answered, with its times parsed: of the current round only the year is read,
-- a start and the present are ticks of one clock.
pub mod Heal
mod Tests
use tezcatlipoca.Base.{
  ℕ, ◌+◌, ◌*◌, Bool, true, false, not, ◌&&◌, Option, none, some, List, [], ◌∷◌, leb, if◌then◌else◌,
}

abbrev pub freshness_window : ℕ
freshness_window = 5 * 60

pub data LoopState : Type 0 where
  paused advancing pending stale unknown : LoopState

pub record Payload : Type 0 where
  -- `running`, none where the key is absent
  pub running : Option Bool
  -- the year of current_round_time, none where it is no time
  pub current_year : Option ℕ
  -- StartTime of the last round
  pub round_started : Option ℕ
  pub competition_started : Bool

-- `now - started`
pub data Age : Type 0 where
  between : (started now : ℕ) → Age

pub record LoopReport : Type 0 where
  pub state : LoopState
  pub age : Option Age
  pub started : Option ℕ

-- the Go zero time
zero_time : Option ℕ → Bool
zero_time none = false
zero_time (some year) = leb year 1

in_round : Option ℕ → Bool
in_round none = false
in_round (some year) = not (leb year 1)

-- the age is not less than the window
past_window : ℕ → ℕ → Option ℕ → Bool
past_window now window none = false
past_window now window (some started) = leb (started + window) now

age_of : ℕ → Option ℕ → Option Age
age_of now none = none
age_of now (some started) = some (between started now)

-- `running` is False
report_paused : ℕ → ℕ → Payload → LoopReport
unfolding zero_time past_window age_of
report_paused now window p =
    if zero_time p.current_year && past_window now window p.round_started
    then record { state = stale; age = age_of now p.round_started; started = p.round_started }
    else record { state = paused; age = none; started = none }

report_started : ℕ → ℕ → Option ℕ → LoopReport
unfolding past_window age_of
report_started now window none = record { state = advancing; age = none; started = none }
report_started now window (some s) = record {
  state = if past_window now window (some s) then stale else pending;
  age = age_of now (some s);
  started = some s;
}

report_running : ℕ → ℕ → Payload → LoopReport
unfolding in_round report_started
report_running now window p =
    if in_round p.current_year
    then record { state = advancing; age = none; started = p.round_started }
    else report_started now window p.round_started

report_of : ℕ → ℕ → Payload → Option Bool → LoopReport
unfolding report_paused report_running
report_of now window p none = record { state = unknown; age = none; started = none }
report_of now window p (some false) = report_paused now window p
report_of now window p (some true) = report_running now window p

-- a payload that is no document is none
unfoldable pub round_loop_state : Option Payload → ℕ → ℕ → LoopReport
unfolding report_of
round_loop_state none now window = record { state = unknown; age = none; started = none }
round_loop_state (some p) now window = report_of now window p p.running

abbrev pub is_stale : LoopState → Bool
is_stale stale = true
is_stale _ = false

pub data Post : Type 0 where
  start_competition resume_engine : Post

abbrev pub heal_posts : List Post
heal_posts = start_competition ∷ resume_engine ∷ []

unfoldable pub heal_actions : Option Payload → ℕ → List Post
unfolding round_loop_state
heal_actions none now = []
heal_actions (some p) now =
    let report = round_loop_state (some p) now freshness_window in
    if p.competition_started && is_stale report.state then heal_posts else []
