-- ===== src/RoundLoop/Heal.antt =====
-- engine/round_loop.py: the loops that are healed.
use tezcatlipoca.Base.{
  ℕ, ◌+◌, ◌≤◌, Bool, true, false, ◌&&◌, ◌≡◌, refl, ◌↔◌, ◌⊎◌, Option, none, some, [], arith,
  if◌then◌else◌,
}
use tezcatlipoca.RoundLoop.{
  freshness_window, Payload, zero_time, in_round, past_window, report_paused, report_started,
  report_running, report_of, round_loop_state, is_stale, heal_posts, heal_actions,
}

-- no round is on: the engine says it runs and the time of its round is missing or in year 0 or 1, or
-- it says that it does not run and the time is in year 0 or 1
abbrev pub NotCycling : Option Bool → Option ℕ → Type 0
NotCycling none year = ⊥
NotCycling (some true) none = Unit
NotCycling (some true) (some year) = year ≤ 1
NotCycling (some false) none = ⊥
NotCycling (some false) (some year) = year ≤ 1

-- the last round started at least a window ago
abbrev pub StartedAgo : ℕ → ℕ → Option ℕ → Type 0
StartedAgo now window none = ⊥
StartedAgo now window (some started) = started + window ≤ now

abbrev pub IsStuck : ℕ → ℕ → Payload → Type 0
IsStuck now window p = NotCycling p.running p.current_year × StartedAgo now window p.round_started

stuck_iff :
    (p : Payload) (now window : ℕ) (running : Option Bool) (year started : Option ℕ)
    → p.current_year ≡ year
    → p.round_started ≡ started
    → (is_stale (report_of now window p running).state ≡ true)
      ↔ (NotCycling running year × StartedAgo now window started)
unfolding report_of report_paused report_running report_started in_round zero_time past_window
stuck_iff p now window none year started y s = (λ h. cc, λ h. absurd h.0)
stuck_iff p now window (some true) none none y s = ground arith
stuck_iff p now window (some true) none (some t) y s = ground arith
stuck_iff p now window (some true) (some n) none y s = ground arith
stuck_iff p now window (some true) (some n) (some t) y s = ground arith
stuck_iff p now window (some false) none started y s = ground arith
stuck_iff p now window (some false) (some n) none y s = ground arith
stuck_iff p now window (some false) (some n) (some t) y s = ground arith

heal_of : (b : Bool) → ((if b then heal_posts else []) ≡ heal_posts) ↔ (b ≡ true)
heal_of true = (λ h. refl, λ h. refl)
heal_of false = (λ h. cc, λ h. cc)

-- The loop is reported as stale exactly when no round is on and the last one started at least a
-- window ago.
pub round_loop_state-IsStuck :
    (p : Payload) (now window : ℕ)
    → (is_stale (round_loop_state (some p) now window).state ≡ true) ↔ IsStuck now window p
unfolding round_loop_state
round_loop_state-IsStuck p now window =
    stuck_iff p now window p.running p.current_year p.round_started refl refl

-- `heal_actions` gives the two requests that restart the loop exactly when the competition has
-- started, no round is on, and the last round started at least five round times ago; otherwise it
-- gives none.
pub heal_actions_iff :
    (p : Payload) (now : ℕ)
    → ((heal_actions (some p) now ≡ heal_posts)
        ↔ ((p.competition_started ≡ true) × IsStuck now freshness_window p))
      × ((heal_actions (some p) now ≡ heal_posts) ⊎ (heal_actions (some p) now ≡ []))
unfolding heal_actions
heal_actions_iff p now = ground (
  arith,
  heal_of
      (p.competition_started && is_stale (round_loop_state (some p) now freshness_window).state),
  round_loop_state-IsStuck p now freshness_window,
)
