-- ===== src/Tlaloc/Tests.antt =====
-- Runs of the agent's rules, and witnesses of their properties.
use tezcatlipoca.Base.{
  ℕ, suc, ◌+◌, ◌-◌, ◌*◌, ◌≤◌, Bool, true, false, ◌≡◌, refl, ◌⊎◌, inr, Option, none, some, List, [],
  ◌∷◌, All, ltb, contains, contains_head, text_eq, Text, text, text_beq, arith,
}
use tezcatlipoca.Base.Actions.{ok, err}
use tezcatlipoca.Tlaloc.{
  opening_grace, Red, Now, Tier, Candidate, takedown, lockout, still_locked, at_floor, at_max_down,
  held, event_phase,
}
use tezcatlipoca.Tlaloc.Rules.{validate}
use tezcatlipoca.Tlaloc.Rules.Standing.{
  Board, strike, Reach, here, next, IsWithin, validate-IsWithin,
}
use tezcatlipoca.Tlaloc.Clef.{raised, Settings, Client, Question, fresh, ask_all}
use tezcatlipoca.Tlaloc.Clef.Load.{IsFailure, Fails, ask_all-load}
use tezcatlipoca.Tlaloc.Focus.{Meta, refocus}
use tezcatlipoca.Tlaloc.Focus.Rounds.{
  IsChoice, Call, Spaced, focused, refocus-focused, refocus_empty_bag,
}
use tezcatlipoca.Tlaloc.Decide.{Listed, Answer, decision, clef, llm_arbiter, next_effect}

-- two hours, a first tier that only looks, and from a quarter of the time on one that stops
abbrev red : Red
red = record {
  duration = 7200;
  windows = (text "lockout", 600) ∷ [];
  tiers =
      record {
        name = text "look";
        at_num = 0;
        at_den = 1;
        modes = text "recon" ∷ [];
        boxes_per_team = 4;
        unrecoverable = false;
      }
      ∷ record {
        name = text "stop";
        at_num = 1;
        at_den = 4;
        modes = text "stop" ∷ [];
        boxes_per_team = 4;
        unrecoverable = false;
      }
      ∷ [];
  pause_after_restore = 600;
  grace = 600;
  max_down = 2;
  min_standing = 1;
}

abbrev at_time : ℕ → Now
at_time t = record { elapsed = t; restore_ages = [] }

abbrev stop_it : Candidate
stop_it = record { effect = takedown; ip = some (text "ip"); mode = text "stop" }

abbrev everyone : Option Text → Option Text
everyone ip = some (text "t")

abbrev counted : ℕ → ℕ → Option Text → Option (ℕ × ℕ)
counted up down team = some (up, down)

lets_through : validate 60 red (counted 3 0) everyone (at_time 2000) stop_it ≡ ok stop_it
unfolding validate text_beq
lets_through = refl

too_early : validate 60 red (counted 3 0) everyone (at_time 100) stop_it ≡ err (held opening_grace)
unfolding validate text_beq
too_early = refl

on_the_floor :
    validate 60 red (counted 1 0) everyone (at_time 2000) stop_it ≡ err (held (at_floor 1))
unfolding validate text_beq
on_the_floor = refl

-- a tier of four boxes for each team leaves the cap of two as it is
at_the_cap :
    validate 60 red (counted 9 2) everyone (at_time 2000) stop_it ≡ err (held (at_max_down 2))
unfolding validate text_beq
at_the_cap = refl

-- a restored service sets the ladder back to the tier that only looks
set_back :
    validate 60 red
      (counted 3 0)
      everyone
      (record { elapsed = 2000; restore_ages = 10 ∷ [] })
      stop_it
    ≡ err (held opening_grace)
unfolding validate text_beq
set_back = refl

abbrev three_up : Board
three_up = record { up = 3; down = 0 }

abbrev two_up : Board
two_up = record { up = 2; down = 1 }

struck : Reach 60 red everyone (some (text "t")) three_up two_up
unfolding tezcatlipoca.Tlaloc.teardown_active text_beq tezcatlipoca.Tlaloc.Rules.is_impact
struck =
    next here
      (strike 2 0 (counted 3 0) (at_time 2000) stop_it stop_it refl refl refl refl lets_through)

begins : IsWithin 60 red everyone (some (text "t")) three_up
unfolding IsWithin
begins = (ground arith, inr (ground arith))

validate-IsWithin_example : IsWithin 60 red everyone (some (text "t")) two_up
validate-IsWithin_example = validate-IsWithin 60 red everyone (some (text "t")) struck begins

-- a model that gives up after two failures for a hundred ticks
abbrev settings : Settings ℕ
settings = record {
  configured = true;
  tokens_per_char = 1;
  max_request_tokens = 1000;
  failure_threshold = 2;
  cooldown = 100;
}

abbrev asked : ℕ → Question ℕ
asked t = record { at = t; chars = 10; reply = raised none; after = t + 1 }

abbrev questions : List (Question ℕ)
questions = asked 10 ∷ asked 20 ∷ asked 30 ∷ asked 40 ∷ asked 130 ∷ []

abbrev larger : ℕ → ℕ → ℕ
larger a b = a + b

abbrev too_large : ℕ → ℕ → ℕ → Bool
too_large chars ratio most = ltb most (chars * ratio)

abbrev end : Client ℕ
end = ask_all larger 0 too_large larger settings questions fresh

three_sent : end.sent ≡ 3
unfolding ask_all fresh
three_sent = refl

fails :
    (t : ℕ) → suc t ≤ 200 → Fails {Payload = ℕ} larger 0 too_large larger settings 0 200 (asked t)
unfolding Fails IsFailure
fails t h = (tt, omega arith, omega arith, omega arith)

all_fail : All (Fails {Payload = ℕ} larger 0 too_large larger settings 0 200) questions
all_fail = (
  fails 10 (omega arith),
  (
    fails 20 (omega arith),
    (fails 30 (omega arith), (fails 40 (omega arith), (fails 130 (omega arith), tt))),
  ),
)

ask_all-load_example : (end.sent ≡ 0) ⊎ ((k : ℕ) × (0 + k * 100 ≤ 200) × (end.sent ≤ suc k * 2))
ask_all-load_example =
    ask_all-load larger 0 too_large larger settings 0 200 questions (omega arith) all_fail

abbrev listed : Text → Listed
listed id = record { id = id; effect = text "recon"; high_stakes = false }

abbrev answer : Answer ℕ
answer = record {
  is_noul = false;
  noul = none;
  probabilities = (text "a", 20) ∷ (text "b", 70) ∷ [];
  choice = [];
}

abbrev against : ℕ → ℕ
against p = 100 - p

picks :
    next_effect ltb 0 against 60 []
      (listed (text "a") ∷ listed (text "b") ∷ [])
      (some (some answer))
      none
    ≡ decision clef (listed (text "b"))
unfolding decision next_effect text_beq
picks = refl

abbrev risky : Listed
risky = record { id = text "a"; effect = text "takedown"; high_stakes = true }

-- a payload without an answer leaves a choice of high stakes to the arbiter
arbiter_picks :
    next_effect ltb 0 against 60 [] (risky ∷ listed (text "b") ∷ []) (some none) (some (text "b"))
    ≡ decision llm_arbiter (listed (text "b"))
unfolding decision next_effect text_beq
arbiter_picks = refl

first_of : List Text → Text
first_of [] = []
first_of (t ∷ ts) = t

first_of-IsChoice : IsChoice first_of
unfolding IsChoice first_of
first_of-IsChoice [] h = cc
first_of-IsChoice (t ∷ ts) h = contains_head t ts

abbrev two_teams : List Text
two_teams = text "a" ∷ text "b" ∷ []

abbrev three_teams : List Text
three_teams = text "a" ∷ text "b" ∷ text "c" ∷ []

abbrev on_a : Meta
on_a = record {
  focused_team = some (text "a");
  focus_since = 1000;
  focus_bag = text "b" ∷ text "c" ∷ [];
}

abbrev emptied : Meta
emptied = record { focused_team = some (text "a"); focus_since = 1000; focus_bag = [] }

abbrev calls : List Call
calls = (first_of, 1720) ∷ (first_of, 2440) ∷ []

-- with two teams the focus moves at each call, one tick after the last
flips :
    (refocus two_teams 720 first_of 1001 emptied).focused_team ≡ some (text "b")
    × ((refocus two_teams 720 first_of 1002
          (refocus two_teams 720 first_of 1001 emptied)).focused_team
        ≡ some (text "a"))
unfolding refocus text_beq first_of
flips = (refl, refl)

spaced : Spaced three_teams 720 1000 calls
unfolding Spaced
spaced = (first_of-IsChoice, omega arith, (first_of-IsChoice, omega arith, tt))

refocus-focused_example : contains (focused three_teams 720 on_a calls) (text "c") ≡ true
unfolding tezcatlipoca.Tlaloc.Focus.left_in_bag text_beq
refocus-focused_example =
    refocus-focused three_teams 720 calls on_a (text "c") spaced (omega arith) refl

refocus_empty_bag_example :
    (t : Text) × ((refocus two_teams 720 first_of 1001 emptied).focused_team ≡ some t)
    × (text_beq t (text "a") ≡ false)
unfolding tezcatlipoca.Tlaloc.Focus.left_in_bag text_beq
refocus_empty_bag_example =
    refocus_empty_bag two_teams 720 first_of 1001 emptied (text "a") first_of-IsChoice refl refl
      refl
